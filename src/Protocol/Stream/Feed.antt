-- ===== src/Protocol/Stream/Feed.antt =====
-- rci/protocols/stream.py: `FrameStreamDecoder.feed` on any bytes.
use robotic_character_interf.Base.{
  ℕ, zero, suc, ◌+◌, ◌≤◌, ◌<◌, ◌≡◌, refl, inl, inr, Bool-cases, ltb, false, some, List, [], ◌++◌,
  arith,
}
use robotic_character_interf.Base.Lists.{length-append, length}
use robotic_character_interf.Protocol.Stream.{
  again, finish, stop, collect, overflow_batch, reset, turn, DecodeBatch, StreamIssue, Turn, drain,
  FrameStreamDecoder, Drained, feed,
}
use robotic_character_interf.Protocol.Framing.{Frame}
use mathlib.Core.List.{append-nil}
use robotic_character_interf.Protocol.Stream.Segments.{
  Parsed, left, dropped, TurnParses, turn-TurnParses,
}
use robotic_character_interf.Protocol.Stream.Accounting.{
  turn-Accounts, discarded-append, frame_bytes-append, Accounts, discarded, frame_bytes,
}

-- What the loop does with a buffer.
pub record IsDrained (buffer : List ℕ) (r : Drained) : Type 0 where
  pub accounted : length buffer ≡ frame_bytes r.frames + discarded r.issues + length r.buffer
  pub parsed : Parsed buffer r.frames r.issues r.buffer

collect-IsDrained :
    (buffer rest : List ℕ) (frames : List Frame) (issues : List StreamIssue) (r : Drained)
    → length buffer ≡ frame_bytes frames + discarded issues + length rest
    → TurnParses buffer (again rest frames issues)
    → IsDrained rest r
    → IsDrained buffer (collect frames issues r)
collect-IsDrained buffer rest frames issues r e t d = record {
  accounted =
      omega
        (arith, d.accounted, frame_bytes-append frames r.frames, discarded-append issues r.issues);
  parsed = t r.frames r.issues r.buffer d.parsed;
}

abbrev pub Drains : ℕ → ℕ → List ℕ → Type 0
Drains fuel max buffer = (r : Drained) × (drain fuel max buffer ≡ some r) × IsDrained buffer r

drain_turn :
    (fuel max : ℕ) (buffer : List ℕ) (t : Turn)
    → turn max buffer ≡ t
    → Accounts (length buffer) t
    → TurnParses buffer t
    → ((rest : List ℕ) → length rest < length buffer → Drains fuel max rest)
    → Drains (suc fuel) max buffer
unfolding drain
drain_turn fuel max buffer (stop rest issues) e h t later = (
  record { frames = []; issues = issues; buffer = rest },
  ground (arith, e),
  record { accounted = omega (arith, h); parsed = t },
)
drain_turn fuel max buffer (again rest frames issues) e h t later =
    let (r, runs, good) = later rest h.1 in
    (
      collect frames issues r,
      ground (arith, e, runs),
      collect-IsDrained buffer rest frames issues r h.0 t good,
    )

-- One turn more than there are bytes is enough.
pub drain_lem : (fuel max : ℕ) (buffer : List ℕ) → length buffer < fuel → Drains fuel max buffer
drain_lem zero max buffer lt = absurd (omega arith)
drain_lem (suc fuel) max buffer lt =
    drain_turn fuel max buffer (turn max buffer) refl (turn-Accounts max buffer)
      (turn-TurnParses max buffer)
      (λ rest shorter. drain_lem fuel max rest (omega (arith, shorter, lt)))

le_of_ltb : (a b : ℕ) → ltb a b ≡ false → b ≤ a
le_of_ltb a b e = ground arith

-- A decoder whose buffer is within its bound.
abbrev pub IsBounded : FrameStreamDecoder → Type 0
IsBounded d = length d.buffer ≤ d.max_buffer_bytes

-- What `feed` promises of the decoder after it and of the batch it returns.
pub record IsFed (d : FrameStreamDecoder) (bytes : List ℕ) (d' : FrameStreamDecoder)
    (batch : DecodeBatch) : Type 0 where
  pub bounded : IsBounded d'
  pub same_bound : d'.max_buffer_bytes ≡ d.max_buffer_bytes
  pub reported : batch.buffered_bytes ≡ length d'.buffer
  pub accounted :
      length d.buffer + length bytes
      ≡ frame_bytes batch.frames + discarded batch.issues + batch.buffered_bytes
  pub parsed : Parsed (d.buffer ++ bytes) batch.frames batch.issues d'.buffer

-- Whatever bytes arrive, and whether or not the buffer overflows, the loop of `feed` ends; the
-- buffer stays within its bound, which does not change, and the batch reports the buffer's length.
-- The bytes that were buffered, and then those that arrived, are a sequence of segments and after
-- it the new buffer: each segment decodes to the next frame of the batch, or is as long as the
-- next issue of the batch says that it discarded, and no frame or issue is left over.
pub feed-IsFed :
    (d : FrameStreamDecoder) (bytes : List ℕ)
    → (d' : FrameStreamDecoder) × (batch : DecodeBatch) × (feed d bytes ≡ some (d', batch))
      × IsFed d bytes d' batch
unfolding feed
feed-IsFed d bytes =
    let size = length d.buffer + length bytes in
    elim (Bool-cases (ltb d.max_buffer_bytes size)) [
      | inl over ↦ (
        reset d,
        overflow_batch size,
        rw over refl,
        record {
          bounded = unfold reset in omega arith;
          same_bound = unfold reset in refl;
          reported = unfold reset in refl;
          accounted = omega arith;
          parsed =
              unfold reset in
              dropped (d.buffer ++ bytes) [] _ (append-nil (d.buffer ++ bytes))
                (length-append d.buffer bytes) (left []);
        },
      )
      | inr fits ↦
          let (r, runs, good) =
            drain_lem (suc size) d.max_buffer_bytes (d.buffer ++ bytes)
              (omega (arith, length-append d.buffer bytes)) in
          (
            (finish d r).0,
            (finish d r).1,
            rw (fits, runs) refl,
            record {
              bounded = omega (
                arith,
                good.accounted,
                le_of_ltb d.max_buffer_bytes size fits,
                length-append d.buffer bytes,
              );
              same_bound = refl;
              reported = refl;
              accounted = omega (arith, good.accounted, length-append d.buffer bytes);
              parsed = good.parsed;
            },
          )
    ]
