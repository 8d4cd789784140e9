-- ===== src/Protocol/Stream/Chunks.antt =====
-- rci/protocols/stream.py: `FrameStreamDecoder.feed` on a chunk of a stream of encoded frames.
use robotic_character_interf.Base.{
  ℕ, zero, suc, ◌+◌, ◌≤◌, ◌<◌, ◌≡◌, refl, sym, ap, ◌∙◌, some, List, [], ◌∷◌, ◌++◌, arith,
}
use mathlib.Core.List.{append_assoc}
use robotic_character_interf.Protocol.Stream.{
  finish, DecodeBatch, FrameStreamDecoder, feed, collect, Drained, drain, turn,
}
use robotic_character_interf.Protocol.Framing.{encode, Frame}
use robotic_character_interf.Protocol.Framing.RoundTrip.{length-encode, IsValid}
use robotic_character_interf.Protocol.Stream.Delivery.{turn-encode, encode_all}
use robotic_character_interf.Base.Lists.{length-append, append-eq-nil, All, length}
use native.Mathlib.Decide.{dec_lt}
use robotic_character_interf.Protocol.Stream.Parts.{turn-part, append_split}

-- A valid frame that is no longer than the given number of bytes.
pub record IsSmall (room : ℕ) (f : Frame) : Type 0 where
  pub valid : IsValid f
  pub fits : 10 + length f.payload ≤ room

-- What is left over is not a whole frame.
abbrev pub IsIncomplete : List Frame → List ℕ → Type 0
IsIncomplete [] buffer = buffer ≡ []
IsIncomplete (f ∷ frames) buffer = length buffer < 10 + length f.payload

-- What the loop makes of the front of a stream: it has taken some of the frames, and the buffer
-- and what is still to come are the others.
pub record IsTaken (frames : List Frame) (rest : List ℕ) (r : Drained) : Type 0 where
  pub later : List Frame
  pub in_order : frames ≡ r.frames ++ later
  pub no_issue : r.issues ≡ []
  pub left : r.buffer ++ rest ≡ encode_all later
  pub incomplete : IsIncomplete later r.buffer

drain_part :
    (fuel max : ℕ) (f : Frame) (frames : List Frame) (p rest : List ℕ)
    → IsSmall max f
    → p ++ rest ≡ encode_all (f ∷ frames)
    → length p < 10 + length f.payload
    → (r : Drained) × (drain (suc fuel) max p ≡ some r) × IsTaken (f ∷ frames) rest r
unfolding drain
drain_part fuel max f frames p rest small split short = (
  record { frames = []; issues = []; buffer = p },
  ground (
    arith,
    turn-part max f p small.valid small.fits
        (record { rest = rest; tail = encode_all frames; split = split; short = short }),
  ),
  record { later = f ∷ frames; in_order = refl; no_issue = refl; left = split; incomplete = short },
)

drain_end :
    (fuel max : ℕ) (p rest : List ℕ)
    → p ++ rest ≡ []
    → (r : Drained) × (drain (suc fuel) max p ≡ some r) × IsTaken [] rest r
unfolding drain turn
drain_end fuel max p rest split =
    let (none_left, _) = append-eq-nil p rest split in
    (
      record { frames = []; issues = []; buffer = p },
      ground (arith, none_left),
      record { later = []; in_order = refl; no_issue = refl; left = split; incomplete = none_left },
    )

drain_whole :
    (fuel max : ℕ) (f : Frame) (frames : List Frame) (p q rest : List ℕ) (r : Drained)
    → IsSmall max f
    → p ≡ encode f ++ q
    → drain fuel max q ≡ some r
    → IsTaken frames rest r
    → (s : Drained) × (drain (suc fuel) max p ≡ some s) × IsTaken (f ∷ frames) rest s
unfolding drain
drain_whole fuel max f frames p q rest r small front runs taken = (
  collect (f ∷ []) [] r,
  rw front (ground (arith, turn-encode max f q small.valid small.fits, runs)),
  record {
    later = taken.later;
    in_order = ap (λ t. f ∷ t) taken.in_order;
    no_issue = taken.no_issue;
    left = taken.left;
    incomplete = taken.incomplete;
  },
)

-- The loop on the front of a stream of small frames.
pub drain-IsTaken :
    (fuel max : ℕ) (frames : List Frame) (p rest : List ℕ)
    → All (IsSmall max) frames
    → p ++ rest ≡ encode_all frames
    → length p < fuel
    → (r : Drained) × (drain fuel max p ≡ some r) × IsTaken frames rest r
drain-IsTaken zero max frames p rest small split enough = absurd (omega arith)
drain-IsTaken (suc fuel) max [] p rest small split enough = drain_end fuel max p rest split
drain-IsTaken (suc fuel) max (f ∷ frames) p rest small split enough =
    elim (dec_lt (length p) (10 + length f.payload)) [
      | yes short ↦ drain_part fuel max f frames p rest small.0 split short
      | no long ↦
          let size = length-encode f in
          let (q, front, back) =
            append_split (encode f) (encode_all frames) p rest (sym split)
              (omega (arith, size, long)) in
          let (r, runs, taken) =
            drain-IsTaken fuel max frames q rest small.1 (sym back)
              (omega (arith, ap length front, length-append (encode f) q, size, enough)) in
          drain_whole fuel max f frames p q rest r small.0 front runs taken
    ]

-- What a decoder makes of the next chunk of a stream: some of the frames, and it keeps the bytes
-- of the next one that have come.
pub record IsChunkFed (d : FrameStreamDecoder) (frames : List Frame) (rest : List ℕ)
    (d' : FrameStreamDecoder) (batch : DecodeBatch) : Type 0 where
  pub later : List Frame
  pub in_order : frames ≡ batch.frames ++ later
  pub no_issue : batch.issues ≡ []
  pub left : d'.buffer ++ rest ≡ encode_all later
  pub incomplete : IsIncomplete later d'.buffer
  pub same_bound : d'.max_buffer_bytes ≡ d.max_buffer_bytes

feed_drained :
    (d : FrameStreamDecoder) (chunk : List ℕ) (r : Drained)
    → length d.buffer + length chunk ≤ d.max_buffer_bytes
    → drain (suc (length d.buffer + length chunk)) d.max_buffer_bytes (d.buffer ++ chunk) ≡ some r
    → feed d chunk ≡ some (finish d r)
unfolding feed
feed_drained d chunk r fits e = ground (arith, e)

-- A decoder whose buffer has the front of a stream of encodings of valid frames, none longer than
-- its bound, and that is fed the next chunk of the stream, not so long that buffer and chunk pass
-- the bound: it returns the next frames of the stream in order and no issue, its new buffer is
-- the front of what is still to come, and that is less than a whole frame.
pub feed-IsChunkFed :
    (d : FrameStreamDecoder) (frames : List Frame) (chunk rest : List ℕ)
    → All (IsSmall d.max_buffer_bytes) frames
    → d.buffer ++ (chunk ++ rest) ≡ encode_all frames
    → length d.buffer + length chunk ≤ d.max_buffer_bytes
    → (d' : FrameStreamDecoder) × (batch : DecodeBatch) × (feed d chunk ≡ some (d', batch))
      × IsChunkFed d frames rest d' batch
feed-IsChunkFed d frames chunk rest small split fits =
    let joined = append_assoc d.buffer chunk rest ∙ split in
    let (r, runs, taken) =
      drain-IsTaken (suc (length d.buffer + length chunk)) d.max_buffer_bytes frames
        (d.buffer ++ chunk) rest small joined (omega (arith, length-append d.buffer chunk)) in
    (
      record { max_buffer_bytes = d.max_buffer_bytes; buffer = r.buffer },
      record { frames = r.frames; issues = r.issues; buffered_bytes = length r.buffer },
      feed_drained d chunk r fits runs,
      record {
        later = taken.later;
        in_order = taken.in_order;
        no_issue = taken.no_issue;
        left = taken.left;
        incomplete = taken.incomplete;
        same_bound = refl;
      },
    )
