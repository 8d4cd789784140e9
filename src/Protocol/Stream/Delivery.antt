-- ===== src/Protocol/Stream/Delivery.antt =====
-- rci/protocols/stream.py: `FrameStreamDecoder.feed` on a stream of encoded frames.
use robotic_character_interf.Base.{
  ℕ, zero, suc, ◌+◌, ◌≤◌, ◌<◌, ◌≡◌, refl, sym, ap, subst, ◌∙◌, ltb, true, false, none, some, List,
  [], ◌∷◌, ◌++◌, arith,
}
use robotic_character_interf.Protocol.Framing.{frame_body, encode, Frame, unpack_header}
use robotic_character_interf.Protocol.Stream.{
  finish, FrameStreamDecoder, feed, drain, again, parse, Drained, take_candidate, validate_header,
  turn, starts_with_magic, take_header,
}
use robotic_character_interf.Protocol.Framing.RoundTrip.{
  decode-encode, type_of_value-type_value, length-encode, header_of, IsValid,
}
use robotic_character_interf.Base.Lists.{
  All, drop-append_self, take-append_self, length-append, take, drop, length,
}
use robotic_character_interf.Protocol.Constants.{type_value}

-- The bytes that the frames are sent as, one after another.
abbrev pub encode_all : List Frame → List ℕ
encode_all [] = []
encode_all (f ∷ frames) = encode f ++ encode_all frames

pub starts_with_magic-encode :
    (f : Frame) (rest : List ℕ) → starts_with_magic (encode f ++ rest) ≡ true
unfolding starts_with_magic encode frame_body
starts_with_magic-encode f rest = refl

pub unpack_header-encode :
    (f : Frame) (rest : List ℕ) → unpack_header (encode f ++ rest) ≡ some (header_of f)
unfolding unpack_header encode frame_body type_value
unpack_header-encode f rest = ground arith

pub validate_header-header_of :
    (f : Frame)
    → IsValid f
    → validate_header 1 (type_value f.message_type) (length f.payload) ≡ none
unfolding validate_header
validate_header-header_of f v =
    ground (arith, type_of_value-type_value f.message_type, v.payload_fits)

take-encode :
    (f : Frame) (rest : List ℕ) → take (8 + length f.payload + 2) (encode f ++ rest) ≡ encode f
take-encode f rest =
    ap (λ n. take n (encode f ++ rest)) (omega (arith, length-encode f))
    ∙ take-append_self (encode f) rest

drop-encode :
    (f : Frame) (rest : List ℕ) → drop (8 + length f.payload + 2) (encode f ++ rest) ≡ rest
drop-encode f rest =
    ap (λ n. drop n (encode f ++ rest)) (omega (arith, length-encode f))
    ∙ drop-append_self (encode f) rest

pub length-encode_then :
    (f : Frame) (rest : List ℕ) → length (encode f ++ rest) ≡ 10 + length f.payload + length rest
length-encode_then f rest = omega (arith, length-append (encode f) rest, length-encode f)

ltb_of_le : (a b : ℕ) → b ≤ a → ltb a b ≡ false
ltb_of_le a b h = ground arith

take_header-encode :
    (max : ℕ) (f : Frame) (rest : List ℕ)
    → IsValid f
    → 10 + length f.payload ≤ max
    → take_header max (encode f ++ rest) [] (header_of f) ≡ again rest (f ∷ []) []
unfolding take_header take_candidate
take_header-encode max f rest v fits = ground (
  arith,
  validate_header-header_of f v,
  ltb_of_le max (8 + length f.payload + 2) (omega (arith, fits)),
  ltb_of_le (length (encode f ++ rest)) (8 + length f.payload + 2)
      (omega (arith, length-encode_then f rest)),
  take-encode f rest,
  decode-encode f v,
  drop-encode f rest,
)

-- A valid frame at the front of the buffer is taken in one turn.
pub turn-encode :
    (max : ℕ) (f : Frame) (rest : List ℕ)
    → IsValid f
    → 10 + length f.payload ≤ max
    → turn max (encode f ++ rest) ≡ again rest (f ∷ []) []
unfolding turn parse
turn-encode max f rest v fits =
    rw
      (
        ltb_of_le (length (encode f ++ rest)) 2 (omega (arith, length-encode_then f rest)),
        starts_with_magic-encode f rest,
        ltb_of_le (length (encode f ++ rest)) 8 (omega (arith, length-encode_then f rest)),
        unpack_header-encode f rest,
      )
      (take_header-encode max f rest v fits)

abbrev delivered : List Frame → Drained
delivered frames = record { frames = frames; issues = []; buffer = [] }

drain-encode_all :
    (fuel max : ℕ) (frames : List Frame)
    → All IsValid frames
    → length (encode_all frames) < fuel
    → length (encode_all frames) ≤ max
    → drain fuel max (encode_all frames) ≡ some (delivered frames)
unfolding drain turn
drain-encode_all zero max frames v enough fits = absurd (omega arith)
drain-encode_all (suc fuel) max [] v enough fits = refl
drain-encode_all (suc fuel) max (f ∷ frames) v enough fits =
    let size = length-encode_then f (encode_all frames) in
    ground (
      arith,
      turn-encode max f (encode_all frames) v.0 (omega (arith, size, fits)),
      drain-encode_all fuel max frames v.1 (omega (arith, size, enough))
          (omega (arith, size, fits)),
    )

feed_idle :
    (max : ℕ) (bytes : List ℕ) (r : Drained)
    → length bytes ≤ max
    → drain (suc (length bytes)) max bytes ≡ some r
    → feed (record { max_buffer_bytes = max; buffer = [] }) bytes
      ≡ some (finish (record { max_buffer_bytes = max; buffer = [] }) r)
unfolding feed
feed_idle max bytes r fits e = ground (arith, e, ltb_of_le max (length bytes) fits)

-- A decoder with an empty buffer that is fed the encodings of valid frames, one after another
-- and no more bytes than its buffer holds, returns exactly these frames in this order, reports no
-- issue and is left with an empty buffer.
pub feed-encode_all :
    (d : FrameStreamDecoder) (frames : List Frame)
    → d.buffer ≡ []
    → All IsValid frames
    → length (encode_all frames) ≤ d.max_buffer_bytes
    → feed d (encode_all frames)
      ≡ some (d, record { frames = frames; issues = []; buffered_bytes = 0 })
feed-encode_all d frames empty v fits =
    let max = d.max_buffer_bytes in
    subst
      (λ b.
        feed (record { max_buffer_bytes = max; buffer = b }) (encode_all frames)
        ≡ some (
          record { max_buffer_bytes = max; buffer = b },
          record { frames = frames; issues = []; buffered_bytes = 0 },
        ))
      (sym empty)
      (feed_idle max (encode_all frames) (delivered frames) fits
        (drain-encode_all (suc (length (encode_all frames))) max frames v (omega arith) fits))
