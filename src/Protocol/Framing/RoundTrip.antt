-- ===== src/Protocol/Framing/RoundTrip.antt =====
-- rci/protocols/framing.py: `Frame.decode` on what `Frame.encode` writes.
use robotic_character_interf.Base.{
  ℕ, ◌+◌, ◌≤◌, ◌<◌, ◌≡◌, refl, ap, ◌∙◌, true, none, some, List, ◌++◌, arith,
}
use robotic_character_interf.Base.Int.{pos}
use robotic_character_interf.Base.Lists.{
  All, length, take, drop, length-append, take-append_self, drop-append_self,
}
use robotic_character_interf.Protocol.Constants.{MessageType, type_value, type_of_value}
use robotic_character_interf.Protocol.Checksum.{crc16_ccitt_false}
use robotic_character_interf.Protocol.Checksum.Detection.{IsByte}
use robotic_character_interf.Protocol.Framing.{
  ok, Frame, make_frame, pack_u16, frame_body, encode, Header, unpack_header, unpack_crc,
  header_fault, check_crc, decode_type, decode_header, decode,
}

-- What the construction of a frame from bytes guarantees.
pub record IsValid (f : Frame) : Type 0 where
  pub sequence_fits : f.sequence ≤ 0xffff
  pub payload_fits : length f.payload ≤ 512
  pub payload_bytes : All IsByte f.payload

-- The header that a frame is sent with.
abbrev pub header_of : Frame → Header
header_of f = record {
  magic_matches = true;
  version = 1;
  raw_type = type_value f.message_type;
  sequence = f.sequence;
  payload_length = length f.payload;
}

pub type_of_value-type_value : (t : MessageType) → type_of_value (type_value t) ≡ some t
unfolding type_of_value type_value
type_of_value-type_value t = ground arith

type_value-lt : (t : MessageType) → type_value t < 256
unfolding type_value
type_value-lt t = ground arith

-- The bytes of a frame with a checksum that need not be its own.
abbrev pub with_crc : Frame → ℕ → List ℕ
with_crc f crc = frame_body f ++ pack_u16 crc

unpack_header-with_crc : (f : Frame) (crc : ℕ) → unpack_header (with_crc f crc) ≡ some (header_of f)
unfolding unpack_header frame_body type_value
unpack_header-with_crc f crc = ground arith

length-frame_body : (f : Frame) → length (frame_body f) ≡ 8 + length f.payload
unfolding frame_body
length-frame_body f = omega arith

length-with_crc : (f : Frame) (crc : ℕ) → length (with_crc f crc) ≡ 10 + length f.payload
length-with_crc f crc =
    omega (arith, length-append (frame_body f) (pack_u16 crc), length-frame_body f)

pub length-encode : (f : Frame) → length (encode f) ≡ 10 + length f.payload
unfolding encode
length-encode f = length-with_crc f (crc16_ccitt_false (frame_body f))

pub frame_body-All : (f : Frame) → IsValid f → All IsByte (frame_body f)
unfolding frame_body
frame_body-All f v = ground (arith, type_value-lt f.message_type)

header_fault-with_crc :
    (f : Frame) (crc : ℕ) → IsValid f → header_fault (header_of f) (length (with_crc f crc)) ≡ none
unfolding header_fault
header_fault-with_crc f crc v = ground (arith, length-with_crc f crc, v.payload_fits)

unpack_crc-pack : (n : ℕ) → unpack_crc (pack_u16 n) ≡ some n
unfolding unpack_crc
unpack_crc-pack n = ap some (omega arith)

make_frame-IsValid :
    (f : Frame) → IsValid f → make_frame f.message_type (pos f.sequence) f.payload ≡ ok f
unfolding make_frame
make_frame-IsValid f v = ground (arith, v.sequence_fits, v.payload_fits)

-- The parts of the data that the decoder looks at.
pub parts-with_crc :
    (f : Frame) (crc : ℕ)
    → (take (length f.payload) (drop 8 (with_crc f crc)) ≡ f.payload)
      × (take (8 + length f.payload) (with_crc f crc) ≡ frame_body f)
      × (drop (8 + length f.payload) (with_crc f crc) ≡ pack_u16 crc)
parts-with_crc f crc = (
  unfold frame_body in take-append_self f.payload (pack_u16 crc),
  rw (← length-frame_body f) (take-append_self (frame_body f) (pack_u16 crc)),
  rw (← length-frame_body f) (drop-append_self (frame_body f) (pack_u16 crc)),
)

-- Decoding where the header unpacks, passes its checks and names a type.
decode_passed :
    (bytes : List ℕ) (h : Header) (t : MessageType)
    → 10 ≤ length bytes
    → unpack_header bytes ≡ some h
    → header_fault h (length bytes) ≡ none
    → type_of_value h.raw_type ≡ some t
    → decode bytes
      ≡ check_crc t h.sequence
          (take h.payload_length (drop 8 bytes))
          (crc16_ccitt_false (take (8 + h.payload_length) bytes))
          (unpack_crc (drop (8 + h.payload_length) bytes))
unfolding decode decode_header decode_type
decode_passed bytes h t long unpacked clean named = ground (arith, unpacked, clean, named)

-- On the bytes of a valid frame only the comparison of the checksums is left.
pub decode-with_crc :
    (f : Frame) (crc : ℕ)
    → IsValid f
    → decode (with_crc f crc)
      ≡ check_crc f.message_type f.sequence f.payload (crc16_ccitt_false (frame_body f)) (some crc)
decode-with_crc f crc v =
    let (payload, body, last) = parts-with_crc f crc in
    decode_passed (with_crc f crc) (header_of f) f.message_type
      (omega (arith, length-with_crc f crc)) (unpack_header-with_crc f crc)
      (header_fault-with_crc f crc v) (type_of_value-type_value f.message_type)
    ∙ rw (payload, body, last, unpack_crc-pack crc) refl

-- Decoding the encoding of a frame gives the frame back, if its sequence number fits 16 bits and
-- its payload is at most 512 bytes long.
pub decode-encode : (f : Frame) → IsValid f → decode (encode f) ≡ ok f
unfolding encode
decode-encode f v =
    decode-with_crc f (crc16_ccitt_false (frame_body f)) v
    ∙ (unfold check_crc in ground (arith, make_frame-IsValid f v))
