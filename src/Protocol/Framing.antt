-- ===== src/Protocol/Framing.antt =====
-- rci/protocols/framing.py: strict framing. The header is "<2sBBHH" and the checksum "<H".
pub mod RoundTrip
pub mod Corruption
pub mod Canonical
use robotic_character_interf.Base.{
  ℕ, ◌+◌, ◌*◌, ◌/◌, ◌%◌, Bool, true, false, not, ◌&&◌, ◌||◌, Option, none, some, List, [], ◌∷◌,
  ◌++◌, ◌==◌, ltb, leb, if◌then◌else◌,
}
use robotic_character_interf.Base.Int.{ℤ, pos, leb_ℤ}
use robotic_character_interf.Base.Lists.{length, take, drop}
use robotic_character_interf.Base.Message.{Message, say, lit, int}
use robotic_character_interf.Protocol.Constants.{
  magic, protocol_version, header_size, crc_size, max_payload_size, MessageType, type_value,
  type_of_value,
}
use robotic_character_interf.Protocol.Checksum.{crc16_ccitt_false}

-- `ProtocolError` and its subclass `ProtocolChecksumError`.
pub data Fault : Type 0 where
  protocol_error checksum_error : Message → Fault

pub data Result (A : Type 0) : Type 0 where
  ok : A → Result A
  err : Fault → Result A

pub record Frame : Type 0 where
  pub message_type : MessageType
  pub sequence : ℕ
  pub payload : List ℕ

-- The construction of a `Frame`, with `__post_init__`.
unfoldable pub make_frame : MessageType → ℤ → List ℕ → Result Frame
make_frame t (pos n) payload =
    if not (leb n 0xffff)
    then err (protocol_error (say "sequence must fit uint16"))
    else if ltb max_payload_size (length payload)
    then err (protocol_error (say "payload exceeds protocol maximum"))
    else ok (record { message_type = t; sequence = n; payload = payload })
make_frame t (ℤ.negsuc n) payload = err (protocol_error (say "sequence must fit uint16"))

-- "<H": an unsigned 16-bit number, low byte first.
abbrev pub pack_u16 : ℕ → List ℕ
pack_u16 n = n % 256 ∷ n / 256 ∷ []

abbrev pub unpack_u16 : ℕ → ℕ → ℕ
unpack_u16 low high = low + 256 * high

-- The header and the payload, which the checksum covers.
unfoldable pub frame_body : Frame → List ℕ
unfolding type_value
frame_body f =
    b'R'
    ∷ b'C'
    ∷ protocol_version
    ∷ type_value f.message_type
    ∷ f.sequence % 256
    ∷ f.sequence / 256
    ∷ length f.payload % 256
    ∷ length f.payload / 256
    ∷ f.payload

unfoldable pub encode : Frame → List ℕ
unfolding frame_body
encode f = frame_body f ++ pack_u16 (crc16_ccitt_false (frame_body f))

pub record Header : Type 0 where
  pub magic_matches : Bool
  pub version : ℕ
  pub raw_type : ℕ
  pub sequence : ℕ
  pub payload_length : ℕ

-- `_HEADER.unpack_from(data)`; `none` is its error on fewer than eight bytes.
unfoldable pub unpack_header : List ℕ → Option Header
unpack_header (m0 ∷ m1 ∷ v ∷ t ∷ s0 ∷ s1 ∷ l0 ∷ l1 ∷ rest) = some (record {
  magic_matches = m0 == b'R' && m1 == b'C';
  version = v;
  raw_type = t;
  sequence = unpack_u16 s0 s1;
  payload_length = unpack_u16 l0 l1;
})
unpack_header _ = none

-- `_CRC.unpack_from(data, payload_end)` on the bytes from there on.
unfoldable pub unpack_crc : List ℕ → Option ℕ
unpack_crc (c0 ∷ c1 ∷ rest) = some (unpack_u16 c0 c1)
unpack_crc _ = none

-- The checks on an unpacked header, in the source's order, up to the length of the data.
unfoldable pub header_fault : Header → ℕ → Option Fault
header_fault h size =
    if not h.magic_matches
    then some (protocol_error (say "invalid frame magic"))
    else if not (h.version == protocol_version)
    then some (protocol_error (lit "unsupported protocol version: " ∷ int h.version ∷ []))
    else if ltb max_payload_size h.payload_length
    then some (protocol_error (say "declared payload exceeds protocol maximum"))
    else if not (size == header_size + h.payload_length + crc_size)
    then some (
        protocol_error (
          lit "frame length mismatch: declared="
          ∷ int (header_size + h.payload_length + crc_size)
          ∷ lit ", actual="
          ∷ int size
          ∷ []))
    else none

-- The comparison of the checksums, and the construction of the frame.
unfoldable pub check_crc : MessageType → ℕ → List ℕ → ℕ → Option ℕ → Result Frame
unfolding make_frame
check_crc t sequence payload calculated none = err (protocol_error (say "frame is truncated"))
check_crc t sequence payload calculated (some received) =
    if not (received == calculated)
    then err (checksum_error (say "frame checksum mismatch"))
    else make_frame t (pos sequence) payload

unfoldable pub decode_type : Header → List ℕ → Option MessageType → Result Frame
unfolding check_crc unpack_crc
decode_type h bytes none = err (protocol_error (lit "unknown message type: " ∷ int h.raw_type ∷ []))
decode_type h bytes (some t) =
    let payload_end = header_size + h.payload_length in
    check_crc t h.sequence (take h.payload_length (drop header_size bytes))
      (crc16_ccitt_false (take payload_end bytes)) (unpack_crc (drop payload_end bytes))

unfoldable pub decode_header : List ℕ → Option Header → Result Frame
unfolding decode_type header_fault type_of_value
decode_header bytes none = err (protocol_error (say "frame is truncated"))
decode_header bytes (some h) = elim (header_fault h (length bytes)) [
  | some fault ↦ err fault
  | none ↦ decode_type h bytes (type_of_value h.raw_type)
]

unfoldable pub decode : List ℕ → Result Frame
unfolding decode_header unpack_header
decode bytes =
    if ltb (length bytes) (header_size + crc_size)
    then err (protocol_error (say "frame is truncated"))
    else decode_header bytes (unpack_header bytes)
