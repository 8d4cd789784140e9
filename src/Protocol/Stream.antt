-- ===== src/Protocol/Stream.antt =====
-- rci/protocols/stream.py: the bounded decoder of a stream of frames. The buffer is a list of
-- bytes; a turn of the `while` loop is a function into `Turn`.
pub mod Accounting
pub mod Segments
pub mod Feed
pub mod Delivery
pub mod Parts
pub mod Chunks
use robotic_character_interf.Base.{
  ℕ, zero, suc, ◌+◌, ◌-◌, Bool, true, false, not, ◌&&◌, Option, none, some, List, [], ◌∷◌, ◌++◌,
  ◌==◌, ltb, leb, if◌then◌else◌,
}
use mathlib.Core.Option.{map}
use robotic_character_interf.Base.Message.{int, lit, say, Message}
use robotic_character_interf.Protocol.Framing.{
  checksum_error, protocol_error, ok, err, Header, decode, unpack_header, Result, Frame,
}
use robotic_character_interf.Protocol.Constants.{
  max_payload_size, protocol_version, frame_overhead, crc_size, header_size, type_of_value,
}
use robotic_character_interf.Base.Lists.{take, drop, length}

pub data StreamIssueKind : Type 0 where
  desync invalid_header checksum_mismatch invalid_frame buffer_overflow : StreamIssueKind

pub record StreamIssue : Type 0 where
  pub kind : StreamIssueKind
  pub detail : Message
  pub discarded_bytes : ℕ

pub record DecodeBatch : Type 0 where
  pub frames : List Frame
  pub issues : List StreamIssue
  pub buffered_bytes : ℕ

pub record FrameStreamDecoder : Type 0 where
  pub max_buffer_bytes : ℕ
  pub buffer : List ℕ

-- The construction; `none` is its `ValueError`.
unfoldable pub make_decoder : ℕ → Option FrameStreamDecoder
make_decoder max =
    if ltb max frame_overhead then none else some (record { max_buffer_bytes = max; buffer = [] })

unfoldable pub reset : FrameStreamDecoder → FrameStreamDecoder
reset d = record { max_buffer_bytes = d.max_buffer_bytes; buffer = [] }

-- `self._buffer.startswith(MAGIC)`.
unfoldable pub starts_with_magic : List ℕ → Bool
starts_with_magic (a ∷ b ∷ rest) = a == b'R' && b == b'C'
starts_with_magic _ = false

-- `self._buffer.find(MAGIC)`; `none` is its -1.
unfoldable pub find_magic : List ℕ → Option ℕ
unfolding starts_with_magic
find_magic [] = none
find_magic (a ∷ rest) =
    let later = find_magic rest in if starts_with_magic (a ∷ rest) then some 0 else map suc later

-- `self._buffer[-1:] == MAGIC[:1]`.
unfoldable pub ends_in_magic : List ℕ → Bool
ends_in_magic [] = false
ends_in_magic (a ∷ []) = a == b'R'
ends_in_magic (a ∷ b ∷ rest) = ends_in_magic (b ∷ rest)

-- `_validate_header`: what is wrong with the header.
unfoldable pub validate_header : ℕ → ℕ → ℕ → Option Message
unfolding type_of_value
validate_header version raw_type payload_length =
    if not (version == protocol_version)
    then some (lit "unsupported protocol version: " ∷ int version ∷ [])
    else elim (type_of_value raw_type) [
      | none ↦ some (lit "unknown message type: " ∷ int raw_type ∷ [])
      | some t ↦
          if ltb max_payload_size payload_length
          then some (say "declared payload exceeds protocol maximum")
          else none
    ]

-- How a turn of the loop ends: it leaves the loop, or goes on with what it has taken off the
-- buffer.
pub data Turn : Type 0 where
  stop : List ℕ → List StreamIssue → Turn
  again : List ℕ → List Frame → List StreamIssue → Turn

abbrev pub issue : StreamIssueKind → Message → ℕ → StreamIssue
issue kind detail discarded = record { kind = kind; detail = detail; discarded_bytes = discarded }

abbrev pub desync_issue : ℕ → StreamIssue
desync_issue = issue desync (say "discarded bytes before protocol magic")

-- No magic in the buffer: all of it goes, but for a first half of the magic at its end.
unfoldable pub discard_all : List ℕ → Turn
unfolding ends_in_magic
discard_all buffer =
    let keep = if ends_in_magic buffer then 1 else 0 in
    let discarded = length buffer - keep in
    if discarded == 0
    then stop buffer []
    else stop (drop discarded buffer) (desync_issue discarded ∷ [])

-- A complete candidate of the given size.
unfoldable pub take_candidate : List ℕ → List StreamIssue → ℕ → Result Frame → Turn
take_candidate buffer issues size (ok frame) = again (drop size buffer) (frame ∷ []) issues
take_candidate buffer issues size (err (checksum_error m)) =
    again (drop size buffer) [] (issues ++ issue checksum_mismatch m size ∷ [])
take_candidate buffer issues size (err (protocol_error m)) =
    again (drop 1 buffer) [] (issues ++ issue invalid_frame m 1 ∷ [])

-- A buffer that starts with the magic, and its header.
unfoldable pub take_header : ℕ → List ℕ → List StreamIssue → Header → Turn
unfolding validate_header take_candidate decode
take_header max buffer issues h = elim (validate_header h.version h.raw_type h.payload_length) [
  | some m ↦ again (drop 1 buffer) [] (issues ++ issue invalid_header m 1 ∷ [])
  | none ↦
      let frame_size = header_size + h.payload_length + crc_size in
      if ltb max frame_size
      then again (drop 1 buffer) []
          (issues ++ issue invalid_header (say "declared frame exceeds stream buffer limit") 1 ∷ [])
      else if ltb (length buffer) frame_size
      then stop buffer issues
      else take_candidate buffer issues frame_size (decode (take frame_size buffer))
]

-- From the test of the header's length on; `unpack_from` does not fail on eight bytes.
unfoldable pub parse : ℕ → List ℕ → List StreamIssue → Turn
unfolding take_header unpack_header
parse max buffer issues =
    if ltb (length buffer) header_size then stop buffer issues else elim (unpack_header buffer) [
      | none ↦ stop buffer issues
      | some h ↦ take_header max buffer issues h
    ]

unfoldable pub turn : ℕ → List ℕ → Turn
unfolding parse discard_all find_magic
turn max buffer =
    if ltb (length buffer) 2
    then stop buffer []
    else if starts_with_magic buffer
    then parse max buffer []
    else elim (find_magic buffer) [
      | none ↦ discard_all buffer
      | some i ↦ parse max (drop i buffer) (desync_issue i ∷ [])
    ]

-- What the loop has collected, and the buffer it leaves.
pub record Drained : Type 0 where
  pub frames : List Frame
  pub issues : List StreamIssue
  pub buffer : List ℕ

abbrev pub collect : List Frame → List StreamIssue → Drained → Drained
collect frames issues d = record {
  frames = frames ++ d.frames;
  issues = issues ++ d.issues;
  buffer = d.buffer;
}

-- The loop; `none` says that the fuel ran out.
unfoldable pub drain : ℕ → ℕ → List ℕ → Option Drained
unfolding turn
drain zero max buffer = none
drain (suc fuel) max buffer = elim (turn max buffer) [
  | stop rest issues ↦ some (record { frames = []; issues = issues; buffer = rest })
  | again rest frames issues ↦ map (collect frames issues) (drain fuel max rest)
]

abbrev pub finish : FrameStreamDecoder → Drained → FrameStreamDecoder × DecodeBatch
finish d r = (
  record { max_buffer_bytes = d.max_buffer_bytes; buffer = r.buffer },
  record { frames = r.frames; issues = r.issues; buffered_bytes = length r.buffer },
)

-- The batch on which the buffered data and the new data are given up together.
abbrev pub overflow_batch : ℕ → DecodeBatch
overflow_batch size = record {
  frames = [];
  issues =
      issue buffer_overflow (say "stream buffer limit exceeded; buffered data discarded") size ∷ [];
  buffered_bytes = 0;
}

-- The fuel is one turn more than there are bytes.
unfoldable pub feed : FrameStreamDecoder → List ℕ → Option (FrameStreamDecoder × DecodeBatch)
unfolding drain reset
feed d bytes =
    let size = length d.buffer + length bytes in
    if ltb d.max_buffer_bytes size
    then some (reset d, overflow_batch size)
    else map (finish d) (drain (suc size) d.max_buffer_bytes (d.buffer ++ bytes))
