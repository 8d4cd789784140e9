-- ===== src/Hardware/Frames.antt =====
-- rci/hardware/protocol_transport.py: `ProtocolTransport`, over one side of the in-memory link.
pub mod Flight
pub mod Receive
pub mod Queue
use robotic_character_interf.Base.{
  ℕ, zero, suc, ◌+◌, Bool, true, false, Option, none, some, List, [], ◌∷◌, ◌++◌, ◌==◌,
  if◌then◌else◌, String,
}
use robotic_character_interf.Base.Lists.{length}
use robotic_character_interf.Base.Float.{Float, le, zero_f}
use robotic_character_interf.Base.Message.{Message, lit, say}
use robotic_character_interf.Protocol.Framing.{Frame, encode}
use robotic_character_interf.Protocol.Stream.{
  FrameStreamDecoder, StreamIssue, StreamIssueKind, DecodeBatch, feed, make_decoder, desync,
  invalid_header, checksum_mismatch, invalid_frame, buffer_overflow,
}
use robotic_character_interf.Hardware.{
  Outcome, done, waits, raised, TransportFault, closed_error, timeout_error, value_error,
}
use robotic_character_interf.Hardware.Memory.{
  Link, Side, incoming, read_bytes, write_bytes, bad_timeout, has_deadline,
}

-- `ProtocolTransport`, without the byte transport.
pub record FrameTransport : Type 0 where
  pub read_size : ℕ
  pub decoder : FrameStreamDecoder
  pub frames : List Frame
  pub issues : List StreamIssue

-- `FrameStreamDecoder()`, with its default bound.
abbrev pub default_decoder : FrameStreamDecoder
default_decoder = record { max_buffer_bytes = 512 + 10 + 64; buffer = [] }

abbrev or_default : Option FrameStreamDecoder → FrameStreamDecoder
or_default none = default_decoder
or_default (some d) = d

-- The construction; `none` is its `ValueError`.
unfoldable pub make_frame_transport : ℕ → Option FrameStreamDecoder → Option FrameTransport
make_frame_transport read_size decoder =
    if read_size == 0
    then none
    else some
        (record { read_size = read_size; decoder = or_default decoder; frames = []; issues = [] })

abbrev pub pending_frame_count : FrameTransport → ℕ
pending_frame_count t = length t.frames

abbrev pub pending_issue_count : FrameTransport → ℕ
pending_issue_count t = length t.issues

unfoldable pub send_frame : Side → Frame → Link → Outcome Link
send_frame s f l = write_bytes s (encode f) l

-- `StreamIssueKind.value`
abbrev pub issue_kind_value : StreamIssueKind → String
issue_kind_value desync = "DESYNC"
issue_kind_value invalid_header = "INVALID_HEADER"
issue_kind_value checksum_mismatch = "CHECKSUM_MISMATCH"
issue_kind_value invalid_frame = "INVALID_FRAME"
issue_kind_value buffer_overflow = "BUFFER_OVERFLOW"

-- How a call of `receive_frame` ends: with a frame, with the `ProtocolError` of an issue, with an
-- error of the transport, or waiting, to be called again; `no_fuel` is not an end of the source's.
pub data Reply : Type 0 where
  frame : Frame → Reply
  corrupt : Message → Reply
  fault : TransportFault → Reply
  blocked : Reply
  no_fuel : Reply

-- What a call returns, and what it leaves.
pub record Reception : Type 0 where
  pub reply : Reply
  pub transport : FrameTransport
  pub link : Link

abbrev pub take_issue : FrameTransport → StreamIssue → List StreamIssue → Link → Reception
take_issue t i issues l = record {
  reply = corrupt (lit "stream " ∷ lit (issue_kind_value i.kind) ∷ lit ": " ∷ i.detail);
  transport = record {
    read_size = t.read_size;
    decoder = t.decoder;
    frames = t.frames;
    issues = issues;
  };
  link = l;
}

abbrev pub take_frame : FrameTransport → Frame → List Frame → Link → Reception
take_frame t f frames l = record {
  reply = frame f;
  transport = record {
    read_size = t.read_size;
    decoder = t.decoder;
    frames = frames;
    issues = t.issues;
  };
  link = l;
}

abbrev pub stays : Reply → FrameTransport → Link → Reception
stays reply t l = record { reply = reply; transport = t; link = l }

-- `self._issues.extend(...)` and `self._frames.extend(...)`
abbrev pub extended : FrameTransport → FrameStreamDecoder → DecodeBatch → FrameTransport
extended t d batch = record {
  read_size = t.read_size;
  decoder = d;
  frames = t.frames ++ batch.frames;
  issues = t.issues ++ batch.issues;
}

-- The chunk that was read goes to the decoder, and the loop goes on.
abbrev pub take_batch :
    (FrameTransport → Link → Reception)
    → FrameTransport
    → Link
    → Option (FrameStreamDecoder × DecodeBatch)
    → Reception
take_batch again t l none = stays no_fuel t l
take_batch again t l (some (d, batch)) = again (extended t d batch) l

unfoldable pub take_chunk :
    (FrameTransport → Link → Reception)
    → Bool
    → FrameTransport
    → Link
    → Outcome (List ℕ × Link)
    → Reception
unfolding feed
take_chunk again late t l waits =
    if late
    then stays (fault (timeout_error (say "protocol frame receive timed out"))) t l
    else stays blocked t l
take_chunk again late t l (raised f) = stays (fault f) t l
take_chunk again late t l (done ([], l')) =
    stays (fault (closed_error (say "remote transport endpoint closed"))) t l'
take_chunk again late t l (done (b ∷ chunk, l')) =
    take_batch again t l' (feed t.decoder (b ∷ chunk))

-- The loop; `late` says that the deadline passes while there is nothing to read.
unfoldable pub receive_once : ℕ → Side → Bool → FrameTransport → Link → Reception
unfolding take_chunk read_bytes
receive_once zero s late t l = stays no_fuel t l
receive_once (suc fuel) s late t l = elim t.issues [
  | i ∷ issues ↦ take_issue t i issues l
  | [] ↦ elim t.frames [
    | f ∷ frames ↦ take_frame t f frames l
    | [] ↦ take_chunk (receive_once fuel s late) late t l (read_bytes s t.read_size none false l)
  ]
]

-- The fuel is one turn more than there are bytes to read.
unfoldable pub receive_frame : Side → Option Float → Bool → FrameTransport → Link → Reception
unfolding receive_once
receive_frame s timeout late t l =
    if bad_timeout timeout
    then stays (fault (value_error (say "timeout_s must be positive when provided"))) t l
    else receive_once (suc (length (incoming s l).buffer)) s (has_deadline timeout late) t l
