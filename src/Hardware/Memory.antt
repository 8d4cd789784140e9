-- ===== src/Hardware/Memory.antt =====
-- rci/hardware/memory_transport.py: the bounded in-memory byte link. The two endpoints share two
-- channels, one for each direction.
pub mod Flow
pub mod Runs
use robotic_character_interf.Base.{
  ℕ, ◌+◌, Bool, true, false, not, ◌&&◌, ◌||◌, String, Option, none, some, List, [], ◌∷◌, ◌++◌, ◌==◌,
  ltb, leb, if◌then◌else◌,
}
use mathlib.Core.Option.{map}
use Prim.Native.Nat.{min}
use robotic_character_interf.Base.Lists.{length, take, drop}
use robotic_character_interf.Base.Float.{Float, le, zero_f}
use robotic_character_interf.Base.Message.{lit, int, name, say}
use robotic_character_interf.Hardware.{
  Outcome, done, waits, raised, closed_error, capacity_error, timeout_error, value_error,
  TransportStats,
}

-- `_MemoryChannel`
pub record Channel : Type 0 where
  pub capacity_bytes : ℕ
  pub buffer : List ℕ
  pub closed : Bool

-- The construction; `none` is its `ValueError`.
unfoldable pub make_channel : ℕ → Option Channel
make_channel capacity =
    if capacity == 0
    then none
    else some (record { capacity_bytes = capacity; buffer = []; closed = false })

abbrev pub with_buffer : List ℕ → Channel → Channel
with_buffer buffer c = record {
  capacity_bytes = c.capacity_bytes;
  buffer = buffer;
  closed = c.closed;
}

unfoldable pub write_channel : List ℕ → Channel → Outcome Channel
write_channel bytes c =
    if ltb c.capacity_bytes (length bytes)
    then raised (
        capacity_error (
          lit "write of "
          ∷ int (length bytes)
          ∷ lit " bytes exceeds channel capacity "
          ∷ int c.capacity_bytes
          ∷ []))
    else if length bytes == 0
    then done c
    else if not c.closed && ltb c.capacity_bytes (length c.buffer + length bytes)
    then waits
    else if c.closed
    then raised (closed_error (say "remote memory transport endpoint is closed"))
    else done (with_buffer (c.buffer ++ bytes) c)

-- `read_once`; `late` says that the deadline passes while there is nothing to read.
unfoldable pub read_once : ℕ → Bool → Channel → Outcome (List ℕ × Channel)
read_once max_bytes late c =
    if length c.buffer == 0 && not c.closed
    then if late then raised (timeout_error (say "memory transport read timed out")) else waits
    else if length c.buffer == 0 && c.closed
    then done ([], c)
    else let count = min max_bytes (length c.buffer) in
      done (take count c.buffer, with_buffer (drop count c.buffer) c)

-- `timeout_s is not None and timeout_s <= 0`
abbrev pub bad_timeout : Option Float → Bool
bad_timeout none = false
bad_timeout (some t) = le t zero_f

-- Without a timeout there is no deadline.
abbrev pub has_deadline : Option Float → Bool → Bool
has_deadline none late = false
has_deadline (some t) late = late

unfoldable pub read_channel : ℕ → Option Float → Bool → Channel → Outcome (List ℕ × Channel)
unfolding read_once
read_channel max_bytes timeout late c =
    if max_bytes == 0
    then raised (value_error (say "max_bytes must be positive"))
    else if bad_timeout timeout
    then raised (value_error (say "timeout_s must be positive when provided"))
    else read_once max_bytes (has_deadline timeout late) c

unfoldable pub close_channel : Channel → Channel
close_channel c = record { capacity_bytes = c.capacity_bytes; buffer = c.buffer; closed = true }

-- `MemoryByteTransport`, without its channels.
pub record Endpoint : Type 0 where
  pub label : String
  pub is_open_flag : Bool
  pub terminally_closed : Bool
  pub bytes_read : ℕ
  pub bytes_written : ℕ
  pub open_count : ℕ
  pub close_count : ℕ

unfoldable pub is_open : Endpoint → Bool
is_open e = e.is_open_flag && not e.terminally_closed

unfoldable pub endpoint_stats : Endpoint → TransportStats
endpoint_stats e = record {
  bytes_read = e.bytes_read;
  bytes_written = e.bytes_written;
  open_count = e.open_count;
  close_count = e.close_count;
}

-- The two endpoints and the channels from the first to the second and back.
pub record Link : Type 0 where
  pub first : Endpoint
  pub second : Endpoint
  pub forward : Channel
  pub backward : Channel

pub data Side : Type 0 where
  host device : Side

abbrev fresh : String → Endpoint
fresh label = record {
  label = label;
  is_open_flag = false;
  terminally_closed = false;
  bytes_read = 0;
  bytes_written = 0;
  open_count = 0;
  close_count = 0;
}

abbrev pub link_of : String → String → Channel → Link
link_of first_name second_name c = record {
  first = fresh first_name;
  second = fresh second_name;
  forward = c;
  backward = c;
}

-- `create_memory_transport_pair`
unfoldable pub create_memory_transport_pair : ℕ → String → String → Option Link
unfolding make_channel
create_memory_transport_pair capacity first_name second_name =
    map (link_of first_name second_name) (make_channel capacity)

abbrev pub endpoint : Side → Link → Endpoint
endpoint host l = l.first
endpoint device l = l.second

abbrev pub outgoing : Side → Link → Channel
outgoing host l = l.forward
outgoing device l = l.backward

abbrev pub incoming : Side → Link → Channel
incoming host l = l.backward
incoming device l = l.forward

abbrev pub with_endpoint : Side → Endpoint → Link → Link
with_endpoint host e l = record {
  first = e;
  second = l.second;
  forward = l.forward;
  backward = l.backward;
}
with_endpoint device e l = record {
  first = l.first;
  second = e;
  forward = l.forward;
  backward = l.backward;
}

abbrev pub with_outgoing : Side → Channel → Link → Link
with_outgoing host c l = record {
  first = l.first;
  second = l.second;
  forward = c;
  backward = l.backward;
}
with_outgoing device c l = record {
  first = l.first;
  second = l.second;
  forward = l.forward;
  backward = c;
}

abbrev pub with_incoming : Side → Channel → Link → Link
with_incoming host c l = record {
  first = l.first;
  second = l.second;
  forward = l.forward;
  backward = c;
}
with_incoming device c l = record {
  first = l.first;
  second = l.second;
  forward = c;
  backward = l.backward;
}

unfoldable pub open_endpoint : Endpoint → Outcome Endpoint
open_endpoint e =
    if e.terminally_closed
    then raised (closed_error (say "memory transport cannot be reopened after close"))
    else if not e.is_open_flag
    then done (record {
      label = e.label;
      is_open_flag = true;
      terminally_closed = e.terminally_closed;
      bytes_read = e.bytes_read;
      bytes_written = e.bytes_written;
      open_count = e.open_count + 1;
      close_count = e.close_count;
    })
    else done e

abbrev pub commit_open : Side → Link → Outcome Endpoint → Outcome Link
commit_open s l (done e) = done (with_endpoint s e l)
commit_open s l waits = waits
commit_open s l (raised fault) = raised fault

unfoldable pub open_transport : Side → Link → Outcome Link
unfolding open_endpoint
open_transport s l = commit_open s l (open_endpoint (endpoint s l))

abbrev pub closed_endpoint : Endpoint → Endpoint
closed_endpoint e = record {
  label = e.label;
  is_open_flag = false;
  terminally_closed = true;
  bytes_read = e.bytes_read;
  bytes_written = e.bytes_written;
  open_count = e.open_count;
  close_count = e.close_count + 1;
}

unfoldable pub close_transport : Side → Link → Link
unfolding close_channel
close_transport s l =
    if (endpoint s l).terminally_closed
    then l
    else with_outgoing s (close_channel (outgoing s l)) (
        with_incoming s (close_channel (incoming s l))
          (with_endpoint s (closed_endpoint (endpoint s l)) l))

-- `_require_open`
abbrev pub require_open : {A : Type 0} → Endpoint → Outcome A → Outcome A
require_open e run =
    if is_open e
    then run
    else raised (closed_error (lit "memory transport " ∷ name e.label ∷ lit " is closed" ∷ []))

abbrev pub count_written : ℕ → Endpoint → Endpoint
count_written n e = record {
  label = e.label;
  is_open_flag = e.is_open_flag;
  terminally_closed = e.terminally_closed;
  bytes_read = e.bytes_read;
  bytes_written = e.bytes_written + n;
  open_count = e.open_count;
  close_count = e.close_count;
}

abbrev pub count_read : ℕ → Endpoint → Endpoint
count_read n e = record {
  label = e.label;
  is_open_flag = e.is_open_flag;
  terminally_closed = e.terminally_closed;
  bytes_read = e.bytes_read + n;
  bytes_written = e.bytes_written;
  open_count = e.open_count;
  close_count = e.close_count;
}

-- What is counted and stored when the channel has taken the bytes.
abbrev pub commit_write : Side → List ℕ → Link → Outcome Channel → Outcome Link
commit_write s bytes l (done c) =
    done (with_endpoint s (count_written (length bytes) (endpoint s l)) (with_outgoing s c l))
commit_write s bytes l waits = waits
commit_write s bytes l (raised fault) = raised fault

-- `write` from the channel's call on: what a waiting call goes on with.
unfoldable pub resume_write : Side → List ℕ → Link → Outcome Link
unfolding write_channel
resume_write s bytes l = commit_write s bytes l (write_channel bytes (outgoing s l))

unfoldable pub write_bytes : Side → List ℕ → Link → Outcome Link
unfolding resume_write is_open
write_bytes s bytes l = require_open (endpoint s l) (resume_write s bytes l)

abbrev pub commit_read : Side → Link → Outcome (List ℕ × Channel) → Outcome (List ℕ × Link)
commit_read s l (done (bytes, c)) =
    done (bytes, with_endpoint s (count_read (length bytes) (endpoint s l)) (with_incoming s c l))
commit_read s l waits = waits
commit_read s l (raised fault) = raised fault

-- `read` from the channel's call on.
unfoldable pub resume_read : Side → ℕ → Option Float → Bool → Link → Outcome (List ℕ × Link)
unfolding read_channel
resume_read s max_bytes timeout late l =
    commit_read s l (read_channel max_bytes timeout late (incoming s l))

unfoldable pub read_bytes : Side → ℕ → Option Float → Bool → Link → Outcome (List ℕ × Link)
unfolding resume_read is_open
read_bytes s max_bytes timeout late l =
    require_open (endpoint s l) (resume_read s max_bytes timeout late l)
