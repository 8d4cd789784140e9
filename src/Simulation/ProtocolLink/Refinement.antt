-- ===== src/Simulation/ProtocolLink/Refinement.antt =====
-- rci/simulation/protocol_link.py: the link against two bounded queues of frames.
use robotic_character_interf.Base.{
  String, ℕ, ◌+◌, ◌≤◌, ◌≡◌, refl, subst, true, false, List, [], ◌∷◌, arith,
}
use robotic_character_interf.Base.Lists.{All}
use robotic_character_interf.Hardware.{done}
use robotic_character_interf.Hardware.Memory.{
  make_channel, create_memory_transport_pair, open_endpoint, open_transport, Endpoint, is_open,
  Channel, Side,
}
use robotic_character_interf.Hardware.Frames.Flight.{IsInFlight}
use robotic_character_interf.Simulation.ProtocolLink.{
  open_host, connect, SimulatedProtocolLink, create,
}
use robotic_character_interf.Protocol.Framing.{Frame}
use robotic_character_interf.Hardware.Frames.{make_frame_transport, default_decoder, FrameTransport}
use robotic_character_interf.Simulation.ProtocolLink.Queues.{
  sent, not_sent, replied, sends, receives, events, replied, receives, step, Allowed, IsFine, sends,
  IsLinked, Event, Queues, Op,
}
use robotic_character_interf.Simulation.ProtocolLink.Steps.{step-receives, Next, step-sends}

Allowed-sends :
    (room capacity : ℕ) (s : Side) (f : Frame) (ops : List Op) (e : Event) (es : List Event)
    (q : Queues) (p : SimulatedProtocolLink)
    → Next room capacity (sends s f) e q p
    → ((q' : Queues) → IsLinked room capacity q' p → Allowed capacity ops es q')
    → Allowed capacity (sends s f ∷ ops) (e ∷ es) q
Allowed-sends room capacity s f ops sent es q p next rest = rest _ next
Allowed-sends room capacity s f ops not_sent es q p next rest = (next.0, rest q next.1)
Allowed-sends room capacity s f ops (replied r) es q p next rest = absurd next

events-Allowed_from :
    (room capacity : ℕ) (ops : List Op) (q : Queues) (p : SimulatedProtocolLink)
    → All (IsFine room) ops
    → IsLinked room capacity q p
    → Allowed capacity ops (events ops p) q
events-Allowed_from room capacity [] q p fine linked = tt
events-Allowed_from room capacity (sends s f ∷ ops) q p fine linked =
    Allowed-sends room capacity s f ops (step (sends s f) p).0 (events ops (step (sends s f) p).1) q
      (step (sends s f) p).1 (step-sends room capacity s f q p fine.0 linked)
      (λ q' next. events-Allowed_from room capacity ops q' (step (sends s f) p).1 fine.1 next)
events-Allowed_from room capacity (receives s timeout late ∷ ops) q p fine linked =
    let (seen, next) = step-receives room capacity s timeout late q p fine.0 linked in
    (seen, events-Allowed_from room capacity ops _ (step (receives s timeout late) p).1 fine.1 next)

abbrev opened : String → ℕ → Endpoint
opened label written = record {
  label = label;
  is_open_flag = true;
  terminally_closed = false;
  bytes_read = 0;
  bytes_written = written;
  open_count = 1;
  close_count = 0;
}

abbrev empty_channel : ℕ → Channel
empty_channel capacity = record { capacity_bytes = capacity; buffer = []; closed = false }

abbrev fresh_transport : ℕ → FrameTransport
fresh_transport read_size = record {
  read_size = read_size;
  decoder = default_decoder;
  frames = [];
  issues = [];
}

abbrev pub created : ℕ → ℕ → SimulatedProtocolLink
created capacity read_size = record {
  host = fresh_transport read_size;
  device = fresh_transport read_size;
  link = record {
    first = opened "sim-host" 0;
    second = opened "sim-device" 0;
    forward = empty_channel capacity;
    backward = empty_channel capacity;
  };
}

create-created :
    (capacity read_size : ℕ) (p : SimulatedProtocolLink)
    → create capacity read_size ≡ done p
    → (created capacity read_size ≡ p) × (1 ≤ read_size)
unfolding create connect open_host open_transport open_endpoint create_memory_transport_pair
    make_channel make_frame_transport
create-created capacity read_size p e = (ground arith, ground arith)

empty-IsInFlight :
    (room capacity read_size : ℕ)
    → 1 ≤ room
    → 1 ≤ read_size
    → room + read_size ≤ 587
    → IsInFlight room [] (fresh_transport read_size) (empty_channel capacity)
empty-IsInFlight room capacity read_size some_room reads roomy = record {
  later = [];
  in_order = refl;
  no_issue = refl;
  left = refl;
  incomplete = refl;
  small = tt;
  some_room = some_room;
  roomy = roomy;
  reads = reads;
}

pub created-IsLinked :
    (room capacity read_size : ℕ)
    → 1 ≤ room
    → 1 ≤ read_size
    → room + read_size ≤ 587
    → IsLinked room capacity (record { to_host = []; to_device = [] }) (created capacity read_size)
unfolding is_open
created-IsLinked room capacity read_size some_room reads roomy = record {
  up = record { host_open = refl; device_open = refl; forward_open = refl; backward_open = refl };
  to_host = empty-IsInFlight room capacity read_size some_room reads roomy;
  to_device = empty-IsInFlight room capacity read_size some_room reads roomy;
  forward_capacity = refl;
  backward_capacity = refl;
}

-- The link of the two transports, as it is created with some capacity and read size, is a pair of
-- bounded queues of frames: whatever frames the sides send and whenever they receive, with
-- timeouts that are not refused, a frame that is sent is received by the other side in the order
-- of sending, once and as it was, a send is turned away only if the frame and those that the other
-- side has not received are more bytes than the capacity, and a receive returns the first frame
-- that waits for the side and waits itself, or times out, only if there is none. The frames are
-- valid, and none is longer than `room`, which is at least one byte and with the read size at most
-- the decoder's bound of 586 and one.
pub events-Allowed :
    (room capacity read_size : ℕ) (ops : List Op) (p : SimulatedProtocolLink)
    → create capacity read_size ≡ done p
    → 1 ≤ room
    → room + read_size ≤ 587
    → All (IsFine room) ops
    → Allowed capacity ops (events ops p) (record { to_host = []; to_device = [] })
events-Allowed room capacity read_size ops p e some_room roomy fine =
    let (same, reads) = create-created capacity read_size p e in
    events-Allowed_from room capacity ops (record { to_host = []; to_device = [] }) p fine
      (subst (IsLinked room capacity (record { to_host = []; to_device = [] })) same
        (created-IsLinked room capacity read_size some_room reads roomy))
