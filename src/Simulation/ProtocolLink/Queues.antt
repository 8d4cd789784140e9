-- ===== src/Simulation/ProtocolLink/Queues.antt =====
-- rci/simulation/protocol_link.py: frames that go over the link in both directions, against two
-- queues.
use robotic_character_interf.Base.{ℕ, ◌<◌, ◌≡◌, Bool, false, Option, List, [], ◌∷◌, ◌++◌}
use robotic_character_interf.Base.Lists.{length}
use robotic_character_interf.Hardware.{Outcome, done, waits, raised}
use robotic_character_interf.Hardware.Memory.{bad_timeout, has_deadline, Link, Side, host, device}
use robotic_character_interf.Simulation.ProtocolLink.{
  SimulatedProtocolLink, with_link, transport, with_transport,
}
use robotic_character_interf.Protocol.Stream.Chunks.{IsSmall}
use robotic_character_interf.Protocol.Framing.{Frame}
use robotic_character_interf.Hardware.Frames.{receive_frame, send_frame, Reception, Reply}
use robotic_character_interf.Hardware.Frames.Flight.{first_of, rest_of, IsInFlight, IsUp}
use robotic_character_interf.Protocol.Stream.Delivery.{encode_all}
use robotic_character_interf.Base.Float.{Float}

-- What a side does next; a call that waits is made again.
pub data Op : Type 0 where
  sends : Side → Frame → Op
  receives : Side → Option Float → Bool → Op

pub data Event : Type 0 where
  sent : Event
  not_sent : Event
  replied : Reply → Event

abbrev pub after_send : SimulatedProtocolLink → Outcome Link → Event × SimulatedProtocolLink
after_send p (done l) = (sent, with_link p l)
after_send p waits = (not_sent, p)
after_send p (raised fault) = (not_sent, p)

abbrev pub after_receive : Side → SimulatedProtocolLink → Reception → Event × SimulatedProtocolLink
after_receive s p r = (replied r.reply, with_transport s r.transport (with_link p r.link))

abbrev pub step : Op → SimulatedProtocolLink → Event × SimulatedProtocolLink
step (sends s f) p = after_send p (send_frame s f p.link)
step (receives s timeout late) p =
    after_receive s p (receive_frame s timeout late (transport s p) p.link)

abbrev pub events : List Op → SimulatedProtocolLink → List Event
events [] p = []
events (op ∷ ops) p = (step op p).0 ∷ events ops (step op p).1

-- The frames that are still to be received by each side.
pub record Queues : Type 0 where
  pub to_host : List Frame
  pub to_device : List Frame

abbrev pub queue_to : Side → Queues → List Frame
queue_to host q = q.to_host
queue_to device q = q.to_device

abbrev pub with_queue : Side → List Frame → Queues → Queues
with_queue host frames q = record { to_host = frames; to_device = q.to_device }
with_queue device frames q = record { to_host = q.to_host; to_device = frames }

abbrev pub other : Side → Side
other host = device
other device = host

-- What two queues, of frames of `capacity` bytes in all, allow to be seen: a frame that is sent
-- joins the queue to the other side, and may be turned away if it and the queue's frames are more
-- than the capacity; a receiver sees the first frame of its queue, or waits on an empty one.
abbrev pub Allowed : ℕ → List Op → List Event → Queues → Type 0
Allowed capacity [] [] q = Unit
Allowed capacity (sends s f ∷ ops) (sent ∷ es) q =
    Allowed capacity ops es (with_queue (other s) (queue_to (other s) q ++ f ∷ []) q)
Allowed capacity (sends s f ∷ ops) (not_sent ∷ es) q =
    (capacity < length (encode_all (queue_to (other s) q ++ f ∷ []))) × Allowed capacity ops es q
Allowed capacity (receives s timeout late ∷ ops) (replied r ∷ es) q =
    (r ≡ first_of (has_deadline timeout late) (queue_to s q))
    × Allowed capacity ops es (with_queue s (rest_of (queue_to s q)) q)
Allowed capacity ops es q = ⊥

-- The frames are small, and the timeouts positive.
abbrev pub IsFine : ℕ → Op → Type 0
IsFine room (sends s f) = IsSmall room f
IsFine room (receives s timeout late) = bad_timeout timeout ≡ false

-- The link and the queues that it stands for.
pub record IsLinked (room capacity : ℕ) (q : Queues) (p : SimulatedProtocolLink) : Type 0 where
  pub up : IsUp p.link
  pub to_host : IsInFlight room q.to_host p.host p.link.backward
  pub to_device : IsInFlight room q.to_device p.device p.link.forward
  pub forward_capacity : p.link.forward.capacity_bytes ≡ capacity
  pub backward_capacity : p.link.backward.capacity_bytes ≡ capacity
