-- ===== src/Simulation/ProtocolLink/Steps.antt =====
-- rci/simulation/protocol_link.py: one send or receive over the link, against two queues of
-- frames.
use robotic_character_interf.Base.{
  ◌⊎◌, ℕ, ◌<◌, ◌≡◌, refl, sym, ap, subst, ◌∙◌, Bool, false, Option, List, [], ◌∷◌, ◌++◌, arith, inl,
  inr,
}
use robotic_character_interf.Base.Lists.{length}
use robotic_character_interf.Hardware.{TransportFault, Outcome, done, waits, raised}
use robotic_character_interf.Hardware.Memory.{
  has_deadline, commit_write, bad_timeout, resume_write, write_bytes, is_open, write_channel,
  Channel, Side, outgoing, host, device,
}
use robotic_character_interf.Hardware.Frames.Flight.{IsInFlight, IsUp-endpoint, first_of, rest_of}
use robotic_character_interf.Simulation.ProtocolLink.{SimulatedProtocolLink}
use robotic_character_interf.Protocol.Framing.{encode, Frame}
use robotic_character_interf.Base.Float.{Float}
use robotic_character_interf.Hardware.Frames.{send_frame}
use robotic_character_interf.Simulation.ProtocolLink.Queues.{
  sent, not_sent, replied, sends, receives, queue_to, replied, other, after_send, with_queue,
  receives, step, sends, IsLinked, Event, Queues, Op,
}
use robotic_character_interf.Protocol.Stream.Chunks.{IsSmall}
use robotic_character_interf.Hardware.Frames.Queue.{receive_frame-IsDequeued}
use robotic_character_interf.Simulation.ProtocolLink.Sending.{
  IsInFlight-bytes, write_channel_refused, IsInFlight-send,
}
use robotic_character_interf.Protocol.Stream.Delivery.{encode_all}
use robotic_character_interf.Hardware.Memory.Flow.{write_channel-capacity, write_channel-buffer}

-- What one event promises, and the link after it.
abbrev pub Next : ℕ → ℕ → Op → Event → Queues → SimulatedProtocolLink → Type 0
Next room capacity (sends s f) sent q p =
    IsLinked room capacity (with_queue (other s) (queue_to (other s) q ++ f ∷ []) q) p
Next room capacity (sends s f) not_sent q p =
    (capacity < length (encode_all (queue_to (other s) q ++ f ∷ []))) × IsLinked room capacity q p
Next room capacity (receives s timeout late) (replied r) q p =
    (r ≡ first_of (has_deadline timeout late) (queue_to s q))
    × IsLinked room capacity (with_queue s (rest_of (queue_to s q)) q) p
Next room capacity op e q p = ⊥

refused :
    (room capacity : ℕ) (s : Side) (f : Frame) (q : Queues) (p : SimulatedProtocolLink)
    → IsLinked room capacity q p
    → (write_channel (encode f) (outgoing s p.link) ≡ waits)
      ⊎ ((fault : TransportFault) × (write_channel (encode f) (outgoing s p.link) ≡ raised fault))
    → capacity < length (encode_all (queue_to (other s) q ++ f ∷ []))
refused room capacity host f q p linked h = omega (
  arith,
  write_channel_refused (encode f) p.link.forward linked.up.forward_open h,
  IsInFlight-bytes f linked.to_device,
  linked.forward_capacity,
)
refused room capacity device f q p linked h = omega (
  arith,
  write_channel_refused (encode f) p.link.backward linked.up.backward_open h,
  IsInFlight-bytes f linked.to_host,
  linked.backward_capacity,
)

write_channel-closed :
    (bytes : List ℕ) (c c' : Channel) → write_channel bytes c ≡ done c' → c'.closed ≡ c.closed
unfolding write_channel
write_channel-closed bytes c c' h = ground arith

committed :
    (room capacity : ℕ) (s : Side) (f : Frame) (q : Queues) (p : SimulatedProtocolLink)
    (o : Outcome Channel)
    → IsSmall room f
    → IsLinked room capacity q p
    → write_channel (encode f) (outgoing s p.link) ≡ o
    → Next room capacity
        (sends s f)
        (after_send p (commit_write s (encode f) p.link o)).0
        q
        (after_send p (commit_write s (encode f) p.link o)).1
unfolding is_open
committed room capacity host f q p (done c) small linked h = record {
  up = record {
    host_open = linked.up.host_open;
    device_open = linked.up.device_open;
    forward_open = write_channel-closed (encode f) p.link.forward c h ∙ linked.up.forward_open;
    backward_open = linked.up.backward_open;
  };
  to_host = linked.to_host;
  to_device =
      IsInFlight-send room q.to_device p.device p.link.forward c f small
        (write_channel-buffer (encode f) p.link.forward c h) linked.to_device;
  forward_capacity = write_channel-capacity (encode f) p.link.forward c h ∙ linked.forward_capacity;
  backward_capacity = linked.backward_capacity;
}
committed room capacity device f q p (done c) small linked h = record {
  up = record {
    host_open = linked.up.host_open;
    device_open = linked.up.device_open;
    forward_open = linked.up.forward_open;
    backward_open = write_channel-closed (encode f) p.link.backward c h ∙ linked.up.backward_open;
  };
  to_host =
      IsInFlight-send room q.to_host p.host p.link.backward c f small
        (write_channel-buffer (encode f) p.link.backward c h) linked.to_host;
  to_device = linked.to_device;
  forward_capacity = linked.forward_capacity;
  backward_capacity =
      write_channel-capacity (encode f) p.link.backward c h ∙ linked.backward_capacity;
}
committed room capacity s f q p waits small linked h =
    (refused room capacity s f q p linked (inl h), linked)
committed room capacity s f q p (raised fault) small linked h =
    (refused room capacity s f q p linked (inr (fault, h)), linked)

pub step-sends :
    (room capacity : ℕ) (s : Side) (f : Frame) (q : Queues) (p : SimulatedProtocolLink)
    → IsSmall room f
    → IsLinked room capacity q p
    → Next room capacity (sends s f) (step (sends s f) p).0 q (step (sends s f) p).1
unfolding send_frame write_bytes resume_write
step-sends room capacity s f q p small linked = rw (IsUp-endpoint s p.link linked.up) (
    committed room capacity s f q p (write_channel (encode f) (outgoing s p.link)) small linked
      refl)

pub step-receives :
    (room capacity : ℕ) (s : Side) (timeout : Option Float) (late : Bool) (q : Queues)
    (p : SimulatedProtocolLink)
    → bad_timeout timeout ≡ false
    → IsLinked room capacity q p
    → Next room capacity
        (receives s timeout late)
        (step (receives s timeout late) p).0
        q
        (step (receives s timeout late) p).1
step-receives room capacity host timeout late q p good linked =
    let r =
      receive_frame-IsDequeued room q.to_host host timeout late p.host p.link good linked.up
        linked.to_host in
    (
      r.reply,
      record {
        up = r.up;
        to_host = r.flight;
        to_device = subst (IsInFlight room q.to_device p.device) (sym r.other_way) linked.to_device;
        forward_capacity = ap (λ c. c.capacity_bytes) r.other_way ∙ linked.forward_capacity;
        backward_capacity = r.same_capacity ∙ linked.backward_capacity;
      },
    )
step-receives room capacity device timeout late q p good linked =
    let r =
      receive_frame-IsDequeued room q.to_device device timeout late p.device p.link good linked.up
        linked.to_device in
    (
      r.reply,
      record {
        up = r.up;
        to_host = subst (IsInFlight room q.to_host p.host) (sym r.other_way) linked.to_host;
        to_device = r.flight;
        forward_capacity = r.same_capacity ∙ linked.forward_capacity;
        backward_capacity = ap (λ c. c.capacity_bytes) r.other_way ∙ linked.backward_capacity;
      },
    )
