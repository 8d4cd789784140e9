-- ===== src/Hardware/Gateway/Counters.antt =====
-- rci/hardware/robot_gateway.py: the sequence numbers and the counters over runs of requests.
use robotic_character_interf.Base.{
  ◌<◌, not, if_both, is_none, ℕ, ◌+◌, ◌%◌, ◌≤◌, ◌≡◌, refl, arith, Bool, true, false, ◌&&◌, Option,
  none, some, List, [], ◌∷◌, inl, inr, if◌then◌else◌,
}
use robotic_character_interf.Hardware.Gateway.{
  is_acknowledgement, next_sequence, after_send, judge, finish_request, read_acknowledgement,
  RobotGateway, GatewayResult, returns, raises, gateway_rejected, GatewayReceipt, Sending, Answer,
  failed, answered, request,
}
use robotic_character_interf.Protocol.Constants.{MessageType}
use robotic_character_interf.Protocol.Framing.{Frame}
use robotic_character_interf.Protocol.Messages.Control.{decode_ack, Acknowledgement}
use robotic_character_interf.Hardware.Gateway.Requests.{in_flight, Result-cases}

-- A call of `_request`, with what the transport does.
pub record Attempt : Type 0 where
  pub transport_open : Bool
  pub sending : Sending
  pub answer : Answer
  pub message_type : MessageType
  pub authorization_id : Option ℕ

abbrev pub attempt : Attempt → RobotGateway → GatewayResult GatewayReceipt × RobotGateway
attempt a g = request a.transport_open a.sending a.answer a.message_type a.authorization_id g

abbrev pub results : List Attempt → RobotGateway → List (GatewayResult GatewayReceipt)
results [] g = []
results (a ∷ attempts) g = (attempt a g).0 ∷ results attempts (attempt a g).1

abbrev pub after_all : List Attempt → RobotGateway → RobotGateway
after_all [] g = g
after_all (a ∷ attempts) g = after_all attempts (attempt a g).1

abbrev one_if : Bool → ℕ
one_if b = if b then 1 else 0

-- The attempts that found the transport open, and those whose frame was sent.
abbrev pub open_attempts : List Attempt → ℕ
open_attempts [] = 0
open_attempts (a ∷ attempts) = one_if a.transport_open + open_attempts attempts

abbrev pub sent_attempts : List Attempt → ℕ
sent_attempts [] = 0
sent_attempts (a ∷ attempts) =
    one_if (a.transport_open && is_none a.sending) + sent_attempts attempts

abbrev is_receipt : GatewayResult GatewayReceipt → ℕ
is_receipt (returns r) = 1
is_receipt (raises fault) = 0

abbrev is_rejection : GatewayResult GatewayReceipt → ℕ
is_rejection (raises (gateway_rejected m)) = 1
is_rejection _ = 0

abbrev pub receipts : List (GatewayResult GatewayReceipt) → ℕ
receipts [] = 0
receipts (r ∷ rs) = is_receipt r + receipts rs

abbrev pub rejections : List (GatewayResult GatewayReceipt) → ℕ
rejections [] = 0
rejections (r ∷ rs) = is_rejection r + rejections rs

-- What one result does to the counters.
pub record Counts (g : RobotGateway) (opened sent : ℕ) (received rejected : ℕ) (g' : RobotGateway)
    : Type 0 where
  pub sequence : g'.sequence ≡ (g.sequence + opened) % 65536
  pub sent_count : g'.sent_count ≡ g.sent_count + sent
  pub acknowledged_count : g'.acknowledged_count ≡ g.acknowledged_count + received
  pub rejected_count : g'.rejected_count ≡ g.rejected_count + rejected
  pub settled : received + rejected ≤ sent

abbrev Judged : RobotGateway → GatewayResult GatewayReceipt × RobotGateway → Type 0
Judged g (result, g') =
    (g'.sequence ≡ g.sequence)
    × (g'.sent_count ≡ g.sent_count)
    × (g'.acknowledged_count ≡ g.acknowledged_count + is_receipt result)
    × (g'.rejected_count ≡ g.rejected_count + is_rejection result)
    × (is_receipt result + is_rejection result ≤ 1)

judge-Judged :
    (t : MessageType) (id : Option ℕ) (sequence : ℕ) (answer_type : MessageType)
    (a : Acknowledgement) (g : RobotGateway)
    → Judged g (judge t id sequence answer_type a g)
unfolding judge
judge-Judged t id sequence answer_type a g =
    (ground arith, ground arith, ground arith, ground arith, ground arith)

read_acknowledgement-Judged :
    (t : MessageType) (id : Option ℕ) (sequence : ℕ) (f : Frame) (g : RobotGateway)
    → Judged g (read_acknowledgement t id sequence f g)
unfolding read_acknowledgement
read_acknowledgement-Judged t id sequence f g = elim (Result-cases (decode_ack f.payload)) [
  | inl (a, e) ↦ rw (read_acknowledgement, e) (judge-Judged t id sequence f.message_type a g)
  | inr (fault, e) ↦
      rw (read_acknowledgement, e) (refl, refl, omega arith, omega arith, omega arith)
]

finish_request-Judged :
    (t : MessageType) (id : Option ℕ) (sequence : ℕ) (answer : Answer) (g : RobotGateway)
    → Judged g (finish_request t id sequence answer g)
unfolding finish_request
finish_request-Judged t id sequence (failed exc) g =
    (refl, refl, omega arith, omega arith, omega arith)
finish_request-Judged t id sequence (answered f) g =
    if_both (Judged g) (not (is_acknowledgement f.message_type))
      (refl, refl, omega arith, omega arith, omega arith)
      (read_acknowledgement-Judged t id sequence f g)

request-Counts :
    (transport_open : Bool) (sending : Sending) (answer : Answer) (t : MessageType) (id : Option ℕ)
    (g : RobotGateway)
    → g.sequence < 65536
    → let r = request transport_open sending answer t id g in
      Counts g
        (one_if transport_open)
        (one_if (transport_open && is_none sending))
        (is_receipt r.0)
        (is_rejection r.0)
        r.1
unfolding request after_send next_sequence
request-Counts false sending answer t id g fits = record {
  sequence = omega (arith, fits);
  sent_count = omega arith;
  acknowledged_count = omega arith;
  rejected_count = omega arith;
  settled = omega arith;
}
request-Counts true (some exc) answer t id g fits = record {
  sequence = refl;
  sent_count = omega arith;
  acknowledged_count = omega arith;
  rejected_count = omega arith;
  settled = omega arith;
}
request-Counts true none answer t id g fits =
    let j = finish_request-Judged t id g.sequence answer (in_flight g) in
    record {
      sequence = j.0;
      sent_count = j.1;
      acknowledged_count = j.2;
      rejected_count = j.3;
      settled = j.4;
    }

-- Over any sequence of requests, whatever the transport does and the robot answers: the sequence
-- number, a number of 16 bits, has gone up, around 65536, by one for each request that found the
-- transport open, and the counters have gone up by the number of frames sent, of receipts returned
-- and of rejections raised; there are no more receipts and rejections than frames sent.
pub after_all-Counts :
    (attempts : List Attempt) (g : RobotGateway)
    → g.sequence < 65536
    → Counts g
        (open_attempts attempts)
        (sent_attempts attempts)
        (receipts (results attempts g))
        (rejections (results attempts g))
        (after_all attempts g)
after_all-Counts [] g fits = record {
  sequence = omega (arith, fits);
  sent_count = omega arith;
  acknowledged_count = omega arith;
  rejected_count = omega arith;
  settled = omega arith;
}
after_all-Counts (a ∷ attempts) g fits =
    let c =
      request-Counts a.transport_open a.sending a.answer a.message_type a.authorization_id g fits in
    let d = after_all-Counts attempts (attempt a g).1 (omega (arith, c.sequence)) in
    record {
      sequence = omega (arith, c.sequence, d.sequence);
      sent_count = omega (arith, c.sent_count, d.sent_count);
      acknowledged_count = omega (arith, c.acknowledged_count, d.acknowledged_count);
      rejected_count = omega (arith, c.rejected_count, d.rejected_count);
      settled = omega (arith, c.settled, d.settled);
    }
