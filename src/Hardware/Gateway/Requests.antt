-- ===== src/Hardware/Gateway/Requests.antt =====
-- rci/hardware/robot_gateway.py: what a request of the gateway comes to, and runs of requests.
use robotic_character_interf.Base.{
  ◌⊎◌, ℕ, ◌+◌, ◌%◌, ◌≡◌, ◌↔◌, refl, sym, ap, ◌∙◌, arith, Bool, true, false, Option, none, some,
  Bool-cases, inl, inr,
}
use robotic_character_interf.Base.Int.{eq_of_parts, eqb_ℤ, pos}
use robotic_character_interf.Hardware.Gateway.{
  next_sequence, finish_request, read_acknowledgement, after_send, is_acknowledgement, judge,
  RobotGateway, returns, GatewayReceipt, Sending, Answer, failed, answered, request,
}
use robotic_character_interf.Protocol.Constants.{MessageType, ack, accepted}
use robotic_character_interf.Protocol.Framing.{Fault, Result, Frame, ok, err}
use robotic_character_interf.Protocol.Messages.Control.{Acknowledgement, decode_ack}

-- The frame was sent, and the answer acknowledges it.
pub record IsConfirmed (transport_open : Bool) (sending : Sending) (answer : Answer) (sequence : ℕ)
    : Type 0 where
  pub response : Frame
  pub transport_was_open : transport_open ≡ true
  pub was_sent : sending ≡ none
  pub got : answer ≡ answered response
  pub type_ack : response.message_type ≡ ack
  pub content :
      decode_ack response.payload
      ≡ ok (record { acknowledged_sequence = pos sequence; status = accepted })

abbrev pub receipt_of : MessageType → Option ℕ → ℕ → GatewayReceipt
receipt_of t authorization_id sequence = record {
  frame_sequence = sequence;
  message_type = t;
  ack_status = accepted;
  authorization_id = authorization_id;
}

same_acknowledgement :
    (a : Acknowledgement) (sequence : ℕ)
    → eqb_ℤ a.acknowledged_sequence (pos sequence) ≡ true
    → a.status ≡ accepted
    → a ≡ record { acknowledged_sequence = pos sequence; status = accepted }
same_acknowledgement a sequence same status =
    let number : a.acknowledged_sequence ≡ pos sequence =
      eq_of_parts a.acknowledged_sequence (pos sequence) (ground arith) in
    ap (λ z. record { acknowledged_sequence = z; status = a.status }) number
    ∙ ap (λ s. record { acknowledged_sequence = pos sequence; status = s }) status

pub Result-cases :
    {A : Type 0} (r : Result A) → ((a : A) × (r ≡ ok a)) ⊎ ((fault : Fault) × (r ≡ err fault))
Result-cases (ok a) = inl (a, refl)
Result-cases (err fault) = inr (fault, refl)

-- The gateway when it has sent a frame.
abbrev pub in_flight : RobotGateway → RobotGateway
in_flight g = record g { sequence = (g.sequence + 1) % 65536; sent_count = g.sent_count + 1 }

judge-receipt :
    (t : MessageType) (authorization_id : Option ℕ) (sequence : ℕ) (answer_type : MessageType)
    (a : Acknowledgement) (g : RobotGateway) (r : GatewayReceipt)
    → is_acknowledgement answer_type ≡ true
    → (judge t authorization_id sequence answer_type a g).0 ≡ returns r
    → (answer_type ≡ ack)
      × (eqb_ℤ a.acknowledged_sequence (pos sequence) ≡ true)
      × (a.status ≡ accepted)
      × (r ≡ receipt_of t authorization_id sequence)
unfolding judge
judge-receipt t authorization_id sequence answer_type a g r known h =
    (ground arith, ground arith, ground arith, ground arith)

read_acknowledgement-receipt :
    (t : MessageType) (authorization_id : Option ℕ) (sequence : ℕ) (f : Frame) (g : RobotGateway)
    (r : GatewayReceipt)
    → is_acknowledgement f.message_type ≡ true
    → (read_acknowledgement t authorization_id sequence f g).0 ≡ returns r
    → (f.message_type ≡ ack)
      × (decode_ack f.payload
          ≡ ok (record { acknowledged_sequence = pos sequence; status = accepted }))
      × (r ≡ receipt_of t authorization_id sequence)
unfolding read_acknowledgement
read_acknowledgement-receipt t authorization_id sequence f g r known h =
    elim (Result-cases (decode_ack f.payload)) [
      | inr (fault, e) ↦ absurd (ground (arith, e))
      | inl (a, e) ↦
          let (type_ack, same, status, receipt) =
            judge-receipt t authorization_id sequence f.message_type a g r known
              (ground (arith, e)) in
          (type_ack, e ∙ ap (λ b. ok b) (same_acknowledgement a sequence same status), receipt)
    ]

request-receipt :
    (transport_open : Bool) (sending : Sending) (answer : Answer) (t : MessageType)
    (authorization_id : Option ℕ) (g : RobotGateway) (r : GatewayReceipt)
    → (request transport_open sending answer t authorization_id g).0 ≡ returns r
    → IsConfirmed transport_open sending answer g.sequence
      × (r ≡ receipt_of t authorization_id g.sequence)
unfolding request after_send finish_request next_sequence
request-receipt false sending answer t authorization_id g r h = absurd (ground arith)
request-receipt true (some exc) answer t authorization_id g r h = absurd (ground arith)
request-receipt true none (failed exc) t authorization_id g r h = absurd (ground arith)
request-receipt true none (answered f) t authorization_id g r h =
    elim (Bool-cases (is_acknowledgement f.message_type)) [
      | inr other ↦ absurd (ground (arith, other))
      | inl known ↦
          let (type_ack, content, receipt) =
            read_acknowledgement-receipt t authorization_id g.sequence f (in_flight g) r known
              (ground (arith, known)) in
          (
            record {
              response = f;
              transport_was_open = refl;
              was_sent = refl;
              got = refl;
              type_ack = type_ack;
              content = content;
            },
            receipt,
          )
    ]

request-confirmed :
    (transport_open : Bool) (sending : Sending) (answer : Answer) (t : MessageType)
    (authorization_id : Option ℕ) (g : RobotGateway)
    → IsConfirmed transport_open sending answer g.sequence
    → (request transport_open sending answer t authorization_id g).0
      ≡ returns (receipt_of t authorization_id g.sequence)
unfolding request after_send finish_request next_sequence read_acknowledgement judge
request-confirmed transport_open sending answer t authorization_id g c =
    rw (c.transport_was_open, c.was_sent, c.got) (ground (arith, c.type_ack, c.content))

-- A request ends with a receipt exactly when the transport is open, the frame is sent, and the
-- answer is a frame of the type ACK whose payload decodes to an acknowledgement of the frame's
-- own sequence number with the status OK; and a receipt is the request's: it has that sequence
-- number, the request's message type and identifier, and the status OK.
pub request-IsConfirmed :
    (transport_open : Bool) (sending : Sending) (answer : Answer) (t : MessageType)
    (authorization_id : Option ℕ) (g : RobotGateway) (r : GatewayReceipt)
    → ((request transport_open sending answer t authorization_id g).0 ≡ returns r) ↔ (
        IsConfirmed transport_open sending answer g.sequence
        × (r ≡ receipt_of t authorization_id g.sequence))
request-IsConfirmed transport_open sending answer t authorization_id g r = (
  request-receipt transport_open sending answer t authorization_id g r,
  λ c.
      request-confirmed transport_open sending answer t authorization_id g c.0
      ∙ ap (λ s. returns s) (sym c.1),
)
