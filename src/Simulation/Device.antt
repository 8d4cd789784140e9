-- ===== src/Simulation/Device.antt =====
-- rci/simulation/device.py: the digital twin as an endpoint of the robot's protocol.
use robotic_character_interf.Base.{is_none, ℕ, ◌+◌, ◌%◌, Bool, true, false, Option, some, List}
use robotic_character_interf.Base.Float.{Float}
use robotic_character_interf.Base.Int.{ℤ, pos}
use robotic_character_interf.Base.Message.{Message}
use robotic_character_interf.Hardware.{Outcome, done, waits, raised, TransportFault}
use robotic_character_interf.Hardware.Memory.{device, Link}
use robotic_character_interf.Hardware.Frames.{Reply, frame, receive_frame, send_frame}
use robotic_character_interf.Protocol.Constants.{
  MessageType, heartbeat, validated_motion_command, ack, nack, AckStatus, accepted, invalid,
}
use robotic_character_interf.Protocol.Framing.{Frame, Result, ok, err, Fault}
use robotic_character_interf.Protocol.Messages.Control.{encode_ack, decode_heartbeat, decode_estop}
use robotic_character_interf.Protocol.Messages.Motion.{decode_motion, ValidatedMotionCommand}
use robotic_character_interf.Simulation.ProtocolLink.{
  SimulatedProtocolLink, with_link, with_transport,
}
use robotic_character_interf.Simulation.Twin.{DigitalTwinRobot, accept, estop}

pub record DigitalTwinExchange : Type 0 where
  pub request_type : MessageType
  pub request_sequence : ℕ
  pub status : AckStatus

-- `DigitalTwinProtocolDevice`, without its transport.
pub record DigitalTwinProtocolDevice : Type 0 where
  pub twin : DigitalTwinRobot
  pub response_sequence : ℕ

-- Whether `_dispatch` returned, and the twin after it.
abbrev pub Dispatched : Type 0
Dispatched = Bool × DigitalTwinRobot

abbrev pub accepted_if : Option Message × DigitalTwinRobot → Dispatched
accepted_if (e, twin) = (is_none e, twin)

abbrev pub after_motion :
    (ℤ → Float) → DigitalTwinRobot → Result ValidatedMotionCommand → Dispatched
after_motion centi twin (ok m) = accepted_if (accept centi twin m)
after_motion centi twin (err fault) = (false, twin)

abbrev pub after_decode : {A : Type 0} → DigitalTwinRobot → DigitalTwinRobot → Result A → Dispatched
after_decode twin next (ok a) = (true, next)
after_decode twin next (err fault) = (false, twin)

unfoldable pub dispatch : (ℤ → Float) → Frame → DigitalTwinRobot → Dispatched
unfolding accept estop decode_heartbeat decode_estop decode_motion
dispatch centi f twin = elim f.message_type [
  | heartbeat ↦ after_decode twin twin (decode_heartbeat f.payload)
  | validated_motion_command ↦ after_motion centi twin (decode_motion f.payload)
  | MessageType.estop ↦ after_decode twin (estop twin) (decode_estop f.payload)
  | _ ↦ (false, twin)
]

-- How `serve_once` ends: with the exchange, with what `receive_frame` ended with, or with the
-- fault of the answer, or waiting to write it.
pub data ServeReply : Type 0 where
  served : DigitalTwinExchange → ServeReply
  not_received : Reply → ServeReply
  not_encoded : Fault → ServeReply
  not_answered : TransportFault → ServeReply
  answer_waits : ServeReply

pub record Served : Type 0 where
  pub reply : ServeReply
  pub endpoint : DigitalTwinProtocolDevice
  pub link : SimulatedProtocolLink

abbrev pub status_of : Bool → AckStatus
status_of true = accepted
status_of false = invalid

abbrev pub response_type : Bool → MessageType
response_type true = ack
response_type false = nack

abbrev pub exchange_of : Frame → Bool → DigitalTwinExchange
exchange_of f good = record {
  request_type = f.message_type;
  request_sequence = f.sequence;
  status = status_of good;
}

abbrev pub after_answer :
    Frame → Bool → DigitalTwinProtocolDevice → SimulatedProtocolLink → Outcome Link → Served
after_answer f good d p (done l) = record {
  reply = served (exchange_of f good);
  endpoint = d;
  link = with_link p l;
}
after_answer f good d p waits = record { reply = answer_waits; endpoint = d; link = p }
after_answer f good d p (raised fault) = record {
  reply = not_answered fault;
  endpoint = d;
  link = p;
}

-- The frame of the answer, with its payload; its construction comes after the next number is taken.
unfoldable pub answer :
    Frame → Bool → DigitalTwinRobot → ℕ → SimulatedProtocolLink → Result (List ℕ) → Served
unfolding send_frame
answer f good twin sequence p (err fault) = record {
  reply = not_encoded fault;
  endpoint = record { twin = twin; response_sequence = (sequence + 1) % 65536 };
  link = p;
}
answer f good twin sequence p (ok payload) =
    after_answer f good (record { twin = twin; response_sequence = (sequence + 1) % 65536 }) p
      (send_frame device
        (record { message_type = response_type good; sequence = sequence; payload = payload })
        p.link)

-- From the dispatch on.
unfoldable pub serve_frame :
    (ℤ → Float) → DigitalTwinProtocolDevice → SimulatedProtocolLink → Frame → Served
unfolding dispatch answer encode_ack
serve_frame centi d p f =
    let done_with = dispatch centi f d.twin in
    answer f done_with.0 done_with.1 d.response_sequence p (
      encode_ack
        (record { acknowledged_sequence = pos f.sequence; status = status_of done_with.0 }))

abbrev pub after_reception :
    (ℤ → Float) → DigitalTwinProtocolDevice → SimulatedProtocolLink → Reply → Served
after_reception centi d p (frame f) = serve_frame centi d p f
after_reception centi d p reply = record { reply = not_received reply; endpoint = d; link = p }

-- `serve_once`; `late` says that the deadline passes while there is nothing to read.
unfoldable pub serve_once :
    (ℤ → Float) → Float → Bool → DigitalTwinProtocolDevice → SimulatedProtocolLink → Served
unfolding serve_frame receive_frame
serve_once centi timeout_s late d p =
    let r = receive_frame device (some timeout_s) late p.device p.link in
    after_reception centi d (with_transport device r.transport (with_link p r.link)) r.reply
