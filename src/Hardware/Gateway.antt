-- ===== src/Hardware/Gateway.antt =====
-- rci/hardware/robot_gateway.py: the host's side of the robot's protocol: its construction and
-- one request. The children model the encoding of an authorization.
pub mod Decimals
pub mod Commands
pub mod Exact
pub mod Sorting
pub mod Encoding
pub mod Payload
pub mod Delivery
pub mod Requests
pub mod Counters
use robotic_character_interf.Base.{
  ℕ, suc, ◌+◌, ◌%◌, Bool, true, false, not, ◌&&◌, ◌||◌, String, Option, none, some, List, [], ◌∷◌,
  ◌++◌, ◌==◌, ltb, if◌then◌else◌,
}
use robotic_character_interf.Base.Dict.{Dict, is_empty}
use robotic_character_interf.Base.Float.{Float, le, zero_f}
use robotic_character_interf.Base.Int.{ℤ, pos, leb_ℤ, eqb_ℤ, pos_part}
use robotic_character_interf.Base.Message.{Message, lit, int, say, name}
use robotic_character_interf.Protocol.Constants.{
  MessageType, glove_telemetry, heartbeat, validated_motion_command, ack, nack, robot_telemetry,
  AckStatus, accepted, rejected, stale, invalid,
}
use robotic_character_interf.Protocol.Framing.{Frame, Result, ok, err, Fault}
use robotic_character_interf.Protocol.Messages.Control.{Acknowledgement, decode_ack}

-- The errors of the gateway, and those of the codecs, which it passes on.
pub data GatewayFault : Type 0 where
  gateway_error gateway_rejected gateway_protocol_error value_error : Message → GatewayFault
  codec_error : Fault → GatewayFault

pub data GatewayResult (A : Type 0) : Type 0 where
  returns : A → GatewayResult A
  raises : GatewayFault → GatewayResult A

pub record GatewayReceipt : Type 0 where
  pub frame_sequence : ℕ
  pub message_type : MessageType
  pub ack_status : AckStatus
  pub authorization_id : Option ℕ

-- `RobotGateway`, without its transport and its lock.
pub record RobotGateway : Type 0 where
  pub joint_protocol_ids : Dict ℤ
  pub ack_timeout_s : Float
  pub sequence : ℕ
  pub sent_count : ℕ
  pub acknowledged_count : ℕ
  pub rejected_count : ℕ
  pub last_acknowledged_sequence : Option ℕ

pub record GatewaySnapshot : Type 0 where
  pub is_open : Bool
  pub next_sequence : ℕ
  pub sent_count : ℕ
  pub acknowledged_count : ℕ
  pub rejected_count : ℕ
  pub last_acknowledged_sequence : Option ℕ

unfoldable pub snapshot : Bool → RobotGateway → GatewaySnapshot
snapshot transport_open g = record {
  is_open = transport_open;
  next_sequence = g.sequence;
  sent_count = g.sent_count;
  acknowledged_count = g.acknowledged_count;
  rejected_count = g.rejected_count;
  last_acknowledged_sequence = g.last_acknowledged_sequence;
}

-- `any(not 1 <= protocol_id <= 0xFF for protocol_id in ids)`
abbrev pub has_bad_id : Dict ℤ → Bool
has_bad_id [] = false
has_bad_id ((joint, id) ∷ d) = not (leb_ℤ (pos 1) id && leb_ℤ id (pos 255)) || has_bad_id d

abbrev pub id_taken : ℤ → Dict ℤ → Bool
id_taken id [] = false
id_taken id ((joint, other) ∷ d) = eqb_ℤ id other || id_taken id d

-- `len(ids) != len(set(ids))`
abbrev pub has_shared_id : Dict ℤ → Bool
has_shared_id [] = false
has_shared_id ((joint, id) ∷ d) = id_taken id d || has_shared_id d

unfoldable pub make_gateway : Dict ℤ → Float → ℤ → GatewayResult RobotGateway
make_gateway ids ack_timeout_s initial_sequence =
    if le ack_timeout_s zero_f
    then raises (value_error (say "ack_timeout_s must be positive"))
    else if not (leb_ℤ (pos 0) initial_sequence && leb_ℤ initial_sequence (pos 65535))
    then raises (value_error (say "initial_sequence must fit uint16"))
    else if is_empty ids
    then raises (value_error (say "joint_protocol_ids must not be empty"))
    else if has_bad_id ids
    then raises (value_error (say "joint protocol ids must be in [1, 255]"))
    else if has_shared_id ids
    then raises (value_error (say "joint protocol ids must be unique"))
    else returns (record {
      joint_protocol_ids = ids;
      ack_timeout_s = ack_timeout_s;
      sequence = pos_part initial_sequence;
      sent_count = 0;
      acknowledged_count = 0;
      rejected_count = 0;
      last_acknowledged_sequence = none;
    })

-- The loop of `from_settings` over the joints and their optional ids.
abbrev pub settings_ids : Dict (Option ℤ) → GatewayResult (Dict ℤ)
settings_ids [] = returns []
settings_ids ((joint, none) ∷ d) =
    raises (gateway_protocol_error (lit "joint " ∷ name joint ∷ lit " is missing protocol_id" ∷ []))
settings_ids ((joint, some id) ∷ d) = elim (settings_ids d) [
  | returns ids ↦ returns ((joint, id) ∷ ids)
  | raises fault ↦ raises fault
]

unfoldable pub from_settings : Dict (Option ℤ) → Float → ℤ → GatewayResult RobotGateway
unfolding make_gateway
from_settings joints ack_timeout_s initial_sequence = elim (settings_ids joints) [
  | returns ids ↦ make_gateway ids ack_timeout_s initial_sequence
  | raises fault ↦ raises fault
]

-- `_next_sequence`, with the sequence number that was in use.
unfoldable pub next_sequence : RobotGateway → ℕ × RobotGateway
next_sequence g = (g.sequence, record g { sequence = (g.sequence + 1) % 65536 })

-- What became of the frame that the transport was given: the text of an exception, or none.
abbrev pub Sending : Type 0
Sending = Option Message

-- What `receive_frame` ended with: an exception's text or a frame.
pub data Answer : Type 0 where
  failed : Message → Answer
  answered : Frame → Answer

-- The frame of a request.
abbrev pub request_frame : MessageType → ℕ → List ℕ → Frame
request_frame t sequence payload = record {
  message_type = t;
  sequence = sequence;
  payload = payload;
}

abbrev pub is_nack : MessageType → Bool
is_nack nack = true
is_nack _ = false

abbrev pub is_accepted : AckStatus → Bool
is_accepted accepted = true
is_accepted _ = false

abbrev pub status_name : AckStatus → String
status_name accepted = "OK"
status_name rejected = "REJECTED"
status_name stale = "STALE"
status_name invalid = "INVALID"

abbrev pub type_name : MessageType → String
type_name glove_telemetry = "GLOVE_TELEMETRY"
type_name heartbeat = "HEARTBEAT"
type_name validated_motion_command = "VALIDATED_MOTION_COMMAND"
type_name MessageType.estop = "ESTOP"
type_name ack = "ACK"
type_name nack = "NACK"
type_name robot_telemetry = "ROBOT_TELEMETRY"

-- From the acknowledgement that was decoded on.
unfoldable pub judge :
    MessageType
    → Option ℕ
    → ℕ
    → MessageType
    → Acknowledgement
    → RobotGateway
    → GatewayResult GatewayReceipt × RobotGateway
judge t authorization_id sequence answer_type a g =
    if not (eqb_ℤ a.acknowledged_sequence (pos sequence))
    then (
      raises (
          gateway_protocol_error
            (say "robot acknowledgement sequence does not match outstanding request")),
      g,
    )
    else if is_nack answer_type || not (is_accepted a.status)
    then (
      raises (
          gateway_rejected (
            lit "robot rejected sequence "
            ∷ int sequence
            ∷ lit ": "
            ∷ lit (status_name a.status)
            ∷ [])),
      record g {
        last_acknowledged_sequence = some sequence;
        rejected_count = g.rejected_count + 1;
      },
    )
    else (
      returns (record {
        frame_sequence = sequence;
        message_type = t;
        ack_status = a.status;
        authorization_id = authorization_id;
      }),
      record g {
        last_acknowledged_sequence = some sequence;
        acknowledged_count = g.acknowledged_count + 1;
      },
    )

-- A response of the type ACK or NACK.
unfoldable pub read_acknowledgement :
    MessageType → Option ℕ → ℕ → Frame → RobotGateway → GatewayResult GatewayReceipt × RobotGateway
unfolding decode_ack judge
read_acknowledgement t authorization_id sequence response g = elim (decode_ack response.payload) [
  | err fault ↦
      (raises (gateway_protocol_error (say "robot acknowledgement payload is invalid")), g)
  | ok a ↦ judge t authorization_id sequence response.message_type a g
]

abbrev pub is_acknowledgement : MessageType → Bool
is_acknowledgement ack = true
is_acknowledgement nack = true
is_acknowledgement _ = false

unfoldable pub finish_request :
    MessageType → Option ℕ → ℕ → Answer → RobotGateway → GatewayResult GatewayReceipt × RobotGateway
unfolding read_acknowledgement
finish_request t authorization_id sequence (failed exc) g = (
  raises (
      gateway_error
        (lit "robot acknowledgement failed for sequence " ∷ int sequence ∷ lit ": " ∷ exc)),
  g,
)
finish_request t authorization_id sequence (answered response) g =
    if not (is_acknowledgement response.message_type)
    then (
      raises (
          gateway_protocol_error (
            lit "expected ACK/NACK for sequence "
            ∷ int sequence
            ∷ lit ", got "
            ∷ lit (type_name response.message_type)
            ∷ [])),
      g,
    )
    else read_acknowledgement t authorization_id sequence response g

-- What follows the call of `send_frame`.
unfoldable pub after_send :
    MessageType
    → Option ℕ
    → ℕ
    → Sending
    → Answer
    → RobotGateway
    → GatewayResult GatewayReceipt × RobotGateway
unfolding finish_request
after_send t authorization_id sequence (some exc) answer g = (
  raises (gateway_error (lit "robot send failed for sequence " ∷ int sequence ∷ lit ": " ∷ exc)),
  g,
)
after_send t authorization_id sequence none answer g =
    finish_request t authorization_id sequence answer (record g { sent_count = g.sent_count + 1 })

-- `_request`, whose frame is `request_frame t g.sequence payload`: `sending` is what the transport
-- did with it, and `answer` what it then received.
unfoldable pub request :
    Bool
    → Sending
    → Answer
    → MessageType
    → Option ℕ
    → RobotGateway
    → GatewayResult GatewayReceipt × RobotGateway
unfolding next_sequence after_send
request transport_open sending answer t authorization_id g =
    if not transport_open
    then (raises (gateway_error (say "robot transport is not open")), g)
    else after_send t authorization_id (next_sequence g).0 sending answer (next_sequence g).1
