-- ===== src/Hardware/Gateway/Commands.antt =====
-- rci/hardware/robot_gateway.py: `_encode_authorization`.
use robotic_character_interf.Protocol.Constants.{
  MessageType, validated_motion_command, heartbeat, host, EstopReason, WireSystemState,
}
use robotic_character_interf.Protocol.Framing.{Result, ok, err}
use robotic_character_interf.Base.{
  ℕ, zero, suc, ◌/◌, ◌%◌, Bool, Option, none, some, List, [], ◌∷◌, if◌then◌else◌, String,
}
use robotic_character_interf.Base.Float.{Float}
use robotic_character_interf.Base.Dict.{Dict, lookup}
use robotic_character_interf.Base.Int.{ℤ, pos, negsuc, leb_ℤ}
use robotic_character_interf.Base.Message.{say, lit, name}
use robotic_character_interf.Hardware.Gateway.{
  GatewayReceipt, Answer, codec_error, request, Sending, RobotGateway, GatewayResult, returns,
  raises, gateway_protocol_error,
}
use robotic_character_interf.Hardware.Gateway.Decimals.{Decimal, exact_protocol_integer}
use robotic_character_interf.Protocol.Messages.Motion.{
  encode_motion, JointTarget, ValidatedMotionCommand,
}
use robotic_character_interf.Safety.Supervisor.{MotionAuthorization}
use robotic_character_interf.Protocol.Constants.{position}
use robotic_character_interf.Protocol.Messages.Control.{encode_estop, encode_heartbeat}

-- The next step on a result.
abbrev pub then_do : {A B : Type 0} → GatewayResult A → (A → GatewayResult B) → GatewayResult B
then_do (returns a) k = k a
then_do (raises fault) k = raises fault

-- `targets.sort(key=lambda target: target.joint_id)`, which keeps the order of equal keys.
abbrev pub insert_target : JointTarget → List JointTarget → List JointTarget
insert_target t [] = t ∷ []
insert_target t (u ∷ targets) =
    let rest = insert_target t targets in
    if leb_ℤ t.joint_id u.joint_id then t ∷ u ∷ targets else u ∷ rest

abbrev pub sort_targets : List JointTarget → List JointTarget
sort_targets [] = []
sort_targets (t ∷ targets) = insert_target t (sort_targets targets)

-- The sixteen bytes of a UUID, the highest first.
abbrev pub uuid_bytes_from : ℕ → ℕ → List ℕ → List ℕ
uuid_bytes_from zero n bytes = bytes
uuid_bytes_from (suc k) n bytes = uuid_bytes_from k (n / 256) (n % 256 ∷ bytes)

abbrev pub uuid_bytes : ℕ → List ℕ
uuid_bytes n = uuid_bytes_from 16 n []

-- One item of the mapping, with what the joint's name was looked up to.
unfoldable pub target_of :
    (Float → Option Decimal) → String → Float → Option ℤ → GatewayResult JointTarget
unfolding exact_protocol_integer
target_of decimal_of joint angle_deg none =
    raises
      (gateway_protocol_error (lit "authorization references unmapped joint " ∷ name joint ∷ []))
target_of decimal_of joint angle_deg (some id) =
    then_do
      (exact_protocol_integer decimal_of (lit "joint " ∷ name joint ∷ lit " target" ∷ []) angle_deg
        100 (negsuc 32767) (pos 32767))
      (λ target_cdeg. returns (record { joint_id = id; target_cdeg = target_cdeg }))

-- The loop over the targets.
unfoldable pub joint_targets :
    (Float → Option Decimal) → Dict ℤ → Dict Float → GatewayResult (List JointTarget)
unfolding target_of
joint_targets decimal_of ids [] = returns []
joint_targets decimal_of ids ((joint, angle_deg) ∷ d) =
    then_do (target_of decimal_of joint angle_deg (lookup joint ids))
      (λ t. then_do (joint_targets decimal_of ids d) (λ targets. returns (t ∷ targets)))

-- `_encode_authorization`
unfoldable pub encode_authorization :
    (Float → Option Decimal)
    → RobotGateway
    → MotionAuthorization
    → GatewayResult ValidatedMotionCommand
unfolding joint_targets exact_protocol_integer
encode_authorization decimal_of g a =
    then_do (joint_targets decimal_of g.joint_protocol_ids a.joint_targets_deg) (λ targets.
      then_do
        (exact_protocol_integer decimal_of (say "command_ttl_ms") a.command_ttl_ms 1 (pos 1)
          (pos 65535))
        (λ ttl_ms.
          then_do
            (exact_protocol_integer decimal_of (say "max_velocity_deg_s") a.max_velocity_deg_s 100
              (pos 1) (pos 65535))
            (λ max_velocity.
              then_do
                (exact_protocol_integer decimal_of (say "max_acceleration_deg_s2")
                  a.max_acceleration_deg_s2 100 (pos 1) (pos 65535))
                (λ max_acceleration. returns (record {
                  command_id = uuid_bytes a.authorization_id;
                  ttl_ms = ttl_ms;
                  mode = position;
                  targets = sort_targets targets;
                  max_velocity_cdeg_s = max_velocity;
                  max_acceleration_cdeg_s2 = max_acceleration;
                })))))

-- What a codec raises passes through.
abbrev pub of_codec : Result (List ℕ) → GatewayResult (List ℕ)
of_codec (ok payload) = returns payload
of_codec (err fault) = raises (codec_error fault)

-- `command.encode()`, `heartbeat.encode()` and `estop.encode()`.
unfoldable pub command_payload :
    (Float → Option Decimal) → RobotGateway → MotionAuthorization → GatewayResult (List ℕ)
unfolding encode_authorization encode_motion
command_payload decimal_of g a =
    then_do (encode_authorization decimal_of g a) (λ m. of_codec (encode_motion m))

unfoldable pub heartbeat_payload : ℤ → WireSystemState → GatewayResult (List ℕ)
unfolding encode_heartbeat
heartbeat_payload uptime_ms state =
    of_codec (encode_heartbeat (record { source = host; uptime_ms = uptime_ms; state = state }))

unfoldable pub estop_payload : EstopReason → GatewayResult (List ℕ)
unfolding encode_estop
estop_payload reason = returns (encode_estop (record { source = host; reason = reason }))

-- The payload is encoded before the request is begun.
abbrev pub request_with :
    Bool
    → Sending
    → Answer
    → MessageType
    → Option ℕ
    → GatewayResult (List ℕ)
    → RobotGateway
    → GatewayResult GatewayReceipt × RobotGateway
request_with transport_open sending answer t id (returns payload) g =
    request transport_open sending answer t id g
request_with transport_open sending answer t id (raises fault) g = (raises fault, g)

-- For each, the frame is `request_frame` of the type, the gateway's sequence number and the payload.
unfoldable pub send_authorization :
    (Float → Option Decimal)
    → Bool
    → Sending
    → Answer
    → MotionAuthorization
    → RobotGateway
    → GatewayResult GatewayReceipt × RobotGateway
unfolding command_payload request
send_authorization decimal_of transport_open sending answer a g =
    request_with transport_open sending answer validated_motion_command (some a.authorization_id)
      (command_payload decimal_of g a) g

unfoldable pub send_heartbeat :
    Bool
    → Sending
    → Answer
    → ℤ
    → WireSystemState
    → RobotGateway
    → GatewayResult GatewayReceipt × RobotGateway
unfolding heartbeat_payload request
send_heartbeat transport_open sending answer uptime_ms state g =
    request_with transport_open sending answer heartbeat none (heartbeat_payload uptime_ms state) g

unfoldable pub send_estop :
    Bool
    → Sending
    → Answer
    → EstopReason
    → RobotGateway
    → GatewayResult GatewayReceipt × RobotGateway
unfolding estop_payload request
send_estop transport_open sending answer reason g =
    request_with transport_open sending answer MessageType.estop none (estop_payload reason) g
