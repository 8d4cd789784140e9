-- ===== src/Protocol/Messages/Telemetry.antt =====
-- rci/protocols/messages.py: RobotTelemetry, the state report of the robot. The head is "<IBBHB"
-- and a joint "<BhhH"; the tests of the length rule out the errors of `unpack_from`.
use robotic_character_interf.Base.{
  ℕ, zero, suc, ◌+◌, ◌*◌, Bool, false, not, ◌&&◌, ◌||◌, ◌==◌, ltb, leb, if◌then◌else◌, Option, none,
  some, List, [], ◌∷◌, ◌++◌,
}
use mathlib.Core.Option.{map}
use robotic_character_interf.Base.Int.{eqb_ℤ, ℤ, pos_part, pos}
use robotic_character_interf.Protocol.Constants.{
  wire_state_value, max_joint_targets, WireSystemState, wire_state_of_value,
}
use robotic_character_interf.Protocol.Messages.{
  after, to_word, of_word, require_int16, pack_u32, require_uint, unpack_u32,
}
use robotic_character_interf.Protocol.Framing.{
  protocol_error, unpack_u16, pack_u16, ok, err, Fault, Result,
}
use robotic_character_interf.Base.Lists.{length}
use robotic_character_interf.Base.Message.{say}
use robotic_character_interf.Protocol.Messages.Motion.{followed_by}

pub record RobotJointTelemetry : Type 0 where
  pub joint_id : ℤ
  pub position_cdeg : ℤ
  pub velocity_cdeg_s : ℤ
  pub current_ma : ℤ

pub record RobotTelemetry : Type 0 where
  pub uptime_ms : ℤ
  pub state : WireSystemState
  pub flags : ℤ
  pub supply_mv : ℤ
  pub joints : List RobotJointTelemetry

abbrev pub reports_joint : ℤ → List RobotJointTelemetry → Bool
reports_joint id [] = false
reports_joint id (j ∷ joints) = eqb_ℤ id j.joint_id || reports_joint id joints

-- `len(joint_ids) != len(set(joint_ids))`
unfoldable pub same_joints : List RobotJointTelemetry → Bool
same_joints [] = false
same_joints (j ∷ joints) = reports_joint j.joint_id joints || same_joints joints

abbrev pub joint_bytes : RobotJointTelemetry → List ℕ
joint_bytes j =
    pos_part j.joint_id
    ∷ (pack_u16 (to_word j.position_cdeg)
        ++ (pack_u16 (to_word j.velocity_cdeg_s) ++ pack_u16 (pos_part j.current_ma)))

-- The loop over the joints.
unfoldable pub encode_joints : List RobotJointTelemetry → Result (List ℕ)
unfolding require_uint require_int16
encode_joints [] = ok []
encode_joints (j ∷ joints) =
    let rest = encode_joints joints in
    after (require_uint "joint_id" j.joint_id 8 1) (
      after (require_int16 "position_cdeg" j.position_cdeg) (
        after (require_int16 "velocity_cdeg_s" j.velocity_cdeg_s)
          (after (require_uint "current_ma" j.current_ma 16 0) (followed_by (joint_bytes j) rest))))

unfoldable pub telemetry_fault : RobotTelemetry → Option Fault
unfolding same_joints
telemetry_fault t =
    if not (leb 1 (length t.joints) && leb (length t.joints) max_joint_targets)
    then some (protocol_error (say "robot telemetry has invalid joint count"))
    else if same_joints t.joints
    then some (protocol_error (say "robot telemetry contains duplicate joint ids"))
    else none

abbrev pub telemetry_head : RobotTelemetry → List ℕ
telemetry_head t =
    pack_u32 (pos_part t.uptime_ms)
    ++ (wire_state_value t.state
        ∷ pos_part t.flags
        ∷ (pack_u16 (pos_part t.supply_mv) ++ length t.joints ∷ []))

unfoldable pub encode_telemetry : RobotTelemetry → Result (List ℕ)
unfolding require_uint telemetry_fault encode_joints wire_state_value
encode_telemetry t = after (require_uint "uptime_ms" t.uptime_ms 32 0) (
    after (require_uint "flags" t.flags 8 0) (
      after (require_uint "supply_mv" t.supply_mv 16 0)
        (after (telemetry_fault t) (followed_by (telemetry_head t) (encode_joints t.joints)))))

pub record TelemetryHead : Type 0 where
  pub uptime_ms : ℕ
  pub raw_state : ℕ
  pub flags : ℕ
  pub supply_mv : ℕ
  pub joint_count : ℕ
  pub rest : List ℕ

unfoldable pub unpack_telemetry_head : List ℕ → Option TelemetryHead
unpack_telemetry_head (u0 ∷ u1 ∷ u2 ∷ u3 ∷ state ∷ flags ∷ s0 ∷ s1 ∷ joint_count ∷ rest) =
    some (record {
      uptime_ms = unpack_u32 u0 u1 u2 u3;
      raw_state = state;
      flags = flags;
      supply_mv = unpack_u16 s0 s1;
      joint_count = joint_count;
      rest = rest;
    })
unpack_telemetry_head _ = none

-- The loop over `range(joint_count)`.
unfoldable pub read_joints : ℕ → List ℕ → Option (List RobotJointTelemetry)
read_joints zero bytes = some []
read_joints (suc n) (id ∷ p0 ∷ p1 ∷ v0 ∷ v1 ∷ c0 ∷ c1 ∷ bytes) =
    map
      (λ joints.
        record {
          joint_id = pos id;
          position_cdeg = of_word (unpack_u16 p0 p1);
          velocity_cdeg_s = of_word (unpack_u16 v0 v1);
          current_ma = pos (unpack_u16 c0 c1);
        }
        ∷ joints)
      (read_joints n bytes)
read_joints (suc n) _ = none

-- `decoded.encode()`, called for its checks, and the return of `decoded`.
abbrev pub telemetry_checked : RobotTelemetry → Result (List ℕ) → Result RobotTelemetry
telemetry_checked t (ok bytes) = ok t
telemetry_checked t (err fault) = err fault

abbrev pub truncated : Result RobotTelemetry
truncated = err (protocol_error (say "robot telemetry payload is truncated"))

-- The state, and the joints.
unfoldable pub decode_telemetry_body :
    TelemetryHead
    → Option WireSystemState
    → Option (List RobotJointTelemetry)
    → Result RobotTelemetry
unfolding encode_telemetry
decode_telemetry_body h none joints =
    err (protocol_error (say "robot telemetry contains an unknown state"))
decode_telemetry_body h (some state) none = truncated
decode_telemetry_body h (some state) (some joints) =
    let decoded : RobotTelemetry = record {
      uptime_ms = pos h.uptime_ms;
      state = state;
      flags = pos h.flags;
      supply_mv = pos h.supply_mv;
      joints = joints;
    } in
    telemetry_checked decoded (encode_telemetry decoded)

unfoldable pub decode_telemetry_head : ℕ → Option TelemetryHead → Result RobotTelemetry
unfolding decode_telemetry_body read_joints wire_state_of_value
decode_telemetry_head size none = truncated
decode_telemetry_head size (some h) =
    if not (leb 1 h.joint_count && leb h.joint_count max_joint_targets)
    then err (protocol_error (say "robot telemetry has invalid joint count"))
    else if not (size == 9 + h.joint_count * 7)
    then err (protocol_error (say "robot telemetry payload length mismatch"))
    else decode_telemetry_body h (wire_state_of_value h.raw_state)
        (read_joints h.joint_count h.rest)

unfoldable pub decode_telemetry : List ℕ → Result RobotTelemetry
unfolding decode_telemetry_head unpack_telemetry_head
decode_telemetry payload =
    if ltb (length payload) (9 + 7)
    then truncated
    else decode_telemetry_head (length payload) (unpack_telemetry_head payload)
