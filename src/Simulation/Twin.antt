-- ===== src/Simulation/Twin.antt =====
-- rci/simulation/digital_twin.py: the digital twin, but for its motion over time and its telemetry.
-- `centi z` stands for the float `z / 100.0`.
pub mod Commands
pub mod Limits
use robotic_character_interf.Base.{
  ℕ, ◌+◌, Bool, true, false, not, ◌&&◌, String, Option, none, some, List, [], ◌∷◌, ◌++◌, ltb,
  if◌then◌else◌,
}
use text.Mathlib.Text.{◌==◌ as str_eq}
use robotic_character_interf.Base.Dict.{Dict, lookup, keys}
use robotic_character_interf.Base.Float.{Float, lt, zero_f}
use robotic_character_interf.Base.Int.{ℤ, pos, leb_ℤ, eqb_ℤ, pos_part}
use robotic_character_interf.Base.Message.{Message, lit, int, say}
use robotic_character_interf.Protocol.Constants.{idle, executing, WireSystemState}
use robotic_character_interf.Protocol.Messages.Motion.{JointTarget, ValidatedMotionCommand}
use robotic_character_interf.Robotics.{Joints, ReferenceJoint, home, validate_joint_positions}

pub record DigitalTwinRobot : Type 0 where
  pub joints : Joints
  pub supply_mv : ℕ
  pub positions : Dict Float
  pub velocities : Dict Float
  pub targets : Dict Float
  pub currents : Dict ℕ
  pub uptime_ms : ℕ
  pub state : WireSystemState
  pub command_velocity_limit : Float
  pub command_acceleration_limit : Float

-- `{name: value for name in model.joint_names}`
abbrev pub for_all_joints {ℓ} : {V : Type ℓ} → V → Joints → Dict V
for_all_joints value [] = []
for_all_joints value ((joint, j) ∷ d) = (joint, value) ∷ for_all_joints value d

-- `min` over the joints, from the least so far on.
abbrev pub least : (ReferenceJoint → Float) → Float → Joints → Float
least of so_far [] = so_far
least of so_far ((joint, j) ∷ d) = least of (if lt (of j) so_far then of j else so_far) d

-- The construction; `none` is its error, as it is that of `min` on no joints.
unfoldable pub make_twin : Joints → ℤ → Option DigitalTwinRobot
make_twin [] supply_mv = none
make_twin ((joint, j) ∷ joints) supply_mv =
    if not (leb_ℤ (pos 1) supply_mv && leb_ℤ supply_mv (pos 65535))
    then none
    else some (record {
      joints = (joint, j) ∷ joints;
      supply_mv = pos_part supply_mv;
      positions = home ((joint, j) ∷ joints);
      velocities = for_all_joints zero_f ((joint, j) ∷ joints);
      targets = home ((joint, j) ∷ joints);
      currents = for_all_joints 80 ((joint, j) ∷ joints);
      uptime_ms = 0;
      state = idle;
      command_velocity_limit = least (λ k. k.max_velocity_deg_s) j.max_velocity_deg_s joints;
      command_acceleration_limit =
          least (λ k. k.max_acceleration_deg_s2) j.max_acceleration_deg_s2 joints;
    })

-- `_id_to_name.get(id)`: of joints of one id the dictionary keeps the last.
abbrev pub name_of_id : ℤ → Joints → Option String
name_of_id id [] = none
name_of_id id ((joint, j) ∷ d) = elim (name_of_id id d) [
  | some later ↦ some later
  | none ↦ if eqb_ℤ j.protocol_id id then some joint else none
]

-- `d[key] = value`
abbrev pub set_item {ℓ} : {V : Type ℓ} → String → V → Dict V → Dict V
set_item key value [] = (key, value) ∷ []
set_item key value ((k, v) ∷ d) =
    let rest = set_item key value d in if str_eq k key then (k, value) ∷ d else (k, v) ∷ rest

-- The error of `accept`, or the targets that it sets.
pub data Accepted : Type 0 where
  refused : Message → Accepted
  new_targets : Dict Float → Accepted

abbrev pub set_named : (ℤ → Float) → JointTarget → Dict Float → Option String → Accepted
set_named centi t targets none =
    refused (lit "unknown simulated joint id " ∷ int (pos_part t.joint_id) ∷ [])
set_named centi t targets (some joint) = new_targets (set_item joint (centi t.target_cdeg) targets)

-- The loop over the command's targets.
unfoldable pub set_targets : (ℤ → Float) → Joints → List JointTarget → Dict Float → Accepted
set_targets centi joints [] targets = new_targets targets
set_targets centi joints (t ∷ commanded) targets =
    elim (set_named centi t targets (name_of_id t.joint_id joints)) [
      | refused m ↦ refused m
      | new_targets next ↦ set_targets centi joints commanded next
    ]

abbrev pub check_targets : Joints → Accepted → Accepted
check_targets joints (refused m) = refused m
check_targets joints (new_targets targets) = elim (validate_joint_positions joints targets) [
  | some m ↦ refused (lit "simulated command violates reference model: " ∷ m)
  | none ↦ new_targets targets
]

abbrev pub start_motion :
    (ℤ → Float) → DigitalTwinRobot → ValidatedMotionCommand → Dict Float → DigitalTwinRobot
start_motion centi twin m targets = record twin {
  targets = targets;
  command_velocity_limit = centi m.max_velocity_cdeg_s;
  command_acceleration_limit = centi m.max_acceleration_cdeg_s2;
  state = executing;
}

abbrev pub apply_accepted :
    (ℤ → Float)
    → DigitalTwinRobot
    → ValidatedMotionCommand
    → Accepted
    → Option Message × DigitalTwinRobot
apply_accepted centi twin m (refused e) = (some e, twin)
apply_accepted centi twin m (new_targets targets) = (none, start_motion centi twin m targets)

-- `accept`, with the twin after it; an error leaves the twin as it was.
unfoldable pub accept :
    (ℤ → Float) → DigitalTwinRobot → ValidatedMotionCommand → Option Message × DigitalTwinRobot
unfolding set_targets validate_joint_positions
accept centi twin m =
    apply_accepted centi twin m
      (check_targets twin.joints (set_targets centi twin.joints m.targets twin.targets))

unfoldable pub estop : DigitalTwinRobot → DigitalTwinRobot
estop twin = record twin {
  targets = twin.positions;
  velocities = for_all_joints zero_f twin.joints;
  state = WireSystemState.estop;
}

abbrev pub is_estop : WireSystemState → Bool
is_estop WireSystemState.estop = true
is_estop _ = false

unfoldable pub reset_estop : DigitalTwinRobot → DigitalTwinRobot
reset_estop twin = if is_estop twin.state then record twin { state = idle } else twin
