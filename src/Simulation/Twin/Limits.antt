-- ===== src/Simulation/Twin/Limits.antt =====
-- rci/simulation/digital_twin.py: `accept` against the limits of the reference joints.
use robotic_character_interf.Simulation.Twin.Commands.{AreKnown, AreCommanded}
use robotic_character_interf.Base.{◌≡◌, true, Option, none, some, [], ◌∷◌, String}
use robotic_character_interf.Base.Dict.{Dict, lookup, keys}
use robotic_character_interf.Base.Float.{Float, isfinite, le}
use robotic_character_interf.Base.Int.{ℤ}
use robotic_character_interf.Base.Message.{Message}
use robotic_character_interf.Protocol.Constants.{executing}
use robotic_character_interf.Protocol.Messages.Motion.{ValidatedMotionCommand}
use robotic_character_interf.Robotics.{Joints, ReferenceJoint, same_names}
use robotic_character_interf.Simulation.Twin.{DigitalTwinRobot}

-- A finite position in the joint's range.
pub record IsInRange (joints : Joints) (joint : String) (value : Float) : Type 0 where
  pub spec : ReferenceJoint
  pub known : lookup joint joints ≡ some spec
  pub finite : isfinite value ≡ true
  pub low : le spec.lower_deg value ≡ true
  pub high : le value spec.upper_deg ≡ true

abbrev pub AreInRange : Joints → Dict Float → Type 0
AreInRange joints [] = Unit
AreInRange joints ((joint, value) ∷ d) = IsInRange joints joint value × AreInRange joints d

-- Targets for exactly the joints of the model, each in its range.
abbrev pub AreAllowed : Joints → Dict Float → Type 0
AreAllowed joints targets =
    (same_names (keys targets) (keys joints) ≡ true) × AreInRange joints targets

-- The twin has taken the command.
pub record IsMoving (centi : ℤ → Float) (m : ValidatedMotionCommand)
    (before after : DigitalTwinRobot) : Type 0 where
  pub same_joints : after.joints ≡ before.joints
  pub every_joint : same_names (keys after.targets) (keys after.joints) ≡ true
  pub in_range : AreInRange after.joints after.targets
  pub known : AreKnown before.joints m.targets
  pub commanded : AreCommanded centi before.joints m.targets before.targets after.targets
  pub velocity : after.command_velocity_limit ≡ centi m.max_velocity_cdeg_s
  pub acceleration : after.command_acceleration_limit ≡ centi m.max_acceleration_cdeg_s2
  pub moving : after.state ≡ executing
  pub same_positions : after.positions ≡ before.positions

-- Why a command is refused: it has a target for a joint that the model does not have, or the targets
-- that it asks for are not allowed.
pub data Refusal (centi : ℤ → Float) (m : ValidatedMotionCommand) (twin : DigitalTwinRobot)
    : Type 0 where
  unknown_joint : ¬ AreKnown twin.joints m.targets → Refusal centi m twin
  not_allowed :
      (targets : Dict Float)
      → AreCommanded centi twin.joints m.targets twin.targets targets
      → ¬ AreAllowed twin.joints targets
      → Refusal centi m twin

abbrev pub Verdict :
    (ℤ → Float)
    → ValidatedMotionCommand
    → DigitalTwinRobot
    → Option Message × DigitalTwinRobot
    → Type 0
Verdict centi m before (none, after) = IsMoving centi m before after
Verdict centi m before (some e, after) = (after ≡ before) × Refusal centi m before
