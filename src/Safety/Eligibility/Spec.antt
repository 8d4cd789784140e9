-- ===== src/Safety/Eligibility/Spec.antt =====
-- What the static checks promise, stated without their control flow.
use mathlib.Core.List.{Memᴰ}
use robotic_character_interf.Base.{String, ◌≡◌, true, false, Option, some}
use robotic_character_interf.Base.Float.{Float, isfinite, lt, le}
use robotic_character_interf.Base.Dict.{Dict, lookup, is_empty}
use robotic_character_interf.Base.Lists.{All}
use robotic_character_interf.Safety.Models.{
  JointConstraint, CartesianPoint, WorkspaceBounds, SafetyEnvelope, MotionCandidate,
}

-- A finite value within the two limits of an axis or joint.
pub data InRange : Option Float → Float → Option Float → Type 0 where
  in_range :
      {lo x hi : Float}
      → isfinite x ≡ true
      → lt lo hi ≡ true
      → le lo x ≡ true
      → le x hi ≡ true
      → InRange (some lo) x (some hi)

-- An angle that a measured joint admits.
pub data Admits (c : JointConstraint) (angle : Float) : Type 0 where
  admits :
      {lo mid hi : Float}
      → c.verified ≡ true
      → c.min_deg ≡ some lo
      → c.neutral_deg ≡ some mid
      → c.max_deg ≡ some hi
      → lt lo mid ≡ true
      → lt mid hi ≡ true
      → isfinite angle ≡ true
      → le lo angle ≡ true
      → le angle hi ≡ true
      → Admits c angle

-- A target for a joint of the model, at an angle which that joint admits.
abbrev pub TargetAllowed : Dict JointConstraint → String × Float → Type 0
TargetAllowed joints (joint, angle) =
    (c : JointConstraint) × (lookup joint joints ≡ some c) × Admits c angle

-- A point inside the measured envelope on all three axes.
pub data PointAllowed (w : WorkspaceBounds) : Option CartesianPoint → Type 0 where
  point_allowed :
      {p : CartesianPoint}
      → InRange w.min_x_mm p.x_mm w.max_x_mm
      → InRange w.min_y_mm p.y_mm w.max_y_mm
      → InRange w.min_z_mm p.z_mm w.max_z_mm
      → PointAllowed w (some p)

-- A pose that the static safety rules permit.
pub record PoseAllowed (e : SafetyEnvelope) (c : MotionCandidate) : Type 0 where
  pub estop_clear : c.estop_active ≡ false
  pub state_allowed : Memᴰ c.system_state e.allowed_states
  pub some_target : is_empty c.joint_targets_deg ≡ false
  pub servos_measured : e.servos_verified ≡ true
  pub targets_allowed : All (TargetAllowed e.joints) c.joint_targets_deg
  pub robot_measured : e.robot_verified ≡ true
  pub workspace_measured : e.workspace.verified ≡ true
  pub point_inside : PointAllowed e.workspace c.workspace_point_mm
