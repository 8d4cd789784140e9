-- ===== src/Safety/Models.antt =====
-- rci/safety/models.py: constraints, envelopes, candidates and violations.
use robotic_character_interf.Base.{
  String, Bool, true, false, not, ◌&&◌, Option, some, List, [], ◌∷◌,
}
use robotic_character_interf.Base.Float.{Float, isfinite, lt, le, zero_f}
use robotic_character_interf.Base.Dict.{Dict, is_empty}
use robotic_character_interf.Base.Message.{Message}
use robotic_character_interf.Domain.{SystemState, MotionDecision, SafetySeverity, critical, approve}

pub data SafetyViolationCode : Type 0 where
  estop_active state_not_allowed joint_model_unverified : SafetyViolationCode
  workspace_model_unverified empty_joint_targets unknown_joint : SafetyViolationCode
  invalid_numeric_target joint_limit_violation workspace_target_required : SafetyViolationCode
  workspace_limit_violation motion_policy_unavailable command_age_invalid : SafetyViolationCode
  command_stale heartbeat_age_invalid heartbeat_stale velocity_sample_missing : SafetyViolationCode
  acceleration_sample_missing dynamic_sample_unknown_joint : SafetyViolationCode
  velocity_limit_violation acceleration_limit_violation : SafetyViolationCode
  lifecycle_estop_latched watchdog_not_armed watchdog_unhealthy : SafetyViolationCode

pub record JointConstraint : Type 0 where
  pub name : String
  pub min_deg : Option Float
  pub max_deg : Option Float
  pub neutral_deg : Option Float
  pub verified : Bool

-- The four tests of a constraint's properties, on its fields: a missing field fails.
abbrev pub ordered : Option Float → Option Float → Option Float → Bool
ordered (some lo) (some mid) (some hi) = lt lo mid && lt mid hi
ordered _ _ _ = false

-- `JointConstraint.verified_complete`
unfoldable pub joint_verified : JointConstraint → Bool
joint_verified c = c.verified && ordered c.min_deg c.neutral_deg c.max_deg

abbrev pub between : Option Float → Float → Option Float → Bool
between (some lo) x (some hi) = le lo x && le x hi
between _ x _ = false

-- `JointConstraint.contains`
unfoldable pub joint_contains : JointConstraint → Float → Bool
unfolding joint_verified
joint_contains c angle_deg =
    joint_verified c && isfinite angle_deg && between c.min_deg angle_deg c.max_deg

pub record CartesianPoint : Type 0 where
  pub x_mm : Float
  pub y_mm : Float
  pub z_mm : Float

-- `CartesianPoint.finite`
unfoldable pub point_finite : CartesianPoint → Bool
point_finite p = isfinite p.x_mm && isfinite p.y_mm && isfinite p.z_mm

pub record WorkspaceBounds : Type 0 where
  pub min_x_mm : Option Float
  pub max_x_mm : Option Float
  pub min_y_mm : Option Float
  pub max_y_mm : Option Float
  pub min_z_mm : Option Float
  pub max_z_mm : Option Float
  pub verified : Bool

abbrev pub below : Option Float → Option Float → Bool
below (some lo) (some hi) = lt lo hi
below _ _ = false

-- `WorkspaceBounds.verified_complete`
unfoldable pub workspace_verified : WorkspaceBounds → Bool
workspace_verified w =
    w.verified
    && below w.min_x_mm w.max_x_mm
    && below w.min_y_mm w.max_y_mm
    && below w.min_z_mm w.max_z_mm

-- `WorkspaceBounds.contains`
unfoldable pub workspace_contains : WorkspaceBounds → CartesianPoint → Bool
unfolding workspace_verified point_finite
workspace_contains w p =
    workspace_verified w
    && point_finite p
    && between w.min_x_mm p.x_mm w.max_x_mm
    && between w.min_y_mm p.y_mm w.max_y_mm
    && between w.min_z_mm p.z_mm w.max_z_mm

pub record MotionSafetyPolicy : Type 0 where
  pub command_ttl_ms : Float
  pub heartbeat_timeout_ms : Float
  pub max_velocity_deg_s : Float
  pub max_acceleration_deg_s2 : Float

abbrev pub finite_positive : Float → Bool
finite_positive v = isfinite v && lt zero_f v

-- `MotionSafetyPolicy.valid`
unfoldable pub policy_valid : MotionSafetyPolicy → Bool
policy_valid p =
    finite_positive p.command_ttl_ms
    && finite_positive p.heartbeat_timeout_ms
    && finite_positive p.max_velocity_deg_s
    && finite_positive p.max_acceleration_deg_s2

pub record SafetyEnvelope : Type 0 where
  pub joints : Dict JointConstraint
  pub workspace : WorkspaceBounds
  pub allowed_states : List SystemState
  pub robot_verified : Bool
  pub servos_verified : Bool
  pub motion_policy : Option MotionSafetyPolicy

abbrev all_verified : Dict JointConstraint → Bool
all_verified [] = true
all_verified ((k, c) ∷ d) = joint_verified c && all_verified d

-- `SafetyEnvelope.physical_constraints_verified`
unfoldable pub physical_constraints_verified : SafetyEnvelope → Bool
unfolding joint_verified workspace_verified
physical_constraints_verified e =
    e.robot_verified
    && e.servos_verified
    && not (is_empty e.joints)
    && all_verified e.joints
    && workspace_verified e.workspace

pub record MotionCandidate : Type 0 where
  pub system_state : SystemState
  pub estop_active : Bool
  pub joint_targets_deg : Dict Float
  pub workspace_point_mm : Option CartesianPoint

pub record MotionDynamics : Type 0 where
  pub command_age_ms : Float
  pub heartbeat_age_ms : Float
  pub joint_velocities_deg_s : Dict Float
  pub joint_accelerations_deg_s2 : Dict Float

pub record SafetyViolation : Type 0 where
  pub code : SafetyViolationCode
  pub detail : Message
  pub severity : SafetySeverity

-- The constructor with the default severity, `_violation` of the check modules.
abbrev pub violation : SafetyViolationCode → Message → SafetyViolation
violation code detail = record { code = code; detail = detail; severity = critical }

pub record MotionEligibility : Type 0 where
  pub decision : MotionDecision
  pub violations : List SafetyViolation

abbrev pub is_approve : MotionDecision → Bool
is_approve approve = true
is_approve MotionDecision.reject = false
is_approve MotionDecision.estop = false

abbrev pub no_violations : List SafetyViolation → Bool
no_violations [] = true
no_violations (v ∷ vs) = false

-- `MotionEligibility.approved`
unfoldable pub eligibility_approved : MotionEligibility → Bool
eligibility_approved r = is_approve r.decision && no_violations r.violations
