-- ===== src/Safety/Eligibility.antt =====
-- rci/safety/eligibility.py: the static checks, violations in the order in which they are added.
pub mod Spec
pub mod Soundness
use robotic_character_interf.Base.{
  String, Bool, true, false, not, Option, none, some, List, [], ◌∷◌, ◌++◌, if◌then◌else◌,
}
use robotic_character_interf.Base.Float.{Float, isfinite}
use robotic_character_interf.Base.Dict.{Dict, lookup, is_empty}
use robotic_character_interf.Base.Message.{Message, say, lit, name, num}
use robotic_character_interf.Domain.{SystemState, approve, in_states, state_value, MotionDecision}
use robotic_character_interf.Safety.Models.{
  JointConstraint, joint_verified, joint_contains, CartesianPoint, point_finite, workspace_verified,
  workspace_contains, SafetyEnvelope, MotionCandidate, SafetyViolation, violation,
  MotionEligibility, SafetyViolationCode, state_not_allowed, joint_model_unverified,
  workspace_model_unverified, empty_joint_targets, unknown_joint, invalid_numeric_target,
  joint_limit_violation, workspace_target_required, workspace_limit_violation,
}

-- `if test: violations.append(v)`
abbrev pub append_if : Bool → SafetyViolation → List SafetyViolation
append_if true v = v ∷ []
append_if false v = []

-- The body of the loop over the joint targets, after the constraint is looked up.
unfoldable pub constraint_check : String → Float → Option JointConstraint → List SafetyViolation
constraint_check joint target none =
    violation unknown_joint
      (lit "joint " ∷ name joint ∷ lit " is not present in the verified model" ∷ [])
    ∷ []
constraint_check joint target (some c) =
    if not (joint_verified c)
    then violation joint_model_unverified
        (lit "joint " ∷ name joint ∷ lit " does not have verified min/neutral/max limits" ∷ [])
      ∷ []
    else append_if (not (joint_contains c target)) (
        violation joint_limit_violation (
          lit "joint "
          ∷ name joint
          ∷ lit " target "
          ∷ num target
          ∷ lit " deg is outside verified limits"
          ∷ []))

unfoldable pub target_check : Dict JointConstraint → String → Float → List SafetyViolation
unfolding constraint_check
target_check joints joint target =
    if not (isfinite target)
    then violation invalid_numeric_target
        (lit "joint " ∷ name joint ∷ lit " target is not finite" ∷ [])
      ∷ []
    else constraint_check joint target (lookup joint joints)

-- `for name, target_deg in candidate.joint_targets_deg.items()`
unfoldable pub targets_check : Dict JointConstraint → Dict Float → List SafetyViolation
targets_check joints [] = []
targets_check joints ((joint, target) ∷ rest) =
    target_check joints joint target ++ targets_check joints rest

unfoldable pub point_check : SafetyEnvelope → Option CartesianPoint → List SafetyViolation
point_check e none =
    violation workspace_target_required
      (say "candidate must include a workspace point for physical eligibility")
    ∷ []
point_check e (some p) =
    if not (point_finite p)
    then violation invalid_numeric_target (say "workspace target contains a non-finite coordinate")
      ∷ []
    else append_if (not (workspace_contains e.workspace p)) (
        violation workspace_limit_violation
          (say "workspace target lies outside the verified physical envelope"))

unfoldable pub workspace_check : SafetyEnvelope → MotionCandidate → List SafetyViolation
unfolding point_check
workspace_check e c =
    if not e.robot_verified
    then violation workspace_model_unverified (say "robot geometry and workspace are not verified")
      ∷ []
    else if not (workspace_verified e.workspace)
    then violation workspace_model_unverified
        (say "workspace does not contain a complete verified axis envelope")
      ∷ []
    else point_check e c.workspace_point_mm

unfoldable pub joints_check : SafetyEnvelope → MotionCandidate → List SafetyViolation
joints_check e c =
    if not e.servos_verified
    then violation joint_model_unverified
        (say "servo hardware and measured joint limits are not verified")
      ∷ []
    else targets_check e.joints c.joint_targets_deg

-- The verdict on the violations that were collected.
abbrev pub verdict : List SafetyViolation → MotionEligibility
verdict [] = record { decision = approve; violations = [] }
verdict (v ∷ vs) = record { decision = MotionDecision.reject; violations = v ∷ vs }

-- The violations that are collected while no E-stop is active.
unfoldable pub static_violations : SafetyEnvelope → MotionCandidate → List SafetyViolation
static_violations e c =
    append_if (not (in_states c.system_state e.allowed_states)) (
      violation state_not_allowed
        (lit "motion is not allowed in state " ∷ lit (state_value c.system_state) ∷ []))
    ++ (append_if (is_empty c.joint_targets_deg)
          (violation empty_joint_targets (say "candidate contains no joint targets"))
        ++ (joints_check e c ++ workspace_check e c))

unfoldable pub assess_motion_eligibility : SafetyEnvelope → MotionCandidate → MotionEligibility
assess_motion_eligibility e c =
    if c.estop_active
    then record {
      decision = MotionDecision.estop;
      violations = violation SafetyViolationCode.estop_active (say "emergency stop is active") ∷ [];
    }
    else verdict (static_violations e c)
