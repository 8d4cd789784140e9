-- ===== src/Safety/Dynamics.antt =====
-- rci/safety/dynamics.py: freshness, velocity and acceleration checks after the static ones.
pub mod Spec
pub mod Soundness
pub mod Approval
use robotic_character_interf.Base.{
  String, Bool, true, false, not, ◌||◌, Option, none, some, List, [], ◌∷◌, ◌++◌, if◌then◌else◌,
}
use robotic_character_interf.Base.Float.{Float, isfinite, lt, abs, zero_f}
use robotic_character_interf.Base.Dict.{Dict, keys, elem}
use robotic_character_interf.Base.Names.{difference, union, sorted}
use robotic_character_interf.Base.Message.{Message, say, lit, name, num}
use robotic_character_interf.Domain.{MotionDecision}
use robotic_character_interf.Safety.Models.{
  MotionSafetyPolicy, policy_valid, SafetyEnvelope, MotionCandidate, MotionDynamics,
  SafetyViolation, violation, MotionEligibility, eligibility_approved, SafetyViolationCode,
  motion_policy_unavailable, command_age_invalid, command_stale, heartbeat_age_invalid,
  heartbeat_stale, velocity_sample_missing, acceleration_sample_missing,
  dynamic_sample_unknown_joint, invalid_numeric_target, velocity_limit_violation,
  acceleration_limit_violation,
}
use robotic_character_interf.Safety.Eligibility.{append_if, verdict, assess_motion_eligibility}

unfoldable pub command_check : MotionSafetyPolicy → MotionDynamics → List SafetyViolation
command_check p d =
    if not (isfinite d.command_age_ms) || lt d.command_age_ms zero_f
    then violation command_age_invalid (say "command age must be a finite non-negative value") ∷ []
    else append_if (lt p.command_ttl_ms d.command_age_ms) (
        violation command_stale (
          lit "command age "
          ∷ num d.command_age_ms
          ∷ lit " ms exceeds TTL "
          ∷ num p.command_ttl_ms
          ∷ lit " ms"
          ∷ []))

unfoldable pub heartbeat_check : MotionSafetyPolicy → MotionDynamics → List SafetyViolation
heartbeat_check p d =
    if not (isfinite d.heartbeat_age_ms) || lt d.heartbeat_age_ms zero_f
    then violation heartbeat_age_invalid (say "heartbeat age must be a finite non-negative value")
      ∷ []
    else append_if (lt p.heartbeat_timeout_ms d.heartbeat_age_ms) (
        violation heartbeat_stale (
          lit "heartbeat age "
          ∷ num d.heartbeat_age_ms
          ∷ lit " ms exceeds timeout "
          ∷ num p.heartbeat_timeout_ms
          ∷ lit " ms"
          ∷ []))

-- A loop that adds one violation for each name.
unfoldable pub for_each_name : (String → SafetyViolation) → List String → List SafetyViolation
for_each_name f [] = []
for_each_name f (k ∷ s) = f k ∷ for_each_name f s

-- The body of the loops over the samples, whose texts differ in `quantity` and `unit`.
unfoldable pub sample_check :
    SafetyViolationCode → String → String → Float → String → Float → List SafetyViolation
sample_check code quantity unit limit joint value =
    if not (isfinite value)
    then violation invalid_numeric_target
        (lit "joint " ∷ name joint ∷ lit quantity ∷ lit " is not finite" ∷ [])
      ∷ []
    else append_if (lt limit (abs value)) (
        violation code (
          lit "joint "
          ∷ name joint
          ∷ lit quantity
          ∷ lit " "
          ∷ num value
          ∷ lit unit
          ∷ lit " exceeds limit "
          ∷ num limit
          ∷ lit unit
          ∷ []))

-- `for name, value in samples.items()`, with its `continue` for a joint that is no target.
unfoldable pub samples_check :
    (String → Float → List SafetyViolation) → List String → Dict Float → List SafetyViolation
samples_check check target_names [] = []
samples_check check target_names ((joint, value) ∷ rest) =
    (if not (elem joint target_names) then [] else check joint value)
    ++ samples_check check target_names rest

abbrev pub missing_velocity : String → SafetyViolation
missing_velocity joint =
    violation velocity_sample_missing
      (lit "joint " ∷ name joint ∷ lit " is missing a velocity sample" ∷ [])

abbrev pub missing_acceleration : String → SafetyViolation
missing_acceleration joint =
    violation acceleration_sample_missing
      (lit "joint " ∷ name joint ∷ lit " is missing an acceleration sample" ∷ [])

abbrev pub unknown_sample : String → SafetyViolation
unknown_sample joint =
    violation dynamic_sample_unknown_joint
      (lit "dynamic sample references unknown joint " ∷ name joint ∷ [])

-- The three loops over sorted set differences.
unfoldable pub names_check :
    SafetyEnvelope → MotionCandidate → MotionDynamics → List SafetyViolation
names_check e c d =
    let targets = keys c.joint_targets_deg in
    let velocities = keys d.joint_velocities_deg_s in
    let accelerations = keys d.joint_accelerations_deg_s2 in
    for_each_name missing_velocity (sorted (difference targets velocities))
    ++ (for_each_name missing_acceleration (sorted (difference targets accelerations))
        ++ for_each_name unknown_sample
            (sorted (difference (union velocities accelerations) (keys e.joints))))

unfoldable pub limits_check :
    MotionSafetyPolicy → MotionCandidate → MotionDynamics → List SafetyViolation
limits_check p c d =
    let targets = keys c.joint_targets_deg in
    samples_check (sample_check velocity_limit_violation " velocity" " deg/s" p.max_velocity_deg_s)
      targets d.joint_velocities_deg_s
    ++ samples_check
        (sample_check acceleration_limit_violation " acceleration" " deg/s^2"
          p.max_acceleration_deg_s2)
        targets d.joint_accelerations_deg_s2

unfoldable pub dynamic_violations :
    SafetyEnvelope → MotionSafetyPolicy → MotionCandidate → MotionDynamics → List SafetyViolation
dynamic_violations e p c d =
    command_check p d ++ (heartbeat_check p d ++ (names_check e c d ++ limits_check p c d))

abbrev pub policy_unavailable : MotionEligibility
policy_unavailable = record {
  decision = MotionDecision.reject;
  violations =
      violation motion_policy_unavailable (say "dynamic motion policy is missing or invalid") ∷ [];
}

-- The part that runs once the static checks have approved, by the configured policy.
unfoldable pub assess_dynamics :
    SafetyEnvelope
    → Option MotionSafetyPolicy
    → MotionCandidate
    → MotionDynamics
    → MotionEligibility
assess_dynamics e none c d = policy_unavailable
assess_dynamics e (some p) c d =
    if not (policy_valid p) then policy_unavailable else verdict (dynamic_violations e p c d)

unfoldable pub assess_dynamic_motion_eligibility :
    SafetyEnvelope → MotionCandidate → MotionDynamics → MotionEligibility
assess_dynamic_motion_eligibility e c d =
    let static_result = assess_motion_eligibility e c in
    if not (eligibility_approved static_result)
    then static_result
    else assess_dynamics e e.motion_policy c d
