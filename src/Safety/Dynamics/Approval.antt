-- ===== src/Safety/Dynamics/Approval.antt =====
-- rci/safety/dynamics.py: the dynamic checks compared with Safety/Dynamics/Spec.
use robotic_character_interf.Base.{
  ◌∷◌, false, List, ◌≡◌, ◌↔◌, refl, true, Option, none, some, [], arith,
}
use robotic_character_interf.Base.Float.{isfinite}
use robotic_character_interf.Base.Names.{All-union}
use robotic_character_interf.Base.Lists.{append-eq-nil, append_of_nils}
use robotic_character_interf.Safety.Models.{
  MotionSafetyPolicy, policy_valid, SafetyEnvelope, MotionCandidate, MotionDynamics,
  eligibility_approved, MotionEligibility, is_approve, no_violations,
}
use robotic_character_interf.Safety.Eligibility.{
  verdict, static_violations, assess_motion_eligibility,
}
use robotic_character_interf.Safety.Eligibility.Soundness.{verdict-eq-nil, approved_iff_PoseAllowed}
use robotic_character_interf.Safety.Dynamics.{
  SafetyViolation, command_check, heartbeat_check, names_check, limits_check, dynamic_violations,
  assess_dynamics, assess_dynamic_motion_eligibility, missing_velocity, missing_acceleration,
  unknown_sample,
}
use robotic_character_interf.Safety.Dynamics.Soundness.{
  FiniteLe-of_age, age_of_FiniteLe, command_check-eq-nil, heartbeat_check-eq-nil, difference_check,
  samples_check-eq-nil, samples_check_of_All,
}
use robotic_character_interf.Safety.Dynamics.Spec.{DynamicsAllowed, MotionAllowed}

policy_limits :
    (p : MotionSafetyPolicy)
    → policy_valid p ≡ true
    → (isfinite p.command_ttl_ms ≡ true)
      × (isfinite p.heartbeat_timeout_ms ≡ true)
      × (isfinite p.max_velocity_deg_s ≡ true)
      × (isfinite p.max_acceleration_deg_s2 ≡ true)
unfolding policy_valid
policy_limits p h = ground arith

module _ (e : SafetyEnvelope) (p : MotionSafetyPolicy) (c : MotionCandidate)
    (d : MotionDynamics) where
  dynamic_violations-DynamicsAllowed :
      policy_valid p ≡ true → dynamic_violations e p c d ≡ [] → DynamicsAllowed e p c d
  unfolding dynamic_violations names_check limits_check
  dynamic_violations-DynamicsAllowed valid h =
      let (ttl, timeout, speed, rate) = policy_limits p valid in
      let (command, rest) = append-eq-nil (command_check p d) _ h in
      let (heartbeat, rest') = append-eq-nil (heartbeat_check p d) _ rest in
      let (names, limits) = append-eq-nil (names_check e c d) _ rest' in
      let (velocity, names') = append-eq-nil _ _ names in
      let (acceleration, unknown) = append-eq-nil _ _ names' in
      let (velocities, accelerations) = append-eq-nil _ _ limits in
      let known = (All-union _ _ _).0 ((difference_check unknown_sample _ _).0 unknown) in
      let fresh = FiniteLe-of_age _ _ ttl ((command_check-eq-nil p d).0 command) in
      let alive = FiniteLe-of_age _ _ timeout ((heartbeat_check-eq-nil p d).0 heartbeat) in
      record {
        command_started = fresh.0;
        command_fresh = fresh.1;
        heartbeat_started = alive.0;
        heartbeat_fresh = alive.1;
        velocities_given = (difference_check missing_velocity _ _).0 velocity;
        accelerations_given = (difference_check missing_acceleration _ _).0 acceleration;
        velocities_known = known.0;
        accelerations_known = known.1;
        velocities_bounded = samples_check-eq-nil _ _ _ _ _ _ speed velocities;
        accelerations_bounded = samples_check-eq-nil _ _ _ _ _ _ rate accelerations;
      }

  DynamicsAllowed-dynamic_violations : DynamicsAllowed e p c d → dynamic_violations e p c d ≡ []
  unfolding dynamic_violations names_check limits_check
  DynamicsAllowed-dynamic_violations a =
      append_of_nils
        ((command_check-eq-nil p d).1 (age_of_FiniteLe a.command_started a.command_fresh))
        (append_of_nils
          ((heartbeat_check-eq-nil p d).1 (age_of_FiniteLe a.heartbeat_started a.heartbeat_fresh))
          (append_of_nils
            (append_of_nils ((difference_check missing_velocity _ _).1 a.velocities_given) (
              append_of_nils ((difference_check missing_acceleration _ _).1 a.accelerations_given) (
                (difference_check unknown_sample _ _).1
                  ((All-union _ _ _).1 (a.velocities_known, a.accelerations_known)))))
            (append_of_nils (samples_check_of_All _ _ _ _ _ _ a.velocities_bounded)
              (samples_check_of_All _ _ _ _ _ _ a.accelerations_bounded))))

assess_dynamics_approved :
    (e : SafetyEnvelope) (o : Option MotionSafetyPolicy) (c : MotionCandidate) (d : MotionDynamics)
    → eligibility_approved (assess_dynamics e o c d) ≡ true
    → (p : MotionSafetyPolicy) × (o ≡ some p)
      × (policy_valid p ≡ true)
      × (dynamic_violations e p c d ≡ [])
unfolding assess_dynamics eligibility_approved
assess_dynamics_approved e none c d h = cc
assess_dynamics_approved e (some p) c d h =
    (p, refl, ground arith, ground (arith, verdict-eq-nil (dynamic_violations e p c d)))

assess_dynamics_of_none :
    (e : SafetyEnvelope) (p : MotionSafetyPolicy) (c : MotionCandidate) (d : MotionDynamics)
    (o : Option MotionSafetyPolicy)
    → o ≡ some p
    → policy_valid p ≡ true
    → dynamic_violations e p c d ≡ []
    → eligibility_approved (assess_dynamics e o c d) ≡ true
unfolding assess_dynamics eligibility_approved
assess_dynamics_of_none e p c d o configured valid quiet = rw (configured, valid, quiet)

assess_parts :
    (e : SafetyEnvelope) (c : MotionCandidate) (d : MotionDynamics)
    → (eligibility_approved (assess_dynamic_motion_eligibility e c d) ≡ true) ↔ (
        (eligibility_approved (assess_motion_eligibility e c) ≡ true)
        × (eligibility_approved (assess_dynamics e e.motion_policy c d) ≡ true))
unfolding assess_dynamic_motion_eligibility
assess_parts e c d = ground arith

-- The static and dynamic checks together approve a motion exactly when the specification permits
-- it: the pose is permitted; the policy is configured with finite positive limits; command and
-- heartbeat ages are finite, not negative and within their limits; every target has a velocity and
-- an acceleration sample, every sample is of a known joint, and the samples of the targets are
-- finite and within the limits.
pub approved_iff_MotionAllowed :
    (e : SafetyEnvelope) (c : MotionCandidate) (d : MotionDynamics)
    → (eligibility_approved (assess_dynamic_motion_eligibility e c d) ≡ true) ↔ MotionAllowed e c d
approved_iff_MotionAllowed e c d = (sound, complete)
  where
    sound :
        eligibility_approved (assess_dynamic_motion_eligibility e c d) ≡ true → MotionAllowed e c d
    sound h =
        let (static, dynamic) = (assess_parts e c d).0 h in
        let (p, configured, valid, quiet) =
          assess_dynamics_approved e e.motion_policy c d dynamic in
        record {
          policy = p;
          pose_allowed = (approved_iff_PoseAllowed e c).0 static;
          configured = configured;
          policy_usable = valid;
          dynamics_allowed = dynamic_violations-DynamicsAllowed e p c d valid quiet;
        }

    complete :
        MotionAllowed e c d → eligibility_approved (assess_dynamic_motion_eligibility e c d) ≡ true
    complete a =
        let quiet = DynamicsAllowed-dynamic_violations e a.policy c d a.dynamics_allowed in
        (assess_parts e c d).1 (
          (approved_iff_PoseAllowed e c).1 a.pose_allowed,
          assess_dynamics_of_none e a.policy c d e.motion_policy a.configured a.policy_usable quiet,
        )

-- A verdict whose decision is an approval exactly when it lists no violation.
abbrev IsCoherent : MotionEligibility → Type 0
IsCoherent r = is_approve r.decision ≡ no_violations r.violations

verdict-IsCoherent : (vs : List SafetyViolation) → IsCoherent (verdict vs)
verdict-IsCoherent [] = refl
verdict-IsCoherent (v ∷ vs) = refl

static-IsCoherent :
    (e : SafetyEnvelope) (c : MotionCandidate) → IsCoherent (assess_motion_eligibility e c)
unfolding assess_motion_eligibility
static-IsCoherent e c = ground (arith, verdict-IsCoherent (static_violations e c))

dynamics-IsCoherent :
    (e : SafetyEnvelope) (o : Option MotionSafetyPolicy) (c : MotionCandidate) (d : MotionDynamics)
    → IsCoherent (assess_dynamics e o c d)
unfolding assess_dynamics
dynamics-IsCoherent e none c d = refl
dynamics-IsCoherent e (some p) c d = ground (arith, verdict-IsCoherent (dynamic_violations e p c d))

-- A result that is not approved neither decides to approve nor is without a violation.
pub unapproved_reports :
    (e : SafetyEnvelope) (c : MotionCandidate) (d : MotionDynamics)
    → let r = assess_dynamic_motion_eligibility e c d in
      eligibility_approved r ≡ false
      → (is_approve r.decision ≡ false) × (no_violations r.violations ≡ false)
unfolding assess_dynamic_motion_eligibility eligibility_approved
unapproved_reports e c d h =
    ground (arith, static-IsCoherent e c, dynamics-IsCoherent e e.motion_policy c d)
