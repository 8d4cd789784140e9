-- ===== src/Safety/Supervisor/Approval.antt =====
-- When `evaluate` authorizes a motion, and what it then hands out.
use robotic_character_interf.Base.{
  ℕ, ◌≡◌, ◌↔◌, refl, subst, ◌⊎◌, inl, inr, true, false, not, ◌||◌, Option, none, some, [], arith,
  Bool-cases, Option-cases,
}
use robotic_character_interf.Base.Float.{Float, zero_f, eq_sound, FiniteLe}
use robotic_character_interf.Domain.{approve}
use robotic_character_interf.Safety.Models.{
  CartesianPoint, MotionSafetyPolicy, policy_valid, SafetyEnvelope, MotionCandidate, MotionDynamics,
  eligibility_approved, is_approve, no_violations, WorkspaceBounds,
}
use robotic_character_interf.Safety.Eligibility.Spec.{PointAllowed, point_allowed}
use robotic_character_interf.Safety.Dynamics.{assess_dynamic_motion_eligibility}
use robotic_character_interf.Safety.Dynamics.Spec.{MotionAllowed}
use robotic_character_interf.Safety.Dynamics.Soundness.{age_of_FiniteLe}
use robotic_character_interf.Safety.Dynamics.Approval.{
  approved_iff_MotionAllowed, unapproved_reports,
}
use robotic_character_interf.Safety.Lifecycle.{
  SafetyLifecyclePolicy, SafetyLifecycleSnapshot, motion_blocked, observe_heartbeat_age,
  set_physical_estop,
}
use robotic_character_interf.Safety.Lifecycle.Latch.{stale}
use robotic_character_interf.Safety.Lifecycle.Invariant.{IsConsistent}
use robotic_character_interf.Safety.Supervisor.{
  MotionSafetyResult, result_approved, MotionSafetySupervisor, timeouts_match, evaluate_lifecycle,
  authorize, decide_motion, refresh, evaluate,
}

-- A result that refuses: no authorization, at least one violation, and no approval.
pub record IsRefusal (r : MotionSafetyResult) : Type 0 where
  pub not_approved : is_approve r.decision ≡ false
  pub reported : no_violations r.violations ≡ false
  pub unauthorized : r.authorization ≡ none

evaluate_lifecycle-none :
    (s : SafetyLifecycleSnapshot) → (evaluate_lifecycle s ≡ none) ↔ (motion_blocked s ≡ false)
unfolding evaluate_lifecycle motion_blocked
evaluate_lifecycle-none s = ground arith

evaluate_lifecycle-some :
    (s : SafetyLifecycleSnapshot) (r : MotionSafetyResult)
    → evaluate_lifecycle s ≡ some r
    → (motion_blocked s ≡ true) × IsRefusal r
unfolding evaluate_lifecycle motion_blocked
evaluate_lifecycle-some s r h = ground arith

point_of_PointAllowed :
    {w : WorkspaceBounds} {o : Option CartesianPoint}
    → PointAllowed w o
    → (p : CartesianPoint) × (o ≡ some p)
point_of_PointAllowed (point_allowed {p = p} x y z) = (p, refl)

pub stale_of_timeouts :
    (o : Option MotionSafetyPolicy) (p : MotionSafetyPolicy) (policy : SafetyLifecyclePolicy)
    (age : Float)
    → o ≡ some p
    → timeouts_match o policy ≡ true
    → FiniteLe zero_f age
    → FiniteLe age p.heartbeat_timeout_ms
    → stale policy age ≡ false
unfolding timeouts_match
stale_of_timeouts none p policy age configured same started fresh = cc
stale_of_timeouts (some q) p policy age configured same started fresh =
    let timeout : p.heartbeat_timeout_ms ≡ policy.heartbeat_timeout_ms =
      eq_sound _ _ (ground arith) in
    age_of_FiniteLe started (subst (FiniteLe age) timeout fresh)

pub refresh-motion_blocked :
    (policy : SafetyLifecyclePolicy) (c : MotionCandidate) (d : MotionDynamics)
    (s : SafetyLifecycleSnapshot)
    → IsConsistent s
    → c.estop_active ≡ false
    → stale policy d.heartbeat_age_ms ≡ false
    → motion_blocked (refresh policy c d s) ≡ (s.estop_latched || not s.watchdog_armed)
unfolding refresh observe_heartbeat_age set_physical_estop motion_blocked
refresh-motion_blocked policy c d s h clear fresh = ground arith

-- The authorization that an approval carries.
abbrev pub granted :
    ℕ
    → MotionCandidate
    → MotionSafetyPolicy
    → CartesianPoint
    → SafetyLifecycleSnapshot
    → MotionSafetyResult
granted uuid c p point s = record {
  decision = approve;
  violations = [];
  lifecycle = s;
  authorization = some (record {
    authorization_id = uuid;
    lifecycle_sequence = s.sequence;
    joint_targets_deg = c.joint_targets_deg;
    workspace_point_mm = point;
    command_ttl_ms = p.command_ttl_ms;
    max_velocity_deg_s = p.max_velocity_deg_s;
    max_acceleration_deg_s2 = p.max_acceleration_deg_s2;
  });
}

authorize-granted :
    (uuid : ℕ) (s : SafetyLifecycleSnapshot) (c : MotionCandidate) (o : Option MotionSafetyPolicy)
    (q : Option CartesianPoint) (p : MotionSafetyPolicy) (point : CartesianPoint)
    → o ≡ some p
    → q ≡ some point
    → policy_valid p ≡ true
    → authorize uuid s c.joint_targets_deg o q ≡ granted uuid c p point s
unfolding authorize
authorize-granted uuid s c o q p point configured given valid = rw (configured, given, valid)

-- Approved exactly when the snapshot does not block motion and the checks approve.
pub decide_motion-granted :
    (uuid : ℕ) (e : SafetyEnvelope) (c : MotionCandidate) (d : MotionDynamics)
    (s : SafetyLifecycleSnapshot)
    → motion_blocked s ≡ false
    → (a : MotionAllowed e c d)
    → (point : CartesianPoint) × (c.workspace_point_mm ≡ some point)
      × (decide_motion uuid e c d s ≡ granted uuid c a.policy point s)
unfolding decide_motion
decide_motion-granted uuid e c d s free a =
    let (point, given) = point_of_PointAllowed a.pose_allowed.point_inside in
    let approved = (approved_iff_MotionAllowed e c d).1 a in
    let grant =
      authorize-granted uuid s c e.motion_policy c.workspace_point_mm a.policy point a.configured
        given a.policy_usable in
    (point, given, rw ((evaluate_lifecycle-none s).1 free, decide_motion) (rw approved grant))

-- Whatever is decided is a grant for an allowed motion on an unblocked snapshot, or a refusal.
pub decide_motion-cases :
    (uuid : ℕ) (e : SafetyEnvelope) (c : MotionCandidate) (d : MotionDynamics)
    (s : SafetyLifecycleSnapshot)
    → ((motion_blocked s ≡ false) × MotionAllowed e c d) ⊎ IsRefusal (decide_motion uuid e c d s)
unfolding decide_motion
decide_motion-cases uuid e c d s = elim (Bool-cases (motion_blocked s)) [
  | inl blocked ↦ elim (Option-cases (evaluate_lifecycle s)) [
    | inl passed ↦ cc ((evaluate_lifecycle-none s).0 passed)
    | inr (r, e') ↦ inr (rw (e', decide_motion) ((evaluate_lifecycle-some s r e').1))
  ]
  | inr free ↦ elim (Bool-cases (eligibility_approved (assess_dynamic_motion_eligibility e c d))) [
    | inl approved ↦ inl (free, (approved_iff_MotionAllowed e c d).0 approved)
    | inr refused ↦ inr (
        rw ((evaluate_lifecycle-none s).1 free, decide_motion)
          (let (no_approval, listed) = unapproved_reports e c d refused in
            rw refused
              (record { not_approved = no_approval; reported = listed; unauthorized = refl })))
  ]
]

pub IsRefusal-not_approved : (r : MotionSafetyResult) → IsRefusal r → result_approved r ≡ false
unfolding result_approved
IsRefusal-not_approved r h = rw (h.not_approved)

-- An evaluation either approves with no violation and an authorization, which carries the
-- configured limits and the candidate's targets and point, or it fails closed: no authorization,
-- no approval, and at least one violation.
pub evaluate_fails_closed :
    (uuid : ℕ) (c : MotionCandidate) (d : MotionDynamics) (m : MotionSafetySupervisor)
    → let (m', r) = evaluate uuid c d m in
      ((result_approved r ≡ true)
        × (p : MotionSafetyPolicy) × (point : CartesianPoint) × (m.envelope.motion_policy ≡ some p)
        × (c.workspace_point_mm ≡ some point)
        × (r ≡ granted uuid c p point m'.snapshot))
      ⊎ IsRefusal r
unfolding evaluate
evaluate_fails_closed uuid c d m =
    let s = refresh m.policy c d m.snapshot in
    elim (decide_motion-cases uuid m.envelope c d s) [
      | inl (free, a) ↦
          let (point, given, grant) = decide_motion-granted uuid m.envelope c d s free a in
          inl
            (rw grant (unfold result_approved in refl), a.policy, point, a.configured, given, grant)
      | inr refusal ↦ inr refusal
    ]
