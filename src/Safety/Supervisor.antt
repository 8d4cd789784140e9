-- ===== src/Safety/Supervisor.antt =====
-- rci/safety/supervisor.py: the composition point that alone mints motion authorizations.
-- `uuid4()` is an argument of `evaluate`.
pub mod Approval
pub mod Exactness
pub mod Traces
use robotic_character_interf.Base.{
  ℕ, Bool, true, false, not, ◌&&◌, ◌||◌, Option, none, some, List, [], ◌∷◌, if◌then◌else◌, is_some,
}
use robotic_character_interf.Base.Float.{Float, eq}
use robotic_character_interf.Base.Dict.{Dict}
use robotic_character_interf.Base.Message.{Message, say}
use robotic_character_interf.Domain.{MotionDecision, approve}
use robotic_character_interf.Safety.Models.{
  CartesianPoint, MotionSafetyPolicy, policy_valid, SafetyEnvelope, MotionCandidate, MotionDynamics,
  SafetyViolation, violation, eligibility_approved, is_approve, no_violations,
  lifecycle_estop_latched, watchdog_not_armed, watchdog_unhealthy, motion_policy_unavailable,
}
use robotic_character_interf.Safety.Dynamics.{assess_dynamic_motion_eligibility}
use robotic_character_interf.Safety.Lifecycle.{
  SafetyLifecyclePolicy, SafetyLifecycleSnapshot, initial_snapshot, observe_heartbeat_age,
  set_physical_estop, lifecycle_policy_valid,
}

pub record MotionAuthorization : Type 0 where
  pub authorization_id : ℕ
  pub lifecycle_sequence : ℕ
  pub joint_targets_deg : Dict Float
  pub workspace_point_mm : CartesianPoint
  pub command_ttl_ms : Float
  pub max_velocity_deg_s : Float
  pub max_acceleration_deg_s2 : Float

pub record MotionSafetyResult : Type 0 where
  pub decision : MotionDecision
  pub violations : List SafetyViolation
  pub lifecycle : SafetyLifecycleSnapshot
  pub authorization : Option MotionAuthorization

-- `MotionSafetyResult.approved`
unfoldable pub result_approved : MotionSafetyResult → Bool
result_approved r = is_approve r.decision && no_violations r.violations && is_some r.authorization

-- The envelope, and the policy and snapshot of the lifecycle controller that it holds.
pub record MotionSafetySupervisor : Type 0 where
  pub envelope : SafetyEnvelope
  pub policy : SafetyLifecyclePolicy
  pub snapshot : SafetyLifecycleSnapshot

-- The test of `__init__` on the two heartbeat timeouts.
unfoldable pub timeouts_match : Option MotionSafetyPolicy → SafetyLifecyclePolicy → Bool
timeouts_match none policy = true
timeouts_match (some p) policy = eq p.heartbeat_timeout_ms policy.heartbeat_timeout_ms

-- A new controller for the policy, and the supervisor over it; `none` is a ValueError of either.
unfoldable pub make_supervisor :
    SafetyEnvelope → SafetyLifecyclePolicy → Option MotionSafetySupervisor
unfolding timeouts_match lifecycle_policy_valid
make_supervisor e policy =
    if not (lifecycle_policy_valid policy)
    then none
    else if not (timeouts_match e.motion_policy policy)
    then none
    else some (record { envelope = e; policy = policy; snapshot = initial_snapshot })

-- `lifecycle.latest_reason or "emergency-stop lifecycle is latched"`
abbrev latched_detail : Option Message → Message
latched_detail none = say "emergency-stop lifecycle is latched"
latched_detail (some []) = say "emergency-stop lifecycle is latched"
latched_detail (some (part ∷ parts)) = part ∷ parts

abbrev refused :
    MotionDecision → List SafetyViolation → SafetyLifecycleSnapshot → MotionSafetyResult
refused decision violations lifecycle = record {
  decision = decision;
  violations = violations;
  lifecycle = lifecycle;
  authorization = none;
}

-- `_evaluate_lifecycle`
unfoldable pub evaluate_lifecycle : SafetyLifecycleSnapshot → Option MotionSafetyResult
evaluate_lifecycle s =
    if s.estop_latched || s.physical_estop_active
    then some (
        refused MotionDecision.estop
          (violation lifecycle_estop_latched (latched_detail s.latest_reason) ∷ []) s)
    else if not s.watchdog_armed
    then some (
        refused MotionDecision.reject
          (violation watchdog_not_armed
              (say "watchdog must be armed before motion can be authorized")
            ∷ [])
          s)
    else if not s.watchdog_healthy
    then some (
        refused MotionDecision.reject
          (violation watchdog_unhealthy
              (say "watchdog must observe a fresh heartbeat before motion can be authorized")
            ∷ [])
          s)
    else none

abbrev policy_lacking : SafetyLifecycleSnapshot → MotionSafetyResult
policy_lacking s =
    refused MotionDecision.reject
      (violation motion_policy_unavailable
          (say "approved safety result lacked a valid policy or workspace point")
        ∷ [])
      s

-- The end of `evaluate`, once the eligibility is approved.
unfoldable pub authorize :
    ℕ
    → SafetyLifecycleSnapshot
    → Dict Float
    → Option MotionSafetyPolicy
    → Option CartesianPoint
    → MotionSafetyResult
authorize uuid s targets none point = policy_lacking s
authorize uuid s targets (some p) none = policy_lacking s
authorize uuid s targets (some p) (some point) =
    if not (policy_valid p) then policy_lacking s else record {
      decision = approve;
      violations = [];
      lifecycle = s;
      authorization = some (record {
        authorization_id = uuid;
        lifecycle_sequence = s.sequence;
        joint_targets_deg = targets;
        workspace_point_mm = point;
        command_ttl_ms = p.command_ttl_ms;
        max_velocity_deg_s = p.max_velocity_deg_s;
        max_acceleration_deg_s2 = p.max_acceleration_deg_s2;
      });
    }

-- `evaluate` on the lifecycle snapshot that it has refreshed.
unfoldable pub decide_motion :
    ℕ
    → SafetyEnvelope
    → MotionCandidate
    → MotionDynamics
    → SafetyLifecycleSnapshot
    → MotionSafetyResult
unfolding authorize
decide_motion uuid e c d s = elim (evaluate_lifecycle s) [
  | some result ↦ result
  | none ↦
      let eligibility = assess_dynamic_motion_eligibility e c d in
      if not (eligibility_approved eligibility)
      then refused eligibility.decision eligibility.violations s
      else authorize uuid s c.joint_targets_deg e.motion_policy c.workspace_point_mm
]

-- The two observations at the head of `evaluate`.
unfoldable pub refresh :
    SafetyLifecyclePolicy
    → MotionCandidate
    → MotionDynamics
    → SafetyLifecycleSnapshot
    → SafetyLifecycleSnapshot
refresh policy c d s =
    observe_heartbeat_age policy d.heartbeat_age_ms (set_physical_estop c.estop_active s)

unfoldable pub evaluate :
    ℕ
    → MotionCandidate
    → MotionDynamics
    → MotionSafetySupervisor
    → MotionSafetySupervisor × MotionSafetyResult
unfolding refresh
evaluate uuid c d m =
    let s = refresh m.policy c d m.snapshot in
    (record m { snapshot = s }, decide_motion uuid m.envelope c d s)
