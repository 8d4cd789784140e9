-- ===== src/Safety/Tests.antt =====
-- The safety stack at concrete inputs: an envelope with one joint, motions inside and outside it.
-- A number `f n` stands for n times the least positive double.
use robotic_character_interf.Base.{
  ℕ, ◌≡◌, ◌≢◌, ◌↔◌, ◌<◌, ◌⊎◌, refl, Bool, true, false, List, [], ◌∷◌, none, some,
}
use robotic_character_interf.Base.Float.{Float, fin}
use robotic_character_interf.Base.Int.{pos, negsuc}
use robotic_character_interf.Domain.{armed}
use robotic_character_interf.Safety.Models.{
  policy_valid, workspace_contains, joint_contains, JointConstraint, WorkspaceBounds,
  MotionSafetyPolicy, SafetyEnvelope, MotionCandidate, MotionDynamics, CartesianPoint,
  eligibility_approved,
}
use robotic_character_interf.Safety.Eligibility.{
  workspace_check, target_check, targets_check, joints_check, static_violations,
  assess_motion_eligibility,
}
use robotic_character_interf.Safety.Eligibility.Spec.{PoseAllowed}
use robotic_character_interf.Safety.Eligibility.Soundness.{approved_iff_PoseAllowed}
use robotic_character_interf.Safety.Dynamics.{
  sample_check, samples_check, for_each_name, limits_check, names_check, heartbeat_check,
  command_check, dynamic_violations, assess_dynamics, assess_dynamic_motion_eligibility,
}
use robotic_character_interf.Safety.Dynamics.Spec.{MotionAllowed}
use robotic_character_interf.Safety.Dynamics.Approval.{approved_iff_MotionAllowed}
use robotic_character_interf.Safety.Lifecycle.Invariant as Invariant
use robotic_character_interf.Safety.Lifecycle.Latch as Latch
use robotic_character_interf.Safety.Lifecycle.Freshness as Freshness
use robotic_character_interf.Safety.Supervisor.{
  timeouts_match, MotionSafetySupervisor, result_approved, evaluate,
}
use robotic_character_interf.Safety.Supervisor.Approval.{evaluate_fails_closed, granted, IsRefusal}
use robotic_character_interf.Safety.Supervisor.Exactness.{evaluate_iff_IsCleared, IsCleared}
use robotic_character_interf.Safety.Supervisor.Traces as Traces
use robotic_character_interf.Safety.Lifecycle.{
  lifecycle_policy_valid, software_estop, arm_watchdog, request_manual_reset, initial_snapshot,
  observe_heartbeat_age, has_cause, motion_blocked, SafetyLifecyclePolicy, SafetyLifecycleSnapshot,
}
use robotic_character_interf.Base.Names.{difference, sorted}

abbrev f : ℕ → Float
f n = fin (pos n)

abbrev base_joint : JointConstraint
base_joint = record {
  name = "base";
  min_deg = some (fin (negsuc 89));
  max_deg = some (f 90);
  neutral_deg = some (f 0);
  verified = true;
}

abbrev bounds : WorkspaceBounds
bounds = record {
  min_x_mm = some (f 0);
  max_x_mm = some (f 10);
  min_y_mm = some (f 0);
  max_y_mm = some (f 10);
  min_z_mm = some (f 0);
  max_z_mm = some (f 10);
  verified = true;
}

abbrev limits : MotionSafetyPolicy
limits = record {
  command_ttl_ms = f 250;
  heartbeat_timeout_ms = f 500;
  max_velocity_deg_s = f 60;
  max_acceleration_deg_s2 = f 120;
}

abbrev envelope : SafetyEnvelope
envelope = record {
  joints = ("base", base_joint) ∷ [];
  workspace = bounds;
  allowed_states = armed ∷ [];
  robot_verified = true;
  servos_verified = true;
  motion_policy = some limits;
}

-- A turn of the base joint to an angle.
abbrev turn : Float → Bool → MotionCandidate
turn angle estop = record {
  system_state = armed;
  estop_active = estop;
  joint_targets_deg = ("base", angle) ∷ [];
  workspace_point_mm = some (record { x_mm = f 1; y_mm = f 2; z_mm = f 3 });
}

abbrev calm : Float → MotionDynamics
calm velocity = record {
  command_age_ms = f 0;
  heartbeat_age_ms = f 10;
  joint_velocities_deg_s = ("base", velocity) ∷ [];
  joint_accelerations_deg_s2 = ("base", f 5) ∷ [];
}

turn_allowed :
    eligibility_approved
      (assess_dynamic_motion_eligibility envelope (turn (f 30) false) (calm (f 20)))
    ≡ true
unfolding eligibility_approved assess_dynamic_motion_eligibility assess_motion_eligibility
    static_violations joints_check targets_check target_check workspace_check joint_contains
    workspace_contains assess_dynamics policy_valid dynamic_violations command_check heartbeat_check
    names_check limits_check for_each_name sorted difference samples_check sample_check
turn_allowed = refl

approved_iff_PoseAllowed_example :
    (eligibility_approved (assess_motion_eligibility envelope (turn (f 30) false)) ≡ true)
    ↔ PoseAllowed envelope (turn (f 30) false)
approved_iff_PoseAllowed_example = approved_iff_PoseAllowed envelope (turn (f 30) false)

approved_iff_MotionAllowed_example :
    (eligibility_approved
        (assess_dynamic_motion_eligibility envelope (turn (f 30) false) (calm (f 20)))
      ≡ true)
    ↔ MotionAllowed envelope (turn (f 30) false) (calm (f 20))
approved_iff_MotionAllowed_example =
    approved_iff_MotionAllowed envelope (turn (f 30) false) (calm (f 20))

abbrev policy : SafetyLifecyclePolicy
policy = record { heartbeat_timeout_ms = f 500; require_manual_reset = true }

abbrev stopped : SafetyLifecycleSnapshot
stopped = record {
  sequence = 7;
  watchdog_armed = true;
  watchdog_healthy = true;
  physical_estop_active = false;
  estop_latched = true;
  causes = software_estop ∷ [];
  latest_reason = none;
}

abbrev waking : List Invariant.Call
waking = Invariant.Call.arm ∷ Invariant.Call.heartbeat (f 10) ∷ []

run-IsConsistent_example : Invariant.IsConsistent (Invariant.run policy waking initial_snapshot)
run-IsConsistent_example = Invariant.run-IsConsistent policy waking

latch_sticky_example :
    ((Invariant.run policy waking stopped).estop_latched ≡ true)
    × (has_cause software_estop (Invariant.run policy waking stopped).causes ≡ true)
    × (motion_blocked (Invariant.run policy waking stopped) ≡ true)
latch_sticky_example = Latch.latch_sticky policy software_estop waking stopped tt refl refl

stale_heartbeat_latches_example :
    let s = observe_heartbeat_age policy (f 501) stopped in
    (s.estop_latched ≡ true)
    × (s.watchdog_healthy ≡ false)
    × (motion_blocked s ≡ true)
    × ((request_manual_reset s).cleared ≡ false)
stale_heartbeat_latches_example = Latch.stale_heartbeat_latches policy (f 501) stopped refl refl

unblocked_needs_heartbeat_example : Freshness.HasFresh policy waking
unfolding motion_blocked Invariant.run Invariant.apply arm_watchdog observe_heartbeat_age
    lifecycle_policy_valid
unblocked_needs_heartbeat_example =
    Freshness.unblocked_needs_heartbeat policy waking initial_snapshot refl refl refl

run_sequence_example :
    (Invariant.run policy waking stopped ≡ stopped)
    ⊎ (7 < (Invariant.run policy waking stopped).sequence)
run_sequence_example = Freshness.run_sequence policy waking stopped

abbrev ready : MotionSafetySupervisor
ready = record {
  envelope = envelope;
  policy = policy;
  snapshot = record stopped { estop_latched = false; causes = [] };
}

evaluate_iff_IsCleared_example :
    (result_approved (evaluate 42 (turn (f 30) false) (calm (f 20)) ready).1 ≡ true)
    ↔ IsCleared ready (turn (f 30) false) (calm (f 20))
unfolding timeouts_match
evaluate_iff_IsCleared_example =
    evaluate_iff_IsCleared 42 (turn (f 30) false) (calm (f 20)) ready
      (record { healthy_armed = refl; physical_latched = refl; caused = refl }) refl

abbrev attempts : List Traces.Call
attempts =
    Traces.Call.arm
    ∷ Traces.Call.observe (f 3)
    ∷ Traces.Call.assess 43 (turn (f 30) false) (calm (f 20))
    ∷ []

estop_stops_motion_example :
    (Traces.run (Traces.Call.assess 42 (turn (f 30) true) (calm (f 20)) ∷ attempts) ready).1 ≡ []
estop_stops_motion_example =
    Traces.estop_stops_motion 42 (turn (f 30) true) (calm (f 20)) attempts ready refl tt

latched_issues_none_example :
    ((Traces.run attempts (record ready { snapshot = stopped })).0.snapshot.estop_latched ≡ true)
    × ((Traces.run attempts (record ready { snapshot = stopped })).1 ≡ [])
latched_issues_none_example =
    Traces.latched_issues_none attempts (record ready { snapshot = stopped }) tt refl

reset_iff_example :
    let r = request_manual_reset stopped in
    (r.cleared ≡ true)
    × ((r.cleared ≡ true)
          × (motion_blocked r.snapshot ≡ false)
          × (r.snapshot.causes ≡ [])
          × (r.denials ≡ [])
        ⊎ (r.cleared ≡ false) × (r.snapshot ≡ stopped) × (r.denials ≢ []))
reset_iff_example = Latch.reset_iff stopped

evaluate_fails_closed_example :
    let (m', r) = evaluate 42 (turn (f 91) false) (calm (f 20)) ready in
    ((result_approved r ≡ true)
      × (p : MotionSafetyPolicy) × (point : CartesianPoint) × (some limits ≡ some p)
      × ((turn (f 91) false).workspace_point_mm ≡ some point)
      × (r ≡ granted 42 (turn (f 91) false) p point m'.snapshot))
    ⊎ IsRefusal r
evaluate_fails_closed_example = evaluate_fails_closed 42 (turn (f 91) false) (calm (f 20)) ready
