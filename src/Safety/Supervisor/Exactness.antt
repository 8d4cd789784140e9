-- ===== src/Safety/Supervisor/Exactness.antt =====
-- The exact condition under which `evaluate` approves.
use robotic_character_interf.Base.{ℕ, ◌≡◌, ◌↔◌, inl, inr, refl, true, false, not, ◌||◌, arith}
use robotic_character_interf.Safety.Supervisor.{
  MotionDynamics, MotionCandidate, result_approved, MotionSafetySupervisor, timeouts_match,
  decide_motion, refresh, evaluate,
}
use robotic_character_interf.Safety.Supervisor.Approval.{
  stale_of_timeouts, refresh-motion_blocked, decide_motion-granted, decide_motion-cases,
  IsRefusal-not_approved,
}
use robotic_character_interf.Safety.Dynamics.Spec.{MotionAllowed}
use robotic_character_interf.Safety.Lifecycle.Invariant.{IsConsistent}
use robotic_character_interf.Safety.Lifecycle.{motion_blocked}

-- What holds of the supervisor and the motion where `evaluate` approves.
pub record IsCleared (m : MotionSafetySupervisor) (c : MotionCandidate) (d : MotionDynamics)
    : Type 0 where
  pub unlatched : m.snapshot.estop_latched ≡ false
  pub armed : m.snapshot.watchdog_armed ≡ true
  pub allowed : MotionAllowed m.envelope c d

module _ (c : MotionCandidate) (d : MotionDynamics) (m : MotionSafetySupervisor) where
  refreshed :
      IsConsistent m.snapshot
      → timeouts_match m.envelope.motion_policy m.policy ≡ true
      → MotionAllowed m.envelope c d
      → motion_blocked (refresh m.policy c d m.snapshot)
        ≡ (m.snapshot.estop_latched || not m.snapshot.watchdog_armed)
  refreshed consistent same a =
      let fresh =
        stale_of_timeouts m.envelope.motion_policy a.policy m.policy d.heartbeat_age_ms a.configured
          same a.dynamics_allowed.heartbeat_started a.dynamics_allowed.heartbeat_fresh in
      refresh-motion_blocked m.policy c d m.snapshot consistent a.pose_allowed.estop_clear fresh

-- A supervisor whose lifecycle snapshot is consistent and whose two heartbeat timeouts agree, as
-- its constructor demands, approves a motion exactly when no stop is latched, the watchdog is
-- armed, and the static and dynamic rules allow the motion.
pub evaluate_iff_IsCleared :
    (uuid : ℕ) (c : MotionCandidate) (d : MotionDynamics) (m : MotionSafetySupervisor)
    → IsConsistent m.snapshot
    → timeouts_match m.envelope.motion_policy m.policy ≡ true
    → (result_approved (evaluate uuid c d m).1 ≡ true) ↔ IsCleared m c d
unfolding evaluate
evaluate_iff_IsCleared uuid c d m consistent same = (sound, complete)
  where
    sound :
        result_approved (decide_motion uuid m.envelope c d (refresh m.policy c d m.snapshot)) ≡ true
        → IsCleared m c d
    sound h = elim (decide_motion-cases uuid m.envelope c d (refresh m.policy c d m.snapshot)) [
      | inl (free, a) ↦
          let facts = refreshed c d m consistent same a in
          record { unlatched = ground arith; armed = ground arith; allowed = a }
      | inr refusal ↦ cc (IsRefusal-not_approved _ refusal)
    ]

    complete :
        IsCleared m c d
        → result_approved (decide_motion uuid m.envelope c d (refresh m.policy c d m.snapshot))
          ≡ true
    complete h =
        let free : motion_blocked (refresh m.policy c d m.snapshot) ≡ false =
          ground (arith, refreshed c d m consistent same h.allowed) in
        let (point, given, grant) = decide_motion-granted uuid m.envelope c d _ free h.allowed in
        rw grant (unfold result_approved in refl)
