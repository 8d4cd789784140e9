-- ===== src/Safety/Lifecycle/Invariant.antt =====
-- Sequences of calls on the lifecycle controller, and what holds after each of them.
use robotic_character_interf.Base.{ℕ, ◌≡◌, Bool, true, false, not, ◌||◌, List, [], ◌∷◌, arith}
use robotic_character_interf.Base.Float.{Float}
use robotic_character_interf.Safety.Lifecycle.{
  SafetyLifecyclePolicy, SafetyLifecycleSnapshot, SafetyStopCause, initial_snapshot, arm_watchdog,
  disarm_watchdog, observe_heartbeat_age, set_physical_estop, trigger_software_estop,
  request_manual_reset,
}

-- The public calls that change the controller's snapshot.
pub data Call : Type 0 where
  arm disarm reset : Call
  heartbeat : Float → Call
  physical : Bool → Call
  software : List ℕ → Call

unfoldable pub apply :
    SafetyLifecyclePolicy → Call → SafetyLifecycleSnapshot → SafetyLifecycleSnapshot
apply policy arm s = arm_watchdog s
apply policy disarm s = disarm_watchdog s
apply policy reset s = (request_manual_reset s).snapshot
apply policy (heartbeat age) s = observe_heartbeat_age policy age s
apply policy (physical active) s = set_physical_estop active s
apply policy (software reason) s = trigger_software_estop reason s

unfoldable pub run :
    SafetyLifecyclePolicy → List Call → SafetyLifecycleSnapshot → SafetyLifecycleSnapshot
unfolding apply
run policy [] s = s
run policy (c ∷ cs) s = run policy cs (apply policy c s)

abbrev pub no_causes : List SafetyStopCause → Bool
no_causes [] = true
no_causes (c ∷ cs) = false

-- Only an armed watchdog is healthy, an asserted physical E-stop is latched, and there is a cause
-- exactly while the stop is latched.
pub record IsConsistent (s : SafetyLifecycleSnapshot) : Type 0 where
  pub healthy_armed : (not s.watchdog_healthy || s.watchdog_armed) ≡ true
  pub physical_latched : (not s.physical_estop_active || s.estop_latched) ≡ true
  pub caused : no_causes s.causes ≡ not s.estop_latched

initial-IsConsistent : IsConsistent initial_snapshot
initial-IsConsistent = ground arith

module _ (policy : SafetyLifecyclePolicy) where
  apply-IsConsistent :
      (c : Call) (s : SafetyLifecycleSnapshot) → IsConsistent s → IsConsistent (apply policy c s)
  unfolding apply arm_watchdog disarm_watchdog observe_heartbeat_age set_physical_estop
      trigger_software_estop request_manual_reset
  apply-IsConsistent arm s h = ground arith
  apply-IsConsistent disarm s h = ground arith
  apply-IsConsistent reset s h = ground arith
  apply-IsConsistent (heartbeat age) s h = ground arith
  apply-IsConsistent (physical active) s h = ground arith
  apply-IsConsistent (software reason) s h = ground arith

  pub run_from-IsConsistent :
      (cs : List Call) (s : SafetyLifecycleSnapshot)
      → IsConsistent s
      → IsConsistent (run policy cs s)
  unfolding run
  run_from-IsConsistent [] s h = h
  run_from-IsConsistent (c ∷ cs) s h =
      run_from-IsConsistent cs (apply policy c s) (apply-IsConsistent c s h)

-- After any calls on a new controller only an armed watchdog is healthy, an asserted physical
-- E-stop is latched, and there is a recorded cause exactly while the stop is latched.
pub run-IsConsistent :
    (policy : SafetyLifecyclePolicy) (cs : List Call)
    → IsConsistent (run policy cs initial_snapshot)
run-IsConsistent policy cs = run_from-IsConsistent policy cs initial_snapshot initial-IsConsistent
