-- ===== src/Safety/Lifecycle/Latch.antt =====
-- rci/safety/lifecycle.py: the latch, the manual reset and stale heartbeats.
use robotic_character_interf.Base.{
  ◌≡◌, ◌≢◌, ◌⊎◌, Bool, true, false, not, ◌&&◌, ◌||◌, List, [], ◌∷◌, arith,
}
use robotic_character_interf.Base.Float.{Float, isfinite, lt, zero_f}
use robotic_character_interf.Safety.Lifecycle.{
  SafetyLifecyclePolicy, SafetyLifecycleSnapshot, SafetyStopCause, has_cause, arm_watchdog,
  disarm_watchdog, observe_heartbeat_age, set_physical_estop, trigger_software_estop,
  request_manual_reset, motion_blocked,
}
use robotic_character_interf.Safety.Lifecycle.Invariant.{
  Call, arm, disarm, reset, heartbeat, physical, software, apply, run,
}

-- No call of the list is a manual reset.
abbrev pub NoReset : List Call → Type 0
NoReset [] = Unit
NoReset (reset ∷ cs) = ⊥
NoReset (arm ∷ cs) = NoReset cs
NoReset (disarm ∷ cs) = NoReset cs
NoReset (heartbeat age ∷ cs) = NoReset cs
NoReset (physical active ∷ cs) = NoReset cs
NoReset (software reason ∷ cs) = NoReset cs

-- A latched stop in which a cause is recorded.
record Holds (cause : SafetyStopCause) (s : SafetyLifecycleSnapshot) : Type 0 where
  latched : s.estop_latched ≡ true
  recorded : has_cause cause s.causes ≡ true

module _ (policy : SafetyLifecyclePolicy) (cause : SafetyStopCause) where
  apply-Holds :
      (c : Call) (cs : List Call) (s : SafetyLifecycleSnapshot)
      → NoReset (c ∷ cs)
      → Holds cause s
      → Holds cause (apply policy c s) × NoReset cs
  unfolding apply arm_watchdog disarm_watchdog observe_heartbeat_age set_physical_estop
      trigger_software_estop
  apply-Holds arm cs s n h = (ground arith, n)
  apply-Holds disarm cs s n h = (ground arith, n)
  apply-Holds reset cs s n h = absurd n
  apply-Holds (heartbeat age) cs s n h = (ground arith, n)
  apply-Holds (physical active) cs s n h = (ground arith, n)
  apply-Holds (software reason) cs s n h = (ground arith, n)

  run-Holds :
      (cs : List Call) (s : SafetyLifecycleSnapshot)
      → NoReset cs
      → Holds cause s
      → Holds cause (run policy cs s)
  unfolding run
  run-Holds [] s n h = h
  run-Holds (c ∷ cs) s n h =
      let (h', n') = apply-Holds c cs s n h in run-Holds cs (apply policy c s) n' h'

-- A latched stop stays latched, keeps each of its causes and blocks motion over any calls among
-- which there is no manual reset, whatever heartbeats and E-stop levels are observed.
pub latch_sticky :
    (policy : SafetyLifecyclePolicy) (cause : SafetyStopCause) (cs : List Call)
    (s : SafetyLifecycleSnapshot)
    → NoReset cs
    → s.estop_latched ≡ true
    → has_cause cause s.causes ≡ true
    → let s' = run policy cs s in
      (s'.estop_latched ≡ true) × (has_cause cause s'.causes ≡ true) × (motion_blocked s' ≡ true)
unfolding motion_blocked
latch_sticky policy cause cs s n latched recorded =
    let h = run-Holds policy cause cs s n (record { latched = latched; recorded = recorded }) in
    (h.latched, h.recorded, rw (h.latched))

-- A manual reset succeeds exactly when a stop is latched, the physical E-stop is released and the
-- watchdog is armed and healthy. Then motion is no longer blocked and no cause is left; otherwise
-- the snapshot is unchanged and at least one denial is given.
pub reset_iff :
    (s : SafetyLifecycleSnapshot)
    → let r = request_manual_reset s in
      (r.cleared ≡ (
        s.estop_latched && not s.physical_estop_active && s.watchdog_armed && s.watchdog_healthy))
      × ((r.cleared ≡ true)
            × (motion_blocked r.snapshot ≡ false)
            × (r.snapshot.causes ≡ [])
            × (r.denials ≡ [])
          ⊎ (r.cleared ≡ false) × (r.snapshot ≡ s) × (r.denials ≢ []))
unfolding request_manual_reset motion_blocked
reset_iff s = (ground arith, ground arith)

-- A heartbeat observation that is not fresh.
abbrev pub stale : SafetyLifecyclePolicy → Float → Bool
stale policy age = (not (isfinite age) || lt age zero_f) || lt policy.heartbeat_timeout_ms age

-- An armed controller that observes an invalid or late heartbeat age is latched and unhealthy, so
-- motion is blocked and the next manual reset is refused.
pub stale_heartbeat_latches :
    (policy : SafetyLifecyclePolicy) (age : Float) (s : SafetyLifecycleSnapshot)
    → s.watchdog_armed ≡ true
    → stale policy age ≡ true
    → let s' = observe_heartbeat_age policy age s in
      (s'.estop_latched ≡ true)
      × (s'.watchdog_healthy ≡ false)
      × (motion_blocked s' ≡ true)
      × ((request_manual_reset s').cleared ≡ false)
unfolding observe_heartbeat_age motion_blocked request_manual_reset
stale_heartbeat_latches policy age s armed late = ground arith
