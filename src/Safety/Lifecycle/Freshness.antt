-- ===== src/Safety/Lifecycle/Freshness.antt =====
-- rci/safety/lifecycle.py: where the watchdog's health and new sequence numbers come from.
use mathlib.Core.List.{Memᴰ}
use robotic_character_interf.Base.{
  ◌<◌, ◌≡◌, refl, ap, ◌∙◌, ◌⊎◌, inl, inr, true, false, List, [], ◌∷◌, arith, Bool-cases,
}
use robotic_character_interf.Base.Float.{Float, isfinite, lt, zero_f, FiniteLe, FiniteLe-of_not_gt}
use robotic_character_interf.Safety.Lifecycle.{
  SafetyLifecyclePolicy, SafetyLifecycleSnapshot, arm_watchdog, disarm_watchdog,
  observe_heartbeat_age, set_physical_estop, trigger_software_estop, request_manual_reset,
  motion_blocked, lifecycle_policy_valid,
}
use robotic_character_interf.Safety.Lifecycle.Latch.{stale}
use robotic_character_interf.Safety.Lifecycle.Invariant.{
  Call, arm, disarm, reset, heartbeat, physical, software, apply, run,
}

-- Among the calls there is a heartbeat observation that is fresh.
abbrev pub HasFresh : SafetyLifecyclePolicy → List Call → Type 0
HasFresh policy cs =
    (age : Float) × Memᴰ (heartbeat age) cs
    × FiniteLe zero_f age
    × FiniteLe age policy.heartbeat_timeout_ms

fresh_heartbeat :
    (policy : SafetyLifecyclePolicy) (age : Float)
    → lifecycle_policy_valid policy ≡ true
    → stale policy age ≡ false
    → FiniteLe zero_f age × FiniteLe age policy.heartbeat_timeout_ms
unfolding lifecycle_policy_valid
fresh_heartbeat policy age valid fresh =
    let finite : isfinite age ≡ true = ground arith in
    let started : lt age zero_f ≡ false = ground arith in
    let within : lt policy.heartbeat_timeout_ms age ≡ false = ground arith in
    (
      FiniteLe-of_not_gt zero_f age refl finite started,
      FiniteLe-of_not_gt age policy.heartbeat_timeout_ms finite (ground arith) within,
    )

-- A call that makes an unhealthy snapshot healthy is a fresh heartbeat observation.
apply_healthy :
    (policy : SafetyLifecyclePolicy) (c : Call) (cs : List Call) (s : SafetyLifecycleSnapshot)
    → lifecycle_policy_valid policy ≡ true
    → s.watchdog_healthy ≡ false
    → ((apply policy c s).watchdog_healthy ≡ false) ⊎ HasFresh policy (c ∷ cs)
unfolding apply arm_watchdog disarm_watchdog set_physical_estop trigger_software_estop
    request_manual_reset
apply_healthy policy arm cs s valid ill = inl (ground arith)
apply_healthy policy disarm cs s valid ill = inl (ground arith)
apply_healthy policy reset cs s valid ill = inl (ground arith)
apply_healthy policy (heartbeat age) cs s valid ill = elim (Bool-cases (stale policy age)) [
  | inl late ↦ inl (unfold observe_heartbeat_age in ground arith)
  | inr fresh ↦
      let (started, within) = fresh_heartbeat policy age valid fresh in
      inr (age, Memᴰ.head refl, started, within)
]
apply_healthy policy (physical active) cs s valid ill = inl (ground arith)
apply_healthy policy (software reason) cs s valid ill = inl (ground arith)

run_healthy :
    (policy : SafetyLifecyclePolicy) (cs : List Call) (s : SafetyLifecycleSnapshot)
    → lifecycle_policy_valid policy ≡ true
    → s.watchdog_healthy ≡ false
    → (run policy cs s).watchdog_healthy ≡ true
    → HasFresh policy cs
unfolding run
run_healthy policy [] s valid ill well = cc
run_healthy policy (c ∷ cs) s valid ill well = elim (apply_healthy policy c cs s valid ill) [
  | inl ill' ↦
      let (age, m, started, within) = run_healthy policy cs (apply policy c s) valid ill' well in
      (age, Memᴰ.tail m, started, within)
  | inr fresh ↦ fresh
]

-- Under a valid policy a controller whose watchdog is not healthy, a new one in particular, leaves
-- motion unblocked only after calls among which there is a heartbeat observation with an age that
-- is finite, not negative and within the timeout.
pub unblocked_needs_heartbeat :
    (policy : SafetyLifecyclePolicy) (cs : List Call) (s : SafetyLifecycleSnapshot)
    → lifecycle_policy_valid policy ≡ true
    → s.watchdog_healthy ≡ false
    → motion_blocked (run policy cs s) ≡ false
    → HasFresh policy cs
unfolding motion_blocked
unblocked_needs_heartbeat policy cs s valid ill free =
    run_healthy policy cs s valid ill (ground arith)

apply_sequence :
    (policy : SafetyLifecyclePolicy) (c : Call) (s : SafetyLifecycleSnapshot)
    → (apply policy c s ≡ s) ⊎ (s.sequence < (apply policy c s).sequence)
unfolding apply arm_watchdog disarm_watchdog observe_heartbeat_age set_physical_estop
    trigger_software_estop request_manual_reset
apply_sequence policy arm s = ground arith
apply_sequence policy disarm s = ground arith
apply_sequence policy reset s = ground arith
apply_sequence policy (heartbeat age) s = ground arith
apply_sequence policy (physical active) s = ground arith
apply_sequence policy (software reason) s = ground arith

-- Over any calls the snapshot stays the same or its sequence number grows.
pub run_sequence :
    (policy : SafetyLifecyclePolicy) (cs : List Call) (s : SafetyLifecycleSnapshot)
    → (run policy cs s ≡ s) ⊎ (s.sequence < (run policy cs s).sequence)
unfolding run
run_sequence policy [] s = inl refl
run_sequence policy (c ∷ cs) s = elim (apply_sequence policy c s) [
  | inl same ↦ elim (run_sequence policy cs (apply policy c s)) [
    | inl same' ↦ inl (same' ∙ same)
    | inr grown ↦ inr (omega (arith, ap (λ t. t.sequence) same))
  ]
  | inr grown ↦ elim (run_sequence policy cs (apply policy c s)) [
    | inl same' ↦ inr (omega (arith, ap (λ t. t.sequence) same'))
    | inr grown' ↦ inr (omega arith)
  ]
]
