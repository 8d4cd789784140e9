-- ===== src/Safety/Supervisor/Traces.antt =====
-- Sequences of calls on a supervisor, and the authorizations that they issue.
use robotic_character_interf.Base.{
  ℕ, ◌≡◌, inl, inr, refl, Bool, true, ◌||◌, arith, List, [], ◌∷◌, ◌++◌, Option, none, some,
}
use robotic_character_interf.Safety.Supervisor.{
  Float, MotionDynamics, SafetyEnvelope, MotionCandidate, MotionAuthorization,
  MotionSafetySupervisor, decide_motion, refresh, evaluate,
}
use robotic_character_interf.Safety.Supervisor.Approval.{decide_motion-cases}
use robotic_character_interf.Safety.Lifecycle.{
  SafetyLifecyclePolicy, observe_heartbeat_age, SafetyLifecycleSnapshot, request_manual_reset,
  trigger_software_estop, set_physical_estop, disarm_watchdog, arm_watchdog, motion_blocked,
}

-- The public calls of the supervisor that change its lifecycle.
pub data Call : Type 0 where
  assess : ℕ → MotionCandidate → MotionDynamics → Call
  arm disarm reset : Call
  observe : Float → Call
  software : List ℕ → Call

-- The delegating methods, on the lifecycle snapshot.
abbrev with_snapshot : MotionSafetySupervisor → SafetyLifecycleSnapshot → MotionSafetySupervisor
with_snapshot m s = record m { snapshot = s }

abbrev pub issued : Option MotionAuthorization → List MotionAuthorization
issued none = []
issued (some a) = a ∷ []

-- A call gives the new supervisor and the authorizations that it hands out.
unfoldable pub step :
    Call → MotionSafetySupervisor → MotionSafetySupervisor × List MotionAuthorization
unfolding evaluate
step (assess uuid c d) m = let (m', r) = evaluate uuid c d m in (m', issued r.authorization)
step arm m = (with_snapshot m (arm_watchdog m.snapshot), [])
step disarm m = (with_snapshot m (disarm_watchdog m.snapshot), [])
step reset m = (with_snapshot m (request_manual_reset m.snapshot).snapshot, [])
step (observe age) m = (with_snapshot m (observe_heartbeat_age m.policy age m.snapshot), [])
step (software reason) m = (with_snapshot m (trigger_software_estop reason m.snapshot), [])

unfoldable pub run :
    List Call → MotionSafetySupervisor → MotionSafetySupervisor × List MotionAuthorization
unfolding step
run [] m = (m, [])
run (c ∷ cs) m = let (m', first) = step c m in let (m'', later) = run cs m' in (m'', first ++ later)

-- No call of the list is a manual reset.
abbrev pub NoReset : List Call → Type 0
NoReset [] = Unit
NoReset (reset ∷ cs) = ⊥
NoReset (assess uuid c d ∷ cs) = NoReset cs
NoReset (arm ∷ cs) = NoReset cs
NoReset (disarm ∷ cs) = NoReset cs
NoReset (observe age ∷ cs) = NoReset cs
NoReset (software reason ∷ cs) = NoReset cs

abbrev latched : MotionSafetySupervisor → Bool
latched m = m.snapshot.estop_latched

refresh-latched :
    (policy : SafetyLifecyclePolicy) (c : MotionCandidate) (d : MotionDynamics)
    (s : SafetyLifecycleSnapshot)
    → (s.estop_latched || c.estop_active) ≡ true
    → (refresh policy c d s).estop_latched ≡ true
unfolding refresh observe_heartbeat_age set_physical_estop
refresh-latched policy c d s h = ground arith

-- A latched snapshot admits no grant.
decide_motion-latched :
    (uuid : ℕ) (e : SafetyEnvelope) (c : MotionCandidate) (d : MotionDynamics)
    (s : SafetyLifecycleSnapshot)
    → s.estop_latched ≡ true
    → (decide_motion uuid e c d s).authorization ≡ none
unfolding motion_blocked
decide_motion-latched uuid e c d s h = elim (decide_motion-cases uuid e c d s) [
  | inl (free, a) ↦ absurd (ground arith)
  | inr refusal ↦ refusal.unauthorized
]

evaluate-latched :
    (uuid : ℕ) (c : MotionCandidate) (d : MotionDynamics) (m : MotionSafetySupervisor)
    → (latched m || c.estop_active) ≡ true
    → (latched (evaluate uuid c d m).0 ≡ true) × ((evaluate uuid c d m).1.authorization ≡ none)
unfolding evaluate
evaluate-latched uuid c d m h =
    let s = refresh m.policy c d m.snapshot in
    let stays = refresh-latched m.policy c d m.snapshot h in
    (stays, decide_motion-latched uuid m.envelope c d s stays)

step-latched :
    (c : Call) (cs : List Call) (m : MotionSafetySupervisor)
    → NoReset (c ∷ cs)
    → latched m ≡ true
    → (latched (step c m).0 ≡ true) × ((step c m).1 ≡ []) × NoReset cs
unfolding step arm_watchdog disarm_watchdog observe_heartbeat_age trigger_software_estop
step-latched (assess uuid c d) cs m n h =
    let (stays, none_issued) = evaluate-latched uuid c d m (ground arith) in
    (stays, rw none_issued, n)
step-latched arm cs m n h = (ground arith, refl, n)
step-latched disarm cs m n h = (ground arith, refl, n)
step-latched reset cs m n h = absurd n
step-latched (observe age) cs m n h = (ground arith, refl, n)
step-latched (software reason) cs m n h = (ground arith, refl, n)

-- While a stop is latched no calls without a manual reset issue an authorization, whatever
-- candidates are evaluated among them.
pub latched_issues_none :
    (cs : List Call) (m : MotionSafetySupervisor)
    → NoReset cs
    → m.snapshot.estop_latched ≡ true
    → ((run cs m).0.snapshot.estop_latched ≡ true) × ((run cs m).1 ≡ [])
unfolding run
latched_issues_none [] m n h = (h, refl)
latched_issues_none (c ∷ cs) m n h =
    let (h', none_issued, n') = step-latched c cs m n h in
    let (h'', none_later) = latched_issues_none cs (step c m).0 n' h' in
    (h'', rw (none_issued, none_later))

-- An evaluation whose candidate has the physical E-stop asserted, and any calls after it without a
-- manual reset, issue no authorization.
pub estop_stops_motion :
    (uuid : ℕ) (c : MotionCandidate) (d : MotionDynamics) (cs : List Call)
    (m : MotionSafetySupervisor)
    → c.estop_active ≡ true
    → NoReset cs
    → (run (assess uuid c d ∷ cs) m).1 ≡ []
unfolding run
estop_stops_motion uuid c d cs m asserted n =
    let (stays, none_issued) = evaluate-latched uuid c d m (ground arith) in
    let (_, none_later) = latched_issues_none cs (evaluate uuid c d m).0 n stays in
    rw (none_issued, none_later)
