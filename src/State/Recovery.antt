-- ===== src/State/Recovery.antt =====
-- How far the system states lie from motion, over any calls of the manager, cancelled ones too.
use robotic_character_interf.Base.{ℕ, ◌+◌, ◌≤◌, ◌≡◌, refl, ◌∙◌, true, List, [], ◌∷◌, arith}
use robotic_character_interf.Domain.{
  SystemState, boot, self_test, calibrating, idle, armed, executing, degraded, fault, shutdown,
}
use robotic_character_interf.State.{can_transition}
use robotic_character_interf.State.Manager.{Manager, Call, transition, replace, apply, run}

-- The least number of transitions from a state to one in which the robot may move.
abbrev distance : SystemState → ℕ
distance armed = 0
distance executing = 0
distance idle = 1
distance calibrating = 2
distance degraded = 2
distance self_test = 3
distance boot = 4
distance fault = 4
distance SystemState.estop = 4
distance shutdown = 5

distance_step : (s t : SystemState) → can_transition s t ≡ true → distance s ≤ distance t + 1
unfolding can_transition
distance_step s t h = ground arith

abbrev state_of : Manager → SystemState
state_of m = m.snapshot.system.state

abbrev sequence_of : Manager → ℕ
sequence_of m = m.snapshot.system.sequence

distance-apply :
    (c : Call) (m : Manager)
    → distance (state_of m) + sequence_of m
      ≤ distance (state_of (apply c m)) + sequence_of (apply c m)
unfolding apply
distance-apply (transition r) m = ground (arith, distance_step (state_of m) r.target)
distance-apply (replace c now) m = ground arith

distance-run :
    (cs : List Call) (m : Manager)
    → distance (state_of m) + sequence_of m
      ≤ distance (state_of (run cs m)) + sequence_of (run cs m)
unfolding run
distance-run [] m = omega arith
distance-run (c ∷ cs) m = omega (arith, distance-apply c m, distance-run cs (apply c m))

-- The system states in which the robot may move.
pub data CanMove : SystemState → Type 0 where
  when_armed : CanMove armed
  when_executing : CanMove executing

-- The system states after a stop or a start.
pub data IsHalted : SystemState → Type 0 where
  at_boot : IsHalted boot
  at_fault : IsHalted fault
  at_estop : IsHalted SystemState.estop

distance-CanMove : {s : SystemState} → CanMove s → distance s ≡ 0
distance-CanMove when_armed = refl
distance-CanMove when_executing = refl

distance-IsHalted : {s : SystemState} → IsHalted s → distance s ≡ 4
distance-IsHalted at_boot = refl
distance-IsHalted at_fault = refl
distance-IsHalted at_estop = refl

-- Whatever calls are made on the manager, from BOOT, FAULT or ESTOP the system is in ARMED or
-- EXECUTING only after four or more transitions have been applied.
pub halted_recovery :
    (cs : List Call) (m : Manager)
    → IsHalted m.snapshot.system.state
    → CanMove (run cs m).snapshot.system.state
    → m.snapshot.system.sequence + 4 ≤ (run cs m).snapshot.system.sequence
halted_recovery cs m halted moving =
    omega (arith, distance-run cs m, distance-IsHalted halted, distance-CanMove moving)

apply-shutdown :
    (c : Call) (m : Manager)
    → m.snapshot.system.state ≡ shutdown
    → ((apply c m).snapshot.system ≡ m.snapshot.system) × ((apply c m).published ≡ m.published)
unfolding apply can_transition
apply-shutdown (transition r) m h = ground arith
apply-shutdown (replace c now) m h = ground arith

-- SHUTDOWN is final: no calls of the manager change the system snapshot or publish an event.
pub run-shutdown :
    (cs : List Call) (m : Manager)
    → m.snapshot.system.state ≡ shutdown
    → ((run cs m).snapshot.system ≡ m.snapshot.system) × ((run cs m).published ≡ m.published)
unfolding run
run-shutdown [] m h = (refl, refl)
run-shutdown (c ∷ cs) m h =
    let (same, quiet) = apply-shutdown c m h in
    let (same', quiet') = run-shutdown cs (apply c m) (rw same h) in (same' ∙ same, quiet' ∙ quiet)
