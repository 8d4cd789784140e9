-- ===== src/State/Tests.antt =====
-- Runs of the state manager, and its theorems at concrete inputs.
use robotic_character_interf.Base.{◌+◌, ◌≤◌, ◌≡◌, refl, none, List, [], ◌∷◌, arith}
use robotic_character_interf.Base.Lists.{length}
use robotic_character_interf.Domain.{
  boot, self_test, calibrating, idle, armed, shutdown, fault, SystemState,
}
use robotic_character_interf.State.{can_transition}
use robotic_character_interf.State.Models.{default_snapshot}
use robotic_character_interf.State.Manager.{
  PublishOutcome, accepted, raised, cancelled, Manager, Request, transition_system, Call,
  transition, apply, run,
}
use robotic_character_interf.State.Atomicity.{
  Contract, transition_system-Contract, IsPath, NoneCancelled, published-IsPath, fresh,
}
use robotic_character_interf.State.Recovery.{halted_recovery, run-shutdown, when_armed, at_boot}

abbrev to_state : SystemState → PublishOutcome → Request
to_state target outcome = record {
  target = target;
  reason = none;
  source = "test";
  updated_at = 5;
  captured_at = 6;
  outcome = outcome;
}

abbrev booted : Manager
booted = fresh (default_snapshot 1)

-- One refused and one raising request lie among the four that arm the robot.
abbrev arming : List Call
arming =
    transition (to_state self_test accepted)
    ∷ transition (to_state armed accepted)
    ∷ transition (to_state calibrating accepted)
    ∷ transition (to_state idle raised)
    ∷ transition (to_state idle accepted)
    ∷ transition (to_state armed accepted)
    ∷ []

arming_ends : (run arming booted).snapshot.system.state ≡ armed
unfolding run apply can_transition
arming_ends = refl

transition_system-Contract_example :
    Contract (to_state fault cancelled) booted (transition_system (to_state fault cancelled) booted)
transition_system-Contract_example = transition_system-Contract (to_state fault cancelled) booted

arming-NoneCancelled : NoneCancelled arming
arming-NoneCancelled = ground arith

published-IsPath_example :
    IsPath boot (run arming booted).published (run arming booted).snapshot.system.state
    × ((run arming booted).snapshot.system.sequence ≡ 0 + length (run arming booted).published)
published-IsPath_example = published-IsPath (default_snapshot 1) arming arming-NoneCancelled

halted_recovery_example : 0 + 4 ≤ (run arming booted).snapshot.system.sequence
unfolding run apply can_transition
halted_recovery_example = halted_recovery arming booted at_boot when_armed

abbrev stopped : Manager
stopped = record {
  snapshot = (run (transition (to_state shutdown accepted) ∷ []) booted).snapshot;
  published = [];
}

run-shutdown_example :
    ((run arming stopped).snapshot.system ≡ stopped.snapshot.system)
    × ((run arming stopped).published ≡ [])
unfolding run apply can_transition
run-shutdown_example = run-shutdown arming stopped refl
