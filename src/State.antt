-- ===== src/State.antt =====
-- rci/state: the table of legal system-state transitions (transitions.py), the snapshots
-- (models.py) and the state manager (manager.py).
pub mod Models
pub mod Manager
pub mod Atomicity
pub mod Recovery
mod Tests
use robotic_character_interf.Base.{Bool, List, [], ◌∷◌}
use robotic_character_interf.Domain.{
  SystemState, boot, self_test, calibrating, idle, armed, executing, degraded, fault, shutdown,
  in_states,
}

-- `LEGAL_TRANSITIONS`
unfoldable pub allowed_targets : SystemState → List SystemState
allowed_targets boot = self_test ∷ fault ∷ SystemState.estop ∷ shutdown ∷ []
allowed_targets self_test = calibrating ∷ degraded ∷ fault ∷ SystemState.estop ∷ shutdown ∷ []
allowed_targets calibrating = idle ∷ degraded ∷ fault ∷ SystemState.estop ∷ shutdown ∷ []
allowed_targets idle = armed ∷ calibrating ∷ degraded ∷ fault ∷ SystemState.estop ∷ shutdown ∷ []
allowed_targets armed = executing ∷ idle ∷ degraded ∷ fault ∷ SystemState.estop ∷ shutdown ∷ []
allowed_targets executing = armed ∷ degraded ∷ fault ∷ SystemState.estop ∷ shutdown ∷ []
allowed_targets degraded = self_test ∷ idle ∷ fault ∷ SystemState.estop ∷ shutdown ∷ []
allowed_targets fault = self_test ∷ SystemState.estop ∷ shutdown ∷ []
allowed_targets SystemState.estop = self_test ∷ shutdown ∷ []
allowed_targets shutdown = []

unfoldable pub can_transition : SystemState → SystemState → Bool
unfolding allowed_targets
can_transition current target = in_states target (allowed_targets current)
