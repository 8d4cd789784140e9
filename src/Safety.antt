-- ===== src/Safety.antt =====
-- rci/safety: the deterministic motion-safety stack.
pub mod Models
pub mod Eligibility
pub mod Dynamics
pub mod Lifecycle
pub mod Supervisor
mod Tests
