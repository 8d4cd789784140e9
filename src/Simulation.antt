-- ===== src/Simulation.antt =====
-- rci/simulation: the software-in-the-loop link.
pub mod ProtocolLink
pub mod Twin
pub mod Device
pub mod Exchange
pub mod Commanded
mod Tests
mod GatewayTests
