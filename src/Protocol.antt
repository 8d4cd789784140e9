-- ===== src/Protocol.antt =====
-- rci/protocols: the binary wire protocol, version 1.
pub mod Constants
pub mod Checksum
pub mod Framing
pub mod Messages
pub mod Stream
pub mod Tests
