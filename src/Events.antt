-- ===== src/Events.antt =====
-- rci/events: the event bus.
pub mod Bus
mod Tests
