-- ===== src/Events.antt =====
-- The event bus (src/shared/events.py).
pub mod Bus
pub mod Delivery
