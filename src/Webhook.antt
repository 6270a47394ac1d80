-- ===== src/Webhook.antt =====
-- The dispatch of webhook deliveries (src/gateway/webhook_dispatcher.py).
pub mod Dispatcher
pub mod Messages
pub mod Requests
pub mod Authentic
pub mod Consumers
pub mod Writes
pub mod Routing
pub mod Deliveries
