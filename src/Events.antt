-- ===== src/Events.antt =====
-- marketplace/services/event_subscription_service.py: events, who may see them, and their delivery to the
-- webhooks of subscribed agents.
pub mod EventType
pub mod Field
pub mod Policy
pub mod Envelope
pub mod Callback
pub mod Delivery
pub mod Attempts
pub mod Safe
pub mod Sent
pub mod Reach
pub mod Subscriptions
pub mod Retention
mod Tests
