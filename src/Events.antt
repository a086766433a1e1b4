-- ===== src/Events.antt =====
-- internal/events: the event stream of the service, from the persister to the subscribers.
pub mod Event
pub mod Persist
pub mod Manager
pub mod Subscribe
pub mod Stream
