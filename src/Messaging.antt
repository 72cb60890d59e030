-- ===== src/Messaging.antt =====
-- internal/messaging: the way of an envelope into the broker and out of it into the store.
pub mod Records
pub mod Publisher
pub mod Topics
pub mod Quarantine
pub mod World
pub mod Process
pub mod Reader
pub mod Delivery
