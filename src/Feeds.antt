-- ===== src/Feeds.antt =====
-- services/information_layer/information_layer: the events of the feeds, and their coordinator.
pub mod Events
pub mod Coordinator
pub mod Snapshot
pub mod Collector
mod Examples
