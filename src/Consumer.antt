-- ===== src/Consumer.antt =====
-- The consumer's sidecar (consumer/sidecar): its state, and one module for each handler.
pub mod State
pub mod Init
pub mod Report
pub mod Finish
