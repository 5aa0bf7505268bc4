-- ===== src/Provider.antt =====
-- The provider's sidecar (provider/sidecar): its state, and one module for each handler.
pub mod State
pub mod Messages
pub mod Signers
pub mod Validate
pub mod Report
pub mod Finish
pub mod Status
pub mod Start
pub mod Submit
pub mod Stream
pub mod Steps
