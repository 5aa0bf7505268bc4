-- ===== src/Tests.antt =====
-- Runs of the definitions and of the theorems on concrete data.
pub mod Samples
pub mod Aggregation
pub mod Sessions
pub mod Consumers
pub mod Clients
pub mod Races
pub mod DevenvRuns
pub mod StartRuns
pub mod RegistryRuns
pub mod Payments
pub mod Prices
pub mod Costs
