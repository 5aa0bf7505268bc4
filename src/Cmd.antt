-- ===== src/Cmd.antt =====
-- The tools of cmd/sds that drive the sidecars: a client of the consumer's sidecar and an operator
-- of the provider's.
pub mod Batches
pub mod ConsumerClient
pub mod ProviderClient
