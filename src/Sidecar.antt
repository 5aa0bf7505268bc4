-- ===== src/Sidecar.antt =====
-- The package sidecar, which the provider's and the consumer's sidecar share.
pub mod Convert
pub mod Decimal
pub mod Pricing
pub mod Session
pub mod Manager
pub mod Usage
pub mod Escrow
