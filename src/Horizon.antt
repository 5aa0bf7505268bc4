-- ===== src/Horizon.antt =====
-- The package horizon: receipts, aggregate vouchers (RAVs), their EIP-712 signatures and the
-- aggregation of receipts into a signed voucher.
pub mod Types
pub mod EthGo
pub mod Eip712
pub mod SignedMessage
pub mod Signature
pub mod Checks
pub mod Totals
pub mod Aggregator
