-- ===== src/Devenv.antt =====
-- horizon/devenv: the helpers with which the tests drive a chain that has the payment contracts. The
-- chain is reached over RPC, and is a parameter.
pub mod SignerProof
pub mod Chain
pub mod Transactions
pub mod Contracts
pub mod Operations
pub mod Deploy
pub mod Start
