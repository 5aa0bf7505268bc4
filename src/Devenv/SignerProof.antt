-- ===== src/Devenv/SignerProof.antt =====
-- horizon/devenv/authorization.go: `GenerateSignerProof`.
pub mod Binding
use substreams_data_service.Common.{ℕ, ◌++◌, ◌∷◌, Bytes, take, drop}
use substreams_data_service.Common.Digits.{fixed}
use substreams_data_service.Common.Go.{Go, ok, ◌>>=◌}
use substreams_data_service.Horizon.Types.{Address, Signature, Error}
use substreams_data_service.Horizon.EthGo.{EthGo}
use substreams_data_service.Horizon.Eip712.{codes}

-- The chain, the contract's address, a text, the deadline and the authorizer, tightly packed.
unfoldable pub proof_message : ℕ → Address → ℕ → Address → Bytes
proof_message chain_id collector_address proof_deadline authorizer =
    fixed 256 32 chain_id
    ++ (collector_address
        ++ (codes "authorizeSignerProof" ++ (fixed 256 32 proof_deadline ++ authorizer)))

-- The slices of a signature of 65 bytes, V, R and S, in the order R, S, V.
unfoldable pub reorder : Signature → Bytes
reorder sig = take 32 (drop 1 sig) ++ (take 32 (drop 33 sig) ++ take 1 sig)

module _ (eth : EthGo) where
  -- The digest of an Ethereum signed message.
  unfoldable pub proof_digest : Bytes → Bytes
  proof_digest message =
      eth.keccak256 ((25 ∷ codes "Ethereum Signed Message:\n32") ++ eth.keccak256 message)

  unfoldable pub generate_signer_proof : ℕ → Address → ℕ → Address → eth.PrivateKey → Go Error Bytes
  generate_signer_proof chain_id collector_address proof_deadline authorizer signer_key =
      eth.sign_hash signer_key
        (proof_digest (proof_message chain_id collector_address proof_deadline authorizer))
      >>= λ sig. ok (reorder sig)
