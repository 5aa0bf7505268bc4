-- ===== src/Devenv/SignerProof/Binding.antt =====
-- What a signer's proof is: a signature that the contract recovers, over a message that determines
-- what it authorizes.
use substreams_data_service.Common.{
  ℕ, ◌<◌, ◌≤◌, ◌^◌, ◌≡◌, refl, sym, ap, ◌∙◌, [], ◌∷◌, ◌++◌, Bytes, length, take, drop,
  length-append, length-drop, take-append, drop-append, take-append-drop, take_all, append_inj,
  append_assoc, arith,
}
use substreams_data_service.Common.Digits.{fixed, value, value-fixed, length-fixed}
use substreams_data_service.Common.Go.{ok, >>=-eq-ok}
use substreams_data_service.Horizon.Types.{Address, Signature}
use substreams_data_service.Horizon.EthGo.{EthGo, EthLaws}
use substreams_data_service.Horizon.Eip712.{codes}
use substreams_data_service.Devenv.SignerProof.{
  proof_message, reorder, proof_digest, generate_signer_proof,
}

fixed_inj : (n m : ℕ) → n < 2 ^ 64 → m < 2 ^ 64 → fixed 256 32 n ≡ fixed 256 32 m → n ≡ m
fixed_inj n m h k e =
    sym (value-fixed 256 (omega arith) 32 n (omega arith))
    ∙ ap (value 256) e
    ∙ value-fixed 256 (omega arith) 32 m (omega arith)

same_length : (n m : ℕ) → length (fixed 256 32 n) ≡ length (fixed 256 32 m)
same_length n m = length-fixed 256 (omega arith) 32 n ∙ sym (length-fixed 256 (omega arith) 32 m)

-- For 64-bit chain identifiers and deadlines and contract addresses of 20 bytes, the message of a
-- proof determines the chain, the contract, the deadline and the authorizer.
pub proof_message_binds :
    (chain chain' deadline deadline' : ℕ) (collector collector' authorizer authorizer' : Address)
    → chain < 2 ^ 64
    → chain' < 2 ^ 64
    → deadline < 2 ^ 64
    → deadline' < 2 ^ 64
    → length collector ≡ 20
    → length collector' ≡ 20
    → proof_message chain collector deadline authorizer
      ≡ proof_message chain' collector' deadline' authorizer'
    → (chain ≡ chain')
      × (collector ≡ collector')
      × (deadline ≡ deadline')
      × (authorizer ≡ authorizer')
unfolding proof_message
proof_message_binds chain chain' deadline deadline' collector collector' authorizer authorizer' h h'
      k k' l l' e =
    let (a, e₁) =
      append_inj (fixed 256 32 chain) (fixed 256 32 chain') (same_length chain chain') e in
    let (b, e₂) = append_inj collector collector' (l ∙ sym l') e₁ in
    let (_, e₃) =
      append_inj (codes "authorizeSignerProof") (codes "authorizeSignerProof") refl e₂ in
    let (c, d) =
      append_inj (fixed 256 32 deadline) (fixed 256 32 deadline') (same_length deadline deadline')
        e₃ in
    (fixed_inj chain chain' h h' a, b, fixed_inj deadline deadline' k k' c, d)

-- How the contract reads a proof: V is the byte at 64, behind R and S.
abbrev pub read_by_contract : Bytes → Signature
read_by_contract proof = drop 64 proof ++ take 64 proof

reorder_cons : (v : ℕ) (rs : Bytes) → length rs ≡ 64 → reorder (v ∷ rs) ≡ rs ++ v ∷ []
unfolding reorder
reorder_cons v rs h =
    let rest : length (drop 32 rs) ≤ 32 = omega (arith, length-drop 32 rs) in
    ap (λ x. take 32 rs ++ (x ++ v ∷ [])) (take_all 32 (drop 32 rs) rest)
    ∙ sym (append_assoc (take 32 rs) (drop 32 rs) (v ∷ []))
    ∙ ap (λ x. x ++ v ∷ []) (take-append-drop 32 rs)

read_by_contract-reorder :
    (sig : Signature)
    → length sig ≡ 65
    → (length (reorder sig) ≡ 65) × (read_by_contract (reorder sig) ≡ sig)
read_by_contract-reorder [] h = absurd (omega arith)
read_by_contract-reorder (v ∷ rs) h =
    let size : length rs ≡ 64 = omega arith in
    rw (reorder_cons v rs size, drop-append 64 rs (v ∷ []) size, take-append 64 rs (v ∷ []) size)
      (omega (arith, length-append rs (v ∷ []), size), refl)

-- The digest that the contract computes, by the comment on `GenerateSignerProof`: the hash of the
-- packed message, a word of 32 bytes for a number and the plain bytes of an address, behind the
-- prefix of an Ethereum signed message.
abbrev pub contract_digest : EthGo → ℕ → Address → ℕ → Address → Bytes
contract_digest eth chain_id contract deadline sender =
    let packed =
      fixed 256 32 chain_id
      ++ (contract ++ (codes "authorizeSignerProof" ++ (fixed 256 32 deadline ++ sender))) in
    eth.keccak256 (25 ∷ (codes "Ethereum Signed Message:\n32" ++ eth.keccak256 packed))

-- A proof that is made has 65 bytes, and as the contract reads it, it recovers, over the digest that
-- the contract computes for the chain, its own address, the deadline and the authorizer, to the
-- address of the signer, if the key makes signatures of 65 bytes that recover to it.
pub generate_signer_proof_recovers :
    (eth : EthGo) (chain deadline : ℕ) (collector authorizer : Address) (key : eth.PrivateKey)
    (proof : Bytes)
    → EthLaws eth
    → ((hash : Bytes) (sig : Signature) → eth.sign_hash key hash ≡ ok sig → length sig ≡ 65)
    → generate_signer_proof eth chain collector deadline authorizer key ≡ ok proof
    → (length proof ≡ 65)
      × (eth.recover
            (read_by_contract proof)
            (contract_digest eth chain collector deadline authorizer)
          ≡ ok (eth.address_of key))
unfolding generate_signer_proof proof_digest proof_message
generate_signer_proof_recovers eth chain deadline collector authorizer key proof laws size e =
    let digest = proof_digest eth (proof_message chain collector deadline authorizer) in
    let (sig, made, f) = >>=-eq-ok (eth.sign_hash key digest) _ e in
    let whole : reorder sig ≡ proof = ground arith in
    let (long, back) = read_by_contract-reorder sig (size digest sig made) in
    rw⁻¹ whole (long, ap (λ s. eth.recover s digest) back ∙ laws.recover-sign key digest sig made)
