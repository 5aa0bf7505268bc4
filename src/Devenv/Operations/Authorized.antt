-- ===== src/Devenv/Operations/Authorized.antt =====
-- What `AuthorizeSigner` sends, and the answer that `IsAuthorized` needs.
use substreams_data_service.Common.{
  ℕ, zero, suc, ◌+◌, ◌%◌, ◌^◌, ◌<◌, ◌≤◌, ◌≡◌, refl, ap, [], ◌∷◌, some, Bytes, length, String, ◌==◌,
  arith,
}
use substreams_data_service.Common.Int.{pos}
use substreams_data_service.Common.Go.{Go, ok, err, panic}
use substreams_data_service.Common.Action.{◌>>=◌, lift, pure}
use substreams_data_service.Common.Action.Runs.{>>=-run, lift-run, lift-inv}
use substreams_data_service.Horizon.Types.{Address, Signature, Error}
use substreams_data_service.Horizon.EthGo.{EthGo, EthLaws}
use substreams_data_service.Devenv.SignerProof.{generate_signer_proof}
use substreams_data_service.Devenv.SignerProof.Binding.{
  read_by_contract, contract_digest, generate_signer_proof_recovers,
}
use substreams_data_service.Devenv.Chain.{Chain, address, number, bytes}
use substreams_data_service.Devenv.Transactions.{Failure, wrap, unsigned, call_contract}
use substreams_data_service.Devenv.Transactions.Sent.{IsSent, send_transaction-IsSent}
use substreams_data_service.Devenv.Contracts.{call_data}
use substreams_data_service.Devenv.Contracts.Encoded.{IsEncoded, call_data-IsEncoded}
use substreams_data_service.Devenv.Operations.{Env, at, authorize_signer, is_authorized}

pub wrap_inv :
    {A : Type 0} (step : String) (m : Go Failure A) {a : A} → wrap step m ≡ ok a → m ≡ ok a
wrap_inv step (ok b) h = h
wrap_inv step (err e) h = cc
wrap_inv step panic h = cc

unsigned_inv :
    {A : Type 0} (step : String) (m : Go Error A) {a : A} → unsigned step m ≡ ok a → m ≡ ok a
unsigned_inv step (ok b) h = ground arith
unsigned_inv step (err e) h = cc
unsigned_inv step panic h = cc

at_panics : (i : ℕ) (xs : Bytes) → length xs ≤ i → at i xs ≡ panic
at_panics i [] h = refl
at_panics zero (b ∷ rest) h = absurd (omega arith)
at_panics (suc i) (b ∷ rest) h = at_panics i rest (omega arith)

last_panics :
    {S : Type 0} (result : Bytes) (s : S)
    → length result < 32
    → (lift {E = Failure} (at 31 result) >>= λ last. pure (last == 1)) s ≡ (panic, s)
unfolding ◌>>=◌ lift
last_panics result s short = rw (at_panics 31 result (omega arith)) refl

module _ {eth : EthGo} {chain : Chain eth} (env : Env chain) where
  -- If `AuthorizeSigner` succeeds, a transaction of the payer to the collector has been signed,
  -- submitted and mined, whose data encodes a call of `authorizeSigner` with the signer, a deadline
  -- an hour from now and a proof that, as the contract reads it, recovers to the signer over the
  -- digest that the contract computes for this chain, its own address, this deadline and the
  -- payer, if the key makes signatures of 65 bytes that recover to it.
  pub authorize_signer_proves :
      (now : ℕ) (key : eth.PrivateKey) (w t : chain.World)
      → EthLaws eth
      → ((hash : Bytes) (sig : Signature) → eth.sign_hash key hash ≡ ok sig → length sig ≡ 65)
      → authorize_signer env now key w ≡ (ok tt, t)
      → (proof : Bytes) × (input : Bytes) × (eth.recover (read_by_contract proof) (
            contract_digest eth env.chain_id env.collector.address
              ((now + 3600) % 2 ^ 64)
              env.payer.address)
          ≡ ok (eth.address_of key))
        × IsEncoded chain env.collector.abi "authorizeSigner"
            (address (eth.address_of key) ∷ number (pos ((now + 3600) % 2 ^ 64)) ∷ bytes proof ∷ [])
            input
        × IsSent chain env.payer.private_key env.chain_id
            (some env.collector.address)
            (pos 0)
            input
            w
            t
  unfolding authorize_signer
  authorize_signer_proves now key w t laws size h =
      let deadline = (now + 3600) % 2 ^ 64 in
      let (proof, made, h₁) =
        lift-inv
          (unsigned "generating signer proof" (
            generate_signer_proof eth env.chain_id env.collector.address deadline env.payer.address
              key))
          _ w h in
      let args = address (eth.address_of key) ∷ number (pos deadline) ∷ bytes proof ∷ [] in
      let (input, encoded, h₂) =
        lift-inv
          (wrap "encoding authorizeSigner call"
            (call_data chain env.collector "authorizeSigner" args))
          _ w h₁ in
      let (long, recovers) =
        generate_signer_proof_recovers eth env.chain_id deadline env.collector.address
          env.payer.address key proof laws size (unsigned_inv "generating signer proof" _ made) in
      (
        proof,
        input,
        recovers,
        call_data-IsEncoded chain env.collector "authorizeSigner" args
            (wrap_inv "encoding authorizeSigner call" _ encoded),
        send_transaction-IsSent chain env.payer.private_key env.chain_id
            (some env.collector.address) (pos 0) input w t h₂,
      )

  -- If the contract answers `isAuthorized` with fewer than 32 bytes, `IsAuthorized` panics.
  pub is_authorized_panics :
      (authorizer signer : Address) (w t : chain.World) (input result : Bytes)
      → call_data chain env.collector "isAuthorized" (address authorizer ∷ address signer ∷ [])
        ≡ ok input
      → call_contract chain env.collector.address input w ≡ (ok result, t)
      → length result < 32
      → is_authorized env authorizer signer w ≡ (panic, t)
  unfolding is_authorized
  is_authorized_panics authorizer signer w t input result encoded called short =
      lift-run
        (wrap "encoding isAuthorized call"
          (call_data chain env.collector "isAuthorized" (address authorizer ∷ address signer ∷ [])))
        _ w (ap (wrap "encoding isAuthorized call") encoded)
        (>>=-run (call_contract chain env.collector.address input) _ w called
          (last_panics result t short))
