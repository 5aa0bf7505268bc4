-- ===== src/Devenv/Operations.antt =====
-- horizon/devenv/helpers.go: the operations of `Env` on its contracts, and `SetupTestWithSigner`.
pub mod Authorized
use substreams_data_service.Common.{
  ℕ, zero, suc, ◌+◌, ◌*◌, ◌%◌, ◌^◌, List, [], ◌∷◌, none, some, Bool, Bytes, String, length, ◌==◌,
  if◌then◌else◌,
}
use substreams_data_service.Common.Int.{ℤ, pos}
use substreams_data_service.Common.Digits.{set_bytes}
use substreams_data_service.Common.Go.{Ptr, Go, ok, err, panic}
use substreams_data_service.Common.Action.{Action, ◌>>=◌, ◌>>◌, pure, lift}
use substreams_data_service.Horizon.Types.{Address, Error}
use substreams_data_service.Horizon.EthGo.{EthGo}
use substreams_data_service.Sidecar.Escrow.{address_word}
use substreams_data_service.Devenv.SignerProof.{generate_signer_proof}
use substreams_data_service.Devenv.Chain.{Chain, Arg, address, number, bytes}
use substreams_data_service.Devenv.Transactions.{
  Failure, or_fail, during, wrap, wrapped, unexpected_length, unsigned, send_transaction,
  call_contract,
}
use substreams_data_service.Devenv.Contracts.{Contract, call_data, within}

pub record Account (eth : EthGo) : Type 0 where
  pub address : Address
  pub private_key : eth.PrivateKey

pub record Env {eth : EthGo} (chain : Chain eth) : Type 0 where
  pub chain_id : ℕ
  pub grt_token : Contract chain
  pub staking : Contract chain
  pub escrow : Contract chain
  pub collector : Contract chain
  pub data_service : Contract chain
  pub deployer : Account eth
  pub service_provider : Account eth
  pub payer : Account eth

pub record TestSetupConfig : Type 0 where
  pub escrow_amount : ℤ
  pub provision_amount : ℤ

-- 10,000 and 1,000 GRT
unfoldable pub default_test_setup_config : TestSetupConfig
default_test_setup_config = record {
  escrow_amount = pos (10000 * 10 ^ 18);
  provision_amount = pos (1000 * 10 ^ 18);
}

pub record TestSetupResult (eth : EthGo) : Type 0 where
  pub signer_key : eth.PrivateKey
  pub signer_addr : Address

-- `result[i]`
abbrev pub at : ℕ → Bytes → Go Failure ℕ
at i [] = panic
at zero (b ∷ rest) = ok b
at (suc i) (b ∷ rest) = at i rest

abbrev pub balance_word : Bytes → Go Failure ℤ
balance_word result =
    if length result == 32
    then ok (pos (set_bytes result))
    else err (unexpected_length (length result))

abbrev pub config_or_default : Ptr TestSetupConfig → TestSetupConfig
config_or_default none = default_test_setup_config
config_or_default (some c) = c

module _ {eth : EthGo} {chain : Chain eth} (env : Env chain) where
  -- The call data and the transaction from the account's key, of no value.
  unfoldable pub invoke :
      Account eth → Contract chain → String → List Arg → Action chain.World Failure (Unit {0})
  invoke account contract method args = lift (call_data chain contract method args) >>= λ input.
      send_transaction chain account.private_key env.chain_id (some contract.address) (pos 0) input

  unfoldable pub mint_grt : Address → ℤ → Action chain.World Failure (Unit {0})
  mint_grt to amount = invoke env.deployer env.grt_token "mint" (address to ∷ number amount ∷ [])

  unfoldable pub approve_grt : ℤ → Action chain.World Failure (Unit {0})
  approve_grt amount =
      invoke env.payer env.grt_token "approve" (address env.escrow.address ∷ number amount ∷ [])

  unfoldable pub deposit_escrow : ℤ → Action chain.World Failure (Unit {0})
  deposit_escrow amount =
      invoke env.payer env.escrow "deposit"
        (address env.collector.address ∷ address env.service_provider.address ∷ number amount ∷ [])

  unfoldable pub set_provision : ℤ → ℕ → ℕ → Action chain.World Failure (Unit {0})
  set_provision tokens max_verifier_cut thawing_period =
      invoke env.deployer env.staking "setProvision" (
        address env.service_provider.address
        ∷ address env.data_service.address
        ∷ number tokens
        ∷ number (pos max_verifier_cut)
        ∷ number (pos thawing_period)
        ∷ [])

  unfoldable pub set_provision_tokens_range : ℤ → Action chain.World Failure (Unit {0})
  set_provision_tokens_range minimum =
      invoke env.deployer env.data_service "setProvisionTokensRange" (number minimum ∷ [])

  unfoldable pub register_service_provider : Action chain.World Failure (Unit {0})
  register_service_provider = invoke env.service_provider env.data_service "register" (
      address env.service_provider.address ∷ bytes (address_word env.service_provider.address) ∷ [])

  -- `now` is the time in seconds; the proof is good for an hour.
  unfoldable pub authorize_signer : ℕ → eth.PrivateKey → Action chain.World Failure (Unit {0})
  authorize_signer now signer_key = do
    let proof_deadline = (now + 3600) % 2 ^ 64
    proof ← lift (
        unsigned "generating signer proof" (
          generate_signer_proof eth env.chain_id env.collector.address proof_deadline
            env.payer.address signer_key))
    input ← lift (
        wrap "encoding authorizeSigner call" (
          call_data chain env.collector "authorizeSigner"
            (address (eth.address_of signer_key) ∷ number (pos proof_deadline) ∷ bytes proof ∷ [])))
    send_transaction chain env.payer.private_key env.chain_id (some env.collector.address) (pos 0)
        input

  unfoldable pub invoke_collector :
      String → String → Address → Action chain.World Failure (Unit {0})
  invoke_collector method encoding signer =
      lift (wrap encoding (call_data chain env.collector method (address signer ∷ []))) >>= λ input.
      send_transaction chain env.payer.private_key env.chain_id (some env.collector.address) (pos 0)
        input

  unfoldable pub thaw_signer : Address → Action chain.World Failure (Unit {0})
  thaw_signer signer = invoke_collector "thawSigner" "encoding thawSigner call" signer

  unfoldable pub revoke_authorized_signer : Address → Action chain.World Failure (Unit {0})
  revoke_authorized_signer signer =
      invoke_collector "revokeAuthorizedSigner" "encoding revokeAuthorizedSigner call" signer

  unfoldable pub revoke_signer : Address → Action chain.World Failure (Unit {0})
  revoke_signer signer =
      within "thawing signer" (thaw_signer signer)
      >> within "revoking signer" (revoke_authorized_signer signer)

  unfoldable pub is_authorized : Address → Address → Action chain.World Failure Bool
  is_authorized authorizer signer = do
    input ← lift (
        wrap "encoding isAuthorized call"
          (call_data chain env.collector "isAuthorized" (address authorizer ∷ address signer ∷ [])))
    result ← call_contract chain env.collector.address input
    last ← lift (at 31 result)
    pure (last == 1)

  unfoldable pub get_escrow_balance : Address → Address → Action chain.World Failure ℤ
  get_escrow_balance payer receiver = do
    input ← lift (
        wrap "encoding getBalance call" (
          call_data chain env.escrow "getBalance"
            (address payer ∷ address env.collector.address ∷ address receiver ∷ [])))
    result ← within "calling getBalance" (call_contract chain env.escrow.address input)
    lift (balance_word result)

  -- `now` and `new_key`, the result of `NewRandomPrivateKey`, are arguments.
  unfoldable pub setup_test_with_signer :
      ℕ
      → Go String eth.PrivateKey
      → Ptr TestSetupConfig
      → Action chain.World Failure (TestSetupResult eth)
  setup_test_with_signer now new_key given = do
    let config = config_or_default given
    within "minting GRT" (mint_grt env.payer.address config.escrow_amount)
    within "approving GRT" (approve_grt config.escrow_amount)
    within "depositing to escrow" (deposit_escrow config.escrow_amount)
    within "setting provision tokens range" (set_provision_tokens_range (pos 0))
    within "setting provision" (set_provision config.provision_amount 0 0)
    within "registering with data service" register_service_provider
    signer_key ← lift (or_fail (during "creating signer key") new_key)
    within "authorizing signer" (authorize_signer now signer_key)
    pure (record { signer_key = signer_key; signer_addr = eth.address_of signer_key })
