-- ===== src/Devenv/Start.antt =====
-- horizon/devenv/options.go, accounts.go, and `start` of devenv.go. The container, the development
-- node's own methods, the artifacts and the orders in which Go walks the two maps are parameters.
pub mod Cleanup
use substreams_data_service.Common.{
  ℕ, zero, suc, ◌*◌, ◌%◌, ◌^◌, List, [], ◌∷◌, none, some, Bool, true, false, Bytes, String,
  if◌then◌else◌,
}
use substreams_data_service.Common.Int.{ℤ, pos, negsuc, abs}
use substreams_data_service.Common.Go.{Ptr, Go, ok, err, panic}
use substreams_data_service.Common.Action.{Action, ◌>>=◌, ◌>>◌, pure, lift}
use substreams_data_service.Horizon.Types.{Address}
use substreams_data_service.Horizon.EthGo.{EthGo}
use substreams_data_service.Devenv.Chain.{Chain}
use substreams_data_service.Devenv.Transactions.{Failure, library, wrapped, during, ask, wait_mined}
use substreams_data_service.Devenv.Contracts.{Contract, within}
use substreams_data_service.Devenv.Operations.{Account, Env, mint_grt}
use substreams_data_service.Devenv.Deploy.{Abis, Deployed, deploy_all_contracts}

pub record Config : Type 0 where
  pub chain_id : ℕ
  pub escrow_amount : ℤ
  pub provision_amount : ℤ

unfoldable pub default_config : Config
default_config = record {
  chain_id = 1337;
  escrow_amount = pos (10000 * 10 ^ 18);
  provision_amount = pos (1000 * 10 ^ 18);
}

unfoldable pub with_chain_id : ℕ → Config → Config
with_chain_id chain_id c = record {
  chain_id = chain_id;
  escrow_amount = c.escrow_amount;
  provision_amount = c.provision_amount;
}

unfoldable pub with_escrow_amount : ℤ → Config → Config
with_escrow_amount amount c = record {
  chain_id = c.chain_id;
  escrow_amount = amount;
  provision_amount = c.provision_amount;
}

unfoldable pub with_provision_amount : ℤ → Config → Config
with_provision_amount amount c = record {
  chain_id = c.chain_id;
  escrow_amount = c.escrow_amount;
  provision_amount = amount;
}

unfoldable pub configure : List (Config → Config) → Config → Config
configure [] c = c
configure (opt ∷ opts) c = configure opts (opt c)

-- What `start` takes from the container, from the node and from the embedded files.
pub record Host {eth : EthGo} (chain : Chain eth) : Type 0 where
  pub run_container : ℕ → Action chain.World String (Unit {0})
  pub mapped_port : Action chain.World String String
  pub terminate : chain.World → chain.World
  pub cancel : chain.World → chain.World
  -- the answer, and whether there is no error with it
  pub chain_id : chain.World → (Ptr ℤ × Bool) × chain.World
  pub accounts : Action chain.World String (List String)
  pub send_funds : Address → Address → ℤ → Action chain.World String String
  pub new_address : String → Ptr Address
  pub new_private_key : String → Go String eth.PrivateKey
  pub abi : String → Go String chain.Abi
  pub artifact : String → Go String Bytes
  -- in which order Go walks the maps of the accounts to fund and of those to mint for
  pub fund_order : List Address → List Address
  pub mint_order : List Address → List Address

-- A result that must be there: an error panics.
unfoldable pub must : {A : Type 0} → Go String A → Go Failure A
must (ok a) = ok a
must (err e) = panic
must panic = panic

abbrev pub must_account : (eth : EthGo) → Go String eth.PrivateKey → Go Failure (Account eth)
must_account eth (ok key) = ok (record { address = eth.address_of key; private_key = key })
must_account eth (err e) = panic
must_account eth panic = panic

abbrev pub is_usable : Ptr ℤ × Bool → Bool
is_usable (some (pos (suc n)), no_error) = no_error
is_usable (x, no_error) = false

abbrev pub require_chain_id : Ptr ℤ → Go Failure ℕ
require_chain_id none = err (library "failed to get valid chain ID after retries")
require_chain_id (some id) = ok (abs id % 2 ^ 64)

abbrev pub first_account : List String → Go Failure String
first_account [] = err (library "getting dev accounts")
first_account (a ∷ rest) = ok a

abbrev pub must_address : Ptr Address → Go Failure Address
must_address none = panic
must_address (some a) = ok a

pub record Accounts (eth : EthGo) : Type 0 where
  pub deployer : Account eth
  pub service_provider : Account eth
  pub payer : Account eth
  pub user1 : Account eth
  pub user2 : Account eth
  pub user3 : Account eth

abbrev pub addresses : {eth : EthGo} → Accounts eth → List Address
addresses a =
    a.deployer.address ∷ a.service_provider.address ∷ a.payer.address ∷ a.user1.address
    ∷ a.user2.address ∷ a.user3.address ∷ []

module _ {eth : EthGo} {chain : Chain eth} (host : Host chain) where
  -- On an error, cancel the context.
  unfoldable pub or_cancel :
      {A : Type 0} → Action chain.World Failure A → Action chain.World Failure A
  or_cancel m w =
      let (r, w') = m w in
      elim r [ ok a ↦ (ok a, w') | err e ↦ (err e, host.cancel w') | panic ↦ (panic, w') ]

  -- On an error, terminate the container, then cancel the context: what `start` writes out after
  -- each step, and `cleanup`.
  unfoldable pub or_cleanup :
      {A : Type 0} → Action chain.World Failure A → Action chain.World Failure A
  or_cleanup m w =
      let (r, w') = m w in
      elim r [
        | ok a ↦ (ok a, w')
        | err e ↦ (err e, host.cancel (host.terminate w'))
        | panic ↦ (panic, w')
      ]

  unfoldable pub must_account_from_hex : String → Go Failure (Account eth)
  must_account_from_hex hex_key = must_account eth (host.new_private_key hex_key)

  unfoldable pub fund_from_dev_account :
      Address → Address → ℤ → Action chain.World Failure (Unit {0})
  fund_from_dev_account from to amount =
      ask chain (during "sending fund transaction") (host.send_funds from to amount) >>= λ tx_hash.
      wait_mined chain tx_hash

  -- Up to `n` queries; what the last one answered stays, usable or not.
  unfoldable pub query_chain_id : ℕ → Ptr ℤ → chain.World → Ptr ℤ × chain.World
  query_chain_id zero last w = (last, w)
  query_chain_id (suc n) last w =
      let (answer, w') = host.chain_id w in
      elim (is_usable answer) [ true ↦ (answer.0, w') | false ↦ query_chain_id n answer.0 w' ]

  unfoldable pub get_chain_id : Action chain.World Failure ℕ
  get_chain_id w = let (answer, w') = query_chain_id 20 none w in (require_chain_id answer, w')

  unfoldable pub fund_all : Address → List Address → Action chain.World Failure (Unit {0})
  fund_all dev [] = pure tt
  fund_all dev (a ∷ rest) =
      or_cleanup (within "funding" (fund_from_dev_account dev a (pos (10 * 10 ^ 18))))
      >> fund_all dev rest

  unfoldable pub mint_all : Env chain → ℤ → List Address → Action chain.World Failure (Unit {0})
  mint_all env amount [] = pure tt
  mint_all env amount (a ∷ rest) =
      or_cleanup (within "minting GRT" (mint_grt env a amount)) >> mint_all env amount rest

  unfoldable pub create_accounts : Action chain.World Failure (Accounts eth)
  create_accounts = do
    deployer ←
        lift
          (must_account_from_hex "1aa5d8f9a42ba0b9439c7034d24e93619f67af22a9ab15be9e4ce7eadddb5143")
    service_provider ←
        lift
          (must_account_from_hex "41942233cf1d78b6e3262f1806f8da36aafa24a941031aad8e056a1d34640f8d")
    payer ←
        lift
          (must_account_from_hex "e4c2694501255921b6588519cfd36d4e86ddc4ce19ab1bc91d9c58057c040304")
    user1 ←
        lift
          (must_account_from_hex "dd02564c0e9836fb570322be23f8355761d4d04ebccdc53f4f53325227680a9f")
    user2 ←
        lift
          (must_account_from_hex "bc3def46fab7929038dfb0df7e0168cba60d3384aceabf85e23e5e0ff90c8fe3")
    user3 ←
        lift
          (must_account_from_hex "7acd0f26d5be968f73ca8f2198fa52cc595650f8d5819ee9122fe90329847c48")
    pure (record {
      deployer = deployer;
      service_provider = service_provider;
      payer = payer;
      user1 = user1;
      user2 = user2;
      user3 = user3;
    })

  unfoldable pub env_of : ℕ → chain.Abi → Abis chain → Accounts eth → Deployed → Env chain
  env_of chain_id token abis accounts d = record {
    chain_id = chain_id;
    grt_token = record { address = d.mocks.grt_token; abi = token };
    staking = record { address = d.mocks.staking; abi = abis.staking };
    escrow = record { address = d.escrow; abi = abis.escrow };
    collector = record { address = d.collector; abi = abis.collector };
    data_service = record { address = d.data_service; abi = abis.data_service };
    deployer = accounts.deployer;
    service_provider = accounts.service_provider;
    payer = accounts.payer;
  }

  -- With the container running.
  unfoldable pub set_up : Config → chain.Abi → Abis chain → Action chain.World Failure (Env chain)
  set_up config token abis = do
    or_cleanup (ask chain (during "getting mapped port") host.mapped_port)
    chain_id ← or_cleanup get_chain_id
    names ← or_cleanup (ask chain (during "getting dev accounts") host.accounts)
    name ← or_cleanup (lift (first_account names))
    dev ← lift (must_address (host.new_address name))
    accounts ← create_accounts
    fund_all dev (host.fund_order (addresses accounts))
    d ← or_cleanup (deploy_all_contracts chain host.artifact accounts.deployer chain_id abis)
    let env = env_of chain_id token abis accounts d
    mint_all env config.escrow_amount (host.mint_order (addresses accounts))
    pure env

  unfoldable pub load_abis : Action chain.World Failure (chain.Abi × Abis chain)
  load_abis = do
    token ← lift (must (host.abi "MockGRTToken"))
    controller ← lift (must (host.abi "MockController"))
    staking ← lift (must (host.abi "MockStaking"))
    escrow ← lift (must (host.abi "PaymentsEscrow"))
    graph_payments ← lift (must (host.abi "GraphPayments"))
    collector ← lift (must (host.abi "GraphTallyCollector"))
    data_service ← lift (must (host.abi "SubstreamsDataService"))
    pure (
      token,
      record {
        controller = controller;
        staking = staking;
        escrow = escrow;
        graph_payments = graph_payments;
        collector = collector;
        data_service = data_service;
      },
    )

  unfoldable pub start : List (Config → Config) → Action chain.World Failure (Env chain)
  start opts = do
    let config = configure opts default_config
    abis ← load_abis
    or_cancel (ask chain (during "starting anvil container") (host.run_container config.chain_id))
    set_up config abis.0 abis.1
