-- ===== src/Devenv/Deploy.antt =====
-- horizon/devenv/devenv.go: `deployAllContracts`. The artifacts are embedded files, and reading one is
-- a parameter, which returns its bytecode.
pub mod Registry
pub mod Placed
use substreams_data_service.Common.{ℕ, List, [], ◌∷◌, none, some, Bytes, String}
use substreams_data_service.Common.Int.{ℤ, pos}
use substreams_data_service.Common.Go.{Ptr, Go, ok, err, panic}
use substreams_data_service.Common.Action.{Action, ◌>>=◌, ◌>>◌, pure, lift}
use substreams_data_service.Horizon.Types.{Address}
use substreams_data_service.Horizon.EthGo.{EthGo}
use substreams_data_service.Horizon.Eip712.{codes}
use substreams_data_service.Devenv.Chain.{Chain, Arg, address, number, bytes, text}
use substreams_data_service.Devenv.Transactions.{Failure, during, or_fail, send_transaction}
use substreams_data_service.Devenv.Contracts.{Contract, call_data, deploy_contract, within}
use substreams_data_service.Devenv.Operations.{Account}

-- The ABIs of the contracts that are loaded before the deployment.
pub record Abis {eth : EthGo} (chain : Chain eth) : Type 0 where
  pub controller : chain.Abi
  pub staking : chain.Abi
  pub escrow : chain.Abi
  pub graph_payments : chain.Abi
  pub collector : chain.Abi
  pub data_service : chain.Abi

-- The addresses of the contracts of phase 1.
pub record Mocks : Type 0 where
  pub grt_token : Address
  pub controller : Address
  pub staking : Address
  pub epoch_manager : Address
  pub rewards_manager : Address
  pub token_gateway : Address
  pub proxy_admin : Address
  pub curation : Address

pub record Deployed : Type 0 where
  pub mocks : Mocks
  pub graph_payments : Address
  pub escrow : Address
  pub collector : Address
  pub data_service : Address

-- Phase 2, with the deployer's address in place of the two contracts to come.
unfoldable pub registrations : Mocks → Address → List (String × Address)
registrations mocks placeholder =
    ("GraphToken", mocks.grt_token)
    ∷ ("Staking", mocks.staking)
    ∷ ("HorizonStaking", mocks.staking)
    ∷ ("EpochManager", mocks.epoch_manager)
    ∷ ("RewardsManager", mocks.rewards_manager)
    ∷ ("GraphTokenGateway", mocks.token_gateway)
    ∷ ("GraphProxyAdmin", mocks.proxy_admin)
    ∷ ("Curation", mocks.curation)
    ∷ ("GraphPayments", placeholder)
    ∷ ("PaymentsEscrow", placeholder)
    ∷ []

module _ {eth : EthGo} (chain : Chain eth) (artifact : String → Go String Bytes)
    (deployer : Account eth) (chain_id : ℕ) (abis : Abis chain) where
  -- Load the artifact `name`, and deploy it.
  unfoldable pub deploy :
      String → String → Ptr chain.Abi → List Arg → Action chain.World Failure Address
  deploy label name abi args = do
    object ← lift (or_fail (during "loading artifact") (artifact name))
    within label (deploy_contract chain deployer.private_key chain_id object abi args)

  -- The call of a contract with the deployer's key.
  unfoldable pub call_as_deployer :
      Address → chain.Abi → String → List Arg → Action chain.World Failure (Unit {0})
  call_as_deployer target abi method args =
      lift (call_data chain (record { address = target; abi = abi }) method args) >>= λ input.
      send_transaction chain deployer.private_key chain_id (some target) (pos 0) input

  unfoldable pub call_set_graph_token : Address → Address → Action chain.World Failure (Unit {0})
  call_set_graph_token staking token =
      call_as_deployer staking abis.staking "setGraphToken" (address token ∷ [])

  unfoldable pub call_set_contract_proxy :
      Address → String → Address → Action chain.World Failure (Unit {0})
  call_set_contract_proxy controller name contract =
      call_as_deployer controller abis.controller "setContractProxy"
        (bytes (eth.keccak256 (codes name)) ∷ address contract ∷ [])

  unfoldable pub register_all :
      Address → List (String × Address) → Action chain.World Failure (Unit {0})
  register_all controller [] = pure tt
  register_all controller ((name, contract) ∷ rest) =
      within "registering in controller" (call_set_contract_proxy controller name contract)
      >> register_all controller rest

  unfoldable pub deploy_mocks : Action chain.World Failure Mocks
  deploy_mocks = do
    grt_token ← deploy "deploying GRT" "MockGRTToken" none []
    controller ←
        deploy "deploying Controller" "MockController" (some abis.controller)
          (address deployer.address ∷ [])
    staking ← deploy "deploying Staking" "MockStaking" none []
    within "setting GRT token in staking" (call_set_graph_token staking grt_token)
    epoch_manager ← deploy "deploying EpochManager" "MockEpochManager" none []
    rewards_manager ← deploy "deploying RewardsManager" "MockRewardsManager" none []
    token_gateway ← deploy "deploying TokenGateway" "MockTokenGateway" none []
    proxy_admin ← deploy "deploying ProxyAdmin" "MockProxyAdmin" none []
    curation ← deploy "deploying Curation" "MockCuration" none []
    pure (record {
      grt_token = grt_token;
      controller = controller;
      staking = staking;
      epoch_manager = epoch_manager;
      rewards_manager = rewards_manager;
      token_gateway = token_gateway;
      proxy_admin = proxy_admin;
      curation = curation;
    })

  -- Deploy a contract, and register it under its name.
  unfoldable pub deploy_registered :
      Address
      → String
      → String
      → String
      → Ptr chain.Abi
      → List Arg
      → Action chain.World Failure Address
  deploy_registered controller label update name abi args = do
    contract ← deploy label name abi args
    within update (call_set_contract_proxy controller name contract)
    pure contract

  -- Phases 3 to 6.
  unfoldable pub deploy_originals : Mocks → Action chain.World Failure Deployed
  unfolding deploy_registered
  deploy_originals mocks = do
    graph_payments ←
        deploy_registered mocks.controller "deploying GraphPayments"
          "updating GraphPayments in controller" "GraphPayments" (some abis.graph_payments)
          (address mocks.controller ∷ number (pos 10000) ∷ [])
    escrow ←
        deploy_registered mocks.controller "deploying PaymentsEscrow"
          "updating PaymentsEscrow in controller" "PaymentsEscrow" (some abis.escrow)
          (address mocks.controller ∷ number (pos 0) ∷ [])
    collector ←
        deploy "deploying Collector" "GraphTallyCollector" (some abis.collector)
          (text "GraphTallyCollector" ∷ text "1" ∷ address mocks.controller ∷ number (pos 0) ∷ [])
    data_service ←
        deploy "deploying SubstreamsDataService" "SubstreamsDataService" (some abis.data_service)
          (address mocks.controller ∷ address collector ∷ [])
    pure (record {
      mocks = mocks;
      graph_payments = graph_payments;
      escrow = escrow;
      collector = collector;
      data_service = data_service;
    })

  unfoldable pub deploy_all_contracts : Action chain.World Failure Deployed
  unfolding deploy_originals
  deploy_all_contracts = do
    mocks ← deploy_mocks
    register_all mocks.controller (registrations mocks deployer.address)
    deploy_originals mocks
