-- ===== src/Devenv/Deploy/Placed.antt =====
-- The registry after the whole deployment.
use mathlib.Core.Path.{subst}
use substreams_data_service.Common.{
  ℕ, List, ◌≡◌, ◌≢◌, ◌∙◌, refl, sym, ap, [], ◌∷◌, some, Bytes, String, All,
}
use substreams_data_service.Common.Go.{Go, ok}
use substreams_data_service.Common.Action.{pure}
use substreams_data_service.Common.Action.Runs.{>>=-inv, >>-inv}
use substreams_data_service.Horizon.Types.{Address}
use substreams_data_service.Horizon.EthGo.{EthGo}
use substreams_data_service.Horizon.Eip712.{codes}
use substreams_data_service.Horizon.Checks.Exact.{Distinct}
use substreams_data_service.Devenv.Chain.{Chain}
use substreams_data_service.Devenv.Operations.{Account}
use substreams_data_service.Devenv.Deploy.{
  Abis, Mocks, Deployed, registrations, deploy, register_all, deploy_mocks, deploy_registered,
  deploy_originals, deploy_all_contracts,
}
use substreams_data_service.Devenv.Deploy.Registry.{
  pair_ok, mock_entries, entries, All_left, Distinct-IsApart, Distinct-right, Controller,
  IsRegistered, deploy_keeps, register_all-All, deploy_registered-IsWritten, stay,
}

abbrev pub names : List String
names =
    "GraphToken" ∷ "Staking" ∷ "HorizonStaking" ∷ "EpochManager" ∷ "RewardsManager"
    ∷ "GraphTokenGateway" ∷ "GraphProxyAdmin" ∷ "Curation" ∷ "GraphPayments" ∷ "PaymentsEscrow" ∷ []

abbrev pub hashes : EthGo → List String → List Bytes
hashes eth [] = []
hashes eth (name ∷ rest) = eth.keccak256 (codes name) ∷ hashes eth rest

module _ {eth : EthGo} (chain : Chain eth) (artifact : String → Go String Bytes)
    (deployer : Account eth) (chain_id : ℕ) (abis : Abis chain)
    (c : Controller chain deployer chain_id abis) where
  -- From `w` to `t` the two contracts of the deployment `d` are registered, and nothing else.
  record IsPlaced (mocks : Mocks) (w t : chain.World) (d : Deployed) : Type 0 where
    same : d.mocks ≡ mocks
    payments :
        IsRegistered chain artifact deployer chain_id abis c mocks.controller t
          ("GraphPayments", d.graph_payments)
    escrow :
        IsRegistered chain artifact deployer chain_id abis c mocks.controller t
          ("PaymentsEscrow", d.escrow)
    others :
        (k : Bytes)
        → k ≢ eth.keccak256 (codes "GraphPayments")
        → k ≢ eth.keccak256 (codes "PaymentsEscrow")
        → c.registered mocks.controller t k ≡ c.registered mocks.controller w k

  deploy_originals-IsPlaced :
      (mocks : Mocks) (w t : chain.World) (d : Deployed)
      → eth.keccak256 (codes "PaymentsEscrow") ≢ eth.keccak256 (codes "GraphPayments")
      → deploy_originals chain artifact deployer chain_id abis mocks w ≡ (ok d, t)
      → IsPlaced mocks w t d
  unfolding deploy_originals pure
  deploy_originals-IsPlaced mocks w t d apart h =
      let at = mocks.controller in
      let (payments, w1, e1, h1) =
        >>=-inv
          (deploy_registered chain artifact deployer chain_id abis at "deploying GraphPayments"
            "updating GraphPayments in controller" "GraphPayments" (some abis.graph_payments) _)
          _ w h in
      let (escrow, w2, e2, h2) =
        >>=-inv
          (deploy_registered chain artifact deployer chain_id abis at "deploying PaymentsEscrow"
            "updating PaymentsEscrow in controller" "PaymentsEscrow" (some abis.escrow) _)
          _ w1 h1 in
      let (collector, w3, e3, h3) =
        >>=-inv
          (deploy chain artifact deployer chain_id abis "deploying Collector" "GraphTallyCollector"
            (some abis.collector) _)
          _ w2 h2 in
      let (service, w4, e4, h4) =
        >>=-inv
          (deploy chain artifact deployer chain_id abis "deploying SubstreamsDataService"
            "SubstreamsDataService" (some abis.data_service) _)
          _ w3 h3 in
      let made : Deployed = record {
        mocks = mocks;
        graph_payments = payments;
        escrow = escrow;
        collector = collector;
        data_service = service;
      } in
      let same : made ≡ d = pair_ok h4 in
      let end : w4 ≡ t = ap (λ p. p.1) h4 in
      let one =
        deploy_registered-IsWritten chain artifact deployer chain_id abis c at
          "deploying GraphPayments" "updating GraphPayments in controller" "GraphPayments"
          (some abis.graph_payments) _ payments w w1 e1 in
      let two =
        deploy_registered-IsWritten chain artifact deployer chain_id abis c at
          "deploying PaymentsEscrow" "updating PaymentsEscrow in controller" "PaymentsEscrow"
          (some abis.escrow) _ escrow w1 w2 e2 in
      let last : (k : Bytes) → c.registered at t k ≡ c.registered at w2 k = λ k.
        ap (λ v. c.registered at v k) (sym end)
        ∙ deploy_keeps chain artifact deployer chain_id abis c at "deploying SubstreamsDataService"
            "SubstreamsDataService" (some abis.data_service) _ service w3 w4 e4 k
        ∙ deploy_keeps chain artifact deployer chain_id abis c at "deploying Collector"
            "GraphTallyCollector" (some abis.collector) _ collector w2 w3 e3 k in
      subst (IsPlaced mocks w t) same (record {
        same = refl;
        payments =
            last (eth.keccak256 (codes "GraphPayments"))
            ∙ two.1 (eth.keccak256 (codes "GraphPayments")) (λ e. apart (sym e))
            ∙ one.0;
        escrow = last (eth.keccak256 (codes "PaymentsEscrow")) ∙ two.0;
        others = λ k p q. last k ∙ two.1 k q ∙ one.1 k p;
      })

  -- If the ten names have different hashes, then after a deployment that succeeds the controller's
  -- registry, as `MockController` defines it, holds the deployed payments contract and the deployed
  -- escrow under their names, and each mock contract under its own.
  pub deploy_all_contracts_registers :
      (w t : chain.World) (d : Deployed)
      → Distinct (hashes eth names)
      → deploy_all_contracts chain artifact deployer chain_id abis w ≡ (ok d, t)
      → All (IsRegistered chain artifact deployer chain_id abis c d.mocks.controller t) (entries d)
  unfolding deploy_all_contracts registrations
  deploy_all_contracts_registers w t d distinct h =
      let (mocks, w1, e1, h1) =
        >>=-inv (deploy_mocks chain artifact deployer chain_id abis) _ w h in
      let planned = registrations mocks deployer.address in
      let originals : List (String × Address) =
        ("GraphPayments", deployer.address) ∷ ("PaymentsEscrow", deployer.address) ∷ [] in
      let (_, w2, e2, h2) =
        >>-inv (register_all chain artifact deployer chain_id abis mocks.controller planned) _ w1
          h1 in
      let (apart, _) = Distinct-right eth (mock_entries mocks) originals distinct in
      let placed = deploy_originals-IsPlaced mocks w2 t d apart.0 h2 in
      let before =
        All_left (IsRegistered chain artifact deployer chain_id abis c mocks.controller w2)
          (mock_entries mocks) originals
          (register_all-All chain artifact deployer chain_id abis c mocks.controller planned w1 w2
            distinct e2) in
      let after =
        stay chain artifact deployer chain_id abis c mocks.controller (mock_entries mocks)
          ("GraphPayments", deployer.address) ("PaymentsEscrow", deployer.address) w2 t
          (Distinct-IsApart eth (mock_entries mocks) originals distinct) placed.others before in
      subst
        (λ m.
          All (IsRegistered chain artifact deployer chain_id abis c m.controller t)
            (("GraphPayments", d.graph_payments) ∷ ("PaymentsEscrow", d.escrow) ∷ mock_entries m))
        (sym placed.same) (placed.payments, (placed.escrow, after))
