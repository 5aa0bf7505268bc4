-- ===== src/Devenv/Deploy/Registry.antt =====
-- What the controller's registry holds after a deployment that succeeded.
use mathlib.Core.Path.{subst}
use substreams_data_service.Common.{
  ℕ, List, ◌≡◌, ◌≢◌, ◌∙◌, sym, ap, [], arith, ◌∷◌, ◌++◌, some, Bytes, String, All,
}
use substreams_data_service.Common.Int.{pos}
use substreams_data_service.Common.Go.{Ptr, Go, ok}
use substreams_data_service.Common.Action.{Action, pure}
use substreams_data_service.Common.Action.Runs.{>>=-inv, >>-inv, lift-inv}
use substreams_data_service.Horizon.Types.{Address}
use substreams_data_service.Horizon.EthGo.{EthGo}
use substreams_data_service.Horizon.Eip712.{codes}
use substreams_data_service.Horizon.Checks.Exact.{Distinct}
use substreams_data_service.Devenv.Chain.{Chain, Arg, address, bytes}
use substreams_data_service.Devenv.Transactions.{Failure, during, or_fail, send_transaction}
use substreams_data_service.Devenv.Contracts.{within, call_data, deploy_contract}
use substreams_data_service.Devenv.Contracts.Encoded.{IsEncoded, call_data-IsEncoded}
use substreams_data_service.Devenv.Operations.{Account}
use substreams_data_service.Devenv.Operations.Authorized.{wrap_inv}
use substreams_data_service.Devenv.Deploy.{
  Abis, Mocks, Deployed, deploy, call_as_deployer, call_set_contract_proxy, register_all,
  deploy_registered,
}

pub pair_ok :
    {A W : Type 0} {a b : A} {v w : W} → ◌≡◌ {A = Go Failure A × W} (ok a, v) (ok b, w) → a ≡ b
pair_ok {A} {W} {a} {b} h =
    let same : ◌≡◌ {A = Go Failure A} (ok a) (ok b) = ap (λ x. x.0) h in ground arith

within_inv :
    {S A : Type 0} (step : String) (m : Action S Failure A) (s : S) {a : A} {t : S}
    → within step m s ≡ (ok a, t)
    → m s ≡ (ok a, t)
within_inv step m s {a} h =
    ap (λ r. (r, (m s).1)) (wrap_inv step (m s).0 (ap (λ x. x.0) h))
    ∙ ap (λ u. (ok a, u)) (ap (λ x. x.1) h)

-- The mock contracts under their names.
abbrev pub mock_entries : Mocks → List (String × Address)
mock_entries m =
    ("GraphToken", m.grt_token)
    ∷ ("Staking", m.staking)
    ∷ ("HorizonStaking", m.staking)
    ∷ ("EpochManager", m.epoch_manager)
    ∷ ("RewardsManager", m.rewards_manager)
    ∷ ("GraphTokenGateway", m.token_gateway)
    ∷ ("GraphProxyAdmin", m.proxy_admin)
    ∷ ("Curation", m.curation)
    ∷ []

-- What the registry is to hold: the deployed payments contract and escrow, and the mocks.
abbrev pub entries : Deployed → List (String × Address)
entries d =
    ("GraphPayments", d.graph_payments) ∷ ("PaymentsEscrow", d.escrow) ∷ mock_entries d.mocks

module _ {A : Type 0} (Holds : A → Type 0) where
  pub All_left : (xs ys : List A) → All Holds (xs ++ ys) → All Holds xs
  All_left [] ys h = tt
  All_left (x ∷ xs) ys h = (h.0, All_left xs ys h.1)

module _ (eth : EthGo) where
  -- The identifier of a name: its hash.
  abbrev pub id_of : String × Address → Bytes
  id_of e = eth.keccak256 (codes e.0)

  abbrev pub ids : List (String × Address) → List Bytes
  ids [] = []
  ids (e ∷ es) = id_of e ∷ ids es

  ids_right :
      (Holds : Bytes → Type 0) (xs ys : List (String × Address))
      → All Holds (ids (xs ++ ys))
      → All Holds (ids ys)
  ids_right Holds [] ys h = h
  ids_right Holds (x ∷ xs) ys h = ids_right Holds xs ys h.1

  -- None of `ys` has the identifier of an element of `xs`.
  abbrev pub IsApart : List (String × Address) → List (String × Address) → Type 0
  IsApart ys xs = All (λ x. All (λ k. k ≢ id_of x) (ids ys)) xs

  pub Distinct-IsApart :
      (xs ys : List (String × Address)) → Distinct (ids (xs ++ ys)) → IsApart ys xs
  Distinct-IsApart [] ys h = tt
  Distinct-IsApart (x ∷ xs) ys h =
      (ids_right (λ k. k ≢ id_of x) xs ys h.0, Distinct-IsApart xs ys h.1)

  pub Distinct-right :
      (xs ys : List (String × Address)) → Distinct (ids (xs ++ ys)) → Distinct (ids ys)
  Distinct-right [] ys h = h
  Distinct-right (x ∷ xs) ys h = Distinct-right xs ys h.1

-- The controller as `MockController` defines it: its registry, of which `setContractProxy` writes
-- one entry, and which the creation of a contract leaves alone.
pub record Controller {eth : EthGo} (chain : Chain eth) (deployer : Account eth) (chain_id : ℕ)
    (abis : Abis chain) : Type 0 where
  pub registered : Address → chain.World → Bytes → Ptr Address
  pub set :
      (at : Address) (id : Bytes) (contract : Address) (input : Bytes) (w t : chain.World)
      → IsEncoded chain abis.controller "setContractProxy" (bytes id ∷ address contract ∷ []) input
      → send_transaction chain deployer.private_key chain_id (some at) (pos 0) input w ≡ (ok tt, t)
      → (registered at t id ≡ some contract)
        × ((k : Bytes) → k ≢ id → registered at t k ≡ registered at w k)
  pub untouched :
      (at : Address) (object : Bytes) (abi : Ptr chain.Abi) (args : List Arg) (a : Address)
      (w t : chain.World)
      → deploy_contract chain deployer.private_key chain_id object abi args w ≡ (ok a, t)
      → (k : Bytes) → registered at t k ≡ registered at w k

module _ {eth : EthGo} (chain : Chain eth) (artifact : String → Go String Bytes)
    (deployer : Account eth) (chain_id : ℕ) (abis : Abis chain)
    (c : Controller chain deployer chain_id abis) (at : Address) where
  abbrev pub IsRegistered : chain.World → String × Address → Type 0
  IsRegistered t e = c.registered at t (id_of eth e) ≡ some e.1

  -- From `w` to `t` the entry `e` is written, and no other.
  abbrev pub IsWritten : String × Address → chain.World → chain.World → Type 0
  IsWritten e w t =
      IsRegistered t e × ((k : Bytes) → k ≢ id_of eth e → c.registered at t k ≡ c.registered at w k)

  call_set_contract_proxy-IsWritten :
      (name : String) (contract : Address) (w t : chain.World)
      → call_set_contract_proxy chain artifact deployer chain_id abis at name contract w
        ≡ (ok tt, t)
      → IsWritten (name, contract) w t
  unfolding call_set_contract_proxy call_as_deployer
  call_set_contract_proxy-IsWritten name contract w t h =
      let args = bytes (eth.keccak256 (codes name)) ∷ address contract ∷ [] in
      let (input, encoded, sent) =
        lift-inv
          (call_data chain (record { address = at; abi = abis.controller }) "setContractProxy" args)
          _ w h in
      c.set at (eth.keccak256 (codes name)) contract input w t
        (call_data-IsEncoded chain (record { address = at; abi = abis.controller })
          "setContractProxy" args encoded)
        sent

  pub deploy_keeps :
      (label name : String) (abi : Ptr chain.Abi) (args : List Arg) (a : Address)
      (w t : chain.World)
      → deploy chain artifact deployer chain_id abis label name abi args w ≡ (ok a, t)
      → (k : Bytes) → c.registered at t k ≡ c.registered at w k
  unfolding deploy
  deploy_keeps label name abi args a w t h k =
      let (object, loaded, run) =
        lift-inv (or_fail (during "loading artifact") (artifact name)) _ w h in
      c.untouched at object abi args a w t
        (within_inv label (deploy_contract chain deployer.private_key chain_id object abi args) w
          run)
        k

  register_all_keeps :
      (es : List (String × Address)) (k : Bytes) (w t : chain.World)
      → All (λ y. y ≢ k) (ids eth es)
      → register_all chain artifact deployer chain_id abis at es w ≡ (ok tt, t)
      → c.registered at t k ≡ c.registered at w k
  unfolding register_all pure
  register_all_keeps [] k w t other h = ap (λ p. c.registered at p.1 k) (sym h)
  register_all_keeps ((name, contract) ∷ rest) k w t other h =
      let (_, v, first, h₁) =
        >>-inv
          (within "registering in controller"
            (call_set_contract_proxy chain artifact deployer chain_id abis at name contract))
          _ w h in
      let written = call_set_contract_proxy-IsWritten name contract w v (
        within_inv "registering in controller"
          (call_set_contract_proxy chain artifact deployer chain_id abis at name contract) w
          first) in
      register_all_keeps rest k v t other.1 h₁ ∙ written.1 k (λ e. other.0 (sym e))

  pub register_all-All :
      (es : List (String × Address)) (w t : chain.World)
      → Distinct (ids eth es)
      → register_all chain artifact deployer chain_id abis at es w ≡ (ok tt, t)
      → All (IsRegistered t) es
  unfolding register_all
  register_all-All [] w t distinct h = tt
  register_all-All ((name, contract) ∷ rest) w t distinct h =
      let (_, v, first, h₁) =
        >>-inv
          (within "registering in controller"
            (call_set_contract_proxy chain artifact deployer chain_id abis at name contract))
          _ w h in
      let written = call_set_contract_proxy-IsWritten name contract w v (
        within_inv "registering in controller"
          (call_set_contract_proxy chain artifact deployer chain_id abis at name contract) w
          first) in
      (
        register_all_keeps rest (eth.keccak256 (codes name)) v t distinct.0 h₁ ∙ written.0,
        register_all-All rest v t distinct.1 h₁,
      )

  pub deploy_registered-IsWritten :
      (label update name : String) (abi : Ptr chain.Abi) (args : List Arg) (a : Address)
      (w t : chain.World)
      → deploy_registered chain artifact deployer chain_id abis at label update name abi args w
        ≡ (ok a, t)
      → IsWritten (name, a) w t
  unfolding deploy_registered pure
  deploy_registered-IsWritten label update name abi args a w t h =
      let (contract, v, made, h₁) =
        >>=-inv (deploy chain artifact deployer chain_id abis label name abi args) _ w h in
      let (_, u, set, h₂) =
        >>-inv
          (within update
            (call_set_contract_proxy chain artifact deployer chain_id abis at name contract))
          _ v h₁ in
      let written = call_set_contract_proxy-IsWritten name contract v u (
        within_inv update
          (call_set_contract_proxy chain artifact deployer chain_id abis at name contract) v set) in
      let same = pair_ok h₂ in
      let end : u ≡ t = ap (λ p. p.1) h₂ in
      subst (λ x. IsWritten (name, x) w t) same
        (subst (IsWritten (name, contract) w) end (
          written.0,
          λ k other. written.1 k other ∙ deploy_keeps label name abi args contract w v made k,
        ))

  -- Entries that are registered stay so while others are written.
  pub stay :
      (es : List (String × Address)) (p q : String × Address) (w t : chain.World)
      → IsApart eth (p ∷ q ∷ []) es
      → ((k : Bytes)
          → k ≢ id_of eth p
          → k ≢ id_of eth q
          → c.registered at t k ≡ c.registered at w k)
      → All (IsRegistered w) es
      → All (IsRegistered t) es
  stay [] p q w t apart same h = tt
  stay (e ∷ es) p q w t apart same h = (
    same (id_of eth e) (λ x. apart.0.0 (sym x)) (λ x. apart.0.1.0 (sym x)) ∙ h.0,
    stay es p q w t apart.1 same h.1,
  )
