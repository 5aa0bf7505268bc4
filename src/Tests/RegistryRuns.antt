-- ===== src/Tests/RegistryRuns.antt =====
-- A test of the deployment on a chain whose world is the controller's registry.
use substreams_data_service.Common.{
  ℕ, ◌≡◌, ◌≢◌, ◌∙◌, refl, sym, ap, List, [], ◌∷◌, ◌++◌, Bool, true, false, not, ◌&&◌, some, none,
  Bytes, String, All, length, take, drop, take-append, drop-append, bytes_equal, bytes_equal_iff,
  if◌then◌else◌, arith,
}
use substreams_data_service.Common.Int.{ℤ, pos, int64}
use substreams_data_service.Common.Go.{Ptr, Go, ok}
use substreams_data_service.Common.Action.{◌>>=◌, ◌>>◌, lift}
use substreams_data_service.Common.Action.Runs.{>>=-inv, lift-inv}
use substreams_data_service.Horizon.Types.{Address}
use substreams_data_service.Horizon.EthGo.{EthGo}
use substreams_data_service.Horizon.Checks.Exact.{Distinct}
use substreams_data_service.Devenv.Chain.{Chain, Arg, tick, address as address_arg, bytes}
use substreams_data_service.Devenv.Transactions.{
  Failure, during, or_fail, ask, wait_mined, send_transaction,
}
use substreams_data_service.Devenv.Contracts.{
  deploy_contract, creation_data, bytecode_of, within, hash_of, address_of_receipt,
}
use substreams_data_service.Devenv.Contracts.Encoded.{IsEncoded}
use substreams_data_service.Devenv.Operations.{Account}
use substreams_data_service.Devenv.Deploy.{Abis, Deployed, deploy_all_contracts}
use substreams_data_service.Devenv.Deploy.Registry.{Controller, IsRegistered, entries}
use substreams_data_service.Devenv.Deploy.Placed.{names, hashes, deploy_all_contracts_registers}
use substreams_data_service.Sidecar.Escrow.{hex_decode, strip_0x}
use substreams_data_service.Tests.Samples.{address, signature, signer_of, first_text}

-- Hashing keeps the bytes.
abbrev eth : EthGo
eth = record {
  PrivateKey = ℕ;
  keccak256 = λ b. b;
  sign_hash = λ key hash. ok (signature key);
  recover = λ sig hash. signer_of sig;
  address_of = address;
  pretty = λ a. first_text a;
}

-- The data of a call of `setContractProxy`, and nothing for other calls.
abbrev data_of : Bool → List Arg → Bytes
data_of true (bytes id ∷ address_arg a ∷ []) = 1 ∷ length id ∷ (id ++ a)
data_of _ _ = []

abbrev raw_of : Ptr Address → Bytes → Bytes
raw_of none input = []
raw_of (some to) input = input

abbrev write : Bytes → List (Bytes × Address) → List (Bytes × Address)
write (kind ∷ n ∷ rest) w = (take n rest, drop n rest) ∷ w
write _ w = w

abbrev find : Bytes → List (Bytes × Address) → Ptr Address
find k [] = none
find k ((id, a) ∷ rest) = if bytes_equal id k then some a else find k rest

-- A contract is created at an address that depends on the entries so far.
abbrev chain : Chain eth
chain = record {
  World = List (Bytes × Address);
  Abi = Unit;
  Method = Bool;
  TxSigner = Unit;
  nonce = λ a w. (ok 0, w);
  gas_price = λ w. (ok (pos 1), w);
  send_raw_transaction = λ tx w. (ok "0x01", write tx w);
  transaction_receipt = λ hash w.
      (ok (some (record { status = some 1; contract_address = some (address (length w)) })), w);
  call = λ to input w. (ok [], w);
  events = λ w. tick ∷ [];
  new_hash = λ t. some (1 ∷ []);
  new_signer = λ id key. ok tt;
  sign_transaction = λ signer nonce to value gas_limit gas_price input. ok (raw_of to input);
  find_function = λ abi name. some true;
  find_constructor = λ abi. some false;
  encode = λ method args. ok (data_of method args);
}

abbrev deployer : Account eth
deployer = record { address = address 1; private_key = 1 }

abbrev abis : Abis chain
abis = record {
  controller = tt;
  staking = tt;
  escrow = tt;
  graph_payments = tt;
  collector = tt;
  data_service = tt;
}

sent :
    (to : Address) (input : Bytes) (w : List (Bytes × Address))
    → send_transaction chain 1 1337 (some to) (pos 0) input w ≡ (ok tt, write input w)
unfolding send_transaction substreams_data_service.Devenv.Transactions.submit
    substreams_data_service.Common.Action.◌>>=◌ substreams_data_service.Common.Action.lift ask
    substreams_data_service.Devenv.Transactions.wait_mined
    substreams_data_service.Devenv.Transactions.wait_for_receipt
    substreams_data_service.Devenv.Transactions.judge
sent to input w = refl

written :
    (id : Bytes) (a : Address) (w : List (Bytes × Address))
    → write (1 ∷ length id ∷ (id ++ a)) w ≡ (id, a) ∷ w
written id a w =
    ap (λ x. (x, drop (length id) (id ++ a)) ∷ w) (take-append (length id) id a refl)
    ∙ ap (λ x. (id, x) ∷ w) (drop-append (length id) id a refl)

found : (id : Bytes) (a : Address) (w : List (Bytes × Address)) → find id ((id, a) ∷ w) ≡ some a
found id a w = ground (arith, bytes_equal_iff id id)

passed :
    (id k : Bytes) (a : Address) (w : List (Bytes × Address))
    → k ≢ id
    → find k ((id, a) ∷ w) ≡ find k w
passed id k a w h = ground (arith, bytes_equal_iff id k)

input_of :
    (id : Bytes) (a : Address) (input : Bytes)
    → IsEncoded chain tt "setContractProxy" (bytes id ∷ address_arg a ∷ []) input
    → 1 ∷ length id ∷ (id ++ a) ≡ input
input_of id a input e =
    let fn : true ≡ e.fn = let f = e.found in cc in
    let out : ◌≡◌ {A = Go String Bytes} (ok (data_of true (bytes id ∷ address_arg a ∷ [])))
        (ok input) =
      ap (λ m. ok (data_of m (bytes id ∷ address_arg a ∷ []))) fn ∙ e.encoded in
    cc

after_set :
    (to : Address) (id : Bytes) (a : Address) (input : Bytes) (w t : List (Bytes × Address))
    → IsEncoded chain tt "setContractProxy" (bytes id ∷ address_arg a ∷ []) input
    → send_transaction chain 1 1337 (some to) (pos 0) input w ≡ (ok tt, t)
    → (id, a) ∷ w ≡ t
after_set to id a input w t e h =
    sym (written id a w)
    ∙ ap (λ x. write x w) (input_of id a input e)
    ∙ ap (λ p. p.1) (sym (sent to input w) ∙ h)

-- What `deployContract` does once it has the data of the transaction.
submitted :
    (n : ℕ) (price : ℤ) (input : Bytes) (w : List (Bytes × Address))
    → (do
      signer ← lift (or_fail (during "creating signer") (chain.new_signer (int64 1337) 1))
      signed_tx ← lift (
          or_fail
            (during "signing transaction")
            (chain.sign_transaction signer n none (pos 0) 5000000 price input))
      tx_hash ← ask chain (during "sending transaction") (chain.send_raw_transaction signed_tx)
      within "waiting for receipt" (wait_mined chain tx_hash)
      hash ← lift (hash_of (chain.new_hash tx_hash))
      receipt ← ask chain (during "getting receipt") (chain.transaction_receipt hash)
      lift (address_of_receipt receipt))
        w
      ≡ (ok (address (length w)), w)
unfolding ◌>>=◌ ◌>>◌ lift ask wait_mined
    substreams_data_service.Devenv.Transactions.wait_for_receipt
    substreams_data_service.Devenv.Transactions.judge
submitted n price input w = refl

kept :
    {A : Type 0} (f : String → Failure) (a b : A) (v w : List (Bytes × Address))
    → ask chain f (λ s. (ok a, s)) w ≡ (ok b, v)
    → w ≡ v
unfolding ask
kept f a b v w h = ap (λ p. p.1) h

creation :
    (object : Bytes) (abi : Ptr (Unit {0})) (args : List Arg) (a : Address)
    (w t : List (Bytes × Address))
    → deploy_contract chain 1 1337 object abi args w ≡ (ok a, t)
    → w ≡ t
unfolding deploy_contract
creation object abi args a w t h =
    let (n, w1, e1, h1) =
      >>=-inv (ask chain (during "getting nonce") (chain.nonce (address 1))) _ w h in
    let (g, w2, e2, h2) =
      >>=-inv (ask chain (during "getting gas price") chain.gas_price) _ w1 h1 in
    let (code, e3, h3) = lift-inv (bytecode_of (hex_decode (strip_0x object))) _ w2 h2 in
    let (input, e4, h4) = lift-inv (creation_data chain abi args code) _ w2 h3 in
    kept (during "getting nonce") 0 n w1 w e1
    ∙ kept (during "getting gas price") (pos 1) g w2 w1 e2
    ∙ ap (λ p. p.1) (sym (submitted n g input w2) ∙ h4)

controller : Controller chain deployer 1337 abis
controller = record {
  registered = λ at w k. find k w;
  set = λ at id a input w t e h.
      let end = after_set at id a input w t e h in
      (
        ap (find id) (sym end) ∙ found id a w,
        λ k other. ap (find k) (sym end) ∙ passed id k a w other,
      );
  untouched = λ at object abi args a w t h k. ap (find k) (sym (creation object abi args a w t h));
}

abbrev differ : Bytes → List Bytes → Bool
differ x [] = true
differ x (y ∷ ys) = not (bytes_equal y x) && differ x ys

abbrev all_differ : List Bytes → Bool
all_differ [] = true
all_differ (x ∷ xs) = differ x xs && all_differ xs

differ-All : (x : Bytes) (ys : List Bytes) → differ x ys ≡ true → All (λ y. y ≢ x) ys
differ-All x [] h = tt
differ-All x (y ∷ ys) h = ground (arith, bytes_equal_iff y x, differ-All x ys)

all_differ-Distinct : (xs : List Bytes) → all_differ xs ≡ true → Distinct xs
all_differ-Distinct [] h = tt
all_differ-Distinct (x ∷ xs) h = ground (arith, differ-All x xs, all_differ-Distinct xs)

distinct : all_differ (hashes eth names) ≡ true
unfolding bytes_equal
distinct = refl

abbrev deployed : Deployed
deployed = record {
  mocks = record {
    grt_token = address 0;
    controller = address 0;
    staking = address 0;
    epoch_manager = address 0;
    rewards_manager = address 0;
    token_gateway = address 0;
    proxy_admin = address 0;
    curation = address 0;
  };
  graph_payments = address 10;
  escrow = address 11;
  collector = address 12;
  data_service = address 12;
}

abbrev after : List (Bytes × Address)
after = (deploy_all_contracts chain (λ name. ok []) deployer 1337 abis []).1

deploys : deploy_all_contracts chain (λ name. ok []) deployer 1337 abis [] ≡ (ok deployed, after)
unfolding deploy_all_contracts deploy_contract creation_data hex_decode strip_0x ask
    send_transaction substreams_data_service.Devenv.Contracts.call_data
    substreams_data_service.Devenv.Transactions.submit substreams_data_service.Common.Action.◌>>=◌
    substreams_data_service.Common.Action.lift substreams_data_service.Common.Action.◌>>◌
    substreams_data_service.Common.Action.pure
    substreams_data_service.Devenv.Transactions.wait_mined
    substreams_data_service.Devenv.Transactions.wait_for_receipt
    substreams_data_service.Devenv.Transactions.judge
    substreams_data_service.Devenv.Deploy.deploy_mocks
    substreams_data_service.Devenv.Deploy.register_all
    substreams_data_service.Devenv.Deploy.registrations
    substreams_data_service.Devenv.Deploy.deploy_originals
    substreams_data_service.Devenv.Deploy.deploy_registered
    substreams_data_service.Devenv.Deploy.deploy
    substreams_data_service.Devenv.Deploy.call_as_deployer
    substreams_data_service.Devenv.Deploy.call_set_contract_proxy
    substreams_data_service.Devenv.Deploy.call_set_graph_token
deploys = refl

deploy_all_contracts_registers_example :
    All
      (IsRegistered chain (λ name. ok []) deployer 1337 abis controller (address 0) after)
      (entries deployed)
deploy_all_contracts_registers_example =
    deploy_all_contracts_registers chain (λ name. ok []) deployer 1337 abis controller [] after
      deployed (all_differ-Distinct (hashes eth names) distinct) deploys
