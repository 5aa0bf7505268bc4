-- ===== src/Tests/DevenvRuns.antt =====
-- Tests of the development environment, on a chain that answers every call.
use substreams_data_service.Common.{
  ℕ, ◌+◌, ◌%◌, ◌<◌, ◌^◌, ◌≡◌, ◌≢◌, refl, List, [], ◌∷◌, some, none, true, Bytes, String, length,
  replicate, arith,
}
use substreams_data_service.Common.Int.{pos}
use substreams_data_service.Common.Go.{ok, panic}
use substreams_data_service.Horizon.Types.{Signature}
use substreams_data_service.Horizon.Eip712.{codes}
use substreams_data_service.Devenv.SignerProof.{reorder, generate_signer_proof}
use substreams_data_service.Devenv.SignerProof.Binding.{
  read_by_contract, contract_digest, proof_message_binds, generate_signer_proof_recovers,
}
use substreams_data_service.Devenv.Chain.{Chain, tick, address as address_arg, number, bytes}
use substreams_data_service.Devenv.Transactions.{send_transaction, submit, call_contract}
use substreams_data_service.Devenv.Transactions.Confirmed.{IsMined, send_transaction-IsMined}
use substreams_data_service.Devenv.Transactions.Sent.{IsSent}
use substreams_data_service.Devenv.Contracts.Encoded.{IsEncoded}
use substreams_data_service.Devenv.Contracts.{Contract, call_data}
use substreams_data_service.Devenv.Operations.{Account, Env, authorize_signer, is_authorized}
use substreams_data_service.Devenv.Operations.Authorized.{
  authorize_signer_proves, is_authorized_panics,
}
use substreams_data_service.Tests.Samples.{toy, toy-EthLaws, address, signature}

-- The world counts the transactions.
abbrev pub chain : Chain toy
chain = record {
  World = ℕ;
  Abi = Unit;
  Method = Unit;
  TxSigner = Unit;
  nonce = λ a w. (ok w, w);
  gas_price = λ w. (ok (pos 1), w);
  send_raw_transaction = λ tx w. (ok "0x01", w + 1);
  transaction_receipt =
      λ hash w. (ok (some (record { status = some 1; contract_address = some (address 5) })), w);
  call = λ to input w. (ok (codes "0x01"), w);
  events = λ w. tick ∷ [];
  new_hash = λ t. some (1 ∷ []);
  new_signer = λ id key. ok tt;
  sign_transaction = λ signer nonce to value gas_limit gas_price input. ok [];
  find_function = λ abi name. some tt;
  find_constructor = λ abi. some tt;
  encode = λ method args. ok [];
}

abbrev account : ℕ → Account toy
account k = record { address = address k; private_key = k }

abbrev contract : ℕ → Contract chain
contract k = record { address = address k; abi = tt }

abbrev devenv : Env chain
devenv = record {
  chain_id = 1337;
  grt_token = contract 11;
  staking = contract 12;
  escrow = contract 13;
  collector = contract 14;
  data_service = contract 15;
  deployer = account 1;
  service_provider = account 2;
  payer = account 3;
}

size : (hash : Bytes) (sig : Signature) → toy.sign_hash 7 hash ≡ ok sig → length sig ≡ 65
size hash sig h = let e : signature 7 ≡ sig = ground arith in rw⁻¹ e refl

proof_message_binds_example :
    (◌≡◌ {A = ℕ} 1337 1337)
    × (address 14 ≡ address 14)
    × (◌≡◌ {A = ℕ} 3700 3700)
    × (address 3 ≡ address 3)
proof_message_binds_example =
    proof_message_binds 1337 1337 3700 3700 (address 14) (address 14) (address 3) (address 3)
      (omega arith) (omega arith) (omega arith) (omega arith) refl refl refl

made : generate_signer_proof toy 1337 (address 14) 3700 (address 3) 7 ≡ ok (reorder (signature 7))
unfolding generate_signer_proof
made = refl

generate_signer_proof_recovers_example :
    (length (reorder (signature 7)) ≡ 65)
    × (toy.recover
          (read_by_contract (reorder (signature 7)))
          (contract_digest toy 1337 (address 14) 3700 (address 3))
        ≡ ok (address 7))
generate_signer_proof_recovers_example =
    generate_signer_proof_recovers toy 1337 3700 (address 14) (address 3) 7 (reorder (signature 7))
      toy-EthLaws size made

sent : send_transaction chain 7 1337 (some (address 14)) (pos 0) [] 4 ≡ (ok tt, 5)
unfolding send_transaction submit substreams_data_service.Common.Action.◌>>=◌
    substreams_data_service.Common.Action.lift substreams_data_service.Devenv.Transactions.ask
    substreams_data_service.Devenv.Transactions.wait_mined
    substreams_data_service.Devenv.Transactions.wait_for_receipt
    substreams_data_service.Devenv.Transactions.judge
sent = refl

send_transaction-IsMined_example :
    (tx_hash : String) × (w : ℕ) × (hash : Bytes) × (submit chain 7 1337 500000
        (some (address 14))
        (pos 0)
        []
        4
      ≡ (ok tx_hash, w))
    × (chain.new_hash tx_hash ≡ some hash)
    × IsMined chain hash 5
send_transaction-IsMined_example =
    send_transaction-IsMined chain 7 1337 (some (address 14)) (pos 0) [] 4 5 sent

authorized : authorize_signer devenv 100 7 4 ≡ (ok tt, 5)
unfolding authorize_signer generate_signer_proof call_data send_transaction submit
    substreams_data_service.Common.Action.◌>>=◌ substreams_data_service.Common.Action.lift
    substreams_data_service.Devenv.Transactions.ask
    substreams_data_service.Devenv.Transactions.wait_mined
    substreams_data_service.Devenv.Transactions.wait_for_receipt
    substreams_data_service.Devenv.Transactions.judge
authorized = refl

authorize_signer_proves_example :
    (proof : Bytes) × (input : Bytes) × (toy.recover
        (read_by_contract proof)
        (contract_digest toy 1337 (address 14) ((100 + 3600) % 2 ^ 64) (address 3))
      ≡ ok (address 7))
    × IsEncoded chain tt "authorizeSigner"
        (address_arg (address 7) ∷ number (pos ((100 + 3600) % 2 ^ 64)) ∷ bytes proof ∷ [])
        input
    × IsSent chain 3 1337 (some (address 14)) (pos 0) input 4 5
authorize_signer_proves_example =
    authorize_signer_proves devenv 100 7 4 5 toy-EthLaws size authorized

encoded :
    call_data chain
      (contract 14)
      "isAuthorized"
      (address_arg (address 3) ∷ address_arg (address 7) ∷ [])
    ≡ ok []
unfolding call_data
encoded = refl

called : call_contract chain (address 14) [] 4 ≡ (ok (1 ∷ []), 4)
unfolding call_contract substreams_data_service.Common.Action.◌>>=◌
    substreams_data_service.Devenv.Transactions.ask substreams_data_service.Common.Action.lift
    substreams_data_service.Sidecar.Escrow.hex_decode
    substreams_data_service.Sidecar.Escrow.strip_0x
called = refl

is_authorized_panics_example : is_authorized devenv (address 3) (address 7) 4 ≡ (panic, 4)
is_authorized_panics_example =
    is_authorized_panics devenv (address 3) (address 7) 4 4 [] (1 ∷ []) encoded called (omega arith)
