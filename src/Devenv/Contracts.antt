-- ===== src/Devenv/Contracts.antt =====
-- horizon/devenv/contracts.go: `CallData` and `deployContract`. An artifact's bytecode is hexadecimal
-- text.
pub mod Encoded
use substreams_data_service.Common.{ℕ, List, [], ◌∷◌, ◌++◌, Option, none, some, Bytes, String}
use substreams_data_service.Common.Int.{pos, int64}
use substreams_data_service.Common.Go.{Ptr, Go, ok, err, panic}
use substreams_data_service.Common.Go
use substreams_data_service.Common.Action.{Action, ◌>>=◌, ◌>>◌, lift}
use substreams_data_service.Horizon.Types.{Address}
use substreams_data_service.Horizon.EthGo.{EthGo}
use substreams_data_service.Sidecar.Escrow.{hex_decode, strip_0x}
use substreams_data_service.Devenv.Chain.{Chain, Receipt, Arg}
use substreams_data_service.Devenv.Transactions.{
  Failure, or_fail, during, wrap, wrapped, invalid_hex, method_missing, no_constructor, no_receipt,
  no_contract_address, ask, wait_mined,
}

-- The steps of an action whose error is wrapped.
abbrev pub within : {S A : Type 0} → String → Action S Failure A → Action S Failure A
within step m s = let (r, s') = m s in (wrap step r, s')

abbrev pub bytecode_of : Option Bytes → Go Failure Bytes
bytecode_of none = err (wrapped "decoding bytecode" invalid_hex)
bytecode_of (some b) = ok b

abbrev pub hash_of : Ptr Bytes → Go Failure Bytes
hash_of none = panic
hash_of (some hash) = ok hash

abbrev pub address_of_receipt : Ptr Receipt → Go Failure Address
address_of_receipt none = err no_receipt
address_of_receipt (some receipt) = elim receipt.contract_address [
  | none ↦ err no_contract_address
  | some a ↦ ok a
]

module _ {eth : EthGo} (chain : Chain eth) where
  pub record Contract : Type 0 where
    pub address : Address
    pub abi : chain.Abi

  unfoldable pub call_data : Contract → String → List Arg → Go Failure Bytes
  call_data c method args = elim (chain.find_function c.abi method) [
    | none ↦ err (method_missing method)
    | some fn ↦ or_fail (during "encoding call") (chain.encode fn args)
  ]

  -- The bytecode with the encoded arguments behind it; without arguments the ABI is not read.
  unfoldable pub creation_data : Ptr chain.Abi → List Arg → Bytes → Go Failure Bytes
  creation_data abi [] bytecode = ok bytecode
  creation_data none (arg ∷ args) bytecode = panic
  creation_data (some abi) (arg ∷ args) bytecode = elim (chain.find_constructor abi) [
    | none ↦ err no_constructor
    | some constructor ↦
        Go.◌>>=◌
          (or_fail (during "encoding constructor args") (chain.encode constructor (arg ∷ args)))
          λ encoded_args. ok (bytecode ++ encoded_args)
  ]

  unfoldable pub deploy_contract :
      eth.PrivateKey → ℕ → Bytes → Ptr chain.Abi → List Arg → Action chain.World Failure Address
  deploy_contract key chain_id object abi args = do
    nonce ← ask chain (during "getting nonce") (chain.nonce (eth.address_of key))
    gas_price ← ask chain (during "getting gas price") chain.gas_price
    bytecode ← lift (bytecode_of (hex_decode (strip_0x object)))
    input ← lift (creation_data abi args bytecode)
    signer ← lift (or_fail (during "creating signer") (chain.new_signer (int64 chain_id) key))
    signed_tx ← lift (
        or_fail (during "signing transaction")
          (chain.sign_transaction signer nonce none (pos 0) 5000000 gas_price input))
    tx_hash ← ask chain (during "sending transaction") (chain.send_raw_transaction signed_tx)
    within "waiting for receipt" (wait_mined chain tx_hash)
    hash ← lift (hash_of (chain.new_hash tx_hash))
    receipt ← ask chain (during "getting receipt") (chain.transaction_receipt hash)
    lift (address_of_receipt receipt)
