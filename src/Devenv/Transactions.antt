-- ===== src/Devenv/Transactions.antt =====
-- horizon/devenv/helpers.go: `waitForReceipt`, `SendTransaction` and `CallContract`.
pub mod Confirmed
pub mod Sent
use substreams_data_service.Common.{
  ℕ, List, [], ◌∷◌, Option, none, some, Bool, true, false, Bytes, String, ◌==◌, if◌then◌else◌,
}
use substreams_data_service.Common.Int.{ℤ, pos, int64}
use substreams_data_service.Common.Go.{Ptr, Go, ok, err, panic}
use substreams_data_service.Common.Action.{Action, ◌>>=◌, pure, lift}
use substreams_data_service.Horizon.Types.{Address, Error}
use substreams_data_service.Horizon.EthGo.{EthGo}
use substreams_data_service.Sidecar.Escrow.{hex_decode, strip_0x}
use substreams_data_service.Devenv.Chain.{Chain, Receipt, Event, tick, cancelled}

-- The errors: those of the client and the library, "signing proof: …", those of the wait and of a
-- deployment, and a wrapped error. A text leaves out the names that formatting inserts.
pub data Failure : Type 0 where
  library : String → Failure
  signing : Error → Failure
  timed_out : String → Failure
  transaction_failed : String → Failure
  context_done : Failure
  invalid_hex : Failure
  wrapped : String → Failure → Failure
  method_missing : String → Failure
  no_constructor : Failure
  no_receipt : Failure
  no_contract_address : Failure
  unexpected_length : ℕ → Failure

abbrev pub or_fail : {A : Type 0} → (String → Failure) → Go String A → Go Failure A
or_fail f (ok a) = ok a
or_fail f (err e) = err (f e)
or_fail f panic = panic

-- `fmt.Errorf("…: %w", err)`
abbrev pub during : String → String → Failure
during step e = wrapped step (library e)

abbrev pub wrap : {A : Type 0} → String → Go Failure A → Go Failure A
wrap step (ok a) = ok a
wrap step (err e) = err (wrapped step e)
wrap step panic = panic

-- The errors of a signature, wrapped.
abbrev pub unsigned : {A : Type 0} → String → Go Error A → Go Failure A
unsigned step (ok a) = ok a
unsigned step (err e) = err (wrapped step (signing e))
unsigned step panic = panic

-- A receipt with the status 0 is that of a failed transaction; without a status it counts as mined.
unfoldable pub judge : String → Receipt → Go Failure (Unit {0})
judge tx_hash receipt = elim receipt.status [
  | none ↦ ok tt
  | some status ↦ if status == 0 then err (transaction_failed tx_hash) else ok tt
]

abbrev decoded : Option Bytes → Go Failure Bytes
decoded none = err invalid_hex
decoded (some b) = ok b

module _ {eth : EthGo} (chain : Chain eth) where
  -- A call of the client, with the step that its error names.
  unfoldable pub ask :
      {A : Type 0} → (String → Failure) → Action chain.World String A → Action chain.World Failure A
  ask f m w = let (r, w') = m w in (or_fail f r, w')

  -- After the query of a tick: an error and a missing receipt both mean that nothing is mined yet.
  unfoldable pub after_query :
      Action chain.World Failure (Unit {0})
      → String
      → Go String (Ptr Receipt) × chain.World
      → Go Failure (Unit {0}) × chain.World
  after_query later tx_hash (ok none, w) = later w
  after_query later tx_hash (ok (some receipt), w) = (judge tx_hash receipt, w)
  after_query later tx_hash (err e, w) = later w
  after_query later tx_hash (panic, w) = (panic, w)

  unfoldable pub wait_for_receipt :
      List Event → String → Bytes → Action chain.World Failure (Unit {0})
  unfolding after_query
  wait_for_receipt [] tx_hash hash w = (err (timed_out tx_hash), w)
  wait_for_receipt (cancelled ∷ rest) tx_hash hash w = (err context_done, w)
  wait_for_receipt (tick ∷ rest) tx_hash hash w =
      after_query (wait_for_receipt rest tx_hash hash) tx_hash (chain.transaction_receipt hash w)

  -- `waitForReceipt` from the world in which it starts.
  unfoldable pub wait_mined : String → Action chain.World Failure (Unit {0})
  wait_mined tx_hash w = elim (chain.new_hash tx_hash) [
    | none ↦ (panic, w)
    | some hash ↦ wait_for_receipt (chain.events w) tx_hash hash w
  ]

  -- The signed transaction and its submission, which `SendTransaction` and `deployContract` share.
  unfoldable pub submit :
      eth.PrivateKey → ℕ → ℕ → Ptr Address → ℤ → Bytes → Action chain.World Failure String
  submit key chain_id gas_limit to value input = do
    nonce ← ask (during "getting nonce") (chain.nonce (eth.address_of key))
    gas_price ← ask (during "getting gas price") chain.gas_price
    signer ← lift (or_fail (during "creating signer") (chain.new_signer (int64 chain_id) key))
    signed_tx ← lift (
        or_fail (during "signing transaction")
          (chain.sign_transaction signer nonce to value gas_limit gas_price input))
    ask (during "sending transaction") (chain.send_raw_transaction signed_tx)

  unfoldable pub send_transaction :
      eth.PrivateKey → ℕ → Ptr Address → ℤ → Bytes → Action chain.World Failure (Unit {0})
  send_transaction key chain_id to value input =
      submit key chain_id 500000 to value input >>= λ tx_hash. wait_mined tx_hash

  unfoldable pub call_contract : Address → Bytes → Action chain.World Failure Bytes
  call_contract to input = do
    result_hex ← ask library (chain.call to input)
    lift (decoded (hex_decode (strip_0x result_hex)))
