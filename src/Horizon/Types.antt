-- ===== src/Horizon/Types.antt =====
-- horizon/types.go, and the struct of horizon/signed_message.go. A `*big.Int` is a pointer to an
-- integer; a `[32]byte` and a `[]byte` are lists of bytes.
use substreams_data_service.Common.{ℕ, none, some, ◌^◌, ◌-◌, Bytes, String}
use substreams_data_service.Common.Int.{ℤ}
use substreams_data_service.Common.Go.{Ptr}

-- `[32]byte`
abbrev pub CollectionId : Type 0
CollectionId = Bytes

-- `eth.Address`, a `[]byte`
abbrev pub Address : Type 0
Address = Bytes

-- `eth.Signature`, a `[65]byte`
abbrev pub Signature : Type 0
Signature = Bytes

pub record Receipt : Type 0 where
  pub collection_id : CollectionId
  pub payer : Address
  pub data_service : Address
  pub service_provider : Address
  pub timestamp_ns : ℕ
  pub nonce : ℕ
  pub value : Ptr ℤ

pub record Rav : Type 0 where
  pub collection_id : CollectionId
  pub payer : Address
  pub service_provider : Address
  pub data_service : Address
  pub timestamp_ns : ℕ
  pub value_aggregate : Ptr ℤ
  pub metadata : Bytes

pub record SignedMessage (T : Type 0) : Type 0 where
  pub message : T
  pub signature : Signature

-- `SignedMessage[*Receipt]`
abbrev pub SignedReceipt : Type 0
SignedReceipt = SignedMessage (Ptr Receipt)

-- `SignedMessage[*RAV]`
abbrev pub SignedRav : Type 0
SignedRav = SignedMessage (Ptr Rav)

-- The message of a voucher that may be nil: `rav != nil && rav.Message != nil`.
abbrev pub message_of : Ptr SignedRav → Ptr Rav
message_of none = none
message_of (some r) = r.message

abbrev pub max_uint128 : ℕ
max_uint128 = 2 ^ 128 - 1

-- The errors of horizon/aggregator.go, and those that wrap a text of the eth-go library.
pub data Error : Type 0 where
  no_receipts aggregate_overflow duplicate_signature invalid_timestamp : Error
  collection_mismatch payer_mismatch service_provider_mismatch data_service_mismatch : Error
  invalid_signer rav_signer_mismatch : Error
  external : String → Error
