-- ===== src/Pb.antt =====
-- The protocol messages that both sidecars exchange (the structs of types.pb.go), and the
-- conversions of types_helpers.go. A message field is a pointer, which is nil where the sender left
-- the field out; reading a field of a nil message panics.
use substreams_data_service.Common.{ℕ, Bytes, String, Bool}
use substreams_data_service.Common.Int.{ℤ, pos, abs}
use substreams_data_service.Common.Digits.{be_bytes, set_bytes}
use substreams_data_service.Common.Go.{Ptr, Go, ok, deref, ◌>>=◌}
use substreams_data_service.Horizon.Types.{Address}

pub data EndReason : Type 0 where
  unspecified complete client_disconnect provider_stop error payment_issue : EndReason

pub record PbAddress : Type 0 where
  pub bytes : Bytes

pub record PbBigInt : Type 0 where
  pub bytes : Bytes

pub record PbRav : Type 0 where
  pub payer : Ptr PbAddress
  pub data_service : Ptr PbAddress
  pub service_provider : Ptr PbAddress
  pub timestamp_ns : ℕ
  pub value_aggregate : Ptr PbBigInt
  pub metadata : Bytes

pub record PbSignedRav : Type 0 where
  pub rav : Ptr PbRav
  pub signature : Bytes

pub record PbUsage : Type 0 where
  pub blocks_processed : ℕ
  pub bytes_transferred : ℕ
  pub requests : ℕ
  pub cost : Ptr PbBigInt

pub record PbEscrowAccount : Type 0 where
  pub payer : Ptr PbAddress
  pub receiver : Ptr PbAddress
  pub data_service : Ptr PbAddress

pub record PbSessionInfo : Type 0 where
  pub session_id : String
  pub escrow_account : PbEscrowAccount
  pub current_rav : Ptr PbSignedRav
  pub accumulated_usage : PbUsage

pub record PbServiceParameters : Type 0 where
  pub required_blocks_preproc : ℕ
  pub estimated_bytes_per_block : ℕ
  pub price_per_block : Ptr PbBigInt

pub record PbPaymentStatus : Type 0 where
  pub current_rav_value : PbBigInt
  pub accumulated_usage_value : PbBigInt
  pub escrow_balance : PbBigInt
  pub funds_sufficient : Bool
  pub estimated_blocks_remaining : ℕ

module _ {E : Type 0} where
  -- `(*Address).ToEth`
  unfoldable pub to_eth : Ptr PbAddress → Go E Address
  to_eth p = do a ← deref p; ok a.bytes

  -- `(*BigInt).ToNative`: never negative.
  unfoldable pub to_native : Ptr PbBigInt → Go E ℤ
  to_native p = do b ← deref p; ok (pos (set_bytes b.bytes))

  -- `BigIntFromNative`: `Bytes` drops the sign.
  unfoldable pub big_int_from_native : Ptr ℤ → Go E PbBigInt
  big_int_from_native p = do i ← deref p; ok (record { bytes = be_bytes (abs i) })

unfoldable pub address_from_eth : Address → PbAddress
address_from_eth addr = record { bytes = addr }
