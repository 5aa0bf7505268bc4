-- ===== src/Horizon/Checks.antt =====
-- horizon/aggregator.go: the checks of receipts that need no key. The receipts themselves are
-- non-nil pointers; their messages may be nil.
pub mod Exact
use substreams_data_service.Common.{
  ℕ, List, [], ◌∷◌, none, some, Bool, true, false, not, ◌||◌, Bytes, leb, ◌==◌, if◌then◌else◌,
  length, bytes_equal,
}
use substreams_data_service.Common.Go.{Ptr, Go, ok, deref, err_if, ◌>>=◌, ◌>>◌}
use substreams_data_service.Horizon.Types.{
  Address, CollectionId, Receipt, Rav, SignedReceipt, SignedRav, Error,
}
use substreams_data_service.Horizon.Signature.{normalize_signature}

-- `seen[k]`
unfoldable pub seen_before : Bytes → List Bytes → Bool
seen_before k [] = false
seen_before k (x ∷ xs) = bytes_equal x k || seen_before k xs

-- The lengths first, then byte by byte.
unfoldable pub same_bytes : Address → Address → Bool
same_bytes [] b = true
same_bytes (x ∷ a) [] = true
same_bytes (x ∷ a) (y ∷ b) = if not (x == y) then false else same_bytes a b

unfoldable pub addresses_equal : Address → Address → Bool
addresses_equal a b = if not (length a == length b) then false else same_bytes a b

unfoldable pub unique_from : List Bytes → List SignedReceipt → Go Error (Unit {0})
unique_from seen [] = ok tt
unique_from seen (r ∷ rs) = do
  let normalized = normalize_signature r.signature
  err_if (seen_before normalized seen) Error.duplicate_signature
  unique_from (normalized ∷ seen) rs

unfoldable pub check_signatures_unique : List SignedReceipt → Go Error (Unit {0})
unfolding unique_from
check_signatures_unique receipts = unique_from [] receipts

unfoldable pub timestamps_after : ℕ → List SignedReceipt → Go Error (Unit {0})
timestamps_after rav_timestamp [] = ok tt
timestamps_after rav_timestamp (r ∷ rs) = do
  receipt ← deref r.message
  err_if (leb receipt.timestamp_ns rav_timestamp) Error.invalid_timestamp
  timestamps_after rav_timestamp rs

unfoldable pub check_receipt_timestamps : List SignedReceipt → Ptr SignedRav → Go Error (Unit {0})
unfolding timestamps_after
check_receipt_timestamps receipts none = ok tt
check_receipt_timestamps receipts (some previous) = do
  message ← deref previous.message
  timestamps_after message.timestamp_ns receipts

-- The four fields that a receipt and the first receipt, or the previous voucher, share.
pub record Parties : Type 0 where
  pub collection_id : CollectionId
  pub payer : Address
  pub service_provider : Address
  pub data_service : Address

abbrev pub receipt_parties : Receipt → Parties
receipt_parties r = record {
  collection_id = r.collection_id;
  payer = r.payer;
  service_provider = r.service_provider;
  data_service = r.data_service;
}

abbrev pub rav_parties : Rav → Parties
rav_parties r = record {
  collection_id = r.collection_id;
  payer = r.payer;
  service_provider = r.service_provider;
  data_service = r.data_service;
}

unfoldable pub compare_parties : Parties → Parties → Go Error (Unit {0})
compare_parties a b = do
  err_if (not (bytes_equal a.collection_id b.collection_id)) Error.collection_mismatch
  err_if (not (addresses_equal a.payer b.payer)) Error.payer_mismatch
  err_if (not (addresses_equal a.service_provider b.service_provider))
      Error.service_provider_mismatch
  err_if (not (addresses_equal a.data_service b.data_service)) Error.data_service_mismatch

unfoldable pub consistent_with : Ptr Receipt → List SignedReceipt → Go Error (Unit {0})
consistent_with first [] = ok tt
consistent_with first (r ∷ rs) = do
  receipt ← deref r.message
  head ← deref first
  compare_parties (receipt_parties receipt) (receipt_parties head)
  consistent_with first rs

unfoldable pub validate_receipt_consistency : List SignedReceipt → Go Error (Unit {0})
unfolding consistent_with
validate_receipt_consistency [] = ok tt
validate_receipt_consistency (first ∷ rest) = consistent_with first.message rest

unfoldable pub validate_rav_consistency : Ptr Receipt → Ptr Rav → Go Error (Unit {0})
validate_rav_consistency receipt rav = do
  r ← deref receipt
  v ← deref rav
  compare_parties (receipt_parties r) (rav_parties v)
