-- ===== src/Horizon/Totals.antt =====
-- horizon/aggregator.go: `aggregate`, which adds the values of the receipts to the previous voucher.
pub mod Exact
use substreams_data_service.Common.{ℕ, List, [], ◌∷◌, none, some, ltb, if◌then◌else◌}
use substreams_data_service.Common.Int.{ℤ, pos, ◌+ℤ◌, ltb_ℤ}
use substreams_data_service.Common.Go.{Ptr, Go, ok, deref, err_if, ◌>>=◌, ◌>>◌}
use substreams_data_service.Horizon.Types.{Rav, SignedReceipt, SignedRav, Error, max_uint128}

-- `timestampMax` and `valueAggregate`
abbrev pub Totals : Type 0
Totals = ℕ × ℤ

-- The two variables before the loop.
unfoldable pub initial_totals : Ptr SignedRav → Go Error Totals
initial_totals none = ok (0, pos 0)
initial_totals (some previous) = do
  message ← deref previous.message
  value ← deref message.value_aggregate
  ok (message.timestamp_ns, value)

unfoldable pub add_receipts : Totals → List SignedReceipt → Go Error Totals
add_receipts totals [] = ok totals
add_receipts (timestamp_max, value_aggregate) (r ∷ rs) = do
  receipt ← deref r.message
  value ← deref receipt.value
  let new_value = value_aggregate +ℤ value
  err_if (ltb_ℤ (pos max_uint128) new_value) Error.aggregate_overflow
  add_receipts
      (
        (if ltb timestamp_max receipt.timestamp_ns then receipt.timestamp_ns else timestamp_max),
        new_value,
      )
      rs

unfoldable pub aggregate : SignedReceipt → List SignedReceipt → Ptr SignedRav → Go Error Rav
aggregate head rest previous = do
  start ← initial_totals previous
  totals ← add_receipts start (head ∷ rest)
  first ← deref head.message
  ok (record {
    collection_id = first.collection_id;
    payer = first.payer;
    service_provider = first.service_provider;
    data_service = first.data_service;
    timestamp_ns = totals.0;
    value_aggregate = some totals.1;
    metadata = [];
  })
