-- ===== src/Cmd/Batches.antt =====
-- cmd/sds/consumer_fake_client.go and provider_fake_operator.go: the loop that both run, which
-- reports the blocks in batches. `for` is recursion on fuel: `ok none` says that the fuel did not
-- suffice. The delay between batches is left out.
pub mod Completion
use substreams_data_service.Common.{
  ℕ, zero, suc, ◌+◌, ◌-◌, ◌*◌, ◌%◌, ◌^◌, none, some, Bool, true, false, ltb, if◌then◌else◌,
}
use substreams_data_service.Common.Int.{ℤ, pos, ◌+ℤ◌, ◌*ℤ◌, int64, abs}
use substreams_data_service.Common.Digits.{be_bytes}
use substreams_data_service.Common.Go.{Ptr, Go, ok}
use substreams_data_service.Common.Action.{Action, ◌>>=◌, pure}
use substreams_data_service.Pb.{PbUsage}

-- The flags of the loop; `price_wei` is the price per block after its conversion from text.
pub record Plan : Type 0 where
  pub blocks_to_simulate : ℕ
  pub batch_size : ℕ
  pub bytes_per_block : ℕ
  pub price_wei : ℤ

-- `totalBlocks`, `totalBytes`, `totalRequests` and `totalCost`.
pub record Totals : Type 0 where
  pub blocks : ℕ
  pub bytes : ℕ
  pub requests : ℕ
  pub cost : ℤ

abbrev pub no_totals : Totals
no_totals = record { blocks = 0; bytes = 0; requests = 0; cost = pos 0 }

-- The last batch may be smaller.
unfoldable pub current_batch : Plan → ℕ → ℕ
current_batch p done =
    if ltb p.blocks_to_simulate ((done + p.batch_size) % 2 ^ 64)
    then p.blocks_to_simulate - done
    else p.batch_size

unfoldable pub batch_cost : Plan → ℕ → ℤ
batch_cost p batch = p.price_wei *ℤ int64 batch

-- The report of a batch; `BigIntFromNative` drops the sign of the cost.
unfoldable pub usage_of : Plan → ℕ → PbUsage
usage_of p batch = record {
  blocks_processed = batch;
  bytes_transferred = batch * p.bytes_per_block % 2 ^ 64;
  requests = 1;
  cost = some (record { bytes = be_bytes (abs (batch_cost p batch)) });
}

unfoldable pub add_batch : Plan → ℕ → Totals → Totals
add_batch p batch t = record {
  blocks = (t.blocks + batch) % 2 ^ 64;
  bytes = (t.bytes + batch * p.bytes_per_block % 2 ^ 64) % 2 ^ 64;
  requests = (t.requests + 1) % 2 ^ 64;
  cost = t.cost +ℤ batch_cost p batch;
}

-- The usage of the final report.
abbrev pub no_usage : PbUsage
no_usage = record {
  blocks_processed = 0;
  bytes_transferred = 0;
  requests = 0;
  cost = some (record { bytes = be_bytes 0 });
}

module _ {S E : Type 0} (report : ℕ → PbUsage → Action S E Bool) (p : Plan) where
  -- `report i` makes the call number `i`, and returns `ShouldContinue`.
  unfoldable pub run_batches : ℕ → ℕ → ℕ → Totals → Action S E (Ptr Totals)
  run_batches zero i done totals = pure none
  run_batches (suc fuel) i done totals = elim (ltb done p.blocks_to_simulate) [
    | false ↦ pure (some totals)
    | true ↦ report i (usage_of p (current_batch p done)) >>= λ should_continue.
        elim should_continue [
          | false ↦ pure (some (add_batch p (current_batch p done) totals))
          | true ↦
              run_batches fuel (i + 1) ((done + p.batch_size) % 2 ^ 64)
                (add_batch p (current_batch p done) totals)
        ]
  ]
