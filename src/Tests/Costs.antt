-- ===== src/Tests/Costs.antt =====
-- Tests of the cost of usage and of the payment status.
use substreams_data_service.Common.{◌+◌, ◌-◌, ◌*◌, ◌<◌, ◌≤◌, ◌^◌, ◌≡◌, ◌↔◌, refl, some, true, arith}
use substreams_data_service.Common.Int.{pos, negsuc, ◌+ℤ◌, ◌*ℤ◌, ◌≤ℤ◌}
use substreams_data_service.Sidecar.Pricing.{
  calculate_cost, calculate_usage_cost, default_pricing_config, wei,
}
use substreams_data_service.Sidecar.Pricing.Costs.{calculate_usage_cost_exact}
use substreams_data_service.Provider.Status.{funds_sufficient, uncommitted_usage, estimated_blocks}
use substreams_data_service.Provider.Status.Funds.{funds_sufficient_iff, estimated_blocks_largest}

calculate_usage_cost_exact_example :
    calculate_usage_cost default_pricing_config 3 7
    ≡ (wei default_pricing_config.price_per_block *ℤ pos 3)
      +ℤ (wei default_pricing_config.price_per_byte *ℤ pos 7)
calculate_usage_cost_exact_example =
    calculate_usage_cost_exact default_pricing_config 3 7 (omega arith) (omega arith)

-- A quantity of 2^63 is multiplied as a negative number.
calculate_cost-wraps :
    calculate_cost (some (record { wei = some (pos 1) })) (2 ^ 63) ≡ negsuc (2 ^ 63 - 1)
unfolding calculate_cost ◌*ℤ◌
calculate_cost-wraps = refl

funds_sufficient_iff_example :
    (funds_sufficient (pos 5) (uncommitted_usage (pos 30) (pos 25)) ≡ true)
    ↔ (pos 30 ≤ℤ pos 25 +ℤ pos 5)
funds_sufficient_iff_example = funds_sufficient_iff (pos 5) (pos 30) (pos 25) (omega arith)

estimated_blocks_largest_example :
    (estimated_blocks (some (pos 3)) (pos (5 + 20)) (pos 5) * 3 ≤ 20)
    × (20 < estimated_blocks (some (pos 3)) (pos (5 + 20)) (pos 5) * 3 + 3)
estimated_blocks_largest_example = estimated_blocks_largest 3 20 5 (omega arith) (omega arith)
