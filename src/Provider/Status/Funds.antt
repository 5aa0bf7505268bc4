-- ===== src/Provider/Status/Funds.antt =====
-- What the payment status says of the funds.
use native.Mathlib.Nat.{div-le_self, div-add-mod', mod-lt}
use substreams_data_service.Common.{ℕ, ◌+◌, ◌*◌, ◌/◌, ◌^◌, ◌<◌, ◌≤◌, ◌≡◌, ◌↔◌, some, true, arith}
use substreams_data_service.Common.Int.{ℤ, pos, ◌+ℤ◌, ◌-ℤ◌, ◌≤ℤ◌, int_laws, -ℤ_parts, +ℤ_parts}
use substreams_data_service.Provider.Status.{uncommitted_usage, funds_sufficient, estimated_blocks}

-- The funds are reported as sufficient exactly when the voucher's value together with the escrow
-- balance covers the cost so far, for a balance that is not negative.
pub funds_sufficient_iff :
    (balance total_cost rav_value : ℤ)
    → pos 0 ≤ℤ balance
    → (funds_sufficient balance (uncommitted_usage total_cost rav_value) ≡ true)
      ↔ (total_cost ≤ℤ rav_value +ℤ balance)
unfolding funds_sufficient uncommitted_usage
funds_sufficient_iff balance total_cost rav_value h =
    let difference = total_cost -ℤ rav_value in
    ground (arith, -ℤ_parts total_cost rav_value, +ℤ_parts rav_value balance)

difference-eq : (a b : ℕ) → pos (a + b) -ℤ pos a ≡ pos b
difference-eq a b = omega int_laws

estimate-eq :
    (price available uncommitted : ℕ)
    → 0 < price
    → available < 2 ^ 64
    → estimated_blocks (some (pos price)) (pos (uncommitted + available)) (pos uncommitted)
      ≡ available / price
unfolding estimated_blocks
estimate-eq price available uncommitted h k =
    rw (difference-eq uncommitted available) (ground (arith, div-le_self available price))

-- The estimate is the largest number of blocks that the uncommitted balance pays for, if the
-- price is positive and that balance has 64 bits.
pub estimated_blocks_largest :
    (price available uncommitted : ℕ)
    → 0 < price
    → available < 2 ^ 64
    → let n =
        estimated_blocks (some (pos price)) (pos (uncommitted + available)) (pos uncommitted) in
      (n * price ≤ available) × (available < n * price + price)
estimated_blocks_largest price available uncommitted h k =
    rw (estimate-eq price available uncommitted h k) (
      omega (arith, div-add-mod' available price),
      omega (arith, div-add-mod' available price, mod-lt available h),
    )
