-- ===== src/Sidecar/Pricing/Costs.antt =====
-- The cost of usage as arithmetic.
use substreams_data_service.Common.{
  ℕ, ◌<◌, ◌^◌, ◌≡◌, refl, ap, sym, ◌∙◌, some, none, inl, inr, Option-cases, arith,
}
use substreams_data_service.Common.Int.{ℤ, pos, ◌+ℤ◌, ◌*ℤ◌, int64, int_laws, +ℤ_zero}
use substreams_data_service.Common.Go.{Ptr}
use substreams_data_service.Sidecar.Pricing.{
  Price, PricingConfig, calculate_cost, calculate_usage_cost, add_cost, wei, wei_of,
}

int64-small : (x : ℕ) → x < 2 ^ 63 → int64 x ≡ pos x
int64-small x h = ground arith

zero_times : (x : ℕ) → pos 0 *ℤ pos x ≡ pos 0
unfolding ◌*ℤ◌
zero_times x = ground arith

calculate_cost_exact :
    (p : Ptr Price) (quantity : ℕ)
    → quantity < 2 ^ 63
    → calculate_cost p quantity ≡ wei p *ℤ pos quantity
unfolding calculate_cost wei
calculate_cost_exact p quantity h = elim (Option-cases (wei_of p)) [
  | inl e ↦ rw (calculate_cost, e) (sym (zero_times quantity))
  | inr (w, e) ↦ rw (calculate_cost, e, int64-small quantity h) refl
]

nil_cost : (x : ℕ) → wei none *ℤ pos x ≡ pos 0
unfolding wei
nil_cost x = zero_times x

add_cost_exact :
    (total : ℤ) (p : Ptr Price) (quantity : ℕ)
    → quantity < 2 ^ 63
    → add_cost total p quantity ≡ total +ℤ (wei p *ℤ pos quantity)
unfolding add_cost
add_cost_exact total none quantity h =
    sym (ap (λ x. total +ℤ x) (nil_cost quantity) ∙ +ℤ_zero total)
add_cost_exact total (some p) quantity h =
    ap (λ x. total +ℤ x) (calculate_cost_exact (some p) quantity h)

-- Below 2^63 blocks and bytes, the cost of usage is the price per block times the blocks plus the
-- price per byte times the bytes, where a price that is not there counts as zero.
pub calculate_usage_cost_exact :
    (c : PricingConfig) (blocks_processed bytes_transferred : ℕ)
    → blocks_processed < 2 ^ 63
    → bytes_transferred < 2 ^ 63
    → calculate_usage_cost c blocks_processed bytes_transferred
      ≡ (wei c.price_per_block *ℤ pos blocks_processed)
        +ℤ (wei c.price_per_byte *ℤ pos bytes_transferred)
unfolding calculate_usage_cost
calculate_usage_cost_exact c blocks bytes h k =
    let first : pos 0 +ℤ (wei c.price_per_block *ℤ pos blocks)
        ≡ wei c.price_per_block *ℤ pos blocks =
      omega int_laws in
    add_cost_exact _ c.price_per_byte bytes k
    ∙ ap (λ x. x +ℤ (wei c.price_per_byte *ℤ pos bytes))
        (add_cost_exact (pos 0) c.price_per_block blocks h ∙ first)
