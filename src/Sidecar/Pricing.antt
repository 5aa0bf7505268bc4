-- ===== src/Sidecar/Pricing.antt =====
-- sidecar/pricing.go: prices as decimal text and in wei, and the cost of usage.
pub mod Costs
use substreams_data_service.Common.{
  ℕ, ◌-◌, ◌+◌, ◌^◌, List, [], ◌∷◌, ◌++◌, Option, none, some, Bool, true, false, ◌||◌, Bytes, length,
  take, replicate, ltb, ◌==◌, if◌then◌else◌,
}
use substreams_data_service.Common.Int.{ℤ, pos, negsuc, ◌+ℤ◌, ◌*ℤ◌, int64}
use substreams_data_service.Common.Go.{Ptr, Go, ok, err, panic, deref, ◌>>=◌}
use substreams_data_service.Horizon.Eip712.{codes}
use substreams_data_service.Sidecar.Decimal.{
  zero_digit, trim_space, trim_zeros, split_dot, set_string, text_of, text_of_ℕ, div_floor,
  mod_floor,
}

abbrev pub wei_per_grt : ℕ
wei_per_grt = 10 ^ 18

pub record Price : Type 0 where
  pub wei : Ptr ℤ

pub data PriceError : Type 0 where
  invalid_decimal_format invalid_integer_part invalid_fractional_part : Bytes → PriceError
  invalid_price_per_block invalid_price_per_byte : PriceError → PriceError
  parsing_pricing_config : PriceError

unfoldable pub new_price_from_wei : Ptr ℤ → Price
new_price_from_wei none = record { wei = some (pos 0) }
new_price_from_wei (some wei) = record { wei = some wei }

-- Padded or cut to 18 decimals.
unfoldable pub fit_fraction : Bytes → Bytes
fit_fraction frac =
    if ltb 18 (length frac) then take 18 frac else frac ++ replicate (18 - length frac) zero_digit

unfoldable pub or_err : {A : Type 0} → Option A → PriceError → Go PriceError A
or_err none e = err e
or_err (some a) e = ok a

-- An empty integer part stands for zero.
abbrev pub or_zero_digit : Bytes → Bytes
or_zero_digit [] = zero_digit ∷ []
or_zero_digit (c ∷ s) = c ∷ s

unfoldable pub integer_wei : Bytes → Go PriceError ℤ
unfolding or_err
integer_wei part = do
  let int_part = or_zero_digit part
  int_value ← or_err (set_string int_part) (invalid_integer_part int_part)
  ok (int_value *ℤ pos wei_per_grt)

unfoldable pub fraction_wei : Bytes → Go PriceError ℤ
unfolding or_err
fraction_wei part = do
  let frac_part = fit_fraction part
  or_err (set_string frac_part) (invalid_fractional_part frac_part)

unfoldable pub price_of_parts : Bytes → List Bytes → Go PriceError Price
unfolding integer_wei fraction_wei
price_of_parts decimal (int_part ∷ []) = do
  wei ← integer_wei int_part
  ok (record { wei = some wei })
price_of_parts decimal (int_part ∷ frac_part ∷ []) = do
  wei ← integer_wei int_part
  frac_value ← fraction_wei frac_part
  ok (record { wei = some (wei +ℤ frac_value) })
price_of_parts decimal _ = err (invalid_decimal_format decimal)

unfoldable pub price_of_trimmed : Bytes → Go PriceError Price
unfolding price_of_parts
price_of_trimmed [] = ok (record { wei = some (pos 0) })
price_of_trimmed (c ∷ s) = price_of_parts (c ∷ s) (split_dot (c ∷ s))

unfoldable pub new_price_from_decimal : Bytes → Go PriceError Price
unfolding price_of_trimmed
new_price_from_decimal decimal = price_of_trimmed (trim_space decimal)

abbrev pub wei_of : Ptr Price → Ptr ℤ
wei_of none = none
wei_of (some p) = p.wei

abbrev pub or_zero : Ptr ℤ → ℤ
or_zero none = pos 0
or_zero (some v) = v

-- `(*Price).Wei`
unfoldable pub wei : Ptr Price → ℤ
wei p = or_zero (wei_of p)

unfoldable pub decimal_of_wei : ℤ → Bytes
decimal_of_wei w =
    let grt = text_of (div_floor w wei_per_grt) in
    let remainder = mod_floor w wei_per_grt in
    let frac = text_of_ℕ remainder in
    let padded = replicate (18 - length frac) zero_digit ++ frac in
    if remainder == 0 then grt else grt ++ (b'.' ∷ trim_zeros padded)

unfoldable pub to_decimal_string : Ptr Price → Bytes
unfolding decimal_of_wei
to_decimal_string p = elim (wei_of p) [ none ↦ zero_digit ∷ [] | some w ↦ decimal_of_wei w ]

-- The quantity is a `uint64`, and is multiplied as an `int64`.
unfoldable pub calculate_cost : Ptr Price → ℕ → ℤ
calculate_cost p quantity = elim (wei_of p) [ none ↦ pos 0 | some w ↦ w *ℤ int64 quantity ]

unfoldable pub is_zero : Ptr Price → Bool
is_zero p = elim (wei_of p) [ none ↦ true | some (pos n) ↦ n == 0 | some (negsuc n) ↦ false ]

pub record PricingConfig : Type 0 where
  pub price_per_block : Ptr Price
  pub price_per_byte : Ptr Price
  pub price_per_block_str : Bytes
  pub price_per_byte_str : Bytes

-- `fmt.Errorf("…: %w", err)`
abbrev pub wrap_error : {A : Type 0} → (PriceError → PriceError) → Go PriceError A → Go PriceError A
wrap_error f (ok a) = ok a
wrap_error f (err e) = err (f e)
wrap_error f panic = panic

-- `yaml.Unmarshal` is a parameter: it reads the two strings or fails.
unfoldable pub parse_pricing_config :
    (Bytes → Option (Bytes × Bytes)) → Bytes → Go PriceError PricingConfig
unfolding or_err
parse_pricing_config unmarshal text = do
  strings ← or_err (unmarshal text) parsing_pricing_config
  block ← wrap_error invalid_price_per_block (new_price_from_decimal strings.0)
  byte ← wrap_error invalid_price_per_byte (new_price_from_decimal strings.1)
  ok (record {
    price_per_block = some block;
    price_per_byte = some byte;
    price_per_block_str = strings.0;
    price_per_byte_str = strings.1;
  })

-- `if price != nil { total.Add(total, price.CalculateCost(quantity)) }`
unfoldable pub add_cost : ℤ → Ptr Price → ℕ → ℤ
unfolding calculate_cost
add_cost total none quantity = total
add_cost total (some p) quantity = total +ℤ calculate_cost (some p) quantity

-- The receiver is not nil.
unfoldable pub calculate_usage_cost : PricingConfig → ℕ → ℕ → ℤ
unfolding add_cost
calculate_usage_cost c blocks_processed bytes_transferred =
    add_cost (add_cost (pos 0) c.price_per_block blocks_processed) c.price_per_byte
      bytes_transferred

-- `price, _ := …`
abbrev pub price_or_nil : Go PriceError Price → Ptr Price
price_or_nil (ok p) = some p
price_or_nil (err _) = none
price_or_nil panic = none

unfoldable pub default_pricing_config : PricingConfig
default_pricing_config = record {
  price_per_block = price_or_nil (new_price_from_decimal (codes "0.000001"));
  price_per_byte = price_or_nil (new_price_from_decimal (codes "0.0000000001"));
  price_per_block_str = codes "0.000001";
  price_per_byte_str = codes "0.0000000001";
}
