-- ===== src/Tests/Prices.antt =====
-- Tests of the prices.
use substreams_data_service.Common.{◌≡◌, refl, some, ◌*◌, ◌^◌, ◌-◌}
use substreams_data_service.Common.Int.{pos, negsuc}
use substreams_data_service.Common.Go.{ok}
use substreams_data_service.Horizon.Eip712.{codes}
use substreams_data_service.Sidecar.Pricing.{new_price_from_decimal, decimal_of_wei}

parse-price :
    new_price_from_decimal (codes " 1.5 ") ≡ ok (record { wei = some (pos (15 * 10 ^ 17)) })
unfolding new_price_from_decimal substreams_data_service.Sidecar.Decimal.trim_space
    substreams_data_service.Sidecar.Decimal.split_dot
    substreams_data_service.Sidecar.Decimal.set_string
    substreams_data_service.Sidecar.Pricing.fit_fraction substreams_data_service.Common.Int.◌+ℤ◌
    substreams_data_service.Common.Int.◌*ℤ◌
parse-price = refl

-- The fraction of a negative price is added: -1.5 is read as -0.5.
parse-negative :
    new_price_from_decimal (codes "-1.5") ≡ ok (record { wei = some (negsuc (5 * 10 ^ 17 - 1)) })
unfolding new_price_from_decimal substreams_data_service.Sidecar.Decimal.trim_space
    substreams_data_service.Sidecar.Decimal.split_dot
    substreams_data_service.Sidecar.Decimal.set_string
    substreams_data_service.Sidecar.Pricing.fit_fraction substreams_data_service.Common.Int.◌+ℤ◌
    substreams_data_service.Common.Int.◌*ℤ◌
parse-negative = refl

print-price : decimal_of_wei (pos (15 * 10 ^ 17)) ≡ codes "1.5"
unfolding decimal_of_wei substreams_data_service.Sidecar.Decimal.text_of
    substreams_data_service.Sidecar.Decimal.text_of_ℕ
    substreams_data_service.Sidecar.Decimal.trim_zeros
    substreams_data_service.Sidecar.Decimal.trim_end
    substreams_data_service.Sidecar.Decimal.div_floor
    substreams_data_service.Sidecar.Decimal.mod_floor substreams_data_service.Common.Digits.digits
print-price = refl
