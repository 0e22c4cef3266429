-- ===== src/Pricing/Rounding/Tests.antt =====
-- Prices rounded in several currencies, as the repository's tests have them.
use aso_light.Base.{◌≡◌, refl, some}
use aso_light.Base.Int.{pos, ◌+ℤ◌, ◌-ℤ◌, ◌*ℤ◌}
use aso_light.Pricing.Decimal.{
  whole, hundredths, thousandths, half_up, half_even, quantize, Decimal,
}
use aso_light.Pricing.Rounding.{
  apply_currency_rounding, default_flex, round_positive, profile_for, currency_profiles, select,
  choose, fallback, quantum, nearest, in_band, generate_nice_candidates, fractional,
  whole_candidates, dedupe, zero_decimal, plain_fractional, tiered_fractional, round_to_step,
  get_tier, tier_loop,
}
use mathlib.Core.Option

-- `apply_currency_rounding` on concrete input computes through all of these.
computed : Decimal → Decimal
unfolding apply_currency_rounding round_positive profile_for currency_profiles select choose
    fallback quantum nearest in_band generate_nice_candidates fractional whole_candidates dedupe
    zero_decimal plain_fractional tiered_fractional round_to_step get_tier tier_loop half_up
    half_even quantize Option.bind ◌+ℤ◌ ◌-ℤ◌ ◌*ℤ◌
computed d = d

kwd_two : apply_currency_rounding (pos (whole 2)) "KWD" default_flex ≡ some (pos (thousandths 1999))
unfolding computed
kwd_two = refl

inr : apply_currency_rounding (pos (whole 780)) "INR" default_flex ≡ some (pos (whole 799))
unfolding computed
inr = refl

jpy : apply_currency_rounding (pos (whole 1487)) "JPY" default_flex ≡ some (pos (whole 1490))
unfolding computed
jpy = refl

ars : apply_currency_rounding (pos (whole 4120)) "ARS" default_flex ≡ some (pos (hundredths 409999))
unfolding computed
ars = refl

usd :
    apply_currency_rounding (pos (hundredths 437)) "USD" default_flex ≡ some (pos (hundredths 399))
unfolding computed
usd = refl

vnd_min : apply_currency_rounding (pos (whole 7)) "VND" default_flex ≡ some (pos (whole 10000))
unfolding computed
vnd_min = refl
