-- ===== src/Pricing/Tests.antt =====
-- The theorems on suggested prices at concrete input.
use Prim.Native.Nat.{◌*◌, ◌≤◌, ◌/◌}
use aso_light.Base.{String, true, false, ◌≡◌, ◌↔◌, refl, inr, none, some, List, [], ◌∷◌, arith}
use aso_light.Base.Dict.{Dict}
use aso_light.Base.Int.{pos, pos_part}
use aso_light.Pricing.Decimal.{unit, Decimal, whole, hundredths}
use aso_light.Pricing.Rounding.{
  apply_currency_rounding, default_flex, profile_for, currency_profiles, generate_nice_candidates,
  distance,
}
use aso_light.Pricing.Rounding.Nearest.{apply_currency_rounding-flex}
use aso_light.Pricing.Rounding.Total.{IsBest, apply_currency_rounding-IsBest}
use aso_light.Pricing.Rounding.Accuracy.{apply_currency_rounding-half}
use aso_light.Pricing.Charming.{apply_charming, IsCharmed, apply_charming_idem, apply_charming-near}
use aso_light.Pricing.Safety.{safety_skip_item}
use aso_light.Pricing.Safety.Band.{MayApply, safety_skip_item-none_iff}
use aso_light.Pricing.Tiers.{top, Config, validate, assign_tier, rank, assign_tier_mono}
use aso_light.Pricing.Engine.{Arithmetic, apply_vat}
use aso_light.Pricing.Finalize.{finalize_price}
use aso_light.Pricing.Finalize.Total.{finalize_price-total}
use aso_light.Pricing.Preview.{
  Territory, Request, PricePreviewSkippedItem, fx_loop, ok, effective_currency,
}
use aso_light.Pricing.Preview.Partition.{IsPayable, Previews, fx_loop-Previews}

apply_currency_rounding-flex_example :
    apply_currency_rounding (pos (hundredths 240)) "USD" (hundredths 10)
    ≡ apply_currency_rounding (pos (hundredths 240)) "USD" (hundredths 99)
apply_currency_rounding-flex_example =
    apply_currency_rounding-flex (pos (hundredths 240)) "USD" (hundredths 10) (hundredths 99)

apply_currency_rounding-IsBest_example :
    (cs : List Decimal) × (r : Decimal) × (generate_nice_candidates (whole 780) (profile_for "INR")
      ≡ some cs)
    × (apply_currency_rounding (pos (whole 780)) "INR" default_flex ≡ some r)
    × IsBest (whole 780) (profile_for "INR") cs r
apply_currency_rounding-IsBest_example =
    apply_currency_rounding-IsBest (pos (whole 780)) "INR" default_flex (omega arith) (omega arith)

apply_currency_rounding-half_example :
    (r : Decimal) × (apply_currency_rounding (pos (hundredths 437)) "EUR" default_flex ≡ some r)
    × (2 * distance (hundredths 437) r ≤ unit)
unfolding profile_for currency_profiles
apply_currency_rounding-half_example =
    apply_currency_rounding-half (hundredths 437) "EUR" default_flex refl refl (omega arith)
      (omega arith) (omega arith)

apply_charming-idem_example :
    apply_charming (apply_charming (pos (hundredths 437)) "99") "99"
    ≡ apply_charming (pos (hundredths 437)) "99"
apply_charming-idem_example = apply_charming_idem (hundredths 437) "99"

apply_charming-near_example :
    IsCharmed (hundredths 95) (hundredths 437) (apply_charming (pos (hundredths 437)) "95")
apply_charming-near_example =
    apply_charming-near (hundredths 437) "95" (hundredths 95) (omega arith) (inr (refl, refl))

safety_skip_item-none_iff_example :
    (safety_skip_item (λ c n. n) (λ d. "") "DE" (some (pos (whole 10))) (pos (whole 15)) false
      ≡ none)
    ↔ MayApply (some (pos (whole 10))) (pos (whole 15)) false
safety_skip_item-none_iff_example =
    safety_skip_item-none_iff (λ c n. n) (λ d. "") "DE" (some (pos (whole 10))) (pos (whole 15))
      false

abbrev config : Config
config = record {
  price_top = pos (hundredths 999);
  price_mid = pos (hundredths 499);
  price_low = pos (hundredths 199);
  price_special = pos (hundredths 99);
  top_min = pos (whole 40000);
  mid_min = pos (whole 15000);
  manual_overrides = ("PL", top) ∷ [];
  special_territories = "RU" ∷ [];
}

assign_tier-mono_example :
    rank (assign_tier "DE" (some (pos (whole 20000))) config)
    ≤ rank (assign_tier "DE" (some (pos (whole 60000))) config)
unfolding validate
assign_tier-mono_example =
    assign_tier_mono "DE" (pos (whole 20000)) (pos (whole 60000)) config refl (omega arith)

finalize_price-total_example :
    (r : Decimal) × (finalize_price (pos (whole 1487)) ".99" "JPY" ≡ some r)
finalize_price-total_example = finalize_price-total (pos (whole 1487)) ".99" "JPY" (omega arith)

-- Products as exact multiples of the unit; no quotient is taken here.
abbrev exact : Arithmetic
exact = record { mul = λ a b. pos (pos_part a * pos_part b / unit); div = λ a b. none }

abbrev japan : Territory
japan = record {
  id = 1;
  code = "JP";
  name = "Japan";
  currency_code = "JPY";
  vat_rate = some (pos (hundredths 10));
}

abbrev nowhere : Territory
nowhere = record { id = 2; code = "XX"; name = "Nowhere"; currency_code = "XXX"; vat_rate = none }

abbrev body : Request
body = record {
  index_type = "exchange_rate";
  base_price = pos (hundredths 999);
  base_territory_code = "US";
  apply_vat = true;
  charming_mode = "smart";
  gdp_config = none;
}

abbrev rates : Dict Decimal
rates = ("JPY", pos (hundredths 15909)) ∷ []

some_injective : {a b : Decimal} → some a ≡ some b → a ≡ b
some_injective h = cc h

abbrev show : Territory → String → Decimal → Decimal
show t c price = price

abbrev Fits : Territory → Type 0
Fits t = IsPayable exact Decimal show [] body "USD" (λ t. body.base_price) rates t

japan_payable : Fits japan
unfolding effective_currency apply_vat aso_light.Base.Int.◌+ℤ◌
japan_payable rate r =
    let known : rate ≡ pos (hundredths 15909) = some_injective (r.1 refl) in rw known (omega arith)

nowhere_payable : Fits nowhere
unfolding effective_currency
nowhere_payable rate r = absurd (ground (arith, r.1 refl))

fx_loop-Previews_example :
    (items : List Decimal) × (skips : List PricePreviewSkippedItem) × (fx_loop exact Decimal show []
        body "USD"
        (λ t. body.base_price)
        rates
        (japan ∷ nowhere ∷ [])
      ≡ ok (items, skips))
    × Previews exact Decimal show [] body "USD"
        (λ t. body.base_price)
        rates
        (japan ∷ nowhere ∷ [])
        items
        skips
fx_loop-Previews_example =
    fx_loop-Previews exact Decimal show [] body "USD" (λ t. body.base_price) rates
      (japan ∷ nowhere ∷ []) (japan_payable, (nowhere_payable, tt))
