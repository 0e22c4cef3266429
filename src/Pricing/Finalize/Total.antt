-- ===== src/Pricing/Finalize/Total.antt =====
-- backend/app/services/pricing/preview.py, `finalize_price`: which prices it finalizes.
use aso_light.Pricing.Charming.{apply_charming}
use aso_light.Base.{
  ℕ, zero, suc, ◌+◌, ◌/◌, ◌^◌, ◌≤◌, ◌<◌, String, Bool, true, ◌&&◌, ◌||◌, ◌≡◌, refl, arith, some,
  eqb, ltb, str_eq, inl, inr, Bool-cases,
}
use aso_light.Base.Int.{pos, negsuc, pos_part}
use aso_light.Pricing.Decimal.{Decimal, whole, half_even, quantize, quantize_or_raise, size}
use aso_light.Pricing.Rounding.{profile_for, default_flex, CurrencyProfile}
use aso_light.Pricing.Rounding.Total.{
  apply_currency_rounding-total, is_well_formed, has_tiers, profile_for-is_well_formed,
}
use aso_light.Pricing.Finalize.{finalize_price, finalize_plain, lstrip_dots}

-- The price's size is below 10^24, so that no quantized price has more than 28 digits.
abbrev pub IsModest : Decimal → Type 0
IsModest raw = size raw < whole (10 ^ 24)

pos_part-lt : (raw : Decimal) → IsModest raw → pos_part raw < whole (10 ^ 24)
pos_part-lt (pos n) h = h
pos_part-lt (negsuc n) h = omega arith

half_even-le : (n q : ℕ) → half_even n q ≤ n / q + 1
unfolding half_even
half_even-le n q = ground arith

half_even-lt :
    (decimals n : ℕ) (t : Bool)
    → ((eqb decimals 2 || eqb decimals 3) || (eqb decimals 0 && t)) ≡ true
    → n < whole (10 ^ 24)
    → half_even n (whole 1 / 10 ^ decimals) < 10 ^ 28
half_even-lt zero n t w h = omega (arith, half_even-le n (10 ^ 40), h)
half_even-lt (suc zero) n t w h = absurd (ground (arith, w))
half_even-lt (suc (suc zero)) n t w h = omega (arith, half_even-le n (10 ^ 38), h)
half_even-lt (suc (suc (suc zero))) n t w h = omega (arith, half_even-le n (10 ^ 37), h)
half_even-lt (suc (suc (suc (suc d)))) n t w h = absurd (ground (arith, w))

quantize_or_raise-some :
    (raw : Decimal) (profile : CurrencyProfile)
    → is_well_formed profile ≡ true
    → IsModest raw
    → quantize_or_raise (whole 1 / 10 ^ profile.decimals) raw
      ≡ some (quantize (whole 1 / 10 ^ profile.decimals) raw)
unfolding quantize_or_raise
quantize_or_raise-some raw profile w h =
    let fits = half_even-lt profile.decimals (size raw) (has_tiers profile.tiers) w h in
    let few : ltb (half_even (size raw) (whole 1 / 10 ^ profile.decimals)) (10 ^ 28) ≡ true =
      ground (arith, fits) in
    rw few refl

finalize_plain-total :
    (raw : Decimal) (mode code : String) (profile : CurrencyProfile)
    → is_well_formed profile ≡ true
    → IsModest raw
    → (r : Decimal) × (finalize_plain raw mode code profile ≡ some r)
unfolding finalize_plain
finalize_plain-total raw mode code profile w h =
    elim (Bool-cases (str_eq mode "99" || str_eq mode "95")) [
      | inl charm ↦ elim (Bool-cases (eqb profile.decimals 2)) [
        | inl two ↦ (apply_charming raw mode, rw (charm, two) refl)
        | inr others ↦
            let (r, e) = apply_currency_rounding-total raw code default_flex (pos_part-lt raw h) in
            (r, rw (charm, others) e)
      ]
      | inr plain ↦ (
        quantize (whole 1 / 10 ^ profile.decimals) raw,
        rw plain (quantize_or_raise-some raw profile w h),
      )
    ]

-- Every raw price whose size is below 10^24 is finalized to some price, in every mode and currency:
-- no lookup by the number of decimals, no access to a tier and no quantizing fails.
pub finalize_price-total :
    (raw : Decimal) (mode code : String)
    → IsModest raw
    → (r : Decimal) × (finalize_price raw mode code ≡ some r)
unfolding finalize_price
finalize_price-total raw mode code h = elim (Bool-cases (str_eq (lstrip_dots mode) "smart")) [
  | inl smart ↦
      let (r, e) = apply_currency_rounding-total raw code default_flex (pos_part-lt raw h) in
      (r, rw smart e)
  | inr plain ↦
      let (r, e) =
        finalize_plain-total raw (lstrip_dots mode) code (profile_for code)
          (profile_for-is_well_formed code) h in
      (r, rw plain e)
]
