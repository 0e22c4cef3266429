-- ===== src/Pricing/Rounding.antt =====
-- backend/app/services/pricing/currency_rounding.py: the nicest price near a raw price.
-- `none` stands for the exceptions: an IndexError at an empty list of tiers, a KeyError at an unknown
-- number of decimals, the InvalidOperation of a quantized value with more than 28 digits.
mod Profiles
pub mod Nearest
pub mod Total
pub mod Accuracy
mod Tests
pub use Profiles.{CurrencyProfile, default_profile, standard_99, standard_3dp, jpy}
unfoldable pub use Profiles.{currency_profiles}
use aso_light.Base.{
  ℕ, zero, suc, ◌+◌, ◌-◌, ◌*◌, ◌/◌, ◌^◌, String, Bool, true, false, not, ◌&&◌, ◌||◌, Option, none,
  some, List, [], ◌∷◌, map, length, keep, any, leb, ltb, eqb, if◌then◌else◌,
}
use mathlib.Core.Option
use aso_light.Base.Dict.{lookup}
use aso_light.Base.Int.{ℤ, pos, negsuc, pos_part, neg_part, ◌+ℤ◌, ◌-ℤ◌, ◌*ℤ◌, ltb_ℤ, leb_ℤ, abs}
use aso_light.Pricing.Decimal.{
  unit, Decimal, of_ℤ, whole, hundredths, thousandths, half_up, quantize,
}

abbrev pub or_default : Option CurrencyProfile → CurrencyProfile
or_default none = default_profile
or_default (some p) = p

-- `CURRENCY_PROFILES.get(currency_code, DEFAULT_PROFILE)`
unfoldable pub profile_for : String → CurrencyProfile
profile_for code = or_default (lookup code currency_profiles)

-- The loop of `_get_tier`: the last tier whose threshold `int(price)` reaches.
tier_loop : ℕ → ℕ × ℤ → List (ℕ × ℕ × ℤ) → ℕ × ℤ
tier_loop price chosen [] = chosen
tier_loop price chosen ((threshold, step, suffix) ∷ tiers) =
    tier_loop price (if leb threshold price then (step, suffix) else chosen) tiers

-- `_get_tier`, over `int(price)`
pub get_tier : ℕ → List (ℕ × ℕ × ℤ) → Option (ℕ × ℤ)
get_tier price [] = none
get_tier price ((threshold, step, suffix) ∷ tiers) =
    some (tier_loop price (step, suffix) ((threshold, step, suffix) ∷ tiers))

-- `_round_to_step`, for a positive price in units
pub round_to_step : ℕ → ℕ → Option ℕ
round_to_step price zero = some (price / unit)
round_to_step price (suc k) =
    if ltb (half_up price (whole (suc k))) (10 ^ 28)
    then some (half_up price (whole (suc k)) * suc k)
    else none

-- `range(-n, n + 1)`
abbrev pub offsets_3 : List ℤ
offsets_3 = negsuc 2 ∷ negsuc 1 ∷ negsuc 0 ∷ pos 0 ∷ pos 1 ∷ pos 2 ∷ pos 3 ∷ []

abbrev pub offsets_5 : List ℤ
offsets_5 =
    negsuc 4
    ∷ negsuc 3
    ∷ negsuc 2
    ∷ negsuc 1
    ∷ negsuc 0
    ∷ pos 0
    ∷ pos 1
    ∷ pos 2
    ∷ pos 3
    ∷ pos 4
    ∷ pos 5
    ∷ []

-- The three loops of `_generate_nice_candidates`.
pub tiered_fractional : ℕ → ℕ → ℕ → List ℤ → List Decimal
tiered_fractional suffix base step [] = []
tiered_fractional suffix base step (offset ∷ offsets) =
    let rest = tiered_fractional suffix base step offsets in
    let candidate = pos base +ℤ offset *ℤ pos step in
    if ltb_ℤ candidate (pos 0) then rest else (of_ℤ candidate -ℤ pos (whole 1) +ℤ pos suffix) ∷ rest

pub plain_fractional : ℕ → ℕ → List ℤ → List Decimal
plain_fractional suffix base [] = []
plain_fractional suffix base (offset ∷ offsets) =
    let rest = plain_fractional suffix base offsets in
    let candidate = pos base +ℤ offset in
    if ltb_ℤ candidate (pos 0) then rest else (of_ℤ candidate +ℤ pos suffix) ∷ rest

pub zero_decimal : ℤ → ℕ → ℕ → List ℤ → List Decimal
zero_decimal suffix base step [] = []
zero_decimal suffix base step (offset ∷ offsets) =
    let rest = zero_decimal suffix base step offsets in
    let candidate = pos base +ℤ offset *ℤ pos step in
    let charmed = candidate +ℤ suffix in
    if leb_ℤ candidate (pos 0)
    then rest
    else if leb_ℤ charmed (pos 0)
    then rest
    else of_ℤ charmed ∷ rest

abbrev pub eqb_ℤ : ℤ → ℤ → Bool
eqb_ℤ a b = leb_ℤ a b && leb_ℤ b a

abbrev pub is_in : Decimal → List Decimal → Bool
is_in c [] = false
is_in c (d ∷ ds) = eqb_ℤ c d || is_in c ds

-- `list(dict.fromkeys(candidates))`: the first of equal candidates stays.
pub dedupe : List Decimal → List Decimal → List Decimal
dedupe seen [] = []
dedupe seen (c ∷ cs) =
    let old = dedupe seen cs in
    let new = dedupe (c ∷ seen) cs in if is_in c seen then old else c ∷ new

-- The branch for two and three decimals.
pub fractional : ℕ → ℕ → List (ℕ × ℕ × ℤ) → Option (List Decimal)
fractional price suffix [] = some (plain_fractional suffix (price / unit) offsets_3)
fractional price suffix (t ∷ ts) = Option.bind (get_tier (price / unit) (t ∷ ts)) λ (tier : ℕ × ℤ).
    Option.map (λ (base : ℕ). tiered_fractional suffix base tier.0 offsets_5)
      (round_to_step price tier.0)

-- The branch for currencies without decimals.
pub whole_candidates : ℕ → List (ℕ × ℕ × ℤ) → Option (List Decimal)
whole_candidates price tiers = Option.bind (get_tier (price / unit) tiers) λ (tier : ℕ × ℤ).
    Option.map (λ (base : ℕ). zero_decimal tier.1 base tier.0 offsets_5)
      (round_to_step price tier.0)

-- `_generate_nice_candidates`, for a positive price in units
pub generate_nice_candidates : ℕ → CurrencyProfile → Option (List Decimal)
generate_nice_candidates price profile = Option.map (dedupe []) (
    if eqb profile.decimals 2 || eqb profile.decimals 3
    then fractional price profile.decimal_suffix profile.tiers
    else whole_candidates price profile.tiers)

-- `abs(c - price)`
abbrev pub distance : ℕ → Decimal → ℕ
distance price c = abs (c -ℤ pos price)

-- `lower <= c <= upper`, with `lower = price * (1 - flex_pct)` and `upper = price * (1 + flex_pct)`
-- and both sides of each test multiplied by the unit.
pub in_band : ℕ → ℕ → Decimal → Bool
in_band price flex c =
    leb_ℤ (pos (price * unit) -ℤ pos (price * flex)) (c *ℤ pos unit)
    && leb_ℤ (c *ℤ pos unit) (pos (price * unit + price * flex))

abbrev pub allowed : ℕ → Decimal → Bool
allowed min_price c = leb_ℤ (pos min_price) c

-- One step of `min(..., key=lambda c: abs(c - price))`: a later candidate wins if it is nearer.
abbrev pub nearer : ℕ → Decimal → Decimal → Decimal
nearer price c d = if ltb (distance price d) (distance price c) then d else c

-- `min(cs, key=lambda c: abs(c - price))` over the list `c ∷ cs`: the first of the nearest.
pub nearest : ℕ → Decimal → List Decimal → Decimal
nearest price c [] = c
nearest price c (d ∷ cs) = nearest price (nearer price c d) cs

-- `_QUANTUM_BY_DECIMALS`
pub quantum : ℕ → Option ℕ
quantum zero = some (whole 1)
quantum (suc (suc zero)) = some (hundredths 1)
quantum (suc (suc (suc zero))) = some (thousandths 1)
quantum _ = none

abbrev pub max_ℤ : ℤ → ℤ → ℤ
max_ℤ a b = if ltb_ℤ a b then b else a

-- What is returned when no candidate is in the band. Where no candidate reaches the minimum, the
-- price is below it, so that its quantized value has few digits.
pub fallback : ℕ → CurrencyProfile → List Decimal → Option Decimal
fallback price profile (c ∷ cs) = some (nearest price c cs)
fallback price profile [] =
    Option.map (λ (q : ℕ). max_ℤ (quantize q (pos price)) (pos profile.min_price))
      (quantum profile.decimals)

-- The choice among the candidates that are in the band.
pub choose : ℕ → CurrencyProfile → List Decimal → List Decimal → Option Decimal
choose price profile (c ∷ cs) candidates = some (nearest price c cs)
choose price profile [] candidates =
    fallback price profile (keep (allowed profile.min_price) candidates)

pub select : ℕ → ℕ → CurrencyProfile → List Decimal → Option Decimal
select price flex profile candidates =
    choose price profile
      (keep (λ c. in_band price flex c && allowed profile.min_price c) candidates) candidates

pub round_positive : ℕ → ℕ → CurrencyProfile → Option Decimal
round_positive price flex profile =
    Option.bind (generate_nice_candidates price profile) (select price flex profile)

-- `flex_pct`, which no caller passes
abbrev pub default_flex : ℕ
default_flex = hundredths 10

-- `apply_currency_rounding`
pub apply_currency_rounding : Decimal → String → ℕ → Option Decimal
apply_currency_rounding price code flex =
    if leb_ℤ price (pos 0)
    then some price
    else round_positive (pos_part price) flex (profile_for code)
