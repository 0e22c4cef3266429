-- ===== src/Pricing/Tiers.antt =====
-- backend/app/services/pricing/gdp_brackets.py, with `GDPBracketConfig` of
-- backend/app/schemas/pricing.py: the tier of a territory.
use Prim.Native.Nat.{◌≤◌}
use aso_light.Base.{
  ℕ, String, Bool, true, false, ◌≡◌, Option, none, some, List, arith, if◌then◌else◌, inl, inr,
  Bool-cases, Option-cases,
}
use aso_light.Base.Dict.{Dict, mem, lookup}
use aso_light.Base.Int.{pos, leb_ℤ, ◌≤ℤ◌}
use aso_light.Pricing.Decimal.{Decimal}

pub data Tier : Type 0 where
  top mid low special : Tier

-- `GDPBracketConfig`; the dictionaries with fixed keys are fields.
pub record Config : Type 0 where
  pub price_top : Decimal
  pub price_mid : Decimal
  pub price_low : Decimal
  pub price_special : Decimal
  pub top_min : Decimal
  pub mid_min : Decimal
  pub manual_overrides : Dict Tier
  pub special_territories : List String

abbrev pub tier_prices_usd : Config → Tier → Decimal
tier_prices_usd c top = c.price_top
tier_prices_usd c mid = c.price_mid
tier_prices_usd c low = c.price_low
tier_prices_usd c special = c.price_special

-- What `_all_tiers_present` and `_thresholds_ordered` accept.
unfoldable pub validate : Config → Bool
validate c =
    if leb_ℤ c.price_top (pos 0)
    then false
    else if leb_ℤ c.price_mid (pos 0)
    then false
    else if leb_ℤ c.price_low (pos 0)
    then false
    else if leb_ℤ c.price_special (pos 0)
    then false
    else if leb_ℤ c.top_min c.mid_min
    then false
    else true

-- The thresholds, after both lists have been asked.
pub by_gdp : Option Decimal → Config → Tier
by_gdp none config = low
by_gdp (some gdp) config =
    if leb_ℤ config.top_min gdp then top else if leb_ℤ config.mid_min gdp then mid else low

abbrev override_or : Option Tier → Tier → Tier
override_or none tier = tier
override_or (some t) tier = t

pub assign_tier : String → Option Decimal → Config → Tier
assign_tier code gdp config =
    if mem code config.special_territories
    then special
    else override_or (lookup code config.manual_overrides) (by_gdp gdp config)

-- The order of the tiers that GDP decides.
abbrev pub rank : Tier → ℕ
rank top = 2
rank mid = 1
rank low = 0
rank special = 0

by_gdp_mono :
    (g h : Decimal) (config : Config)
    → validate config ≡ true
    → g ≤ℤ h
    → rank (by_gdp (some g) config) ≤ rank (by_gdp (some h) config)
unfolding by_gdp
by_gdp_mono g h config v le = elim (Bool-cases (leb_ℤ config.top_min g)) [
  | inl g_top ↦ rw g_top (ground arith)
  | inr g_less ↦ rw g_less (mid_or_low g h config v le g_less)
]
  where
    mid_or_low :
        (g h : Decimal) (config : Config)
        → validate config ≡ true
        → g ≤ℤ h
        → leb_ℤ config.top_min g ≡ false
        → rank (if leb_ℤ config.mid_min g then mid else low) ≤ rank (by_gdp (some h) config)
    mid_or_low g h config v le g_less = ground arith

-- In a config that the validators accept, a territory with a greater GDP gets at least as high a
-- tier, whatever the two lists say of it.
pub assign_tier_mono :
    (code : String) (g h : Decimal) (config : Config)
    → validate config ≡ true
    → g ≤ℤ h
    → rank (assign_tier code (some g) config) ≤ rank (assign_tier code (some h) config)
unfolding assign_tier
assign_tier_mono code g h config v le = elim (Bool-cases (mem code config.special_territories)) [
  | inl listed ↦ rw listed (omega arith)
  | inr free ↦ elim (Option-cases (lookup code config.manual_overrides)) [
    | inl unset ↦ rw (free, unset) (by_gdp_mono g h config v le)
    | inr (t, set) ↦ rw (free, set) (omega arith)
  ]
]
