-- ===== src/Pricing/Finalize.antt =====
-- backend/app/services/pricing/preview.py, `finalize_price` and `economic_index_suggested`, and
-- currency.py: the last steps of every suggested price. `none` is a raised exception.
pub mod Total
use Prim.Native.String.{◌∷◌}
use Prim.Native.Char.{code}
use mathlib.Core.Option
use aso_light.Base.{
  ℕ, ◌/◌, ◌^◌, String, Bool, true, false, ◌&&◌, ◌||◌, Option, none, some, List, [], ◌∷◌ as cons,
  eqb, str_eq, if◌then◌else◌,
}
use aso_light.Base.Dict.{lookup}
use aso_light.Base.Int.{ℤ, pos, ltb_ℤ}
use aso_light.Pricing.Decimal.{Decimal, whole, quantize_or_raise}
use aso_light.Pricing.Charming.{apply_charming}
use aso_light.Pricing.Rounding.{apply_currency_rounding, profile_for, default_flex, CurrencyProfile}
use aso_light.Pricing.Engine.{Arithmetic, calculators, calculate, apply_vat, Calculator}

-- `charming_mode.lstrip(".")`
pub lstrip_dots : String → String
lstrip_dots String.[] = ""
lstrip_dots (String.◌∷◌ c s) =
    let rest = lstrip_dots s in if eqb (code c) b'.' then rest else String.◌∷◌ c s

-- The branches below `"smart"`.
pub finalize_plain : Decimal → String → String → CurrencyProfile → Option Decimal
finalize_plain raw normalized currency_code profile =
    if str_eq normalized "99" || str_eq normalized "95"
    then if eqb profile.decimals 2
      then some (apply_charming raw normalized)
      else apply_currency_rounding raw currency_code default_flex
    else quantize_or_raise (whole 1 / 10 ^ profile.decimals) raw

pub finalize_price : Decimal → String → String → Option Decimal
finalize_price raw charming_mode currency_code =
    if str_eq (lstrip_dots charming_mode) "smart"
    then apply_currency_rounding raw currency_code default_flex
    else finalize_plain raw (lstrip_dots charming_mode) currency_code (profile_for currency_code)

-- `flag and vat_rate and vat_rate > 0`
abbrev pub vat_applies : Bool → Option Decimal → Bool
vat_applies flag none = false
vat_applies flag (some rate) = flag && ltb_ℤ (pos 0) rate

abbrev pub rate_of : Option Decimal → Decimal
rate_of none = pos 0
rate_of (some rate) = rate

module _ (m : Arithmetic) where
  abbrev pub with_vat : Bool → Option Decimal → Decimal → Decimal
  with_vat flag vat_rate raw =
      if vat_applies flag vat_rate then apply_vat m raw (rate_of vat_rate) else raw

  pub economic_index_suggested :
      Decimal
      → Decimal
      → Decimal
      → String
      → Option Decimal
      → Bool
      → String
      → String
      → Option Decimal
  economic_index_suggested base_price territory_index base_index_value index_type vat_rate
        apply_vat_flag charming_mode currency_code =
      Option.bind (lookup index_type calculators) λ (c : Calculator).
        Option.bind (calculate m c base_price territory_index base_index_value) λ (raw : Decimal).
          finalize_price (with_vat apply_vat_flag vat_rate raw) charming_mode currency_code
