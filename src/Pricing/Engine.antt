-- ===== src/Pricing/Engine.antt =====
-- backend/app/services/pricing/{calculator,proportional,ppp,bigmac,netflix,spotify,exchange_rate,
-- fixed_payout,vat,engine}.py: the price of a territory from an index.
use mathlib.Core.Option
use aso_light.Base.{ℕ, ◌-◌, String, Bool, Option, none, some, ◌&&◌, if◌then◌else◌, [], ◌∷◌}
use aso_light.Base.Dict.{Dict, lookup}
use aso_light.Base.Int.{pos, ◌+ℤ◌, ltb_ℤ, leb_ℤ}
use aso_light.Pricing.Decimal.{Decimal, whole, hundredths}
use aso_light.Pricing.Charming.{apply_charming}

-- `Decimal.__mul__` and `Decimal.__truediv__`, which round to the context's 28 digits; `none` is a
-- raised DivisionByZero or InvalidOperation.
pub record Arithmetic : Type 0 where
  pub mul : Decimal → Decimal → Decimal
  pub div : Decimal → Decimal → Option Decimal

-- The subclasses of `PriceCalculator`; all but the last two are a ProportionalCalculator by
-- inheritance alone, and so is ExchangeRateCalculator.
pub data Calculator : Type 0 where
  ppp bigmac netflix spotify exchange_rate fixed_payout : Calculator

-- `CALCULATORS`
pub calculators : Dict Calculator
calculators =
    ("ppp", ppp)
    ∷ ("bigmac", bigmac)
    ∷ ("netflix", netflix)
    ∷ ("spotify", spotify)
    ∷ ("fixed_payout", fixed_payout)
    ∷ ("exchange_rate", exchange_rate)
    ∷ []

-- `commission_rate`, which no caller passes
abbrev pub commission_rate : ℕ
commission_rate = hundredths 30

pub record PriceEngine : Type 0 where
  pub calculator : Calculator
  pub base_price : Decimal
  pub base_territory_code : String
  pub apply_vat_flag : Bool
  pub charming_mode : String

-- `PriceEngine.__init__`; `none` is the ValueError at an unknown index type.
pub new_engine : String → Decimal → String → Bool → String → Option PriceEngine
new_engine index_type base_price base_territory_code apply_vat_flag charming_mode =
    Option.map
      (λ (c : Calculator). record {
        calculator = c;
        base_price = base_price;
        base_territory_code = base_territory_code;
        apply_vat_flag = apply_vat_flag;
        charming_mode = charming_mode;
      })
      (lookup index_type calculators)

module _ (m : Arithmetic) where
  open m use {mul, div}

  abbrev scale : Decimal → Option Decimal → Option Decimal
  scale base none = none
  scale base (some ratio) = some (mul base ratio)

  pub proportional : Decimal → Decimal → Decimal → Option Decimal
  proportional base_price index_value base_index_value =
      if leb_ℤ base_index_value (pos 0) && leb_ℤ (pos 0) base_index_value
      then some base_price
      else scale base_price (div index_value base_index_value)

  pub calculate : Calculator → Decimal → Decimal → Decimal → Option Decimal
  calculate fixed_payout base_price index_value base_index_value =
      div base_price (pos (whole 1 - commission_rate))
  calculate _ base_price index_value base_index_value =
      proportional base_price index_value base_index_value

  unfoldable pub apply_vat : Decimal → Decimal → Decimal
  apply_vat price vat_rate = mul price (pos (whole 1) +ℤ vat_rate)

  pub remove_vat : Decimal → Decimal → Option Decimal
  remove_vat price_with_vat vat_rate = div price_with_vat (pos (whole 1) +ℤ vat_rate)

  abbrev finish : PriceEngine → Decimal → Option Decimal → Option Decimal
  finish e vat_rate none = none
  finish e vat_rate (some adjusted) =
      let taxed =
        if e.apply_vat_flag && ltb_ℤ (pos 0) vat_rate
        then apply_vat adjusted vat_rate
        else adjusted in
      some (apply_charming taxed e.charming_mode)

  pub calculate_price : PriceEngine → Decimal → Decimal → Decimal → Option Decimal
  calculate_price e index_value base_index_value vat_rate =
      finish e vat_rate (calculate e.calculator e.base_price index_value base_index_value)
