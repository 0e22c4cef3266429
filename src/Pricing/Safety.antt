-- ===== src/Pricing/Safety.antt =====
-- backend/app/services/pricing/safety.py: the ±50% band in front of every price change.
pub mod Band
use aso_light.Base.{
  ℕ, ◌+◌, ◌-◌, String, Bool, true, false, not, ◌&&◌, ◌||◌, Option, none, some, if◌then◌else◌,
}
use aso_light.Base.Int.{ℤ, pos, ◌*ℤ◌, ltb_ℤ, leb_ℤ}
use aso_light.Pricing.Decimal.{unit, Decimal, whole, hundredths}

abbrev pub safety_band_pct : ℕ
safety_band_pct = hundredths 50

abbrev pub safety_max_up : ℕ
safety_max_up = whole 1 + safety_band_pct

abbrev pub safety_max_down : ℕ
safety_max_down = whole 1 - safety_band_pct

-- `new > current * SAFETY_MAX_UP or new < current * SAFETY_MAX_DOWN`, both sides of each test
-- multiplied by the unit. The floats that callers pass arrive as the decimal of their `str`.
pub exceeds_safety_band : Decimal → Decimal → Bool
exceeds_safety_band current new =
    ltb_ℤ (current *ℤ pos safety_max_up) (new *ℤ pos unit)
    || ltb_ℤ (new *ℤ pos unit) (current *ℤ pos safety_max_down)

pub keeps_current_price : Bool → Option Decimal → Option Decimal → Bool
keeps_current_price on_increase (some current) (some new) = on_increase && ltb_ℤ current new
keeps_current_price on_increase _ _ = false

pub record PriceApplySkippedItem : Type 0 where
  pub territory_code : String
  pub reason : String
  pub current_price : Decimal
  pub new_price : Decimal
  pub diff_percent : Decimal

-- The float arithmetic of `diff_pct` and the text of `reason` are arguments.
module _ (diff_pct : Decimal → Decimal → Decimal) (reason : Decimal → String) where
  unfoldable pub band_skip : String → Decimal → Decimal → Option PriceApplySkippedItem
  band_skip territory_code current new =
      if leb_ℤ current (pos 0)
      then none
      else if not (exceeds_safety_band current new)
      then none
      else some (record {
        territory_code = territory_code;
        reason = reason (diff_pct current new);
        current_price = current;
        new_price = new;
        diff_percent = diff_pct current new;
      })

  unfoldable pub safety_skip_item :
      String → Option Decimal → Decimal → Bool → Option PriceApplySkippedItem
  safety_skip_item territory_code none new force = none
  safety_skip_item territory_code (some current) new force =
      if force then none else band_skip territory_code current new
