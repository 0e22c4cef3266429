-- ===== src/Pricing/Apply/Subscription/Permitted.antt =====
-- backend/app/api/v1/pricing.py, `apply_subscription_prices`: the calls that the loop may make.
use aso_light.Base.{String, Bool, true, false, ◌≡◌, Option, none, some, List, [], ◌∷◌, All}
use aso_light.Base.Dict.{Dict, lookup, contains}
use aso_light.Pricing.Decimal.{Decimal}
use aso_light.Pricing.Safety.{keeps_current_price}
use aso_light.Pricing.Safety.Band.{MayApply}
use aso_light.Pricing.Cache.{Codec, Disk, ok, PricePoint}
use aso_light.Pricing.Cache.Stable.{ladder_at, Keeps}
use aso_light.Pricing.Apply.{
  PriceApplyItem, Call, get_price_points, create_subscription_price, get_iap_price_schedule,
  set_iap_price, Calls, price_of,
}

-- The price is that of the item's price point in the ladder of its territory, and may be applied.
abbrev pub IsPriced :
    (k : Codec) → String → Dict Decimal → PriceApplyItem → Disk k → Decimal → Type 0
IsPriced k product current item disk new_price =
    (pps : List PricePoint) × (ladder_at k product item.territory_code disk ≡ ok (some pps))
    × (price_of item.price_point_id pps ≡ some new_price)
    × MayApply (lookup item.territory_code current) new_price item.force

abbrev pub is_dated : Option String → Bool
is_dated none = false
is_dated (some date) = true

-- The calls that a loop over such items may make.
abbrev pub IsPermitted :
    (k : Codec) → String → Bool → Dict Decimal → (PriceApplyItem → Type 0) → Disk k → Call → Type 0
IsPermitted k product preserve_on_increase current Asked disk (get_price_points tc) = Unit
IsPermitted k product preserve_on_increase current Asked disk get_iap_price_schedule = ⊥
IsPermitted k product preserve_on_increase current Asked disk (set_iap_price entries base) = ⊥
IsPermitted k product preserve_on_increase current Asked disk
      (create_subscription_price i preserve date) =
    (item : PriceApplyItem) × (new_price : Decimal) × Asked item
    × (i ≡ item.price_point_id)
    × IsPriced k product current item disk new_price
    × (preserve
        ≡ keeps_current_price preserve_on_increase (lookup item.territory_code current)
            (some new_price))
    × (is_dated date ≡ contains item.territory_code current)

module _ (k : Codec) (product : String) (preserve_on_increase : Bool) (current : Dict Decimal) where
  module _ (Asked : PriceApplyItem → Type 0) where
    IsPermitted-Keeps :
        (disk disk' : Disk k) (c : Call)
        → Keeps k product disk disk'
        → IsPermitted k product preserve_on_increase current Asked disk c
        → IsPermitted k product preserve_on_increase current Asked disk' c
    IsPermitted-Keeps disk disk' (get_price_points tc) kept h = tt
    IsPermitted-Keeps disk disk' get_iap_price_schedule kept h = h
    IsPermitted-Keeps disk disk' (set_iap_price entries base) kept h = h
    IsPermitted-Keeps disk disk' (create_subscription_price i preserve date) kept h =
        let (item, new_price, asked, same, (pps, at_, found, may), kept_price, dated) = h in
        (
          item,
          new_price,
          asked,
          same,
          (pps, kept item.territory_code pps at_, found, may),
          kept_price,
          dated,
        )

    abbrev pub IsSound : Disk k → Calls → Type 0
    IsSound disk h = All (IsPermitted k product preserve_on_increase current Asked disk) h

    pub IsSound-Keeps :
        (disk disk' : Disk k) (h : Calls)
        → Keeps k product disk disk'
        → IsSound disk h
        → IsSound disk' h
    IsSound-Keeps disk disk' [] kept sound = tt
    IsSound-Keeps disk disk' (c ∷ h) kept sound =
        (IsPermitted-Keeps disk disk' c kept sound.0, IsSound-Keeps disk disk' h kept sound.1)
