-- ===== src/Pricing/Apply/Tests.antt =====
-- backend/app/api/v1/pricing.py: a price in the band, one outside of it and an unknown price point.
use aso_light.Base.{String, true, false, some, List, [], ◌∷◌, map, All}
use aso_light.Base.Dict.{Dict}
use aso_light.Base.Int.{pos}
use aso_light.Pricing.Decimal.{Decimal}
use aso_light.Pricing.Cache.{answered, price_point, compute_price_point_id}
use aso_light.Pricing.Cache.Example.{codec, ladder}
use aso_light.Pricing.Apply.{PriceApplyItem, World}
use aso_light.Pricing.Apply.Subscription.{start, apply_prices}
use aso_light.Pricing.Apply.Subscription.Partition.{
  IsPartition, none_yet, apply_subscription-IsPartition,
}
use aso_light.Pricing.Apply.Subscription.Permitted.{IsPermitted}
use aso_light.Pricing.Apply.Subscription.Band.{IsIn, end_of, apply_subscription-IsPermitted}
use aso_light.Pricing.Apply.Iap.{IapPrice, apply_iap_prices}
use aso_light.Pricing.Apply.Iap.Schedule.{IsWhole, calls_of, apply_iap_prices-IsWhole}

abbrev service : World
service = record {
  price_points = λ h alpha3. answered (map (price_point codec "sub-1" alpha3) ladder);
  schedule = λ h. answered [];
  created = λ h i preserve date. answered tt;
  scheduled = λ h entries base. answered tt;
  now = λ h. "2026-01-01T00:00:00";
  next_date = λ h. "2026-01-02";
}

abbrev item : String → String → PriceApplyItem
item code i = record { territory_code = code; price_point_id = i; force = false }

abbrev items : List PriceApplyItem
items =
    item "US" (compute_price_point_id codec "sub-1" "USA" "10001")
    ∷ item "US" (compute_price_point_id codec "sub-1" "USA" "10002")
    ∷ item "DE" "unknown"
    ∷ []

abbrev current : Dict Decimal
current = ("US", pos 25) ∷ []

abbrev no_percent : Decimal → Decimal → Decimal
no_percent a b = pos 0

abbrev no_reason : Decimal → String
no_reason d = ""

abbrev row : IapPrice
row = record {
  territory_code = some "FR";
  price_point_id = some "point-fr";
  customer_price = pos 30;
}

apply_subscription-IsPartition_example :
    IsPartition items none_yet
      (apply_prices codec service "sub-1" no_percent no_reason true current items (start [] []))
apply_subscription-IsPartition_example =
    apply_subscription-IsPartition codec service "sub-1" no_percent no_reason true current items []
      []

apply_subscription-IsPermitted_example :
    let s =
      end_of (
        apply_prices codec service "sub-1" no_percent no_reason true current items (start [] [])) in
    All (IsPermitted codec "sub-1" true current (λ i. IsIn i items) s.tally.disk) s.tally.calls
apply_subscription-IsPermitted_example =
    apply_subscription-IsPermitted codec service "sub-1" no_percent no_reason true current items []

apply_iap_prices-IsWhole_example : All (IsWhole service (row ∷ []) items []) (
    calls_of
      (apply_iap_prices codec service "sub-1" no_percent no_reason (row ∷ []) "US" items [] []))
apply_iap_prices-IsWhole_example =
    apply_iap_prices-IsWhole codec service "sub-1" no_percent no_reason (row ∷ []) "US" items []
