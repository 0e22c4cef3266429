-- ===== src/Pricing/Apply.antt =====
-- backend/app/api/v1/pricing.py, `apply_subscription_prices` and `apply_iap_prices`: the loop over the items
-- of a request. Subscription is the first, Iap the second. The service of App Store Connect is the
-- record `World`: each reply may depend on all the calls made before it, the newest first.
pub mod Reads
pub mod Usable
pub mod Subscription
pub mod Iap
mod Tests
use aso_light.Base.{
  ℕ, suc, String, Bool, true, false, Option, none, some, List, [], ◌∷◌, ◌++◌, str_eq, if◌then◌else◌,
}
use aso_light.Base.Dict.{Dict, lookup, insert}
use aso_light.Pricing.Decimal.{Decimal}
use aso_light.Pricing.Safety.{PriceApplySkippedItem, safety_skip_item}
use aso_light.Pricing.Territories.{alpha2_to_alpha3}
use aso_light.Pricing.Cache.{
  PricePoint, Codec, Disk, Reply, answered, api_error, Result, ok, invalid_segment, service_error,
  get_with_price_point_ids, fetch_and_cache, LadderTier,
}

-- `PriceApplyItem`
pub record PriceApplyItem : Type 0 where
  pub territory_code : String
  pub price_point_id : String
  pub force : Bool

-- An entry of `price_entries`: a territory and its price point.
abbrev pub Entry : Type 0
Entry = String × String

pub data Call : Type 0 where
  get_price_points : String → Call
  get_iap_price_schedule : Call
  create_subscription_price : String → Bool → Option String → Call
  set_iap_price : List Entry → String → Call

abbrev pub Calls : Type 0
Calls = List Call

-- The replies for the product at hand. `now` is the text of the time, `next_date` the text of the day
-- that `next_price_change_date` computes from it.
pub record World : Type 0 where
  pub price_points : Calls → String → Reply (List PricePoint)
  pub schedule : Calls → Reply (List Entry)
  pub created : Calls → String → Bool → Option String → Reply (Unit {0})
  pub scheduled : Calls → List Entry → String → Reply (Unit {0})
  pub now : Calls → String
  pub next_date : Calls → String

-- An entry of `errors`.
pub data ApplyError : Type 0 where
  no_tiers : String → ApplyError
  not_in_tiers : String → String → ApplyError
  rejected : String → String → ApplyError
  batch_failed : String → ApplyError

-- What a loop has counted and found, the cache on disk and the calls made.
pub record Tally (k : Codec) : Type 0 where
  pub failed : ℕ
  pub skipped : ℕ
  pub errors : List ApplyError
  pub skipped_items : List PriceApplySkippedItem
  pub resolved : Dict Decimal
  pub disk : Disk k
  pub calls : Calls

-- The tiers of a territory: the ValueError of an unusable code, a failed fetch, or price points.
pub data Ladder : Type 0 where
  unusable_code unavailable : Ladder
  points : List PricePoint → Ladder

-- What an item comes to before its price is sent.
pub data Check : Type 0 where
  crashed no_ladder unknown_point : Check
  outside : Decimal → PriceApplySkippedItem → Check
  accepted : Decimal → Check

-- The customer price of the first price point with the id.
abbrev pub price_of : String → List PricePoint → Option Decimal
price_of i [] = none
price_of i (pp ∷ pps) =
    let rest = price_of i pps in if str_eq pp.price_point_id i then some pp.customer_price else rest

module _ (k : Codec) (w : World) (product : String) where
  abbrev pub second_read :
      Result (Option (List PricePoint)) × Disk k → Calls → Ladder × Disk k × Calls
  second_read (ok none, disk) h = (points [], disk, h)
  second_read (ok (some pps), disk) h = (points pps, disk, h)
  second_read (invalid_segment, disk) h = (unavailable, disk, h)
  second_read (service_error message, disk) h = (unavailable, disk, h)

  abbrev pub after_fetch :
      String → Result (List LadderTier) × Disk k → Calls → Ladder × Disk k × Calls
  after_fetch tc (ok tiers, disk) h = second_read (get_with_price_point_ids k tc product disk) h
  after_fetch tc (invalid_segment, disk) h = (unavailable, disk, h)
  after_fetch tc (service_error message, disk) h = (unavailable, disk, h)

  -- A fetch asks the service where the code has an alpha-3 code.
  abbrev pub asked : String → Option String → Calls → Calls
  asked tc none h = h
  asked tc (some alpha3) h = get_price_points tc ∷ h

  abbrev pub first_read :
      String → Result (Option (List PricePoint)) × Disk k → Calls → Ladder × Disk k × Calls
  first_read tc (ok (some pps), disk) h = (points pps, disk, h)
  first_read tc (ok none, disk) h =
      after_fetch tc (fetch_and_cache k (w.now h) tc (w.price_points h) disk)
        (asked tc (lookup tc alpha2_to_alpha3) h)
  first_read tc (invalid_segment, disk) h = (unusable_code, disk, h)
  first_read tc (service_error message, disk) h = (unusable_code, disk, h)

  -- The cached tiers, fetched if they are missing. A read has no error of the service.
  unfoldable pub territory_ladder : String → Disk k → Calls → Ladder × Disk k × Calls
  territory_ladder tc disk h = first_read tc (get_with_price_point_ids k tc product disk) h

  module _ (diff_pct : Decimal → Decimal → Decimal) (reason : Decimal → String) where
    abbrev pub with_skip : Decimal → Option PriceApplySkippedItem → Check
    with_skip new_price none = accepted new_price
    with_skip new_price (some skip) = outside new_price skip

    abbrev pub with_price : PriceApplyItem → Option Decimal → Option Decimal → Check
    with_price item current_price none = unknown_point
    with_price item current_price (some new_price) =
        with_skip new_price
          (safety_skip_item diff_pct reason item.territory_code current_price new_price item.force)

    abbrev pub with_ladder : PriceApplyItem → Option Decimal → Ladder → Check
    with_ladder item current_price unusable_code = crashed
    with_ladder item current_price unavailable = no_ladder
    with_ladder item current_price (points pps) =
        with_price item current_price (price_of item.price_point_id pps)

    -- What both loops do with an item before they send its price.
    unfoldable pub check_item :
        Dict Decimal → PriceApplyItem → Disk k → Calls → Check × Disk k × Calls
    check_item current item disk h =
        let (ladder, disk', h') = territory_ladder item.territory_code disk h in
        (with_ladder item (lookup item.territory_code current) ladder, disk', h')

-- The counts after the check.
unfoldable pub count_check : {k : Codec} → PriceApplyItem → Check → Tally k → Tally k
count_check item crashed t = t
count_check item no_ladder t = record t {
  failed = suc t.failed;
  errors = t.errors ++ no_tiers item.territory_code ∷ [];
}
count_check item unknown_point t = record t {
  failed = suc t.failed;
  errors = t.errors ++ not_in_tiers item.territory_code item.price_point_id ∷ [];
}
count_check item (outside new_price skip) t = record t {
  resolved = insert item.territory_code new_price t.resolved;
  skipped = suc t.skipped;
  skipped_items = t.skipped_items ++ skip ∷ [];
}
count_check item (accepted new_price) t = record t {
  resolved = insert item.territory_code new_price t.resolved;
}

abbrev pub new_tally : {k : Codec} → Disk k → Calls → Tally k
new_tally disk h = record {
  failed = 0;
  skipped = 0;
  errors = [];
  skipped_items = [];
  resolved = [];
  disk = disk;
  calls = h;
}
