-- ===== src/Pricing/Apply/Subscription.antt =====
-- backend/app/api/v1/pricing.py, `apply_subscription_prices`: the prices of a subscription. The rows of
-- the cached prices come as the dictionary `current_price_by_code`.
pub mod Partition
pub mod Permitted
pub mod Band
use aso_light.Base.{
  ℕ, suc, String, Bool, true, false, Option, none, some, List, [], ◌∷◌, ◌++◌, if◌then◌else◌,
}
use aso_light.Base.Dict.{Dict, lookup}
use aso_light.Pricing.Decimal.{Decimal}
use aso_light.Pricing.Safety.{keeps_current_price}
use aso_light.Pricing.Cache.{Codec, Disk, Reply, answered, api_error}
use aso_light.Pricing.Apply.{
  PriceApplyItem, Calls, World, create_subscription_price, rejected, Tally, Check, crashed,
  no_ladder, unknown_point, outside, accepted, check_item, count_check, new_tally,
}

pub record Applying (k : Codec) : Type 0 where
  pub tally : Tally k
  pub applied : ℕ
  pub applied_alpha2 : List String
  pub kept_price_alpha2 : List String

-- The loop ends, or the ValueError of a code that is no path segment leaves the function.
pub data Ended (k : Codec) : Type 0 where
  finished raised : Applying k → Ended k

abbrev pub next : {k : Codec} → Ended k → (Applying k → Ended k) → Ended k
next (finished s) f = f s
next (raised s) f = raised s

-- `subscription_price_start_date`
abbrev pub start_date : {A : Type 0} → Option A → String → Option String
start_date none date = none
start_date (some current_price) date = some date

abbrev pub start : {k : Codec} → Disk k → Calls → Applying k
start disk h = record {
  tally = new_tally disk h;
  applied = 0;
  applied_alpha2 = [];
  kept_price_alpha2 = [];
}

module _ (k : Codec) (w : World) (product : String) (diff_pct : Decimal → Decimal → Decimal)
    (reason : Decimal → String) (preserve_on_increase : Bool) (current : Dict Decimal) where
  abbrev pub preserves : PriceApplyItem → Decimal → Bool
  preserves item new_price =
      keeps_current_price preserve_on_increase (lookup item.territory_code current) (some new_price)

  -- The call that sends a price.
  abbrev pub after_post : PriceApplyItem → Bool → Reply (Unit {0}) → Applying k → Applying k
  after_post item preserve (answered u) s = record s {
    applied = suc s.applied;
    applied_alpha2 = s.applied_alpha2 ++ item.territory_code ∷ [];
    kept_price_alpha2 =
        if preserve then s.kept_price_alpha2 ++ item.territory_code ∷ [] else s.kept_price_alpha2;
  }
  after_post item preserve (api_error message) s = record s {
    tally = record s.tally {
      failed = suc s.tally.failed;
      errors = s.tally.errors ++ rejected item.territory_code message ∷ [];
    };
  }

  unfoldable pub post_price : PriceApplyItem → Decimal → Applying k → Applying k
  post_price item new_price s =
      let preserve = preserves item new_price in
      let start = start_date (lookup item.territory_code current) (w.next_date s.tally.calls) in
      let reply = w.created s.tally.calls item.price_point_id preserve start in
      after_post item preserve reply (record s {
        tally = record s.tally {
          calls = create_subscription_price item.price_point_id preserve start ∷ s.tally.calls;
        };
      })

  abbrev pub after_check : PriceApplyItem → Check → Applying k → Ended k
  after_check item crashed s = raised s
  after_check item no_ladder s = finished (record s { tally = count_check item no_ladder s.tally })
  after_check item unknown_point s =
      finished (record s { tally = count_check item unknown_point s.tally })
  after_check item (outside new_price skip) s =
      finished (record s { tally = count_check item (outside new_price skip) s.tally })
  after_check item (accepted new_price) s = finished (
      post_price item new_price
        (record s { tally = count_check item (accepted new_price) s.tally }))

  abbrev pub with_reads : Disk k → Calls → Applying k → Applying k
  with_reads disk h s = record s { tally = record s.tally { disk = disk; calls = h } }

  -- One round of the loop.
  unfoldable pub apply_price : PriceApplyItem → Applying k → Ended k
  apply_price item s =
      let (check, disk, h) =
        check_item k w product diff_pct reason current item s.tally.disk s.tally.calls in
      after_check item check (with_reads disk h s)

  unfoldable pub apply_prices : List PriceApplyItem → Applying k → Ended k
  apply_prices [] s = finished s
  apply_prices (item ∷ items) s = next (apply_price item s) (apply_prices items)
