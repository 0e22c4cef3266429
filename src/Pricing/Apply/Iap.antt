-- ===== src/Pricing/Apply/Iap.antt =====
-- backend/app/api/v1/pricing.py, `apply_iap_prices` with `_assert_iap_schedule_replaceable` and
-- `_resolve_iap_base_territory`: the price schedule of an in-app purchase. The database's rows come as
-- a list.
pub mod Covers
pub mod Schedule
use aso_light.Base.{
  ℕ, suc, ◌+◌, String, Bool, true, false, ◌&&◌, not, Option, none, some, List, [], ◌∷◌, ◌++◌,
  length, str_eq, if◌then◌else◌,
}
use aso_light.Base.Dict.{Dict, lookup, insert, contains}
use aso_light.Pricing.Decimal.{Decimal}
use aso_light.Pricing.Territories.{alpha2_to_alpha3}
use aso_light.Pricing.Cache.{Codec, Disk, Reply, answered, api_error}
use aso_light.Pricing.Apply.{
  PriceApplyItem, Entry, Calls, World, get_iap_price_schedule, set_iap_price, batch_failed, Tally,
  Check, crashed, no_ladder, unknown_point, outside, accepted, check_item, count_check, new_tally,
}

-- A cached price: the code of its territory, if the territory is known, and its price point.
pub record IapPrice : Type 0 where
  pub territory_code : Option String
  pub price_point_id : Option String
  pub customer_price : Decimal

pub record IapApplying (k : Codec) : Type 0 where
  pub tally : Tally k
  pub price_entries : List Entry

pub data IapEnded (k : Codec) : Type 0 where
  finished raised : IapApplying k → IapEnded k

abbrev pub set_price : Option String → Decimal → Dict Decimal → Dict Decimal
set_price none p d = d
set_price (some code) p d = insert code p d

-- `current_price_by_code`
abbrev pub prices_of : List IapPrice → Dict Decimal → Dict Decimal
prices_of [] d = d
prices_of (r ∷ rows) d = prices_of rows (set_price r.territory_code r.customer_price d)

abbrev pub is_given : Option String → Bool
is_given none = false
is_given (some s) = not (str_eq s "")

-- The cached prices that the request leaves as they are.
abbrev pub kept_entry : List Entry → Option String → Option String → List Entry
kept_entry submitted none i = []
kept_entry submitted (some code) none = []
kept_entry submitted (some code) (some i) =
    if contains code submitted then [] else if str_eq i "" then [] else (code, i) ∷ []

unfoldable pub kept_entries : List Entry → List IapPrice → List Entry
kept_entries submitted [] = []
kept_entries submitted (r ∷ rows) =
    kept_entry submitted r.territory_code r.price_point_id ++ kept_entries submitted rows

abbrev pub first_known : List Entry → Option String
first_known [] = none
first_known ((code, i) ∷ entries) = elim (lookup code alpha2_to_alpha3) [
  | none ↦ first_known entries
  | some alpha3 ↦ some alpha3
]

abbrev pub base_or : List Entry → String → Option String → Option String
base_or entries requested none = first_known entries
base_or entries requested (some alpha3) =
    if contains requested entries then some alpha3 else first_known entries

-- `_resolve_iap_base_territory`
unfoldable pub resolve_iap_base_territory : String → List Entry → Option String
resolve_iap_base_territory requested entries =
    base_or entries requested (lookup requested alpha2_to_alpha3)

-- What the function ends with: the 409 of a schedule that was never synced, another HTTP error, the
-- error of an unusable code, or the response with the count `applied`, the entries and the base.
pub data IapOutcome (k : Codec) : Type 0 where
  unsynced : Calls → IapOutcome k
  asc_error : String → Calls → IapOutcome k
  broke_off : Tally k → IapOutcome k
  responded : ℕ → Tally k → List Entry → Option String → IapOutcome k

module _ (k : Codec) (w : World) (product : String) (diff_pct : Decimal → Decimal → Decimal)
    (reason : Decimal → String) (current : Dict Decimal) where
  abbrev pub after_iap_check : PriceApplyItem → Check → IapApplying k → IapEnded k
  after_iap_check item crashed s = raised s
  after_iap_check item no_ladder s =
      finished (record s { tally = count_check item no_ladder s.tally })
  after_iap_check item unknown_point s =
      finished (record s { tally = count_check item unknown_point s.tally })
  after_iap_check item (outside new_price skip) s =
      finished (record s { tally = count_check item (outside new_price skip) s.tally })
  after_iap_check item (accepted new_price) s = finished (record {
    tally = count_check item (accepted new_price) s.tally;
    price_entries = s.price_entries ++ (item.territory_code, item.price_point_id) ∷ [];
  })

  unfoldable pub collect_item : PriceApplyItem → IapApplying k → IapEnded k
  collect_item item s =
      let (check, disk, h) =
        check_item k w product diff_pct reason current item s.tally.disk s.tally.calls in
      after_iap_check item check (record s { tally = record s.tally { disk = disk; calls = h } })

  unfoldable pub collect_items : List PriceApplyItem → IapApplying k → IapEnded k
  collect_items [] s = finished s
  collect_items (item ∷ items) s = elim (collect_item item s) [
    | finished s' ↦ collect_items items s'
    | raised s' ↦ raised s'
  ]

module _ (k : Codec) (w : World) where
  -- The reply to the schedule; `n` is the number of entries of the request.
  abbrev pub after_set : ℕ → List Entry → String → Reply (Unit {0}) → Tally k → IapOutcome k
  after_set n entries base (answered u) t = responded n t entries (some base)
  after_set n entries base (api_error message) t =
      responded 0
        (record t { failed = t.failed + n; errors = t.errors ++ batch_failed message ∷ [] }) entries
        (some base)

  abbrev pub submit : ℕ → List Entry → Option String → Tally k → IapOutcome k
  submit n entries none t = responded 0 t entries none
  submit n entries (some base) t =
      after_set n entries base (w.scheduled t.calls entries base)
        (record t { calls = set_iap_price entries base ∷ t.calls })

  -- The schedule replaces all prices, so the cached ones that the request leaves alone go along.
  unfoldable pub submit_all : String → List IapPrice → IapApplying k → IapOutcome k
  submit_all requested rows s =
      let entries = s.price_entries ++ kept_entries s.price_entries rows in
      submit (length s.price_entries) entries (resolve_iap_base_territory requested entries) s.tally

  abbrev pub after_loop : String → List IapPrice → IapEnded k → IapOutcome k
  after_loop requested rows (raised s) = broke_off s.tally
  after_loop requested rows (finished s) = submit_all requested rows s

  module _ (product : String) (diff_pct : Decimal → Decimal → Decimal)
      (reason : Decimal → String) where
    -- `apply_iap_prices` after its first check
    unfoldable pub apply_checked :
        List IapPrice → String → List PriceApplyItem → Disk k → Calls → IapOutcome k
    apply_checked rows requested items disk h = after_loop requested rows (
        collect_items k w product diff_pct reason (prices_of rows []) items
          (record { tally = new_tally disk h; price_entries = [] }))

    -- With no cached price, only a purchase that has no price at Apple may get a schedule.
    abbrev pub with_live :
        String → List PriceApplyItem → Disk k → Calls → Reply (List Entry) → IapOutcome k
    with_live requested items disk h (api_error message) = asc_error message h
    with_live requested items disk h (answered []) = apply_checked [] requested items disk h
    with_live requested items disk h (answered (e ∷ live)) = unsynced h

    -- `apply_iap_prices`
    unfoldable pub apply_iap_prices :
        List IapPrice → String → List PriceApplyItem → Disk k → Calls → IapOutcome k
    apply_iap_prices [] requested items disk h =
        with_live requested items disk (get_iap_price_schedule ∷ h) (w.schedule h)
    apply_iap_prices (r ∷ rows) requested items disk h =
        apply_checked (r ∷ rows) requested items disk h
