-- ===== src/Pricing/Apply/Iap/Schedule.antt =====
-- backend/app/api/v1/pricing.py, `apply_iap_prices`: the price schedules that are sent.
use aso_light.Base.{
  ℕ, String, Bool, true, false, ◌≡◌, ◌⊎◌, refl, sym, subst, arith, eq_iff, Option, none, some, List,
  [], ◌∷◌, ◌++◌, inl, inr, All, All-append,
}
use aso_light.Base.Dict.{Dict}
use aso_light.Pricing.Decimal.{Decimal}
use aso_light.Pricing.Cache.{Codec, Disk, Reply, answered, api_error}
use aso_light.Pricing.Apply.{
  PriceApplyItem, Entry, Call, get_price_points, create_subscription_price, get_iap_price_schedule,
  set_iap_price, Calls, World, Tally, Check, crashed, no_ladder, unknown_point, outside, accepted,
  check_item, count_check, new_tally, territory_ladder,
}
use aso_light.Pricing.Apply.Reads.{IsLook, territory_ladder-IsLook}
use aso_light.Pricing.Apply.Iap.Covers.{
  is_asked, IsRowCovered, kept_entries-IsCovered, IsBase, IsBaseOf, resolve-IsBase,
}
use aso_light.Pricing.Apply.Iap.{
  IapPrice, IapApplying, IapEnded, finished, raised, prices_of, kept_entries, IapOutcome, unsynced,
  asc_error, broke_off, responded, after_iap_check, collect_item, collect_items, after_set, submit,
  submit_all, after_loop, apply_checked, with_live, apply_iap_prices,
}

abbrev pub has_rows : List IapPrice → Bool
has_rows [] = false
has_rows (r ∷ rows) = true

-- The schedule covers the cached prices, and its base is one of its territories. Without a cached
-- price, Apple had none either when it was asked first.
abbrev pub IsWhole : World → List IapPrice → List PriceApplyItem → Calls → Call → Type 0
IsWhole w rows items h (get_price_points tc) = Unit
IsWhole w rows items h get_iap_price_schedule = Unit
IsWhole w rows items h (create_subscription_price i preserve date) = ⊥
IsWhole w rows items h (set_iap_price entries base) =
    All (IsRowCovered items entries) rows
    × IsBase entries base
    × ((has_rows rows ≡ true) ⊎ (w.schedule h ≡ answered []))

-- Calls that only read.
abbrev is_read : Call → Bool
is_read (get_price_points tc) = true
is_read get_iap_price_schedule = true
is_read (create_subscription_price i preserve date) = false
is_read (set_iap_price entries base) = false

abbrev IsReading : Calls → Type 0
IsReading h = All (λ c. is_read c ≡ true) h

abbrev pub calls_of : {k : Codec} → IapOutcome k → Calls
calls_of (unsynced h) = h
calls_of (asc_error message h) = h
calls_of (broke_off t) = t.calls
calls_of (responded n t entries base) = t.calls

module _ (k : Codec) (w : World) (product : String) (diff_pct : Decimal → Decimal → Decimal)
    (reason : Decimal → String) (current : Dict Decimal) (all_ : List PriceApplyItem) where
  -- So far the loop has only read, and its entries are for items of the request.
  abbrev IsCollected : IapApplying k → Type 0
  IsCollected s = IsReading s.tally.calls × All (λ e. is_asked all_ e.0 ≡ true) s.price_entries

  abbrev IsCollectedEnd : IapEnded k → Type 0
  IsCollectedEnd (finished s) = IsCollected s
  IsCollectedEnd (raised s) = IsCollected s

  after_iap_check-IsCollected :
      (item : PriceApplyItem) (check : Check) (s : IapApplying k)
      → is_asked all_ item.territory_code ≡ true
      → IsCollected s
      → IsCollectedEnd (after_iap_check k w product diff_pct reason current item check s)
  unfolding count_check
  after_iap_check-IsCollected item crashed s asked h = h
  after_iap_check-IsCollected item no_ladder s asked h = h
  after_iap_check-IsCollected item unknown_point s asked h = h
  after_iap_check-IsCollected item (outside new_price skip) s asked h = h
  after_iap_check-IsCollected item (accepted new_price) s asked h =
      (h.0, All-append (λ e. is_asked all_ e.0 ≡ true) s.price_entries _ h.1 (asked, tt))

  look-IsReading :
      (tc : String) (h h' : Calls) → IsLook k w product tc h h' → IsReading h → IsReading h'
  look-IsReading tc h h' (inl e) reading = subst IsReading (sym e) reading
  look-IsReading tc h h' (inr e) reading = subst IsReading (sym e) (refl, reading)

  collect_item-IsCollected :
      (item : PriceApplyItem) (s : IapApplying k)
      → is_asked all_ item.territory_code ≡ true
      → IsCollected s
      → IsCollectedEnd (collect_item k w product diff_pct reason current item s)
  unfolding collect_item check_item
  collect_item-IsCollected item s asked h =
      let tc = item.territory_code in
      after_iap_check-IsCollected item _
        (record s {
          tally = record s.tally {
            disk = (territory_ladder k w product tc s.tally.disk s.tally.calls).1;
            calls = (territory_ladder k w product tc s.tally.disk s.tally.calls).2;
          };
        })
        asked
        (
          look-IsReading tc s.tally.calls _
              (territory_ladder-IsLook k w product tc s.tally.disk s.tally.calls) h.0,
          h.1,
        )

  collect_items-IsCollected :
      (items : List PriceApplyItem) (s : IapApplying k)
      → All (λ item. is_asked all_ item.territory_code ≡ true) items
      → IsCollected s
      → IsCollectedEnd (collect_items k w product diff_pct reason current items s)
  unfolding collect_items
  collect_items-IsCollected [] s asked h = h
  collect_items-IsCollected (item ∷ items) s asked h =
      go (collect_item k w product diff_pct reason current item s)
        (collect_item-IsCollected item s asked.0 h) (λ t. collect_items-IsCollected items t asked.1)
    where
      go :
          (r : IapEnded k)
          → IsCollectedEnd r
          → ((t : IapApplying k)
              → IsCollected t
              → IsCollectedEnd (collect_items k w product diff_pct reason current items t))
          → IsCollectedEnd (elim r [
            | finished s' ↦ collect_items k w product diff_pct reason current items s'
            | raised s' ↦ raised s'
          ])
      go (finished t) h rest = rest t h
      go (raised t) h rest = h

All-asked :
    (items : List PriceApplyItem) → All (λ item. is_asked items item.territory_code ≡ true) items
All-asked [] = tt
All-asked (item ∷ items) = (
  ground (arith, eq_iff item.territory_code item.territory_code),
  All-later items item items (All-asked items),
)
  where
    All-later :
        (all_ : List PriceApplyItem) (i : PriceApplyItem) (items : List PriceApplyItem)
        → All (λ item. is_asked all_ item.territory_code ≡ true) items
        → All (λ item. is_asked (i ∷ all_) item.territory_code ≡ true) items
    All-later all_ i [] h = tt
    All-later all_ i (j ∷ items) h = (ground (arith, h.0), All-later all_ i items h.1)

module _ (w : World) (rows : List IapPrice) (items : List PriceApplyItem) where
  read-IsWhole : (h : Calls) → IsReading h → All (IsWhole w rows items []) h
  read-IsWhole [] reading = tt
  read-IsWhole (c ∷ h) reading = (one c reading.0, read-IsWhole h reading.1)
    where
      one : (c : Call) → is_read c ≡ true → IsWhole w rows items [] c
      one (get_price_points tc) e = tt
      one get_iap_price_schedule e = tt
      one (create_subscription_price i preserve date) e = absurd (ground (arith, e))
      one (set_iap_price entries base) e = absurd (ground (arith, e))

  module _ (k : Codec) (allowed : (has_rows rows ≡ true) ⊎ (w.schedule [] ≡ answered [])) where
    after_set-calls :
        (n : ℕ) (entries : List Entry) (base : String) (reply : Reply (Unit {0})) (t : Tally k)
        → calls_of (after_set k w n entries base reply t) ≡ t.calls
    after_set-calls n entries base (answered u) t = refl
    after_set-calls n entries base (api_error message) t = refl

    submit-IsWhole :
        (n : ℕ) (entries : List Entry) (base : Option String) (t : Tally k)
        → IsReading t.calls
        → All (IsRowCovered items entries) rows
        → IsBaseOf entries base
        → All (IsWhole w rows items []) (calls_of (submit k w n entries base t))
    submit-IsWhole n entries none t reading covered is_base = read-IsWhole t.calls reading
    submit-IsWhole n entries (some base) t reading covered is_base =
        subst (All (IsWhole w rows items []))
          (sym (after_set-calls n entries base (w.scheduled t.calls entries base) _))
          ((covered, is_base, allowed), read-IsWhole t.calls reading)

    module _ (product : String) (diff_pct : Decimal → Decimal → Decimal)
        (reason : Decimal → String) where
      after_loop-IsWhole :
          (requested : String) (current : Dict Decimal) (r : IapEnded k)
          → IsCollectedEnd k w product diff_pct reason current items r
          → All (IsWhole w rows items []) (calls_of (after_loop k w requested rows r))
      unfolding submit_all
      after_loop-IsWhole requested current (raised s) h = read-IsWhole s.tally.calls h.0
      after_loop-IsWhole requested current (finished s) h =
          submit-IsWhole _ _ _ s.tally h.0 (kept_entries-IsCovered items s.price_entries rows h.1)
            (resolve-IsBase requested (s.price_entries ++ kept_entries s.price_entries rows))

      apply_checked-IsWhole :
          (requested : String) (disk : Disk k) (h : Calls)
          → IsReading h
          → All
              (IsWhole w rows items [])
              (calls_of (apply_checked k w product diff_pct reason rows requested items disk h))
      unfolding apply_checked
      apply_checked-IsWhole requested disk h reading =
          after_loop-IsWhole requested (prices_of rows []) _ (
            collect_items-IsCollected k w product diff_pct reason (prices_of rows []) items items
              (record { tally = new_tally disk h; price_entries = [] }) (All-asked items)
              (reading, tt))

-- Every price schedule that an in-app purchase's apply sends covers the cached prices: a cached
-- territory with a price point is in it, with this price point unless the request has an item for the
-- territory. Its base is one of its territories. If no price is cached, then Apple had answered that
-- the purchase has no prices.
pub apply_iap_prices-IsWhole :
    (k : Codec) (w : World) (product : String) (diff_pct : Decimal → Decimal → Decimal)
    (reason : Decimal → String) (rows : List IapPrice) (requested : String)
    (items : List PriceApplyItem) (disk : Disk k)
    → All
        (IsWhole w rows items [])
        (calls_of (apply_iap_prices k w product diff_pct reason rows requested items disk []))
unfolding apply_iap_prices
apply_iap_prices-IsWhole k w product diff_pct reason [] requested items disk =
    go (w.schedule []) refl
  where
    go :
        (r : Reply (List Entry))
        → w.schedule [] ≡ r
        → All (IsWhole w [] items []) (
            calls_of (
              with_live k w product diff_pct reason requested items disk
                (get_iap_price_schedule ∷ [])
                r))
    go (api_error message) e = (tt, tt)
    go (answered []) e =
        apply_checked-IsWhole w [] items k (inr e) product diff_pct reason requested disk _
          (refl, tt)
    go (answered (x ∷ live)) e = (tt, tt)
apply_iap_prices-IsWhole k w product diff_pct reason (r ∷ rows) requested items disk =
    apply_checked-IsWhole w (r ∷ rows) items k (inl refl) product diff_pct reason requested disk []
      tt
