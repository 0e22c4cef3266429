-- ===== src/Pricing/Apply/Subscription/Partition.antt =====
-- backend/app/api/v1/pricing.py, `apply_subscription_prices`: what becomes of each item.
use aso_light.Base.{
  ℕ, suc, ◌+◌, String, Bool, true, false, not, ◌≡◌, refl, sym, ◌∙◌, arith, Option, none, some, List,
  [], ◌∷◌, ◌++◌, length, any, inl, inr, Bool-cases, length-append, map, ap, str_eq, if◌then◌else◌,
}
use aso_light.Base.Dict.{Dict, lookup}
use aso_light.Pricing.Decimal.{Decimal}
use aso_light.Pricing.Safety.{PriceApplySkippedItem, safety_skip_item, band_skip}
use aso_light.Pricing.Cache.{Codec, Disk, Reply, answered, api_error}
use aso_light.Pricing.Apply.{
  PriceApplyItem, Calls, World, Check, crashed, no_ladder, unknown_point, outside, accepted,
  check_item, count_check, Ladder, unusable_code, unavailable, points, territory_ladder,
  with_ladder, with_price, with_skip, ApplyError, price_of, rejected, no_tiers, not_in_tiers,
  batch_failed,
}
use aso_light.Pricing.Apply.Subscription.{
  Applying, Ended, finished, raised, next, after_post, post_price, after_check, apply_price,
  apply_prices, start, start_date, preserves,
}
use aso_light.Pricing.Apply.Usable.{is_unusable_code, territory_ladder-usable}

-- How often a code stands in a list.
abbrev pub times : String → List String → ℕ
times tc [] = 0
times tc (x ∷ xs) = let rest = times tc xs in if str_eq tc x then suc rest else rest

times-append : (tc : String) (xs ys : List String) → times tc (xs ++ ys) ≡ times tc xs + times tc ys
times-append tc [] ys = omega arith
times-append tc (x ∷ xs) ys = ground (arith, times-append tc xs ys)

map-append :
    {A : Type 0} (f : A → String) (xs ys : List A) → map f (xs ++ ys) ≡ map f xs ++ map f ys
map-append f [] ys = refl
map-append f (x ∷ xs) ys = ap (λ l. f x ∷ l) (map-append f xs ys)

abbrev pub item_code : PriceApplyItem → String
item_code item = item.territory_code

abbrev pub skip_code : PriceApplySkippedItem → String
skip_code skip = skip.territory_code

abbrev pub error_code : ApplyError → String
error_code (no_tiers tc) = tc
error_code (not_in_tiers tc i) = tc
error_code (rejected tc message) = tc
error_code (batch_failed message) = ""

-- How often a territory is reported as applied, as failed or as skipped.
abbrev pub told_of : {k : Codec} → String → Applying k → ℕ
told_of tc s =
    times tc s.applied_alpha2
    + times tc (map error_code s.tally.errors)
    + times tc (map skip_code s.tally.skipped_items)

-- Each item so far is reported in one of the lists, under its territory: `n` tells how often each
-- territory stands among these items. The counts are the lengths of the lists.
pub record Told {k : Codec} (n : String → ℕ) (s : Applying k) : Type 0 where
  pub each : (tc : String) → told_of tc s ≡ n tc
  pub applied : length s.applied_alpha2 ≡ s.applied
  pub failed : length s.tally.errors ≡ s.tally.failed
  pub skipped : length s.tally.skipped_items ≡ s.tally.skipped

-- The code of the item is no path segment of the cache.
abbrev pub is_unusable : Codec → PriceApplyItem → Bool
is_unusable k item = not (k.is_safe item.territory_code)

abbrev pub none_yet : String → ℕ
none_yet tc = 0

abbrev pub with_item : PriceApplyItem → (String → ℕ) → String → ℕ
with_item item n tc = if str_eq tc item.territory_code then suc (n tc) else n tc

abbrev pub with_items : List PriceApplyItem → (String → ℕ) → String → ℕ
with_items items n tc = n tc + times tc (map item_code items)

-- All items are told, or the code of an item ends the function.
abbrev pub IsPartition : {k : Codec} → List PriceApplyItem → (String → ℕ) → Ended k → Type 0
IsPartition items n (finished s) = Told (with_items items n) s
IsPartition {k} items n (raised s) = any (is_unusable k) items ≡ true

Told-same :
    {k : Codec} {n m : String → ℕ} {s : Applying k}
    → ((tc : String) → n tc ≡ m tc)
    → Told n s
    → Told m s
Told-same e h = record {
  each = λ tc. h.each tc ∙ e tc;
  applied = h.applied;
  failed = h.failed;
  skipped = h.skipped;
}

abbrev pub is_crashed : Check → Bool
is_crashed crashed = true
is_crashed no_ladder = false
is_crashed unknown_point = false
is_crashed (outside p skip) = false
is_crashed (accepted p) = false

times-last :
    {A : Type 0} (f : A → String) (tc : String) (xs : List A) (x : A)
    → times tc (map f (xs ++ x ∷ []))
      ≡ (if str_eq tc (f x) then suc (times tc (map f xs)) else times tc (map f xs))
times-last f tc xs x =
    ap (times tc) (map-append f xs (x ∷ [])) ∙ ground (arith, times-append tc (map f xs) (f x ∷ []))

failed-Told :
    {k : Codec} (item : PriceApplyItem) (error : ApplyError) (s : Applying k) (n : String → ℕ)
    → error_code error ≡ item.territory_code
    → Told n s
    → Told (with_item item n) (record s {
      tally = record s.tally { failed = suc s.tally.failed; errors = s.tally.errors ++ error ∷ [] };
    })
failed-Told item error s n e h = record {
  each = λ tc. ground (arith, h.each tc, times-last error_code tc s.tally.errors error, e);
  applied = h.applied;
  failed = omega (arith, h.failed, length-append s.tally.errors (error ∷ []));
  skipped = h.skipped;
}

shift :
    {k : Codec} (item : PriceApplyItem) (items : List PriceApplyItem) (n : String → ℕ) (r : Ended k)
    → IsPartition items (with_item item n) r
    → IsPartition (item ∷ items) n r
shift item items n (finished s) h = Told-same (λ tc. ground arith) h
shift {k} item items n (raised s) h = elim (Bool-cases (is_unusable k item)) [
  | inl crash ↦ rw crash refl
  | inr usable ↦ rw usable h
]

-- A skip record is about the item's territory.
abbrev pub IsAbout : PriceApplyItem → Check → Type 0
IsAbout item (outside p skip) = skip.territory_code ≡ item.territory_code
IsAbout item _ = Unit

module _ (k : Codec) (w : World) (product : String) where
  module _ (diff_pct : Decimal → Decimal → Decimal) (reason : Decimal → String) where
    with_skip_sound :
        (new_price : Decimal) (o : Option PriceApplySkippedItem)
        → is_crashed (with_skip k w product diff_pct reason new_price o) ≡ false
    with_skip_sound new_price none = refl
    with_skip_sound new_price (some skip) = refl

    with_price_sound :
        (item : PriceApplyItem) (current_price o : Option Decimal)
        → is_crashed (with_price k w product diff_pct reason item current_price o) ≡ false
    with_price_sound item current_price none = refl
    with_price_sound item current_price (some new_price) = with_skip_sound new_price _

    with_ladder-crashed :
        (item : PriceApplyItem) (current_price : Option Decimal) (l : Ladder)
        → is_crashed (with_ladder k w product diff_pct reason item current_price l)
          ≡ is_unusable_code l
    with_ladder-crashed item current_price unusable_code = refl
    with_ladder-crashed item current_price unavailable = refl
    with_ladder-crashed item current_price (points pps) =
        with_price_sound item current_price (price_of item.price_point_id pps)

    -- An item ends the loop exactly when its code is no path segment.
    pub check_item-crashed :
        (current : Dict Decimal) (item : PriceApplyItem) (disk : Disk k) (h : Calls)
        → is_crashed (check_item k w product diff_pct reason current item disk h).0
          ≡ is_unusable k item
    unfolding check_item
    check_item-crashed current item disk h =
        with_ladder-crashed item _ (territory_ladder k w product item.territory_code disk h).0
        ∙ territory_ladder-usable k w product item.territory_code disk h

    with_skip-IsAbout :
        (item : PriceApplyItem) (new_price : Decimal) (o : Option PriceApplySkippedItem)
        → ((skip : PriceApplySkippedItem)
            → o ≡ some skip
            → skip.territory_code ≡ item.territory_code)
        → IsAbout item (with_skip k w product diff_pct reason new_price o)
    with_skip-IsAbout item new_price none h = tt
    with_skip-IsAbout item new_price (some skip) h = h skip refl

    safety_skip_item-code :
        (tc : String) (current_price : Option Decimal) (new_price : Decimal) (force : Bool)
        (skip : PriceApplySkippedItem)
        → safety_skip_item diff_pct reason tc current_price new_price force ≡ some skip
        → skip.territory_code ≡ tc
    unfolding safety_skip_item band_skip
    safety_skip_item-code tc none new_price force skip h = absurd (ground (arith, h))
    safety_skip_item-code tc (some current_price) new_price force skip h = ground (arith, h)

    with_price-IsAbout :
        (item : PriceApplyItem) (current_price o : Option Decimal)
        → IsAbout item (with_price k w product diff_pct reason item current_price o)
    with_price-IsAbout item current_price none = tt
    with_price-IsAbout item current_price (some new_price) =
        with_skip-IsAbout item new_price _
          (safety_skip_item-code item.territory_code current_price new_price item.force)

    with_ladder-IsAbout :
        (item : PriceApplyItem) (current_price : Option Decimal) (l : Ladder)
        → IsAbout item (with_ladder k w product diff_pct reason item current_price l)
    with_ladder-IsAbout item current_price unusable_code = tt
    with_ladder-IsAbout item current_price unavailable = tt
    with_ladder-IsAbout item current_price (points pps) =
        with_price-IsAbout item current_price (price_of item.price_point_id pps)

    check_item-IsAbout :
        (current : Dict Decimal) (item : PriceApplyItem) (disk : Disk k) (h : Calls)
        → IsAbout item (check_item k w product diff_pct reason current item disk h).0
    unfolding check_item
    check_item-IsAbout current item disk h =
        with_ladder-IsAbout item _ (territory_ladder k w product item.territory_code disk h).0

    module _ (preserve_on_increase : Bool) (current : Dict Decimal) where
      abbrev AfterItem : Ended k → PriceApplyItem → (String → ℕ) → Type 0
      AfterItem (finished s) item n = Told (with_item item n) s
      AfterItem (raised s) item n = is_unusable k item ≡ true

      after_post-Told :
          (item : PriceApplyItem) (preserve : Bool) (reply : Reply (Unit {0})) (s : Applying k)
          (n : String → ℕ)
          → Told n s
          → Told (with_item item n) (
              after_post k w product diff_pct reason preserve_on_increase current item preserve
                reply s)
      after_post-Told item preserve (answered u) s n h = record {
        each = λ tc.
            ground (arith, h.each tc, times-append tc s.applied_alpha2 (item.territory_code ∷ []));
        applied =
            omega (arith, h.applied, length-append s.applied_alpha2 (item.territory_code ∷ []));
        failed = h.failed;
        skipped = h.skipped;
      }
      after_post-Told item preserve (api_error message) s n h =
          failed-Told item (rejected item.territory_code message) s n refl h

      after_check-Told :
          (item : PriceApplyItem) (check : Check) (s : Applying k) (n : String → ℕ)
          → is_crashed check ≡ is_unusable k item
          → IsAbout item check
          → Told n s
          → AfterItem
              (after_check k w product diff_pct reason preserve_on_increase current item check s)
              item
              n
      unfolding count_check post_price
      after_check-Told item crashed s n e a h = sym e
      after_check-Told item no_ladder s n e a h =
          failed-Told item (no_tiers item.territory_code) s n refl h
      after_check-Told item unknown_point s n e a h =
          failed-Told item (not_in_tiers item.territory_code item.price_point_id) s n refl h
      after_check-Told item (outside p skip) s n e a h = record {
        each =
            λ tc. ground (arith, h.each tc, times-last skip_code tc s.tally.skipped_items skip, a);
        applied = h.applied;
        failed = h.failed;
        skipped = omega (arith, h.skipped, length-append s.tally.skipped_items (skip ∷ []));
      }
      after_check-Told item (accepted p) s n e a h =
          let start = start_date (lookup item.territory_code current) (w.next_date s.tally.calls) in
          let preserve =
            preserves k w product diff_pct reason preserve_on_increase current item p in
          after_post-Told item preserve (w.created s.tally.calls item.price_point_id preserve start)
            _ n
            (record { each = h.each; applied = h.applied; failed = h.failed; skipped = h.skipped })

      apply_price-Told :
          (item : PriceApplyItem) (s : Applying k) (n : String → ℕ)
          → Told n s
          → AfterItem
              (apply_price k w product diff_pct reason preserve_on_increase current item s)
              item
              n
      unfolding apply_price
      apply_price-Told item s n h =
          let check =
            (check_item k w product diff_pct reason current item s.tally.disk s.tally.calls).0 in
          after_check-Told item check _ n
            (check_item-crashed current item s.tally.disk s.tally.calls)
            (check_item-IsAbout current item s.tally.disk s.tally.calls)
            (record { each = h.each; applied = h.applied; failed = h.failed; skipped = h.skipped })

      next-IsPartition :
          (r : Ended k) (item : PriceApplyItem) (items : List PriceApplyItem) (n : String → ℕ)
          → AfterItem r item n
          → ((s : Applying k)
              → Told (with_item item n) s
              → IsPartition items
                  (with_item item n)
                  (apply_prices k w product diff_pct reason preserve_on_increase current items s))
          → IsPartition
              (item ∷ items)
              n
              (next r (apply_prices k w product diff_pct reason preserve_on_increase current items))
      next-IsPartition (finished s) item items n h rest =
          shift item items n
            (apply_prices k w product diff_pct reason preserve_on_increase current items s)
            (rest s h)
      next-IsPartition (raised s) item items n h rest = rw h refl

      apply_prices-IsPartition :
          (items : List PriceApplyItem) (s : Applying k) (n : String → ℕ)
          → Told n s
          → IsPartition items n
              (apply_prices k w product diff_pct reason preserve_on_increase current items s)
      unfolding apply_prices
      apply_prices-IsPartition [] s n h = Told-same (λ tc. omega arith) h
      apply_prices-IsPartition (item ∷ items) s n h =
          next-IsPartition
            (apply_price k w product diff_pct reason preserve_on_increase current item s) item items
            n (apply_price-Told item s n h)
            λ t told. apply_prices-IsPartition items t (with_item item n) told

-- Unless an item's code is no path segment of the cache, which ends the loop, the territories of the
-- items are, each as often as it is asked for, those in the list of applied ones, those of the
-- errors and those of the skip records; and the three counts are the lengths of these lists.
pub apply_subscription-IsPartition :
    (k : Codec) (w : World) (product : String) (diff_pct : Decimal → Decimal → Decimal)
    (reason : Decimal → String) (preserve_on_increase : Bool) (current : Dict Decimal)
    (items : List PriceApplyItem) (disk : Disk k) (h : Calls)
    → IsPartition items none_yet
        (apply_prices k w product diff_pct reason preserve_on_increase current items (start disk h))
apply_subscription-IsPartition k w product diff_pct reason preserve_on_increase current items disk
      h =
    apply_prices-IsPartition k w product diff_pct reason preserve_on_increase current items
      (start disk h) none_yet
      (record { each = λ tc. refl; applied = refl; failed = refl; skipped = refl })
