-- ===== src/Pricing/Apply/Subscription/Band.antt =====
-- backend/app/api/v1/pricing.py, `apply_subscription_prices`: the prices that are sent.
use aso_light.Base.{
  String, Bool, true, false, ◌≡◌, ◌⊎◌, refl, sym, subst, Option, none, some, List, [], ◌∷◌, inl,
  inr, All,
}
use aso_light.Base.Dict.{Dict, lookup}
use aso_light.Pricing.Decimal.{Decimal}
use aso_light.Pricing.Safety.{PriceApplySkippedItem, safety_skip_item}
use aso_light.Pricing.Safety.Band.{safety_skip_item-none_iff}
use aso_light.Pricing.Cache.{Codec, Disk, Reply, answered, api_error}
use aso_light.Pricing.Cache.Stable.{Keeps}
use aso_light.Pricing.Apply.{
  PriceApplyItem, create_subscription_price, Calls, World, Check, crashed, no_ladder, unknown_point,
  outside, accepted, check_item, count_check, Ladder, unusable_code, unavailable, points,
  territory_ladder, with_ladder, with_price, with_skip, price_of,
}
use aso_light.Pricing.Apply.Reads.{IsFound, territory_ladder-Reads, IsLook, territory_ladder-IsLook}
use aso_light.Pricing.Apply.Subscription.{
  Applying, Ended, finished, raised, next, preserves, start_date, after_post, post_price,
  after_check, with_reads, apply_price, apply_prices, start,
}
use aso_light.Pricing.Apply.Subscription.Permitted.{
  IsPriced, is_dated, IsPermitted, IsSound, IsSound-Keeps,
}

module _ (k : Codec) (product : String) (preserve_on_increase : Bool) (current : Dict Decimal) where
  module _ (w : World) where
    module _ (diff_pct : Decimal → Decimal → Decimal) (reason : Decimal → String) where
      abbrev Accepts : PriceApplyItem → Disk k → Check → Type 0
      Accepts item disk (accepted new_price) = IsPriced k product current item disk new_price
      Accepts item disk crashed = Unit
      Accepts item disk no_ladder = Unit
      Accepts item disk unknown_point = Unit
      Accepts item disk (outside new_price skip) = Unit

      with_ladder-Accepts :
          (item : PriceApplyItem) (l : Ladder) (disk : Disk k)
          → IsFound k product item.territory_code l disk
          → Accepts item disk
              (with_ladder k w product diff_pct reason item (lookup item.territory_code current) l)
      with_ladder-Accepts item unusable_code disk found = tt
      with_ladder-Accepts item unavailable disk found = tt
      with_ladder-Accepts item (points pps) disk found =
          price (price_of item.price_point_id pps) refl
        where
          current_price : Option Decimal
          current_price = lookup item.territory_code current

          skip :
              (new_price : Decimal)
              → price_of item.price_point_id pps ≡ some new_price
              → (o : Option PriceApplySkippedItem)
              → safety_skip_item diff_pct reason item.territory_code
                  (lookup item.territory_code current)
                  new_price
                  item.force
                ≡ o
              → Accepts item disk (with_skip k w product diff_pct reason new_price o)
          skip new_price e none e' = (
            pps,
            found item.price_point_id new_price e,
            e,
            (safety_skip_item-none_iff diff_pct reason item.territory_code
                  (lookup item.territory_code current) new_price item.force).0
                e',
          )
          skip new_price e (some s) e' = tt

          price :
              (o : Option Decimal)
              → price_of item.price_point_id pps ≡ o
              → Accepts item disk (
                  with_price k w product diff_pct reason item
                    (lookup item.territory_code current)
                    o)
          price none e = tt
          price (some new_price) e = skip new_price e _ refl

      module _ (Asked : PriceApplyItem → Type 0) where
        abbrev IsSoundEnd : Ended k → Type 0
        IsSoundEnd (finished s) =
            IsSound k product preserve_on_increase current Asked s.tally.disk s.tally.calls
        IsSoundEnd (raised s) =
            IsSound k product preserve_on_increase current Asked s.tally.disk s.tally.calls

        after_post-same :
            (item : PriceApplyItem) (preserve : Bool) (reply : Reply (Unit {0})) (s : Applying k)
            → IsSound k product preserve_on_increase current Asked s.tally.disk s.tally.calls
            → IsSoundEnd (
                finished (
                  after_post k w product diff_pct reason preserve_on_increase current item preserve
                    reply s))
        after_post-same item preserve (answered u) s sound = sound
        after_post-same item preserve (api_error message) s sound = sound

        start_date-dated :
            (o : Option Decimal) (date : String)
            → is_dated (start_date o date) ≡ elim o [ none ↦ false | some p ↦ true ]
        start_date-dated none date = refl
        start_date-dated (some p) date = refl

        post_price-IsSound :
            (item : PriceApplyItem) (new_price : Decimal) (s : Applying k)
            → Asked item
            → IsPriced k product current item s.tally.disk new_price
            → IsSound k product preserve_on_increase current Asked s.tally.disk s.tally.calls
            → IsSoundEnd (
                finished (
                  post_price k w product diff_pct reason preserve_on_increase current item new_price
                    s))
        unfolding post_price
        post_price-IsSound item new_price s asked priced sound =
            let preserve =
              preserves k w product diff_pct reason preserve_on_increase current item new_price in
            let date =
              start_date (lookup item.territory_code current) (w.next_date s.tally.calls) in
            after_post-same item preserve
              (w.created s.tally.calls item.price_point_id preserve date)
              (record s {
                tally = record s.tally {
                  calls =
                      create_subscription_price item.price_point_id preserve date ∷ s.tally.calls;
                };
              })
              (
                (
                  item,
                  new_price,
                  asked,
                  refl,
                  priced,
                  refl,
                  start_date-dated (lookup item.territory_code current) (w.next_date s.tally.calls),
                ),
                sound,
              )

        after_check-IsSound :
            (item : PriceApplyItem) (check : Check) (s : Applying k)
            → Asked item
            → Accepts item s.tally.disk check
            → IsSound k product preserve_on_increase current Asked s.tally.disk s.tally.calls
            → IsSoundEnd
                (after_check k w product diff_pct reason preserve_on_increase current item check s)
        unfolding count_check
        after_check-IsSound item crashed s asked accepts sound = sound
        after_check-IsSound item no_ladder s asked accepts sound = sound
        after_check-IsSound item unknown_point s asked accepts sound = sound
        after_check-IsSound item (outside new_price skip) s asked accepts sound = sound
        after_check-IsSound item (accepted new_price) s asked accepts sound =
            post_price-IsSound item new_price
              (record s { tally = count_check item (accepted new_price) s.tally }) asked accepts
              sound

        look-IsSound :
            (tc : String) (disk disk' : Disk k) (h h' : Calls)
            → IsLook k w product tc h h'
            → Keeps k product disk disk'
            → IsSound k product preserve_on_increase current Asked disk h
            → IsSound k product preserve_on_increase current Asked disk' h'
        look-IsSound tc disk disk' h h' (inl e) kept sound =
            subst (IsSound k product preserve_on_increase current Asked disk') (sym e)
              (IsSound-Keeps k product preserve_on_increase current Asked disk disk' h kept sound)
        look-IsSound tc disk disk' h h' (inr e) kept sound =
            subst (IsSound k product preserve_on_increase current Asked disk') (sym e) (
              tt,
              IsSound-Keeps k product preserve_on_increase current Asked disk disk' h kept sound,
            )

        apply_price-IsSound :
            (item : PriceApplyItem) (s : Applying k)
            → Asked item
            → IsSound k product preserve_on_increase current Asked s.tally.disk s.tally.calls
            → IsSoundEnd
                (apply_price k w product diff_pct reason preserve_on_increase current item s)
        unfolding apply_price check_item
        apply_price-IsSound item s asked sound =
            let tc = item.territory_code in
            let (ladder, disk, h) = territory_ladder k w product tc s.tally.disk s.tally.calls in
            let (found, kept) = territory_ladder-Reads k w product tc s.tally.disk s.tally.calls in
            after_check-IsSound item
              (with_ladder k w product diff_pct reason item (lookup tc current) ladder)
              (with_reads k w product diff_pct reason preserve_on_increase current disk h s) asked
              (with_ladder-Accepts item ladder disk found)
              (look-IsSound tc s.tally.disk disk s.tally.calls h
                (territory_ladder-IsLook k w product tc s.tally.disk s.tally.calls) kept sound)

        next-IsSound :
            (r : Ended k) (f : Applying k → Ended k)
            → IsSoundEnd r
            → ((s : Applying k)
                → IsSound k product preserve_on_increase current Asked s.tally.disk s.tally.calls
                → IsSoundEnd (f s))
            → IsSoundEnd (next r f)
        next-IsSound (finished s) f sound rest = rest s sound
        next-IsSound (raised s) f sound rest = sound

        apply_prices-IsSound :
            (items : List PriceApplyItem) (s : Applying k)
            → All Asked items
            → IsSound k product preserve_on_increase current Asked s.tally.disk s.tally.calls
            → IsSoundEnd
                (apply_prices k w product diff_pct reason preserve_on_increase current items s)
        unfolding apply_prices
        apply_prices-IsSound [] s asked sound = sound
        apply_prices-IsSound (item ∷ items) s asked sound =
            next-IsSound _ _ (apply_price-IsSound item s asked.0 sound)
              λ t sound'. apply_prices-IsSound items t asked.1 sound'

abbrev pub IsIn : PriceApplyItem → List PriceApplyItem → Type 0
IsIn item [] = ⊥
IsIn item (i ∷ items) = (item ≡ i) ⊎ IsIn item items

All-IsIn : (items : List PriceApplyItem) → All (λ i. IsIn i items) items
All-IsIn [] = tt
All-IsIn (i ∷ items) = (inl refl, All-later items i items (All-IsIn items))
  where
    All-later :
        (all_ : List PriceApplyItem) (i : PriceApplyItem) (items : List PriceApplyItem)
        → All (λ j. IsIn j all_) items
        → All (λ j. IsIn j (i ∷ all_)) items
    All-later all_ i [] h = tt
    All-later all_ i (j ∷ items) h = (inr h.0, All-later all_ i items h.1)

abbrev pub end_of : {k : Codec} → Ended k → Applying k
end_of (finished s) = s
end_of (raised s) = s

-- Every price that a subscription's apply sends, also where an item's code ends it early, is for an
-- item of the request; its price is that of the item's price point in the ladder cached for the
-- territory; it is forced, or the territory has no positive price yet, or it is between half and one
-- and a half of the current price; subscribers keep their price as the request wants it for an
-- increase; and it is dated exactly if the territory has a price.
pub apply_subscription-IsPermitted :
    (k : Codec) (w : World) (product : String) (diff_pct : Decimal → Decimal → Decimal)
    (reason : Decimal → String) (preserve_on_increase : Bool) (current : Dict Decimal)
    (items : List PriceApplyItem) (disk : Disk k)
    → let s = end_of (
        apply_prices k w product diff_pct reason preserve_on_increase current items
          (start disk [])) in
      All
        (IsPermitted k product preserve_on_increase current (λ i. IsIn i items) s.tally.disk)
        s.tally.calls
apply_subscription-IsPermitted k w product diff_pct reason preserve_on_increase current items disk =
    ended _ (
      apply_prices-IsSound k product preserve_on_increase current w diff_pct reason
        (λ i. IsIn i items) items (start disk []) (All-IsIn items) tt)
  where
    ended :
        (r : Ended k)
        → IsSoundEnd k product preserve_on_increase current w diff_pct reason (λ i. IsIn i items) r
        → All
            (IsPermitted k product preserve_on_increase current
              (λ i. IsIn i items)
              (end_of r).tally.disk)
            (end_of r).tally.calls
    ended (finished s) h = h
    ended (raised s) h = h
