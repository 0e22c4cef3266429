-- ===== src/Pricing/Apply/Reads.antt =====
-- backend/app/api/v1/pricing.py: a look at the tiers of a territory, in both loops.
use aso_light.Base.{
  String, ◌≡◌, ◌⊎◌, refl, sym, subst, ◌∙◌, arith, Option, none, some, List, ◌∷◌, inl, inr,
}
use aso_light.Pricing.Decimal.{Decimal}
use aso_light.Pricing.Cache.{
  Codec, Disk, Result, ok, invalid_segment, service_error, PricePoint, LadderTier,
  get_with_price_point_ids, fetch_and_cache,
}
use aso_light.Pricing.Cache.Stable.{
  ladder_at, get-ladder_at, Keeps, Keeps-refl, Keeps-trans, get-Keeps, get-same, fetch-Keeps,
}
use aso_light.Base.Dict.{lookup}
use aso_light.Pricing.Territories.{alpha2_to_alpha3}
use aso_light.Pricing.Apply.{
  get_price_points, Calls, World, Ladder, unusable_code, unavailable, points, territory_ladder,
  asked, first_read, second_read, after_fetch, price_of,
}

abbrev pub IsFound : (k : Codec) → String → String → Ladder → Disk k → Type 0
IsFound k product tc unusable_code disk = Unit
IsFound k product tc unavailable disk = Unit
IsFound k product tc (points pps) disk =
    (i : String) (p : Decimal)
    → price_of i pps ≡ some p
    → ladder_at k product tc disk ≡ ok (some pps)

module _ (k : Codec) (w : World) (product : String) where
  second_read-IsFound :
      (tc : String) (r : Result (Option (List PricePoint))) (disk : Disk k) (h : Calls)
      → ladder_at k product tc disk ≡ r
      → IsFound k product tc
          (second_read k w product (r, disk) h).0
          (second_read k w product (r, disk) h).1
  second_read-IsFound tc (ok none) disk h e = λ i p found. absurd (ground (arith, found))
  second_read-IsFound tc (ok (some pps)) disk h e = λ i p found. e
  second_read-IsFound tc invalid_segment disk h e = tt
  second_read-IsFound tc (service_error message) disk h e = tt

  second_read-disk :
      (r : Result (Option (List PricePoint))) (disk : Disk k) (h : Calls)
      → (second_read k w product (r, disk) h).1 ≡ disk
  second_read-disk (ok none) disk h = refl
  second_read-disk (ok (some pps)) disk h = refl
  second_read-disk invalid_segment disk h = refl
  second_read-disk (service_error message) disk h = refl

  -- A read finds the ladder, and loses none.
  abbrev pub Reads : String → Disk k → Ladder × Disk k × Calls → Type 0
  Reads tc disk (ladder, disk', h) = IsFound k product tc ladder disk' × Keeps k product disk disk'

  after_fetch-Reads :
      (tc : String) (r : Result (List LadderTier)) (disk : Disk k) (h : Calls)
      → Reads tc disk (after_fetch k w product tc (r, disk) h)
  after_fetch-Reads tc (ok tiers) disk h =
      let (r, disk') = get_with_price_point_ids k tc product disk in
      (
        second_read-IsFound tc r disk' h
            (get-same k product product tc disk ∙ sym (get-ladder_at k product tc disk)),
        subst (λ d. Keeps k product disk d) (sym (second_read-disk r disk' h))
            (get-Keeps k product product tc disk),
      )
  after_fetch-Reads tc invalid_segment disk h = (tt, Keeps-refl k product disk)
  after_fetch-Reads tc (service_error message) disk h = (tt, Keeps-refl k product disk)

  first_read-Reads :
      (tc : String) (r : Result (Option (List PricePoint))) (disk : Disk k) (h : Calls)
      → ladder_at k product tc disk ≡ r
      → Reads tc disk (first_read k w product tc (r, disk) h)
  first_read-Reads tc (ok none) disk h e =
      let (r, disk') = fetch_and_cache k (w.now h) tc (w.price_points h) disk in
      let (found, kept) =
        after_fetch-Reads tc r disk' (asked k w product tc (lookup tc alpha2_to_alpha3) h) in
      (
        found,
        Keeps-trans k product disk disk' _
            (fetch-Keeps k product (w.now h) tc (w.price_points h) disk e) kept,
      )
  first_read-Reads tc (ok (some pps)) disk h e = (λ i p found. e, Keeps-refl k product disk)
  first_read-Reads tc invalid_segment disk h e = (tt, Keeps-refl k product disk)
  first_read-Reads tc (service_error message) disk h e = (tt, Keeps-refl k product disk)

  pub territory_ladder-Reads :
      (tc : String) (disk : Disk k) (h : Calls)
      → Reads tc disk (territory_ladder k w product tc disk h)
  unfolding territory_ladder
  territory_ladder-Reads tc disk h =
      let (r, disk') = get_with_price_point_ids k tc product disk in
      let (found, kept) =
        first_read-Reads tc r disk' h
          (get-same k product product tc disk ∙ sym (get-ladder_at k product tc disk)) in
      (found, Keeps-trans k product disk disk' _ (get-Keeps k product product tc disk) kept)

  second_read-calls :
      (r : Result (Option (List PricePoint))) (disk : Disk k) (h : Calls)
      → (second_read k w product (r, disk) h).2 ≡ h
  second_read-calls (ok none) disk h = refl
  second_read-calls (ok (some pps)) disk h = refl
  second_read-calls invalid_segment disk h = refl
  second_read-calls (service_error message) disk h = refl

  after_fetch-calls :
      (tc : String) (r : Result (List LadderTier)) (disk : Disk k) (h : Calls)
      → (after_fetch k w product tc (r, disk) h).2 ≡ h
  after_fetch-calls tc (ok tiers) disk h =
      let (r, disk') = get_with_price_point_ids k tc product disk in second_read-calls r disk' h
  after_fetch-calls tc invalid_segment disk h = refl
  after_fetch-calls tc (service_error message) disk h = refl

  -- A look at the tiers makes at most the call for the price points.
  abbrev pub IsLook : String → Calls → Calls → Type 0
  IsLook tc h h' = (h' ≡ h) ⊎ (h' ≡ get_price_points tc ∷ h)

  asked-IsLook :
      (tc : String) (o : Option String) (h : Calls) → IsLook tc h (asked k w product tc o h)
  asked-IsLook tc none h = inl refl
  asked-IsLook tc (some alpha3) h = inr refl

  first_read-IsLook :
      (tc : String) (r : Result (Option (List PricePoint))) (disk : Disk k) (h : Calls)
      → IsLook tc h (first_read k w product tc (r, disk) h).2
  first_read-IsLook tc (ok none) disk h =
      let (r, disk') = fetch_and_cache k (w.now h) tc (w.price_points h) disk in
      let now = asked k w product tc (lookup tc alpha2_to_alpha3) h in
      subst (IsLook tc h) (sym (after_fetch-calls tc r disk' now))
        (asked-IsLook tc (lookup tc alpha2_to_alpha3) h)
  first_read-IsLook tc (ok (some pps)) disk h = inl refl
  first_read-IsLook tc invalid_segment disk h = inl refl
  first_read-IsLook tc (service_error message) disk h = inl refl

  pub territory_ladder-IsLook :
      (tc : String) (disk : Disk k) (h : Calls)
      → IsLook tc h (territory_ladder k w product tc disk h).2
  unfolding territory_ladder
  territory_ladder-IsLook tc disk h =
      let (r, disk') = get_with_price_point_ids k tc product disk in first_read-IsLook tc r disk' h
