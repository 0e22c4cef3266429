-- ===== src/Pricing/Apply/Usable.antt =====
-- backend/app/api/v1/pricing.py: which territory codes the cache refuses.
use aso_light.Base.{
  String, Bool, true, false, not, ◌≡◌, refl, Option, none, some, List, inl, inr, Bool-cases,
}
use aso_light.Base.Dict.{lookup}
use aso_light.Pricing.Territories.{alpha2_to_alpha3}
use aso_light.Pricing.Cache.{
  Codec, Disk, Result, ok, invalid_segment, service_error, read_sync, PricePoint, LadderTier,
  points_of, points_in, read_text, fetch_and_cache, get_with_price_point_ids,
}
use aso_light.Pricing.Apply.{
  Calls, World, Ladder, unusable_code, unavailable, points, territory_ladder, first_read,
  second_read, after_fetch,
}

abbrev pub is_unusable_code : Ladder → Bool
is_unusable_code unusable_code = true
is_unusable_code unavailable = false
is_unusable_code (points pps) = false

module _ (k : Codec) (w : World) (product : String) where
  second_read-usable :
      (r : Result (Option (List PricePoint))) (disk : Disk k) (h : Calls)
      → is_unusable_code (second_read k w product (r, disk) h).0 ≡ false
  second_read-usable (ok none) disk h = refl
  second_read-usable (ok (some pps)) disk h = refl
  second_read-usable invalid_segment disk h = refl
  second_read-usable (service_error message) disk h = refl

  after_fetch-usable :
      (tc : String) (r : Result (List LadderTier)) (disk : Disk k) (h : Calls)
      → is_unusable_code (after_fetch k w product tc (r, disk) h).0 ≡ false
  after_fetch-usable tc (ok tiers) disk h =
      let (r, disk') = get_with_price_point_ids k tc product disk in second_read-usable r disk' h
  after_fetch-usable tc invalid_segment disk h = refl
  after_fetch-usable tc (service_error message) disk h = refl

  first_read-usable :
      (tc : String) (pps : Option (List PricePoint)) (disk : Disk k) (h : Calls)
      → is_unusable_code (first_read k w product tc (ok pps, disk) h).0 ≡ false
  first_read-usable tc none disk h =
      let (r, disk') = fetch_and_cache k (w.now h) tc (w.price_points h) disk in
      after_fetch-usable tc r disk' _
  first_read-usable tc (some pps) disk h = refl

  read_points-usable :
      (tc : String) (tiers : Option (List LadderTier)) (disk : Disk k) (h : Calls)
      → is_unusable_code (first_read k w product tc (points_of k tc product (ok tiers, disk)) h).0
        ≡ false
  read_points-usable tc none disk h = first_read-usable tc none disk h
  read_points-usable tc (some tiers) disk h =
      first_read-usable tc (points_in k product (lookup tc alpha2_to_alpha3) tiers) disk h

  -- Only an unusable code makes the cache raise.
  pub territory_ladder-usable :
      (tc : String) (disk : Disk k) (h : Calls)
      → is_unusable_code (territory_ladder k w product tc disk h).0 ≡ not (k.is_safe tc)
  unfolding territory_ladder get_with_price_point_ids read_sync
  territory_ladder-usable tc disk h = elim (Bool-cases (k.is_safe tc)) [
    | inl safe ↦ rw safe (
        let (tiers, disk') = read_text k tc (lookup tc disk) disk in
        read_points-usable tc tiers disk' h)
    | inr unsafe ↦ rw unsafe refl
  ]
