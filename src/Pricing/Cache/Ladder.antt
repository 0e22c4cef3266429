-- ===== src/Pricing/Cache/Ladder.antt =====
-- backend/app/services/asc/price_point_cache.py: what a fetched ladder reads back as.
use Prim.Native.String.{count, ◌++◌ as concat}
use aso_light.Base.{
  ℕ, ◌+◌, ◌-◌, ◌%◌, ◌≤◌, String, true, false, ◌≡◌, refl, ap, arith, some, List, [], ◌∷◌, map, All,
  str_eq, eq_iff,
}
use aso_light.Base.Dict.{Dict, IsUnique, lookup, lookup-insert}
use aso_light.Pricing.Territories.{alpha2_to_alpha3}
use aso_light.Pricing.Cache.{
  LadderTier, Codec, Disk, answered, ok, equals, padded, payload, compute_price_point_id,
  decode_tier_num, read_sync, price_point, get_with_price_point_ids, write_sync, tiers_of,
  fetch_and_cache,
}

-- What JSON and base64 promise. The text that base64 gives ends in at most two signs "=", which
-- `rstrip` cuts, and has a length that is a multiple of four; decoding needs these signs and takes
-- no notice of more of them. Objects and files are read as they were written.
pub record IsCodec (k : Codec) : Type 0 where
  pub objects : (d : Dict String) → IsUnique d → k.loads (k.dumps d) ≡ some d
  pub signs : k.Payload → ℕ
  pub few_signs : (bytes : k.Payload) → signs bytes ≤ 2
  pub whole_length :
      (bytes : k.Payload) → (count (k.rstrip (k.b64encode bytes)) + signs bytes) % 4 ≡ 0
  pub decodes :
      (bytes : k.Payload) (n : ℕ)
      → signs bytes ≤ n
      → k.b64decode (concat (k.rstrip (k.b64encode bytes)) (equals n)) ≡ some bytes
  pub files :
      (date : String) (tiers : List LadderTier) → k.load_tiers (k.dump_file date tiers) ≡ some tiers

str_eq_refl : (s : String) → str_eq s s ≡ true
str_eq_refl s = ground (arith, eq_iff s s)

-- What is put back is enough.
enough_signs : (n s : ℕ) → s ≤ 2 → (n + s) % 4 ≡ 0 → s ≤ 4 - n % 4
enough_signs n s h e = omega (arith, h, e)

module _ (k : Codec) (laws : IsCodec k) where
  -- An id that lost its signs "=" decodes with those that the cache puts back.
  base64 : (bytes : k.Payload) → k.b64decode (padded k (k.rstrip (k.b64encode bytes))) ≡ some bytes
  base64 bytes = laws.decodes bytes _ (
      enough_signs (count (k.rstrip (k.b64encode bytes))) (laws.signs bytes) (laws.few_signs bytes)
        (laws.whole_length bytes))

  -- The tier number of an id that the cache computes is read back from it.
  pub decode_tier_num-compute_price_point_id :
      (product alpha3 tier_num : String)
      → decode_tier_num k (compute_price_point_id k product alpha3 tier_num) ≡ some tier_num
  unfolding decode_tier_num compute_price_point_id
  decode_tier_num-compute_price_point_id product alpha3 tier_num =
      rw (base64, laws.objects (payload k product alpha3 tier_num) (refl, (refl, (refl, tt)))) refl

  tiers_of-map :
      (product alpha3 : String) (tiers : List LadderTier)
      → All (λ t. str_eq t.tier_num "" ≡ false) tiers
      → tiers_of k (map (price_point k product alpha3) tiers) ≡ tiers
  unfolding tiers_of price_point
  tiers_of-map product alpha3 [] h = refl
  tiers_of-map product alpha3 (t ∷ tiers) h =
      rw (decode_tier_num-compute_price_point_id product alpha3 t.tier_num, h.0)
        (ap (λ l. t ∷ l) (tiers_of-map product alpha3 tiers h.1))

-- If a product's price points have the ids that Apple gives their tiers, then a territory fetched
-- for that product reads back, for every product, as that product's price points of the same tiers,
-- with their prices and in their order.
pub get-fetch :
    (k : Codec)
    → IsCodec k
    → (date alpha2 alpha3 product product' : String) (tiers : List LadderTier) (disk : Disk k)
    → k.is_safe alpha2 ≡ true
    → lookup alpha2 alpha2_to_alpha3 ≡ some alpha3
    → All (λ t. str_eq t.tier_num "" ≡ false) tiers
    → (get_with_price_point_ids k alpha2 product'
        (fetch_and_cache k date alpha2
          (λ a. answered (map (price_point k product a) tiers))
          disk).1).0
      ≡ ok (some (map (price_point k product' alpha3) tiers))
unfolding get_with_price_point_ids fetch_and_cache read_sync write_sync
get-fetch k laws date alpha2 alpha3 product product' tiers disk safe known full =
    rw
      (
        known,
        tiers_of-map k laws product alpha3 tiers full,
        safe,
        lookup-insert alpha2 alpha2,
        str_eq_refl alpha2,
        laws.files,
        known,
      )
      refl
