-- ===== src/Pricing/Cache.antt =====
-- backend/app/services/asc/price_point_cache.py: the ladders of price tiers on disk, a text for each
-- territory. JSON, base64 and the regular expression are the record `Codec`; `date` is the text of
-- the current time.
pub mod Ladder
pub mod Stable
mod Encoding
pub mod Example
mod Tests
use Prim.Native.String.{count, ◌++◌ as concat}
use aso_light.Base.{
  ℕ, zero, suc, ◌+◌, ◌-◌, ◌%◌, String, Bool, true, false, not, Option, none, some, List, [], ◌∷◌,
  map, length, keep, str_eq, if◌then◌else◌,
}
use aso_light.Base.Dict.{Dict, lookup, insert, erase, contains}
use aso_light.Pricing.Decimal.{Decimal}
use aso_light.Pricing.Territories.{alpha2_to_alpha3}

-- A tier as it is stored, and a price point as callers read it.
pub record LadderTier : Type 0 where
  pub tier_num : String
  pub customer_price : Decimal
  pub currency_code : String
  pub proceeds : Decimal

pub record PricePoint : Type 0 where
  pub price_point_id : String
  pub customer_price : Decimal
  pub proceeds : Decimal
  pub currency_code : String

-- The bytes of a JSON object and the text of a JSON file; base64, with `none` where decoding raises;
-- `s.rstrip("=")`; and the match of `_SAFE_PATH_RE`.
pub record Codec : Type 1 where
  pub Payload : Type 0
  pub File : Type 0
  pub dumps : Dict String → Payload
  pub loads : Payload → Option (Dict String)
  pub b64encode : Payload → String
  pub b64decode : String → Option Payload
  pub rstrip : String → String
  pub dump_file : String → List LadderTier → File
  pub load_tiers : File → Option (List LadderTier)
  pub is_safe : String → Bool

pub data Reply {ℓ} (A : Type ℓ) : Type ℓ where
  answered : A → Reply A
  api_error : String → Reply A

-- What a method ends with: a value, the ValueError of `_validate_path_segment`, or the service's error.
pub data Result {ℓ} (A : Type ℓ) : Type ℓ where
  ok : A → Result A
  invalid_segment : Result A
  service_error : String → Result A

abbrev pub equals : ℕ → String
equals zero = ""
equals (suc n) = concat "=" (equals n)

module _ (k : Codec) where
  abbrev pub Disk : Type 0
  Disk = Dict k.File

  abbrev pub payload : String → String → String → Dict String
  payload product alpha3 tier_num = ("s", product) ∷ ("t", alpha3) ∷ ("p", tier_num) ∷ []

  unfoldable pub compute_price_point_id : String → String → String → String
  compute_price_point_id product alpha3 tier_num =
      k.rstrip (k.b64encode (k.dumps (payload product alpha3 tier_num)))

  -- `price_point_id + "=" * (4 - len(price_point_id) % 4)`
  abbrev pub padded : String → String
  padded i = concat i (equals (4 - count i % 4))

  abbrev pub tier_of_object : Option (Dict String) → Option String
  tier_of_object none = none
  tier_of_object (some object) = lookup "p" object

  abbrev pub tier_of_payload : Option k.Payload → Option String
  tier_of_payload none = none
  tier_of_payload (some bytes) = tier_of_object (k.loads bytes)

  -- `_decode_tier_num`
  unfoldable pub decode_tier_num : String → Option String
  decode_tier_num i = tier_of_payload (k.b64decode (padded i))

  -- A file that does not parse is removed.
  abbrev pub parsed : String → Option (List LadderTier) → Disk → Option (List LadderTier) × Disk
  parsed alpha2 none disk = (none, erase alpha2 disk)
  parsed alpha2 (some tiers) disk = (some tiers, disk)

  abbrev pub read_text : String → Option k.File → Disk → Option (List LadderTier) × Disk
  read_text alpha2 none disk = (none, disk)
  read_text alpha2 (some text) disk = parsed alpha2 (k.load_tiers text) disk

  -- `_read_sync`
  unfoldable pub read_sync : String → Disk → Result (Option (List LadderTier)) × Disk
  read_sync alpha2 disk =
      let (tiers, disk') = read_text alpha2 (lookup alpha2 disk) disk in
      if k.is_safe alpha2 then (ok tiers, disk') else (invalid_segment, disk)

  unfoldable pub price_point : String → String → LadderTier → PricePoint
  price_point product alpha3 t = record {
    price_point_id = compute_price_point_id product alpha3 t.tier_num;
    customer_price = t.customer_price;
    proceeds = t.proceeds;
    currency_code = t.currency_code;
  }

  abbrev pub points_in : String → Option String → List LadderTier → Option (List PricePoint)
  points_in product none tiers = none
  points_in product (some alpha3) tiers = some (map (price_point product alpha3) tiers)

  abbrev pub points_of :
      String
      → String
      → Result (Option (List LadderTier)) × Disk
      → Result (Option (List PricePoint)) × Disk
  points_of alpha2 product (ok none, disk) = (ok none, disk)
  points_of alpha2 product (ok (some tiers), disk) =
      (ok (points_in product (lookup alpha2 alpha2_to_alpha3) tiers), disk)
  points_of alpha2 product (invalid_segment, disk) = (invalid_segment, disk)
  points_of alpha2 product (service_error message, disk) = (service_error message, disk)

  unfoldable pub get_with_price_point_ids :
      String → String → Disk → Result (Option (List PricePoint)) × Disk
  get_with_price_point_ids alpha2 product disk = points_of alpha2 product (read_sync alpha2 disk)

  -- `_write_sync`
  unfoldable pub write_sync : String → String → List LadderTier → Disk → Result (Unit {0}) × Disk
  write_sync date alpha2 tiers disk =
      if k.is_safe alpha2
      then (ok tt, insert alpha2 (k.dump_file date tiers) disk)
      else (invalid_segment, disk)

  abbrev pub with_tier : PricePoint → Option String → List LadderTier → List LadderTier
  with_tier pp none rest = rest
  with_tier pp (some tier_num) rest =
      if str_eq tier_num ""
      then rest
      else record {
        tier_num = tier_num;
        customer_price = pp.customer_price;
        currency_code = pp.currency_code;
        proceeds = pp.proceeds;
      }
        ∷ rest

  unfoldable pub tiers_of : List PricePoint → List LadderTier
  tiers_of [] = []
  tiers_of (pp ∷ raw) = with_tier pp (decode_tier_num pp.price_point_id) (tiers_of raw)

  abbrev pub written : List LadderTier → Result (Unit {0}) × Disk → Result (List LadderTier) × Disk
  written tiers (ok u, disk) = (ok tiers, disk)
  written tiers (invalid_segment, disk) = (invalid_segment, disk)
  written tiers (service_error message, disk) = (service_error message, disk)

  abbrev pub with_raw :
      String → String → Reply (List PricePoint) → Disk → Result (List LadderTier) × Disk
  with_raw date alpha2 (api_error message) disk = (service_error message, disk)
  with_raw date alpha2 (answered raw) disk =
      written (tiers_of raw) (write_sync date alpha2 (tiers_of raw) disk)

  abbrev pub fetch_in :
      String
      → String
      → (String → Reply (List PricePoint))
      → Option String
      → Disk
      → Result (List LadderTier) × Disk
  fetch_in date alpha2 ask none disk = (ok [], disk)
  fetch_in date alpha2 ask (some alpha3) disk = with_raw date alpha2 (ask alpha3) disk

  -- `fetch_and_cache`; `ask` is the service's call for the product.
  unfoldable pub fetch_and_cache :
      String → String → (String → Reply (List PricePoint)) → Disk → Result (List LadderTier) × Disk
  fetch_and_cache date alpha2 ask disk =
      fetch_in date alpha2 ask (lookup alpha2 alpha2_to_alpha3) disk

  abbrev pub add_total : Result (List LadderTier) → ℕ → ℕ
  add_total (ok tiers) n = length tiers + n
  add_total invalid_segment n = n
  add_total (service_error message) n = n

  -- The fetches of `fetch_and_cache_all`, in the order of the codes; each may fail by itself.
  unfoldable pub fetch_each :
      String → (String → Reply (List PricePoint)) → List String → Disk → ℕ × Disk
  fetch_each date ask [] disk = (0, disk)
  fetch_each date ask (code ∷ codes) disk =
      let (result, disk') = fetch_and_cache date code ask disk in
      let (total, disk'') = fetch_each date ask codes disk' in (add_total result total, disk'')

  unfoldable pub fetch_and_cache_all :
      String → (String → Reply (List PricePoint)) → List String → Bool → Disk → ℕ × Disk
  fetch_and_cache_all date ask codes skip_cached disk =
      fetch_each date ask
        (if skip_cached then keep (λ code. not (contains code disk)) codes else codes) disk
