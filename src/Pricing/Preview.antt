-- ===== src/Pricing/Preview.antt =====
-- backend/app/services/pricing/preview.py: suggested prices for all territories.
-- The answer of the rate service and the rows of the database queries are arguments, and so is the
-- caller's `build_item`. Prices stay decimals: the cast to float at the response is not modelled.
pub mod Partition
use mathlib.Core.Option
use aso_light.Base.{
  ℕ, String, Bool, true, false, ◌&&◌, ◌||◌, Option, none, some, List, [], ◌∷◌, eqb, str_eq,
  if◌then◌else◌,
}
use aso_light.Base.Dict.{Dict, lookup}
use aso_light.Base.Int.{ℤ, pos, leb_ℤ}
use aso_light.Pricing.Decimal.{Decimal, whole}
use aso_light.Pricing.Tiers.{Config, assign_tier, tier_prices_usd}
use aso_light.Pricing.Engine.{Arithmetic}
use aso_light.Pricing.Finalize.{finalize_price, with_vat, economic_index_suggested}

-- The columns of `Territory` that the preview reads.
pub record Territory : Type 0 where
  pub id : ℕ
  pub code : String
  pub name : String
  pub currency_code : String
  pub vat_rate : Option Decimal

-- The `currency_code` of each cached price point, by territory.
abbrev pub PricePoints : Type 0
PricePoints = Dict (List (Option String))

abbrev pub non_empty : Option String → String → String
non_empty none default = default
non_empty (some cur) default = if str_eq cur "" then default else cur

-- `effective_currency` of currency.py
unfoldable pub effective_currency : Territory → Option (List (Option String)) → String
effective_currency t none = t.currency_code
effective_currency t (some []) = t.currency_code
effective_currency t (some (cur ∷ points)) = non_empty cur t.currency_code

-- `PricePreviewRequest`
pub record Request : Type 0 where
  pub index_type : String
  pub base_price : Decimal
  pub base_territory_code : String
  pub apply_vat : Bool
  pub charming_mode : String
  pub gdp_config : Option Config

pub data PreviewError : Type 0 where
  base_territory_not_found : String → PreviewError
  rates_not_fetched gdp_config_required no_index_data computation_failed : PreviewError

pub data Result {ℓ} (A : Type ℓ) : Type ℓ where
  ok : A → Result A
  err : PreviewError → Result A

infixl 5 ◌>>=◌
abbrev pub ◌>>=◌ {ℓ κ} : {A : Type ℓ} {B : Type κ} → Result A → (A → Result B) → Result B
ok a >>= f = f a
err e >>= f = err e

abbrev pub or_raise {ℓ} : {A : Type ℓ} → Option A → PreviewError → Result A
or_raise none e = err e
or_raise (some a) e = ok a

-- `PricePreviewSkippedItem`
pub record PricePreviewSkippedItem : Type 0 where
  pub territory_code : String
  pub territory_name : String
  pub reason : String

pub skipped : Territory → String → PricePreviewSkippedItem
skipped t reason = record { territory_code = t.code; territory_name = t.name; reason = reason }

-- `{row.territory_id: row.value for row in rows}.get(id)`
pub value_for : ℕ → List (ℕ × Decimal) → Option Decimal
value_for id [] = none
value_for id ((j, v) ∷ rows) = elim (value_for id rows) [
  | some w ↦ some w
  | none ↦ if eqb j id then some v else none
]

module _ (m : Arithmetic) (Item : Type 0) (build_item : Territory → String → Decimal → Item)
    (points : PricePoints) where
  abbrev pub PreviewResult : Type 0
  PreviewResult = Result (List Item × List PricePreviewSkippedItem)

  abbrev pub currency_of : Territory → String
  currency_of t = effective_currency t (lookup t.code points)

  -- The rate of a territory: one for the base currency itself.
  pub rate_for : String → Dict Decimal → Territory → Option Decimal
  rate_for base_currency rates t =
      if str_eq (currency_of t) base_currency
      then some (pos (whole 1))
      else lookup (currency_of t) rates

  abbrev pub add_item : Item → List Item × List PricePreviewSkippedItem → PreviewResult
  add_item i (items, skips) = ok (i ∷ items, skips)

  abbrev pub add_skip :
      PricePreviewSkippedItem → List Item × List PricePreviewSkippedItem → PreviewResult
  add_skip s (items, skips) = ok (items, s ∷ skips)

  -- The body of the loop for a territory that has a rate.
  pub fx_item : Request → Decimal → Territory → Decimal → Result Item
  fx_item body base_price t rate = do
    suggested ←
        or_raise
          (finalize_price (with_vat m body.apply_vat t.vat_rate (m.mul base_price rate))
            body.charming_mode (currency_of t))
          computation_failed
    ok (build_item t (currency_of t) suggested)

  -- One round of the loop of `_fx_rate_items`, over the result of the later rounds.
  pub fx_step : Request → Decimal → Territory → Option Decimal → PreviewResult → PreviewResult
  fx_step body base_price t none rest = rest >>= add_skip (skipped t "missing_fx_rate")
  fx_step body base_price t (some rate) rest = do
    item ← fx_item body base_price t rate
    rest >>= add_item item

  pub fx_loop :
      Request → String → (Territory → Decimal) → Dict Decimal → List Territory → PreviewResult
  fx_loop body base_currency base_price_for rates [] = ok ([], [])
  fx_loop body base_currency base_price_for rates (t ∷ ts) =
      fx_step body (base_price_for t) t (rate_for base_currency rates t)
        (fx_loop body base_currency base_price_for rates ts)

  -- `_fx_rate_items`; `none` for the rates is a RateCacheError.
  pub fx_rate_items :
      Request
      → String
      → (Territory → Decimal)
      → Option (Dict Decimal)
      → List Territory
      → PreviewResult
  fx_rate_items body base_currency base_price_for rates territories = do
    known ← or_raise rates rates_not_fetched
    fx_loop body base_currency base_price_for known territories

  -- The queries and calls that one preview makes: the rates for a base currency, the rows of
  -- `EconomicIndex` for an index type, the territories by code and in order.
  pub record World : Type 0 where
    pub rates : String → Option (Dict Decimal)
    pub index_rows : String → List (ℕ × Decimal)
    pub territory_map : Dict Territory
    pub all_territories : List Territory

  -- `_exchange_rate_items`
  pub exchange_rate_items : Request → World → PreviewResult
  exchange_rate_items body w = do
    base ←
        or_raise (lookup body.base_territory_code w.territory_map)
          (base_territory_not_found body.base_territory_code)
    fx_rate_items body (currency_of base) (λ _. body.base_price) (w.rates (currency_of base))
        w.all_territories

  -- `_gdp_bracket_items`
  pub gdp_bracket_items : Request → World → PreviewResult
  gdp_bracket_items body w = do
    config ← or_raise body.gdp_config gdp_config_required
    fx_rate_items body "USD"
        (λ t.
          tier_prices_usd config
            (assign_tier t.code (value_for t.id (w.index_rows "gdp_per_capita_ppp")) config))
        (w.rates "USD") w.all_territories

  abbrev pub non_zero : Option Decimal → Result Decimal
  non_zero none = err no_index_data
  non_zero (some v) = if leb_ℤ v (pos 0) && leb_ℤ (pos 0) v then err no_index_data else ok v

  pub index_item : Request → Decimal → Territory → Decimal → Result Item
  index_item body base_index t territory_index = do
    suggested ←
        or_raise
          (economic_index_suggested m body.base_price territory_index base_index body.index_type
            t.vat_rate body.apply_vat body.charming_mode (currency_of t))
          computation_failed
    ok (build_item t (currency_of t) suggested)

  -- One round of the loop of `_economic_index_items`: a territory without a value is left out.
  pub index_step : Request → Decimal → Territory → Option Decimal → PreviewResult → PreviewResult
  index_step body base_index t none rest = rest
  index_step body base_index t (some v) rest = do
    item ← index_item body base_index t v
    rest >>= add_item item

  pub index_loop : Request → Decimal → List (ℕ × Decimal) → List Territory → PreviewResult
  index_loop body base_index rows [] = ok ([], [])
  index_loop body base_index rows (t ∷ ts) =
      index_step body base_index t (value_for t.id rows) (index_loop body base_index rows ts)

  -- `_economic_index_items`
  pub economic_index_items : Request → World → PreviewResult
  economic_index_items body w = do
    base ←
        or_raise (lookup body.base_territory_code w.territory_map)
          (base_territory_not_found body.base_territory_code)
    base_index ← non_zero (value_for base.id (w.index_rows body.index_type))
    index_loop body base_index (w.index_rows body.index_type) w.all_territories

  pub build_preview_items : Request → World → PreviewResult
  build_preview_items body w =
      if str_eq body.index_type "exchange_rate"
      then exchange_rate_items body w
      else if str_eq body.index_type "gdp_brackets"
      then gdp_bracket_items body w
      else economic_index_items body w
