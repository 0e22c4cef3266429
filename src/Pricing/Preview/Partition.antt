-- ===== src/Pricing/Preview/Partition.antt =====
-- backend/app/services/pricing/preview.py: every territory is priced or reported as skipped.
use aso_light.Base.{
  String, true, false, ◌≡◌, ◌⊎◌, refl, ap, ◌∙◌, Option, none, some, List, [], ◌∷◌, All, inl, inr,
  str_eq,
}
use aso_light.Base.Dict.{Dict, lookup}
use aso_light.Base.Int.{pos}
use aso_light.Pricing.Decimal.{Decimal, whole}
use aso_light.Pricing.Engine.{Arithmetic}
use aso_light.Pricing.Finalize.{with_vat, finalize_price}
use aso_light.Pricing.Finalize.Total.{finalize_price-total, IsModest}
use aso_light.Pricing.Preview.{
  Territory, PricePoints, Request, ok, PricePreviewSkippedItem, skipped, currency_of, rate_for,
  fx_item, fx_step, fx_loop,
}

module _ (m : Arithmetic) (Item : Type 0) (build_item : Territory → String → Decimal → Item)
    (points : PricePoints) where
  abbrev cur : Territory → String
  cur t = currency_of m Item build_item points t

  -- The rate is one in the base currency, and the known rate of another currency.
  abbrev pub IsRate : String → Dict Decimal → Territory → Option Decimal → Type 0
  IsRate base rates t o =
      (str_eq (cur t) base ≡ true → o ≡ some (pos (whole 1)))
      × (str_eq (cur t) base ≡ false → o ≡ lookup (cur t) rates)

  rate_for-IsRate :
      (base : String) (rates : Dict Decimal) (t : Territory)
      → IsRate base rates t (rate_for m Item build_item points base rates t)
  unfolding rate_for
  rate_for-IsRate base rates t = (λ h. rw h refl, λ h. rw h refl)

  module _ (body : Request) (base : String) (price_for : Territory → Decimal)
      (rates : Dict Decimal) where
    -- The price before it is finalized: converted by the rate, with the VAT of the territory.
    abbrev pub raw_price : Territory → Decimal → Decimal
    raw_price t rate = with_vat m body.apply_vat t.vat_rate (m.mul (price_for t) rate)

    -- The raw price of the territory is below the bound, at whatever rate it has.
    abbrev pub IsPayable : Territory → Type 0
    IsPayable t = (rate : Decimal) → IsRate base rates t (some rate) → IsModest (raw_price t rate)

    -- The item shows the territory's own raw price, finalized for its currency.
    abbrev pub IsItem : Territory → Decimal → Item → Type 0
    IsItem t rate item =
        (price : Decimal) × (finalize_price (raw_price t rate) body.charming_mode (cur t)
          ≡ some price)
        × (item ≡ build_item t (cur t) price)

    -- What the loop makes of the territories, in order: an item where the territory has a rate, and
    -- otherwise a skip record.
    abbrev pub Previews : List Territory → List Item → List PricePreviewSkippedItem → Type 0
    Previews [] items skips = (items ≡ []) × (skips ≡ [])
    Previews (t ∷ ts) items skips =
        ((rate : Decimal) × (item : Item) × (rest : List Item) × (items ≡ item ∷ rest)
          × IsRate base rates t (some rate)
          × IsItem t rate item
          × Previews ts rest skips)
        ⊎ ((rest : List PricePreviewSkippedItem) × (skips ≡ skipped t "missing_fx_rate" ∷ rest)
            × IsRate base rates t none
            × Previews ts items rest)

    fx_item-IsItem :
        (t : Territory) (rate : Decimal)
        → IsModest (raw_price t rate)
        → (item : Item) × (fx_item m Item build_item points body (price_for t) t rate ≡ ok item)
          × IsItem t rate item
    unfolding fx_item
    fx_item-IsItem t rate h =
        let (r, e) = finalize_price-total (raw_price t rate) body.charming_mode (cur t) h in
        (build_item t (cur t) r, rw e, (r, e, refl))

    fx_step-known :
        (t : Territory) (rate : Decimal) (items : List Item) (item : Item)
        (skips : List PricePreviewSkippedItem)
        → fx_item m Item build_item points body (price_for t) t rate ≡ ok item
        → fx_step m Item build_item points body (price_for t) t (some rate) (ok (items, skips))
          ≡ ok (item ∷ items, skips)
    unfolding fx_step
    fx_step-known t rate items item skips made = rw made refl

    fx_step-absent :
        (t : Territory) (items : List Item) (skips : List PricePreviewSkippedItem)
        → fx_step m Item build_item points body (price_for t) t none (ok (items, skips))
          ≡ ok (items, skipped t "missing_fx_rate" ∷ skips)
    unfolding fx_step
    fx_step-absent t items skips = refl

    fx_step-Previews :
        (t : Territory) (ts : List Territory) (o : Option Decimal) (items : List Item)
        (skips : List PricePreviewSkippedItem)
        → IsPayable t
        → IsRate base rates t o
        → Previews ts items skips
        → (items' : List Item) × (skips' : List PricePreviewSkippedItem) × (fx_step m Item
              build_item points body
              (price_for t)
              t
              o
              (ok (items, skips))
            ≡ ok (items', skips'))
          × Previews (t ∷ ts) items' skips'
    fx_step-Previews t ts none items skips h rate p = (
      items,
      skipped t "missing_fx_rate" ∷ skips,
      fx_step-absent t items skips,
      inr (skips, refl, rate, p),
    )
    fx_step-Previews t ts (some v) items skips h rate p =
        let (item, made, shows) = fx_item-IsItem t v (h v rate) in
        (
          item ∷ items,
          skips,
          fx_step-known t v items item skips made,
          inl (v, item, items, refl, rate, shows, p),
        )

    -- Once the rates are known and every converted price is below 10^24, the preview of the FX
    -- branches succeeds. In the order of the territories, one in the base currency is priced at the
    -- rate one and one with a known rate at this rate: its item shows the price for the territory
    -- times the rate, with its VAT, finalized for its currency. Every other territory is reported
    -- as skipped.
    pub fx_loop-Previews :
        (ts : List Territory)
        → All IsPayable ts
        → (items : List Item) × (skips : List PricePreviewSkippedItem) × (fx_loop m Item build_item
              points body base price_for rates ts
            ≡ ok (items, skips))
          × Previews ts items skips
    unfolding fx_loop
    fx_loop-Previews [] h = ([], [], refl, (refl, refl))
    fx_loop-Previews (t ∷ ts) h =
        let (items, skips, e, p) = fx_loop-Previews ts h.1 in
        let rate = rate_for m Item build_item points base rates t in
        let (items', skips', e', p') =
          fx_step-Previews t ts rate items skips h.0 (rate_for-IsRate base rates t) p in
        (items', skips', ap (fx_step m Item build_item points body (price_for t) t rate) e ∙ e', p')
