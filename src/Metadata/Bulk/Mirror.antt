-- ===== src/Metadata/Bulk/Mirror.antt =====
-- backend/app/services/metadata/bulk.py, `apply`: the snapshot rows after a bulk write.
use aso_light.Base.{
  arith, String, true, false, ◌≡◌, refl, subst, ap, ◌∙◌, Option, List, [], ◌∷◌, All, any, str_eq,
  ◌⊎◌, inl, inr, Bool-cases, eq_iff,
}
use aso_light.Base.Dict.{Dict, lookup, insert, lookup-insert}
use aso_light.Metadata.Guard.{Kind}
use aso_light.Metadata.Bulk.{Request, Row, State, Item, current_of}
use aso_light.Metadata.Bulk.Apply.{Asc, Outcome, apply_item, apply_items, written}
use aso_light.Metadata.Bulk.Step.{hits, apply_item-Wrote}

module _ (asc : Asc) (r : Request) (kind : Kind) (attribute : String) (state : Option State) where
  open asc use {Session}

  -- A locale whose results include a success has a row with the proposed value in the field; the
  -- row of any other locale is as before.
  abbrev pub Mirrors :
      (String → Option String) → Dict Row → List (String × Outcome) × Dict Row × Session → Type 0
  Mirrors v rows (results, rows', s') =
      (j : String)
      → ((any (hits j) results ≡ true) × (current_of r.field (lookup j rows') ≡ v j))
        ⊎ ((any (hits j) results ≡ false) × (lookup j rows' ≡ lookup j rows))

  -- The items propose the values that `v` gives to their locales.
  abbrev pub Proposes : (String → Option String) → Item → Type 0
  Proposes v item = item.new_value ≡ v item.locale

  current-insert :
      (item : Item) (row : Row) (rows : Dict Row)
      → current_of r.field
          (lookup item.locale (insert item.locale (written r.field item.new_value row) rows))
        ≡ item.new_value
  current-insert item row rows = ground (
    arith,
    lookup-insert item.locale item.locale (written r.field item.new_value row) rows,
    lookup-insert r.field r.field item.new_value row.columns,
    eq_iff item.locale item.locale,
    eq_iff r.field r.field,
  )

  lookup-insert_other :
      (item : Item) (row : Row) (rows : Dict Row) (j : String)
      → str_eq j item.locale ≡ false
      → lookup j (insert item.locale row rows) ≡ lookup j rows
  lookup-insert_other item row rows j other = lookup-insert item.locale j row rows ∙ rw other refl

  -- One round, seen from one locale.
  apply_item-Mirrors :
      (v : String → Option String) (item : Item) (rows : Dict Row) (s : Session)
      → Proposes v item
      → (j : String)
      → ((hits j (item.locale, (apply_item asc r kind attribute state item rows s).0) ≡ true)
          × (current_of r.field (lookup j (apply_item asc r kind attribute state item rows s).1)
              ≡ v j))
        ⊎ ((hits j (item.locale, (apply_item asc r kind attribute state item rows s).0) ≡ false)
            × (lookup j (apply_item asc r kind attribute state item rows s).1 ≡ lookup j rows))
  apply_item-Mirrors v item rows s p j =
      elim (apply_item-Wrote asc r kind attribute state item rows s) [
        | inr (missed, same) ↦ inr (ground (arith, missed), ap (lookup j) same)
        | inl (wrote, (row, to)) ↦ elim (Bool-cases (str_eq j item.locale)) [
          | inr other ↦ inr (
            ground (arith, other),
            ap (lookup j) to
                ∙ lookup-insert_other item (written r.field item.new_value row) rows j other,
          )
          | inl own ↦
              let j_is : item.locale ≡ j = ground (arith, own, eq_iff j item.locale) in
              inl (
                ground (arith, own, wrote),
                subst
                    (λ t.
                      current_of r.field
                        (lookup t (apply_item asc r kind attribute state item rows s).1)
                      ≡ v t)
                    j_is
                    (ap (λ d. current_of r.field (lookup item.locale d)) to
                      ∙ current-insert item row rows
                      ∙ p),
              )
        ]
      ]

  pub apply_items-Mirrors :
      (v : String → Option String) (items : List Item) (rows : Dict Row) (s : Session)
      → All (Proposes v) items
      → Mirrors v rows (apply_items asc r kind attribute state items rows s)
  unfolding apply_items
  apply_items-Mirrors v [] rows s p j = inr (refl, refl)
  apply_items-Mirrors v (item ∷ items) rows s p j =
      let step = apply_item-Mirrors v item rows s p.0 j in
      elim (apply_items-Mirrors v items (apply_item asc r kind attribute state item rows s).1
        (apply_item asc r kind attribute state item rows s).2 p.1 j) [
          | inl (hit, now) ↦ inl (ground (arith, hit), now)
          | inr (missed, same) ↦ elim step [
            | inl (hit, now) ↦ inl (rw hit refl, ap (current_of r.field) same ∙ now)
            | inr (miss, was) ↦ inr (ground (arith, miss, missed), same ∙ was)
          ]
        ]
