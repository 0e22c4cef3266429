-- ===== src/Metadata/Bulk/Step.antt =====
-- backend/app/services/metadata/bulk.py, `apply`: the rows after one round of the loop.
use aso_light.Base.{
  String, Bool, true, false, ◌≡◌, refl, ◌&&◌, ◌||◌, not, Option, none, some, [], str_eq, ◌⊎◌, inl,
  inr, Bool-cases,
}
use aso_light.Base.Dict.{Dict, lookup, insert}
use aso_light.Metadata.Guard.{Kind}
use aso_light.Metadata.Bulk.{Request, Row, State, Reason, Item, is_hard_skip}
use aso_light.Metadata.Bulk.Apply.{
  Asc, Reply, answered, api_error, unexpected, Outcome, applied, apply_item, written, created,
  patched, update_row, create_row, attempt, Stepped, has_id, id_of, is_create, parent_of,
}

abbrev pub is_applied : Outcome → Bool
is_applied applied = true
is_applied _ = false

-- The result says that the locale was written.
abbrev pub hits : String → String × Outcome → Bool
hits j (locale, outcome) = str_eq j locale && is_applied outcome

module _ (asc : Asc) (r : Request) (kind : Kind) (attribute : String) (state : Option State) where
  open asc use {Session}

  -- The locale's row is written with the new value if the outcome says so, and no row otherwise.
  abbrev pub Wrote : Item → Dict Row → Stepped asc r kind attribute state → Type 0
  Wrote item rows (outcome, rows', s') =
      ((is_applied outcome ≡ true)
        × ((row : Row) × (rows' ≡ insert item.locale (written r.field item.new_value row) rows)))
      ⊎ ((is_applied outcome ≡ false) × (rows' ≡ rows))

  created-Wrote :
      (item : Item) (rows : Dict Row) (reply : Reply (Option String) × Session)
      → Wrote item rows (created asc r kind attribute state item rows reply)
  created-Wrote item rows (answered i, s) = elim (Bool-cases (has_id i)) [
    | inl given ↦
        rw given (inl (refl, (record { asc_localization_id = id_of i; columns = [] }, refl)))
    | inr missing ↦ rw missing (inr (refl, refl))
  ]
  created-Wrote item rows (api_error m, s) = inr (refl, refl)
  created-Wrote item rows (unexpected, s) = inr (refl, refl)

  patched-Wrote :
      (item : Item) (row : Row) (rows : Dict Row) (reply : Reply Unit × Session)
      → Wrote item rows (patched asc r kind attribute state item row rows reply)
  patched-Wrote item row rows (answered i, s) = inl (refl, (row, refl))
  patched-Wrote item row rows (api_error m, s) = inr (refl, refl)
  patched-Wrote item row rows (unexpected, s) = inr (refl, refl)

  update_row-Wrote :
      (o : Option Reason) (item : Item) (row : Row) (rows : Dict Row) (s : Session)
      → Wrote item rows (update_row asc r kind attribute state o item row rows s)
  update_row-Wrote (some reason) item row rows s = inr (refl, refl)
  update_row-Wrote none item row rows s =
      patched-Wrote item row rows
        (asc.patch kind row.asc_localization_id attribute item.new_value s)

  create_row-Wrote :
      (o : Option String) (item : Item) (rows : Dict Row) (s : Session)
      → Wrote item rows (create_row asc r kind attribute state o item rows s)
  create_row-Wrote none item rows s = inr (refl, refl)
  create_row-Wrote (some parent) item rows s =
      created-Wrote item rows (asc.post kind parent item.locale attribute item.new_value s)

  attempt-Wrote :
      (o : Option Row) (item : Item) (rows : Dict Row) (s : Session)
      → Wrote item rows (attempt asc r kind attribute state o item rows s)
  attempt-Wrote none item rows s = elim (Bool-cases (is_create item.action)) [
    | inl new ↦ rw new (create_row-Wrote (parent_of kind state) item rows s)
    | inr old ↦ rw old (inr (refl, refl))
  ]
  attempt-Wrote (some row) item rows s = update_row-Wrote _ item row rows s

  pub apply_item-Wrote :
      (item : Item) (rows : Dict Row) (s : Session)
      → Wrote item rows (apply_item asc r kind attribute state item rows s)
  unfolding apply_item
  apply_item-Wrote item rows s =
      elim (Bool-cases (item.would_skip && (not r.force || is_hard_skip item))) [
        | inl skips ↦ rw skips (inr (refl, refl))
        | inr tries ↦ rw tries (attempt-Wrote (lookup item.locale rows) item rows s)
      ]
