-- ===== src/Metadata/Bulk/Retry.antt =====
-- backend/app/services/metadata/bulk.py: a bulk write repeated after `apply`.
use aso_light.Base.{
  arith, String, true, false, ◌≡◌, refl, subst, Option, none, some, List, [], ◌∷◌, All, any, ◌⊎◌,
  inl, inr, str_eq_refl,
}
use aso_light.Base.Dict.{Dict, lookup}
use aso_light.Metadata.Guard.{Kind}
use aso_light.Metadata.Bulk.{
  Request, Row, State, unchanged, Item, build_item, build_items, kind_of, value_for, current_of,
  same_value, skip_reason,
}
use aso_light.Metadata.Bulk.Apply.{Asc, Outcome, apply_plan, apply, all_locked, replay}
use aso_light.Metadata.Bulk.Plan.{apply-Planned}
use aso_light.Metadata.Bulk.Step.{hits}
use aso_light.Metadata.Bulk.Mirror.{Mirrors, Proposes, apply_items-Mirrors}

module _ (asc : Asc) (r : Request) (kind : Kind) (attribute : String) (state : Option State) where
  open asc use {Session}

  build_items-Proposes :
      (rows : Dict Row) (locales : List String)
      → All
          (Proposes asc r kind attribute state (λ l. value_for l r.value r.values_by_locale))
          (build_items r kind rows state locales)
  unfolding build_item
  build_items-Proposes rows [] = tt
  build_items-Proposes rows (l ∷ ls) = (refl, build_items-Proposes rows ls)

  all_locked-hits :
      (fields : List String) (plan : List Item) (j : String)
      → any (hits j) (all_locked asc r kind attribute state fields plan) ≡ false
  all_locked-hits fields [] j = refl
  all_locked-hits fields (item ∷ plan) j = ground (arith, all_locked-hits fields plan j)

  replay-Mirrors :
      (e : Option (List String)) (v : String → Option String) (plan : List Item) (rows : Dict Row)
      (s : Session)
      → All (Proposes asc r kind attribute state v) plan
      → Mirrors asc r kind attribute state v rows (replay asc r kind attribute state e plan rows s)
  replay-Mirrors none v plan rows s p j =
      apply_items-Mirrors asc r kind attribute state v plan rows s p j
  replay-Mirrors (some fields) v plan rows s p j = inr (all_locked-hits fields plan j, refl)

  apply_plan-Mirrors :
      (v : String → Option String) (plan : List Item) (rows : Dict Row) (s : Session)
      → All (Proposes asc r kind attribute state v) plan
      → Mirrors asc r kind attribute state v rows
          (apply_plan asc r kind attribute state plan rows s)
  unfolding apply_plan
  apply_plan-Mirrors v plan rows s p = replay-Mirrors _ v plan rows s p

same_value_refl : (v : Option String) → same_value v v ≡ true
same_value_refl none = refl
same_value_refl (some v) = str_eq_refl v

-- A row that holds the proposed value is left alone by the next plan.
build_item-unchanged :
    (r : Request) (kind : Kind) (rows : Dict Row) (state : Option State) (j : String)
    → current_of r.field (lookup j rows) ≡ value_for j r.value r.values_by_locale
    → (build_item r kind rows state j).reason ≡ some unchanged
unfolding build_item skip_reason
build_item-unchanged r kind rows state j h =
    rw (h, same_value_refl (value_for j r.value r.values_by_locale)) refl

-- A locale that was written holds the proposed value and has the reason unchanged in the next plan;
-- any other locale's row is as before.
abbrev pub Settled :
    Request → Option State → Dict Row → List (String × Outcome) → Dict Row → String → Type 0
Settled r state rows results rows' j =
    ((any (hits j) results ≡ true)
      × (current_of r.field (lookup j rows') ≡ value_for j r.value r.values_by_locale)
      × ((build_item r (kind_of r.field) rows' state j).reason ≡ some unchanged))
    ⊎ ((any (hits j) results ≡ false) × (lookup j rows' ≡ lookup j rows))

-- After a bulk write that returns results, a locale with the status applied has a row with the
-- proposed value, and the next plan for the same request gives it the reason unchanged; the row of
-- every other locale is as it was.
pub apply-Settled :
    (urlparse : String → Option (String × String)) (asc : Asc) (r : Request) (state : Option State)
    (rows : Dict Row) (s : asc.Session) {out : List (String × Outcome) × Dict Row × asc.Session}
    → apply urlparse asc r state rows s ≡ inr out
    → (j : String) → Settled r state rows out.0 out.1 j
apply-Settled urlparse asc r state rows s {out} h j =
    let (valid, (attribute, planned)) = apply-Planned urlparse asc r state rows s h in
    let v : String → Option String = λ l. value_for l r.value r.values_by_locale in
    let mirrored : Mirrors asc r (kind_of r.field) attribute state v rows out =
      subst (Mirrors asc r (kind_of r.field) attribute state v rows) planned (
        apply_plan-Mirrors asc r (kind_of r.field) attribute state v _ rows s
          (build_items-Proposes asc r (kind_of r.field) attribute state rows r.target_locales)) in
    elim (mirrored j) [
      | inl (hit, now) ↦ inl (hit, now, build_item-unchanged r (kind_of r.field) out.1 state j now)
      | inr (missed, same) ↦ inr (missed, same)
    ]
