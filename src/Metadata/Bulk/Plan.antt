-- ===== src/Metadata/Bulk/Plan.antt =====
-- backend/app/services/metadata/bulk.py: what a bulk write checks, and that it answers every locale.
use mathlib.Core.Sum.{inl-ne-inr, inr-injective}
use aso_light.Base.{
  ◌⊎◌, inl, true, Bool-cases, arith, String, ◌≡◌, refl, subst, ap, ◌∙◌, Option, none, some, List,
  [], ◌∷◌, map, All, inl, inr, Option-cases,
}
use aso_light.Base.Dict.{Dict, mem, lookup}
use aso_light.Metadata.Validation.{FieldError, validate_field}
use aso_light.Metadata.Guard.{Kind, assert_fields_editable, editable_set}
use aso_light.Metadata.Bulk.{
  Request, InputError, Row, State, Item, build_item, build_items, kind_of, validate_inputs,
  value_for, values_error, invalid_error, flat, proposal_error,
}
use aso_light.Metadata.Bulk.Apply.{
  Asc, Outcome, apply_items, apply_plan, apply, replay, validated, with_attribute,
  field_to_asc_attr, all_locked, editable_of,
}

abbrev pub target : String × Outcome → String
target (locale, outcome) = locale

module _ (asc : Asc) (r : Request) (kind : Kind) (attribute : String) (state : Option State) where
  open asc use {Session}

  apply_items-targets :
      (items : List Item) (rows : Dict Row) (s : Session)
      → map target (apply_items asc r kind attribute state items rows s).0
        ≡ map (λ (item : Item). item.locale) items
  unfolding apply_items
  apply_items-targets [] rows s = refl
  apply_items-targets (item ∷ items) rows s =
      ap (λ l. item.locale ∷ l) (apply_items-targets items _ _)

  all_locked-targets :
      (fields : List String) (items : List Item)
      → map target (all_locked asc r kind attribute state fields items)
        ≡ map (λ (item : Item). item.locale) items
  all_locked-targets fields [] = refl
  all_locked-targets fields (item ∷ items) =
      ap (λ l. item.locale ∷ l) (all_locked-targets fields items)

  build_items-targets :
      (rows : Dict Row) (locales : List String)
      → map (λ (item : Item). item.locale) (build_items r kind rows state locales) ≡ locales
  unfolding build_item
  build_items-targets rows [] = refl
  build_items-targets rows (l ∷ ls) = ap (λ t. l ∷ t) (build_items-targets rows ls)

  replay-targets :
      (e : Option (List String)) (plan : List Item) (rows : Dict Row) (s : Session)
      → map target (replay asc r kind attribute state e plan rows s).0
        ≡ map (λ (item : Item). item.locale) plan
  replay-targets none plan rows s = apply_items-targets plan rows s
  replay-targets (some fields) plan rows s = all_locked-targets fields plan

  pub apply_plan-targets :
      (rows : Dict Row) (locales : List String) (s : Session)
      → map target
          (apply_plan asc r kind attribute state (build_items r kind rows state locales) rows s).0
        ≡ locales
  unfolding apply_plan
  apply_plan-targets rows locales s = replay-targets _ _ rows s ∙ build_items-targets rows locales

  -- Without the permission nothing changes.
  pub apply_plan-locked :
      (plan : List Item) (rows : Dict Row) (s : Session)
      → (mem r.field (editable_set (editable_of state)) ≡ true)
        ⊎ (((apply_plan asc r kind attribute state plan rows s).1 ≡ rows)
            × ((apply_plan asc r kind attribute state plan rows s).2 ≡ s))
  unfolding apply_plan assert_fields_editable
  apply_plan-locked plan rows s =
      elim (Bool-cases (mem r.field (editable_set (editable_of state)))) [
        | inl free ↦ inl free
        | inr locked ↦ inr (rw locked (refl, refl))
      ]

module _ (urlparse : String → Option (String × String)) where
  values_error-All :
      (field : String) (values : Dict (Option String)) (locales : List String)
      → values_error urlparse field values locales ≡ none
      → All (λ l. validate_field urlparse field (flat (lookup l values)) ≡ none) locales
  values_error-All field values [] h = tt
  values_error-All field values (l ∷ ls) h = elim (Option-cases (lookup l values)) [
    | inl missing ↦ absurd (ground (arith, missing, h))
    | inr (value, found) ↦ elim (Option-cases (validate_field urlparse field value)) [
      | inl valid ↦
          (rw found valid, values_error-All field values ls (ground (arith, found, valid, h)))
      | inr (e, bad) ↦ absurd (ground (arith, found, bad, h))
    ]
  ]

  All-always : (P : Type 0) (ls : List String) → P → All (λ l. P) ls
  All-always P [] h = tt
  All-always P (l ∷ ls) h = (h, All-always P ls h)

  invalid_error-none : (e : Option FieldError) → invalid_error urlparse e ≡ none → e ≡ none
  invalid_error-none none h = refl
  invalid_error-none (some e) h = absurd (ground (arith, h))

  -- The value proposed for the locale is valid.
  abbrev pub Proposed : Request → String → Type 0
  Proposed r l = validate_field urlparse r.field (value_for l r.value r.values_by_locale) ≡ none

  proposal_error-Proposed :
      (r : Request) (o : Option (Dict (Option String)))
      → proposal_error urlparse r o ≡ none
      → All (λ l. validate_field urlparse r.field (value_for l r.value o) ≡ none) r.target_locales
  proposal_error-Proposed r none h =
      All-always (validate_field urlparse r.field r.value ≡ none) r.target_locales
        (invalid_error-none _ h)
  proposal_error-Proposed r (some values) h = values_error-All r.field values r.target_locales h

  validate_inputs-Proposed :
      (r : Request) → validate_inputs urlparse r ≡ none → All (Proposed r) r.target_locales
  unfolding validate_inputs
  validate_inputs-Proposed r h = proposal_error-Proposed r r.values_by_locale (ground (arith, h))

module _ (urlparse : String → Option (String × String)) (asc : Asc) where
  open asc use {Session}

  -- The result of a call that gets past the validation.
  abbrev pub Replayed :
      Request
      → Option State
      → Dict Row
      → Session
      → List (String × Outcome) × Dict Row × Session
      → Type 0
  Replayed r state rows s out =
      All (Proposed urlparse r) r.target_locales
      × (map target out.0 ≡ r.target_locales)
      × ((mem r.field (editable_set (editable_of state)) ≡ true) ⊎ ((out.1 ≡ rows) × (out.2 ≡ s)))

  -- The call gets past the validation and replays its plan.
  abbrev pub Planned :
      Request
      → Option State
      → Dict Row
      → Session
      → List (String × Outcome) × Dict Row × Session
      → Type 0
  Planned r state rows s out =
      (attribute : String) × (apply_plan asc r (kind_of r.field) attribute state
          (build_items r (kind_of r.field) rows state r.target_locales) rows s
        ≡ out)

  with_attribute-Planned :
      (r : Request) (state : Option State) (rows : Dict Row) (s : Session)
      {out : List (String × Outcome) × Dict Row × Session} (attribute : Option String)
      → with_attribute urlparse asc attribute r state rows s ≡ inr out
      → Planned r state rows s out
  with_attribute-Planned r state rows s none h = absurd (inl-ne-inr h)
  with_attribute-Planned r state rows s (some attribute) h = (attribute, inr-injective _ _ h)

  validated-Planned :
      (r : Request) (state : Option State) (rows : Dict Row) (s : Session)
      {out : List (String × Outcome) × Dict Row × Session} (e : Option InputError)
      → validated urlparse asc e r state rows s ≡ inr out
      → (e ≡ none) × Planned r state rows s out
  validated-Planned r state rows s (some e) h = absurd (inl-ne-inr h)
  validated-Planned r state rows s none h =
      (refl, with_attribute-Planned r state rows s (lookup r.field field_to_asc_attr) h)

  pub apply-Planned :
      (r : Request) (state : Option State) (rows : Dict Row) (s : Session)
      {out : List (String × Outcome) × Dict Row × Session}
      → apply urlparse asc r state rows s ≡ inr out
      → (validate_inputs urlparse r ≡ none) × Planned r state rows s out
  unfolding apply
  apply-Planned r state rows s h = validated-Planned r state rows s (validate_inputs urlparse r) h

  -- A bulk write that returns results has one for each target locale, in order, and every value it
  -- proposes is valid; it changes no row and makes no call unless the field is editable.
  pub apply-Replayed :
      (r : Request) (state : Option State) (rows : Dict Row) (s : Session)
      {out : List (String × Outcome) × Dict Row × Session}
      → apply urlparse asc r state rows s ≡ inr out
      → Replayed r state rows s out
  apply-Replayed r state rows s h =
      let (valid, (attribute, planned)) = apply-Planned r state rows s h in
      subst (Replayed r state rows s) planned (
        validate_inputs-Proposed urlparse r valid,
        apply_plan-targets asc r (kind_of r.field) attribute state rows r.target_locales s,
        apply_plan-locked asc r (kind_of r.field) attribute state _ rows s,
      )
