-- ===== src/Metadata/Guard.antt =====
-- backend/app/services/metadata/guard.py: no field is written that is not editable now.
-- The query's result, `editable_fields_json` or nothing, is an argument. The error
-- `FieldsNotEditableError` is the list of the locked fields.
mod Tests
use aso_light.Base.{
  arith, String, Bool, true, false, ◌≡◌, refl, ◌↔◌, not, ◌||◌, Option, none, some, List, [], ◌∷◌,
  keep, All, if◌then◌else◌, str_eq, inl, inr, Bool-cases,
}
use aso_light.Base.Dict.{mem}

-- The two localization kinds.
pub data Kind : Type 0 where
  app_info version : Kind

-- `_FIELDS_BY_KIND`
abbrev pub fields_by_kind : Kind → List String
fields_by_kind app_info = "name" ∷ "subtitle" ∷ "privacy_policy_url" ∷ []
fields_by_kind version =
    "description" ∷ "keywords" ∷ "promotional_text" ∷ "whats_new" ∷ "marketing_url" ∷ "support_url"
    ∷ []

-- `editable_fields_json or []`
abbrev pub editable_set : Option (List String) → List String
editable_set none = []
editable_set (some fields) = fields

abbrev pub raised : List String → Option (List String)
raised [] = none
raised (field ∷ fields) = some (field ∷ fields)

-- `assert_fields_editable`: the locked fields, where it raises
unfoldable pub assert_fields_editable : Option (List String) → List String → Option (List String)
assert_fields_editable editable attempted =
    raised (keep (λ field. not (mem field (editable_set editable))) attempted)

unfoldable pub attempted_fields_for : Kind → List String → List String
attempted_fields_for kind set_fields = keep (λ field. mem field (fields_by_kind kind)) set_fields

unfoldable pub assert_body_fields_editable :
    Option (List String) → Kind → List String → Option (List String)
assert_body_fields_editable editable kind set_fields =
    assert_fields_editable editable (attempted_fields_for kind set_fields)

-- The state row's list holds the field; without a list nothing is editable.
abbrev pub is_editable : Option (List String) → String → Bool
is_editable none field = false
is_editable (some fields) field = mem field fields

-- If the field belongs to the kind, it is editable.
abbrev pub Allowed : Option (List String) → Kind → String → Type 0
Allowed editable kind field =
    (not (mem field (fields_by_kind kind)) || is_editable editable field) ≡ true

kept_none :
    (p q : String → Bool) (fields : List String)
    → (keep (λ f. not (q f)) (keep p fields) ≡ []) ↔ All (λ f. (not (p f) || q f) ≡ true) fields
kept_none p q [] = (λ h. tt, λ h. refl)
kept_none p q (field ∷ fields) = elim (Bool-cases (p field)) [
  | inr other ↦
      rw other (λ h. (refl, (kept_none p q fields).0 h), λ h. (kept_none p q fields).1 h.1)
  | inl own ↦ elim (Bool-cases (q field)) [
    | inl free ↦
        rw (own, free) (λ h. (refl, (kept_none p q fields).0 h), λ h. (kept_none p q fields).1 h.1)
    | inr locked ↦
        rw (own, locked) (λ h. absurd (ground (arith, h)), λ h. absurd (ground (arith, h.0)))
  ]
]

raised-none : (fields : List String) → (raised fields ≡ none) ↔ (fields ≡ [])
raised-none [] = (λ h. refl, λ h. refl)
raised-none (field ∷ fields) = (λ h. absurd (ground (arith, h)), λ h. absurd (ground (arith, h)))

unlocked :
    (q p : String → Bool) (fields : List String)
    → (raised (keep (λ f. not (q f)) (keep p fields)) ≡ none)
      ↔ All (λ f. (not (p f) || q f) ≡ true) fields
unlocked q p fields =
    let locked = keep (λ f. not (q f)) (keep p fields) in
    (
      λ h. (kept_none p q fields).0 ((raised-none locked).0 h),
      λ h. (raised-none locked).1 ((kept_none p q fields).1 h),
    )

-- A write body passes the guard exactly when every set field that belongs to the kind is editable;
-- without a state row, or with a null list, only when it sets no field of the kind.
pub assert_body_fields_editable-Allowed :
    (editable : Option (List String)) (kind : Kind) (set_fields : List String)
    → (assert_body_fields_editable editable kind set_fields ≡ none)
      ↔ All (Allowed editable kind) set_fields
unfolding assert_body_fields_editable assert_fields_editable attempted_fields_for
assert_body_fields_editable-Allowed none kind set_fields =
    unlocked (λ f. false) (λ f. mem f (fields_by_kind kind)) set_fields
assert_body_fields_editable-Allowed (some fields) kind set_fields =
    unlocked (λ f. mem f fields) (λ f. mem f (fields_by_kind kind)) set_fields
