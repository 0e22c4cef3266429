-- ===== src/Metadata/Audit/Fields.antt =====
-- backend/app/services/aso_check/audit.py, `_check_per_locale_fields`: the errors of a locale's fields.
use Prim.Native.String.{count}
use aso_light.Base.{
  ℕ, String, Bool, true, false, not, ◌&&◌, ◌||◌, ◌≡◌, refl, sym, ap, subst, ◌*◌, ◌∙◌, arith, eq_iff,
  some, List, [], ◌∷◌, ◌++◌, any, all, str_eq, ltb, leb, inl, inr, Bool-cases, if◌then◌else◌,
}
use aso_light.Base.Dict.{lookup, mem}
use aso_light.Metadata.Validation.{field_char_limits}
use aso_light.Metadata.Audit.{
  Localization, error, warning, info, near_limit, underused, Issue, issue, flat_map, row_for,
  value_in, length_audit, limited_audit, field_audit, required_app_info, required_version,
  required_audit, promotional_audit, locale_audit,
}

abbrev pub is_error : Issue → Bool
is_error i = elim i.severity [ error ↦ true | warning ↦ false | info ↦ false ]

-- A text that is there, within its limit
abbrev pub fits : ℕ → String → Bool
fits limit value = not (str_eq value "") && leb (count value) limit

-- What a locale needs.
abbrev pub is_complete : List Localization → List Localization → String → Bool
is_complete app_info versions locale =
    let ai = row_for app_info "app_info" locale in
    let ver = row_for versions "version" locale in
    fits 30 (value_in "name" ai)
    && fits 30 (value_in "subtitle" ai)
    && fits 4000 (value_in "description" ver)
    && fits 100 (value_in "keywords" ver)
    && leb (count (value_in "promotional_text" ver)) 170

pub any-append :
    (xs ys : List Issue) → any is_error (xs ++ ys) ≡ (any is_error xs || any is_error ys)
any-append [] ys = refl
any-append (x ∷ xs) ys = ground (arith, any-append xs ys)

pub any-flat_map :
    {A : Type 0} (f : A → List Issue) (xs : List A)
    → any is_error (flat_map f xs) ≡ any (λ x. any is_error (f x)) xs
any-flat_map f [] = refl
any-flat_map f (x ∷ xs) =
    any-append (f x) (flat_map f xs) ∙ ap (λ b. any is_error (f x) || b) (any-flat_map f xs)

-- Rules that only warn
pub no_errors-flat_map :
    {A : Type 0} (f : A → List Issue) (xs : List A)
    → ((x : A) → any is_error (f x) ≡ false)
    → any is_error (flat_map f xs) ≡ false
no_errors-flat_map f [] h = refl
no_errors-flat_map f (x ∷ xs) h =
    any-append (f x) (flat_map f xs) ∙ (rw (h x, no_errors-flat_map f xs h) refl)

pub any-not :
    {A : Type 0} (p q : A → Bool) (xs : List A)
    → ((x : A) → p x ≡ not (q x))
    → any p xs ≡ not (all q xs)
any-not p q [] h = refl
any-not p q (x ∷ xs) h = ground (arith, h x, any-not p q xs h)

short_audit-warns :
    (locale field : String) (limit used : ℕ) (b c : Bool)
    → any is_error (
        if b
        then issue warning locale field (near_limit used limit) ∷ []
        else if c
        then issue info locale field (underused used limit) ∷ []
        else [])
      ≡ false
short_audit-warns locale field limit used true c = refl
short_audit-warns locale field limit used false true = refl
short_audit-warns locale field limit used false false = refl

length_audit-error :
    (locale field : String) (limit used : ℕ)
    → any is_error (length_audit locale field limit used) ≡ ltb limit used
length_audit-error locale field limit used = elim (Bool-cases (ltb limit used)) [
  | inl long ↦ rw long refl
  | inr short ↦ rw short (
      short_audit-warns locale field limit used (leb (95 * limit) (100 * used))
        (ltb (2 * used) limit && mem field ("keywords" ∷ "subtitle" ∷ "name" ∷ [])))
]

ltb-not : (m n : ℕ) → ltb m n ≡ not (leb n m)
ltb-not m n = ground arith

-- A required field is in error exactly if it is missing or too long.
limited-fits :
    (locale field value : String) (limit : ℕ)
    → any is_error (limited_audit locale field value false (some limit)) ≡ not (fits limit value)
limited-fits locale field value limit = elim (Bool-cases (str_eq value "")) [
  | inl missing ↦ rw missing refl
  | inr there ↦
      rw there (length_audit-error locale field limit (count value) ∙ ltb-not limit (count value))
]

promotional-fits :
    (locale value : String)
    → any is_error (promotional_audit locale value) ≡ not (leb (count value) 170)
unfolding field_audit field_char_limits
promotional-fits locale value = elim (Bool-cases (str_eq value "")) [
  | inl missing ↦
      rw missing
        (subst (λ v. false ≡ not (leb (count v) 170)) (sym ((eq_iff value "").0 missing)) refl)
  | inr there ↦
      rw there
        (length_audit-error locale "promotional_text" 170 (count value) ∙ ltb-not 170 (count value))
]

field_audit-fits :
    (locale field value : String) (limit : ℕ)
    → lookup field field_char_limits ≡ some limit
    → any is_error (field_audit locale field value false) ≡ not (fits limit value)
unfolding field_audit
field_audit-fits locale field value limit known = rw known (limited-fits locale field value limit)

some_missing :
    (a b c d e : Bool)
    → ((not a || (not b || false)) || ((not c || (not d || false)) || not e))
      ≡ not (a && b && c && d && e)
some_missing false b c d e = refl
some_missing true false c d e = refl
some_missing true true false d e = refl
some_missing true true true false e = refl
some_missing true true true true e = refl

pub any-append3 :
    (a b c : List Issue)
    → any is_error (a ++ b ++ c) ≡ (any is_error a || (any is_error b || any is_error c))
any-append3 [] [] c = refl
any-append3 [] (y ∷ b) c = ground (arith, any-append3 [] b c)
any-append3 (y ∷ a) b c = ground (arith, any-append3 a b c)

limits :
    (lookup "name" field_char_limits ≡ some 30)
    × (lookup "subtitle" field_char_limits ≡ some 30)
    × (lookup "description" field_char_limits ≡ some 4000)
    × (lookup "keywords" field_char_limits ≡ some 100)
unfolding field_char_limits
limits = (refl, refl, refl, refl)

pub locale_audit-is_complete :
    (app_info versions : List Localization) (locale : String)
    → any is_error (locale_audit app_info versions locale)
      ≡ not (is_complete app_info versions locale)
locale_audit-is_complete app_info versions locale =
    let ai = row_for app_info "app_info" locale in
    let ver = row_for versions "version" locale in
    any-append3 (flat_map (required_audit locale ai) required_app_info)
      (flat_map (required_audit locale ver) required_version)
      (promotional_audit locale (value_in "promotional_text" ver))
    ∙ (rw
        (
          any-flat_map (required_audit locale ai) required_app_info,
          any-flat_map (required_audit locale ver) required_version,
          field_audit-fits locale "name" (value_in "name" ai) 30 limits.0,
          field_audit-fits locale "subtitle" (value_in "subtitle" ai) 30 limits.1,
          field_audit-fits locale "description" (value_in "description" ver) 4000 limits.2,
          field_audit-fits locale "keywords" (value_in "keywords" ver) 100 limits.3,
          promotional-fits locale (value_in "promotional_text" ver),
        )
        (some_missing (fits 30 (value_in "name" ai)) (fits 30 (value_in "subtitle" ai))
          (fits 4000 (value_in "description" ver)) (fits 100 (value_in "keywords" ver))
          (leb (count (value_in "promotional_text" ver)) 170)))
