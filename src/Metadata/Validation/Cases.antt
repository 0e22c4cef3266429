-- ===== src/Metadata/Validation/Cases.antt =====
-- backend/app/services/metadata/validation.py: exactly which values are valid.
use Prim.Native.String.{count}
use aso_light.Base.{
  arith, ℕ, ◌≤◌, String, true, false, ◌≡◌, refl, ◌↔◌, ◌⊎◌, inl, inr, Option, none, some, eq_iff,
  str_eq, Bool-cases,
}
use aso_light.Base.Dict.{mem, lookup}
use aso_light.Metadata.Validation.{
  field_char_limits, url_fields, all_fields, char_overflow, is_valid_url, validate_field,
  over_error, beyond,
}

-- The text is within the limit, where there is one.
abbrev pub IsWithin : Option ℕ → String → Type 0
IsWithin none value = Unit
IsWithin (some limit) value = count value ≤ limit

beyond_iff : (o : Option ℕ) (value : String) → (beyond o value ≡ 0) ↔ IsWithin o value
beyond_iff none value = (λ h. tt, λ h. refl)
beyond_iff (some limit) value = (λ h. omega (arith, h), λ h. omega (arith, h))

module _ (urlparse : String → Option (String × String)) where
  -- The text may be stored in the field.
  abbrev pub Fits : String → String → Type 0
  Fits field value =
      ((mem field url_fields ≡ true) × (is_valid_url urlparse value ≡ true) × (count value ≤ 1024))
      ⊎ ((mem field url_fields ≡ false) × IsWithin (lookup field field_char_limits) value)

  over_error_iff : (n : ℕ) → (over_error urlparse n ≡ none) ↔ (n ≡ 0)
  over_error_iff n = (λ h. ground (arith, h), λ h. ground (arith, h))

  -- A value is accepted exactly when the field is known and the value is empty, or a URL field's
  -- value is an http(s) URL with a host of at most 1024 characters, or another field's value is
  -- within its limit.
  pub validate_field-Fits :
      (field : String) (value : String)
      → (validate_field urlparse field (some value) ≡ none)
        ↔ ((mem field all_fields ≡ true) × ((value ≡ "") ⊎ Fits field value))
  unfolding validate_field char_overflow
  validate_field-Fits field value = elim (Bool-cases (mem field all_fields)) [
    | inr foreign ↦
        (λ h. absurd (ground (arith, h, foreign)), λ h. absurd (ground (arith, h, foreign)))
    | inl known ↦ elim (Bool-cases (str_eq value "")) [
      | inl empty ↦
          (λ h. (known, inl (ground (arith, eq_iff value "", empty))), λ h. rw (known, empty) refl)
      | inr full ↦ elim (Bool-cases (mem field url_fields)) [
        | inl url ↦ (
          λ h. (
            known,
            inr (
                inl
                  (url, ground (arith, h, known, full, url), ground (arith, h, known, full, url))),
          ),
          λ h. ground (arith, h.1, known, full, url, eq_iff value ""),
        )
        | inr text ↦ (
          λ h. (
            known,
            inr (inr (text, (beyond_iff _ value).0 (ground (arith, h, known, full, text)))),
          ),
          λ h. ground (
            arith,
            h.1,
            known,
            full,
            text,
            eq_iff value "",
            (beyond_iff (lookup field field_char_limits) value).1,
          ),
        )
      ]
    ]
  ]
