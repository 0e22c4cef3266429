-- ===== src/Metadata/Validation/Tests.antt =====
-- backend/app/services/metadata/validation.py: values at and beyond the limits.
use aso_light.Base.{String, Option, none, some, ◌≡◌, refl, ◌↔◌, ◌⊎◌, true}
use aso_light.Base.Dict.{mem}
use aso_light.Metadata.Validation.{
  validate_field, char_overflow, all_fields, url_fields, field_char_limits, over,
}
use aso_light.Metadata.Validation.Cases.{Fits, validate_field-Fits}

-- A parser that takes every text for the host of a secure URL.
abbrev secure : String → Option (String × String)
secure text = some ("https", text)

too_long : validate_field secure "name" (some "a name that is longer than thirty") ≡ some (over 3)
unfolding validate_field char_overflow all_fields url_fields field_char_limits
too_long = refl

validate_field-Fits_example : (validate_field secure "support_url" (some "example.org") ≡ none) ↔ (
    (mem "support_url" all_fields ≡ true)
    × ((◌≡◌ {A = String} "example.org" "") ⊎ Fits secure "support_url" "example.org"))
validate_field-Fits_example = validate_field-Fits secure "support_url" "example.org"
