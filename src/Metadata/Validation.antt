-- ===== src/Metadata/Validation.antt =====
-- backend/app/services/metadata/validation.py: limits and the validation of one field.
-- `urllib.parse.urlparse` is an argument: it gives the scheme and the network location, or nothing
-- where it raises. An error message is a constructor with what the text reports.
pub mod Cases
mod Tests
use Prim.Native.String.{count}
use aso_light.Base.{
  ℕ, ◌-◌, String, Bool, true, false, ◌&&◌, not, Option, none, some, List, [], ◌∷◌, ◌++◌, map, ltb,
  str_eq, if◌then◌else◌,
}
use aso_light.Base.Dict.{Dict, mem, lookup}

-- `FIELD_CHAR_LIMITS`
unfoldable pub field_char_limits : Dict ℕ
field_char_limits =
    ("name", 30)
    ∷ ("subtitle", 30)
    ∷ ("description", 4000)
    ∷ ("keywords", 100)
    ∷ ("promotional_text", 170)
    ∷ ("whats_new", 4000)
    ∷ []

-- `URL_FIELDS`
unfoldable pub url_fields : List String
url_fields = "marketing_url" ∷ "support_url" ∷ "privacy_policy_url" ∷ []

abbrev key : String × ℕ → String
key e = e.0

-- `ALL_FIELDS`
unfoldable pub all_fields : List String
all_fields = map key field_char_limits ++ url_fields

abbrev pub beyond : Option ℕ → String → ℕ
beyond none value = 0
beyond (some limit) value = count value - limit

-- `char_overflow`; the subtraction stops at 0, as the source's last test does.
unfoldable pub char_overflow : String → Option String → ℕ
char_overflow field none = 0
char_overflow field (some value) = beyond (lookup field field_char_limits) value

-- The message of `validate_field`.
pub data FieldError : Type 0 where
  unknown : FieldError
  not_url : FieldError
  long_url : FieldError
  over : ℕ → FieldError

module _ (urlparse : String → Option (String × String)) where
  abbrev pub has_host : Option (String × String) → Bool
  has_host none = false
  has_host (some (scheme, netloc)) = mem scheme ("http" ∷ "https" ∷ []) && not (str_eq netloc "")

  unfoldable pub is_valid_url : String → Bool
  is_valid_url value = if str_eq value "" then false else has_host (urlparse value)

  abbrev pub over_error : ℕ → Option FieldError
  over_error n = if ltb 0 n then some (over n) else none

  abbrev pub validate_text : String → String → Option FieldError
  validate_text field value =
      if str_eq value ""
      then none
      else if mem field url_fields
      then (if not (is_valid_url value)
          then some not_url
          else if ltb 1024 (count value)
          then some long_url
          else none)
      else over_error (char_overflow field (some value))

  abbrev pub validate_value : String → Option String → Option FieldError
  validate_value field none = none
  validate_value field (some value) = validate_text field value

  -- `validate_field`: the error, or none where the field is valid.
  unfoldable pub validate_field : String → Option String → Option FieldError
  validate_field field value =
      if not (mem field all_fields) then some unknown else validate_value field value
