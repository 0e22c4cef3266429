-- ===== src/Metadata/Bulk/Tests.antt =====
-- backend/app/services/metadata/bulk.py: a subtitle sent to three locales.
use aso_light.Base.{
  ℕ, suc, String, true, false, ◌≡◌, refl, Option, none, some, List, [], ◌∷◌, inr, str_eq,
}
use aso_light.Base.Dict.{Dict}
use aso_light.Metadata.Validation.{
  field_char_limits, url_fields, all_fields, char_overflow, validate_field,
}
use aso_light.Metadata.Guard.{assert_fields_editable}
use aso_light.Metadata.Bulk.{
  Request, Row, State, unchanged, build_item, skip_reason, validate_inputs, is_hard_skip,
}
use aso_light.Metadata.Bulk.Apply.{
  Asc, answered, api_error, asc_error, Outcome, applied, skipped, failed, apply, apply_plan,
  apply_items, apply_item, field_to_asc_attr,
}
use aso_light.Metadata.Bulk.Plan.{Replayed, apply-Replayed}
use aso_light.Metadata.Bulk.Retry.{Settled, apply-Settled}

-- The service counts its calls and refuses one locale.
abbrev counting : Asc
counting = record {
  Session = ℕ;
  post = λ kind parent locale attribute value s. (answered (some "loc-new"), suc s);
  patch = λ kind i attribute value s. elim (str_eq i "loc-2") [
    | true ↦ (api_error "rate limited", suc s)
    | false ↦ (answered tt, suc s)
  ];
}

abbrev no_url : String → Option (String × String)
no_url text = none

abbrev request : Request
request = record {
  field = "subtitle";
  value = some "Photo editor";
  target_locales = "en-US" ∷ "de-DE" ∷ "fr-FR" ∷ "ja" ∷ [];
  values_by_locale = none;
  create_missing = true;
  force = false;
}

abbrev state : State
state = record {
  editable_fields = some ("name" ∷ "subtitle" ∷ []);
  editable_version_state = some "PREPARE_FOR_SUBMISSION";
  app_info_id = some "info-1";
  editable_version_id = none;
}

abbrev row : String → String → Row
row i text = record { asc_localization_id = i; columns = ("subtitle", some text) ∷ [] }

abbrev rows : Dict Row
rows =
    ("en-US", row "loc-1" "Photos")
    ∷ ("de-DE", row "loc-2" "Fotos")
    ∷ ("fr-FR", row "loc-3" "Photo editor")
    ∷ []

abbrev results : List (String × Outcome)
results =
    ("en-US", applied)
    ∷ ("de-DE", failed (asc_error "rate limited"))
    ∷ ("fr-FR", skipped (some unchanged))
    ∷ ("ja", applied)
    ∷ []

abbrev rows_after : Dict Row
rows_after =
    ("en-US", row "loc-1" "Photo editor")
    ∷ ("de-DE", row "loc-2" "Fotos")
    ∷ ("fr-FR", row "loc-3" "Photo editor")
    ∷ ("ja", row "loc-new" "Photo editor")
    ∷ []

returns : apply no_url counting request (some state) rows 0 ≡ inr (results, rows_after, 3)
unfolding apply apply_plan apply_items apply_item validate_inputs validate_field char_overflow
    all_fields url_fields field_char_limits field_to_asc_attr assert_fields_editable build_item
    skip_reason is_hard_skip
returns = refl

apply-Replayed_example :
    Replayed no_url counting request (some state) rows 0 (results, rows_after, 3)
apply-Replayed_example = apply-Replayed no_url counting request (some state) rows 0 returns

apply-Settled_example : Settled request (some state) rows results rows_after "ja"
apply-Settled_example = apply-Settled no_url counting request (some state) rows 0 returns "ja"
