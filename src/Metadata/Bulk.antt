-- ===== src/Metadata/Bulk.antt =====
-- backend/app/services/metadata/bulk.py: one field written to many locales.
-- A skip reason or an error text is a constructor with what it reports.
-- The snapshot rows are a dictionary by locale; a row's other columns do not matter here.
pub mod Apply
pub mod Plan
pub mod Step
pub mod Mirror
mod Retry
mod Tests
use aso_light.Base.{
  ℕ, String, Bool, true, false, ◌&&◌, ◌||◌, not, Option, none, some, List, [], ◌∷◌, ◌++◌, ltb,
  str_eq, if◌then◌else◌, length, ◌⊎◌, inl, inr,
}
use aso_light.Base.Dict.{Dict, mem, lookup, insert}
use aso_light.Metadata.Validation.{FieldError, char_overflow, validate_field}
use aso_light.Metadata.Guard.{
  Kind, app_info, version, fields_by_kind, assert_fields_editable, editable_set,
}

abbrev pub max_bulk_target_locales : ℕ
max_bulk_target_locales = 50

-- A call of a bulk endpoint.
pub record Request : Type 0 where
  pub field : String
  pub value : Option String
  pub target_locales : List String
  pub values_by_locale : Option (Dict (Option String))
  pub create_missing : Bool
  pub force : Bool

-- The `ValueError` of `_validate_inputs`.
pub data InputError : Type 0 where
  unknown_field : InputError
  too_many : ℕ → InputError
  missing_value : String → InputError
  invalid : FieldError → InputError

-- What the service reads and writes of `AppMetadataLocalization` and `AppMetadataState`.
pub record Row : Type 0 where
  pub asc_localization_id : String
  pub columns : Dict (Option String)

pub record State : Type 0 where
  pub editable_fields : Option (List String)
  pub editable_version_state : Option String
  pub app_info_id : Option String
  pub editable_version_id : Option String

pub data Reason : Type 0 where
  unchanged : Reason
  overflow : ℕ → Reason
  not_editable : Option String → Reason
  missing_row : Kind → Reason
  locked : List String → Reason
  no_row : Reason
  no_parent : Kind → Reason
  promo_only : String → Reason
  state_locked : String → Reason

pub data Action : Type 0 where
  skip create update : Action

pub record Item : Type 0 where
  pub locale : String
  pub current_value : Option String
  pub new_value : Option String
  pub char_overflow_by : ℕ
  pub would_skip : Bool
  pub reason : Option Reason
  pub action : Action

abbrev pub flat : Option (Option String) → Option String
flat none = none
flat (some v) = v

-- `_value_for`
abbrev pub value_for : String → Option String → Option (Dict (Option String)) → Option String
value_for locale value none = value
value_for locale value (some values) = flat (lookup locale values)

-- `getattr(row, field, None) if row else None`
abbrev pub current_of : String → Option Row → Option String
current_of field none = none
current_of field (some row) = flat (lookup field row.columns)

abbrev pub same_value : Option String → Option String → Bool
same_value none none = true
same_value none (some v) = false
same_value (some v) none = false
same_value (some v) (some w) = str_eq v w

-- `editable_fields is not None and field not in editable_fields`
abbrev pub is_locked : String → Option State → Bool
is_locked field none = false
is_locked field (some state) = not (mem field (editable_set state.editable_fields))

abbrev pub version_state : Option State → Option String
version_state none = none
version_state (some state) = state.editable_version_state

abbrev pub is_missing : Option Row → Bool
is_missing none = true
is_missing (some row) = false

-- The `if`/`elif` chain of `_build_items`: the reason to skip.
unfoldable pub skip_reason :
    String → Kind → Option State → Bool → Option Row → Option String → Option Reason
skip_reason field kind state create_missing row new_value =
    if same_value (current_of field row) new_value
    then some unchanged
    else if ltb 0 (char_overflow field new_value)
    then some (overflow (char_overflow field new_value))
    else if is_locked field state
    then some (not_editable (version_state state))
    else if is_missing row && not create_missing
    then some (missing_row kind)
    else none

abbrev pub is_some : Option Reason → Bool
is_some none = false
is_some (some r) = true

-- `"skip"`, `"create"` or `"update"`
abbrev pub action_of : Option Reason → Option Row → Bool → Action
action_of (some r) row create_missing = skip
action_of none row create_missing = if is_missing row && create_missing then create else update

-- The body of the loop of `_build_items`.
unfoldable pub build_item : Request → Kind → Dict Row → Option State → String → Item
build_item r kind existing state locale =
    let row = lookup locale existing in
    let new_value = value_for locale r.value r.values_by_locale in
    let reason = skip_reason r.field kind state r.create_missing row new_value in
    record {
      locale = locale;
      current_value = current_of r.field row;
      new_value = new_value;
      char_overflow_by = char_overflow r.field new_value;
      would_skip = is_some reason;
      reason = reason;
      action = action_of reason row r.create_missing;
    }

-- `_build_items`
abbrev pub build_items : Request → Kind → Dict Row → Option State → List String → List Item
build_items r kind existing state [] = []
build_items r kind existing state (locale ∷ locales) =
    build_item r kind existing state locale ∷ build_items r kind existing state locales

-- Whether the reason is one that `force` overrides.
abbrev pub is_soft : Option Reason → Bool
is_soft (some unchanged) = true
is_soft _ = false

-- `_is_hard_skip`
unfoldable pub is_hard_skip : Item → Bool
is_hard_skip item = item.would_skip && not (is_soft item.reason)

abbrev pub kind_of : String → Kind
kind_of field = if mem field (fields_by_kind app_info) then app_info else version

module _ (urlparse : String → Option (String × String)) where
  abbrev pub invalid_error : Option FieldError → Option InputError
  invalid_error none = none
  invalid_error (some e) = some (invalid e)

  abbrev pub missing_error : String → Option (Option String) → String → Option InputError
  missing_error field none locale = some (missing_value locale)
  missing_error field (some value) locale = invalid_error (validate_field urlparse field value)

  -- The loop of `_validate_inputs` over the target locales.
  abbrev pub values_error : String → Dict (Option String) → List String → Option InputError
  values_error field values [] = none
  values_error field values (locale ∷ locales) =
      let rest = values_error field values locales in
      elim (missing_error field (lookup locale values) locale) [ none ↦ rest | some e ↦ some e ]

  abbrev pub proposal_error : Request → Option (Dict (Option String)) → Option InputError
  proposal_error r none = invalid_error (validate_field urlparse r.field r.value)
  proposal_error r (some values) = values_error r.field values r.target_locales

  -- `_validate_inputs`: the error, or none; the kind is `kind_of`.
  unfoldable pub validate_inputs : Request → Option InputError
  validate_inputs r =
      if not (mem r.field (fields_by_kind app_info ++ fields_by_kind version))
      then some unknown_field
      else if ltb max_bulk_target_locales (length r.target_locales)
      then some (too_many (length r.target_locales))
      else proposal_error r r.values_by_locale

  abbrev pub planned :
      Option InputError → Request → Dict Row → Option State → InputError ⊎ List Item
  planned (some error) r existing state = inl error
  planned none r existing state =
      inr (build_items r (kind_of r.field) existing state r.target_locales)

  unfoldable pub preview : Request → Dict Row → Option State → InputError ⊎ List Item
  preview r existing state = planned (validate_inputs r) r existing state
