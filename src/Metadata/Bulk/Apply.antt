-- ===== src/Metadata/Bulk/Apply.antt =====
-- backend/app/services/metadata/bulk.py, `apply`, with the state guard of metadata/client.py.
-- The HTTP calls of `ASCMetadataService` are the record `Asc`: its session is explicit, and a call
-- answers or fails with the two classes of errors that `apply` tells apart. A created resource is
-- its id, where it has one. Commits of the database are not modelled.
use aso_light.Base.{
  String, Bool, true, false, ◌&&◌, ◌||◌, not, Option, none, some, List, [], ◌∷◌, str_eq,
  if◌then◌else◌, ◌⊎◌, inl, inr,
}
use aso_light.Base.Dict.{Dict, mem, lookup, insert}
use aso_light.Metadata.Guard.{Kind, app_info, version, assert_fields_editable}
use aso_light.Metadata.Bulk.{
  Request, InputError, unknown_field, Row, State, Reason, locked, no_row, no_parent, promo_only,
  state_locked, Action, create, Item, build_items, is_hard_skip, kind_of, validate_inputs,
  version_state,
}

-- `EDITABLE_VERSION_STATES`
abbrev pub editable_version_states : List String
editable_version_states =
    "PREPARE_FOR_SUBMISSION" ∷ "READY_FOR_REVIEW" ∷ "DEVELOPER_REJECTED" ∷ "REJECTED"
    ∷ "METADATA_REJECTED" ∷ []

-- `READ_ONLY_VERSION_STATES_PROMO_ONLY`
abbrev pub promo_only_states : List String
promo_only_states = "READY_FOR_SALE" ∷ "READY_FOR_DISTRIBUTION" ∷ "PENDING_DEVELOPER_RELEASE" ∷ []

-- `_guard_version_localization_update` on one attribute
abbrev pub guard_update : Option String → String → Option Reason
guard_update none attribute = none
guard_update (some state) attribute =
    if mem state editable_version_states
    then none
    else if mem state promo_only_states
    then (if str_eq attribute "promotionalText" then none else some (promo_only state))
    else some (state_locked state)

-- `FIELD_TO_ASC_ATTR`
unfoldable pub field_to_asc_attr : Dict String
field_to_asc_attr =
    ("name", "name")
    ∷ ("subtitle", "subtitle")
    ∷ ("privacy_policy_url", "privacyPolicyUrl")
    ∷ ("description", "description")
    ∷ ("keywords", "keywords")
    ∷ ("promotional_text", "promotionalText")
    ∷ ("whats_new", "whatsNew")
    ∷ ("marketing_url", "marketingUrl")
    ∷ ("support_url", "supportUrl")
    ∷ []

pub data Reply (A : Type 0) : Type 0 where
  answered : A → Reply A
  api_error : String → Reply A
  unexpected : Reply A

pub record Asc : Type 1 where
  pub Session : Type 0
  pub post :
      Kind → String → String → String → Option String → Session → Reply (Option String) × Session
  pub patch : Kind → String → String → Option String → Session → Reply Unit × Session

pub data Failure : Type 0 where
  no_id unexpected_error : Failure
  asc_error : String → Failure

-- The status and error of `BulkApplyResult`.
pub data Outcome : Type 0 where
  applied : Outcome
  skipped : Option Reason → Outcome
  failed : Failure → Outcome

abbrev pub is_create : Action → Bool
is_create create = true
is_create _ = false

abbrev pub parent_of : Kind → Option State → Option String
parent_of kind none = none
parent_of app_info (some state) = state.app_info_id
parent_of version (some state) = state.editable_version_id

-- `setattr(row, field, new_value)`
abbrev pub written : String → Option String → Row → Row
written field value row = record row { columns = insert field value row.columns }

abbrev pub has_id : Option String → Bool
has_id none = false
has_id (some i) = not (str_eq i "")

abbrev pub id_of : Option String → String
id_of none = ""
id_of (some i) = i

-- `editable_fields_json` of the state row, if there is one
abbrev pub editable_of : Option State → Option (List String)
editable_of none = none
editable_of (some st) = st.editable_fields

module _ (asc : Asc) (r : Request) (kind : Kind) (attribute : String) (state : Option State) where
  open asc use {Session, post, patch}

  -- The result of one locale, the rows and the session after it.
  abbrev pub Stepped : Type 0
  Stepped = Outcome × Dict Row × Session

  -- What follows `_create_locale`.
  abbrev pub created : Item → Dict Row → Reply (Option String) × Session → Stepped
  created item rows (answered i, s) =
      if has_id i
      then (
        applied,
        insert item.locale
            (written r.field item.new_value
              (record { asc_localization_id = id_of i; columns = [] }))
            rows,
        s,
      )
      else (failed no_id, rows, s)
  created item rows (api_error m, s) = (failed (asc_error m), rows, s)
  created item rows (unexpected, s) = (failed unexpected_error, rows, s)

  -- What follows `_patch_locale`.
  abbrev pub patched : Item → Row → Dict Row → Reply Unit × Session → Stepped
  patched item row rows (answered i, s) =
      (applied, insert item.locale (written r.field item.new_value row) rows, s)
  patched item row rows (api_error m, s) = (failed (asc_error m), rows, s)
  patched item row rows (unexpected, s) = (failed unexpected_error, rows, s)

  -- The guard of the client stands only before the update of a version localization.
  abbrev pub update_guard : Kind → Option Reason
  update_guard app_info = none
  update_guard version = guard_update (version_state state) attribute

  abbrev pub update_row : Option Reason → Item → Row → Dict Row → Session → Stepped
  update_row (some reason) item row rows s = (skipped (some reason), rows, s)
  update_row none item row rows s =
      patched item row rows (patch kind row.asc_localization_id attribute item.new_value s)

  abbrev pub create_row : Option String → Item → Dict Row → Session → Stepped
  create_row none item rows s = (skipped (some (no_parent kind)), rows, s)
  create_row (some parent) item rows s =
      created item rows (post kind parent item.locale attribute item.new_value s)

  abbrev pub attempt : Option Row → Item → Dict Row → Session → Stepped
  attempt none item rows s =
      if is_create item.action
      then create_row (parent_of kind state) item rows s
      else (skipped (some no_row), rows, s)
  attempt (some row) item rows s = update_row (update_guard kind) item row rows s

  -- One round of the loop of `apply`.
  unfoldable pub apply_item : Item → Dict Row → Session → Stepped
  apply_item item rows s =
      if item.would_skip && (not r.force || is_hard_skip item)
      then (skipped item.reason, rows, s)
      else attempt (lookup item.locale rows) item rows s

  -- The loop of `apply`.
  unfoldable pub apply_items :
      List Item → Dict Row → Session → List (String × Outcome) × Dict Row × Session
  apply_items [] rows s = ([], rows, s)
  apply_items (item ∷ items) rows s =
      let (outcome, rows', s') = apply_item item rows s in
      let (results, rows'', s'') = apply_items items rows' s' in
      ((item.locale, outcome) ∷ results, rows'', s'')

  abbrev pub all_locked : List String → List Item → List (String × Outcome)
  all_locked fields [] = []
  all_locked fields (item ∷ items) =
      (item.locale, skipped (some (locked fields))) ∷ all_locked fields items

  -- What follows `assert_fields_editable`: with locked fields every locale is skipped.
  abbrev pub replay :
      Option (List String)
      → List Item
      → Dict Row
      → Session
      → List (String × Outcome) × Dict Row × Session
  replay none plan rows s = apply_items plan rows s
  replay (some fields) plan rows s = (all_locked fields plan, rows, s)

  -- The part of `apply` after the plan is built.
  unfoldable pub apply_plan :
      List Item → Dict Row → Session → List (String × Outcome) × Dict Row × Session
  apply_plan plan rows s =
      replay (assert_fields_editable (editable_of state) (r.field ∷ [])) plan rows s

module _ (urlparse : String → Option (String × String)) (asc : Asc) where
  open asc use {Session}

  abbrev pub with_attribute :
      Option String
      → Request
      → Option State
      → Dict Row
      → Session
      → InputError ⊎ (List (String × Outcome) × Dict Row × Session)
  with_attribute none r state rows s = inl unknown_field
  with_attribute (some attribute) r state rows s = inr (
      apply_plan asc r (kind_of r.field) attribute state
        (build_items r (kind_of r.field) rows state r.target_locales) rows s)

  abbrev pub validated :
      Option InputError
      → Request
      → Option State
      → Dict Row
      → Session
      → InputError ⊎ (List (String × Outcome) × Dict Row × Session)
  validated (some error) r state rows s = inl error
  validated none r state rows s = with_attribute (lookup r.field field_to_asc_attr) r state rows s

  -- `apply`; a `ValueError` or `KeyError` leaves on the left.
  unfoldable pub apply :
      Request
      → Option State
      → Dict Row
      → Session
      → InputError ⊎ (List (String × Outcome) × Dict Row × Session)
  apply r state rows s = validated (validate_inputs urlparse r) r state rows s
