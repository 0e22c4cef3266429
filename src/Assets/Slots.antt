-- ===== src/Assets/Slots.antt =====
-- backend/app/services/asc/asset_sync.py: the assets of a set against the files of an export.
-- A path is its name; a file's bytes are read by Client.
pub mod Skip
use aso_light.Base.{
  ℕ, zero, suc, ◌+◌, ◌-◌, ◌<◌, String, Bool, true, false, not, ◌&&◌, ◌||◌, Option, none, some, List,
  [], ◌∷◌, map, length, str_eq, eqb, if◌then◌else◌, keep,
}
use aso_light.Base.Dict.{Dict, mem}

-- An entry of `errors` of a delivery state.
pub record DeliveryError : Type 0 where
  pub description : Option String
  pub code : Option String

pub record Delivery : Type 0 where
  pub state : Option String
  pub errors : Option (List DeliveryError)

pub record Attributes : Type 0 where
  pub file_name : Option String
  pub delivery : Option Delivery
  pub source_file_checksum : Option String
  pub file_size : Option ℕ

-- A raw asset resource.
pub record Resource : Type 0 where
  pub id : Option String
  pub attributes : Option Attributes

-- What `shape_asset` returns.
pub record Asset : Type 0 where
  pub id : String
  pub file_name : Option String
  pub state : Option String
  pub checksum : Option String
  pub file_size : Option ℕ
  pub errors : List String

-- `a or b` on texts
abbrev pub or_text : Option String → String → String
or_text none b = b
or_text (some a) b = if str_eq a "" then b else a

abbrev pub error_text : DeliveryError → String
error_text e = or_text e.description (or_text e.code "unknown error")

abbrev pub no_attributes : Attributes
no_attributes = record {
  file_name = none;
  delivery = none;
  source_file_checksum = none;
  file_size = none;
}

abbrev pub no_delivery : Delivery
no_delivery = record { state = none; errors = none }

abbrev pub or_else {ℓ} : {A : Type ℓ} → Option A → A → A
or_else none b = b
or_else (some a) b = a

unfoldable pub shape_asset : Resource → Asset
shape_asset r =
    let attrs = or_else r.attributes no_attributes in
    let delivery = or_else attrs.delivery no_delivery in
    record {
      id = or_else r.id "";
      file_name = attrs.file_name;
      state = delivery.state;
      checksum = attrs.source_file_checksum;
      file_size = attrs.file_size;
      errors = map error_text (or_else delivery.errors []);
    }

-- `ExportFile`; `path` is the full path and `name` its last part.
pub record ExportFile : Type 0 where
  pub path : String
  pub name : String
  pub md5 : String
  pub size : ℕ
  pub attributes : Dict String

-- `==` on values that may be absent, with a value that is there
abbrev pub is_text : Option String → String → Bool
is_text none t = false
is_text (some s) t = str_eq s t

abbrev pub is_number : Option ℕ → ℕ → Bool
is_number none n = false
is_number (some m) n = eqb m n

abbrev pub is_absent : Option String → Bool
is_absent none = true
is_absent (some s) = false

-- `state not in _NOT_PROCESSING_STATES`
abbrev pub in_progress : Option String → Bool
in_progress none = false
in_progress (some s) = not (mem s ("AWAITING_UPLOAD" ∷ "FAILED" ∷ []))

-- `_slot_processing`
unfoldable pub slot_processing : Asset → ExportFile → Bool
slot_processing a f =
    is_absent a.checksum
    && in_progress a.state
    && is_text a.file_name f.name
    && is_number a.file_size f.size

-- `_slot_matches`
unfoldable pub slot_matches : Asset → ExportFile → Bool
slot_matches a f =
    (not (is_text a.state "FAILED") && is_text a.checksum f.md5) || slot_processing a f

-- `SyncStep`, one locale and set type, or one error row
pub record SyncStep : Type 0 where
  pub locale : String
  pub display_type : Option String
  pub files : List ExportFile
  pub error : Option String
  pub localization_id : Option String
  pub set_id : Option String
  pub existing : List Asset
  pub failed : Option String

-- The number of the entries of `_changed()`, and of those below `len(self.existing)`
abbrev pub count_changed : List Asset → List ExportFile → ℕ
count_changed existing [] = 0
count_changed [] (f ∷ fs) = suc (count_changed [] fs)
count_changed (a ∷ as_) (f ∷ fs) =
    let rest = count_changed as_ fs in if slot_matches a f then rest else suc rest

abbrev pub count_replaced : List Asset → List ExportFile → ℕ
count_replaced existing [] = 0
count_replaced [] (f ∷ fs) = 0
count_replaced (a ∷ as_) (f ∷ fs) =
    let rest = count_replaced as_ fs in if slot_matches a f then rest else suc rest

abbrev pub count_processing : List Asset → List ExportFile → ℕ
count_processing existing [] = 0
count_processing [] (f ∷ fs) = 0
count_processing (a ∷ as_) (f ∷ fs) =
    let rest = count_processing as_ fs in if slot_processing a f then suc rest else rest

-- `SyncStep.processing`
unfoldable pub processing : SyncStep → ℕ
processing step = count_processing step.existing step.files

-- `SyncStep.uploads`
unfoldable pub uploads : SyncStep → ℕ
uploads step = count_changed step.existing step.files

-- `SyncStep.deletes`; the subtraction stops at 0, as the source's `max` does.
unfoldable pub deletes : SyncStep → ℕ
deletes step = count_replaced step.existing step.files + (length step.existing - length step.files)

-- `SyncAction`
pub data SyncAction : Type 0 where
  error_row create_localization upload skip replace : SyncAction

abbrev pub is_truthy : Option String → Bool
is_truthy none = false
is_truthy (some s) = not (str_eq s "")

abbrev pub is_empty {ℓ} : {A : Type ℓ} → List A → Bool
is_empty [] = true
is_empty (x ∷ xs) = false

-- `SyncStep.action`
unfoldable pub action : SyncStep → SyncAction
action step =
    if is_truthy step.error
    then error_row
    else if is_absent step.localization_id
    then create_localization
    else if is_empty step.existing
    then upload
    else if eqb (uploads step) 0 && eqb (deletes step) 0
    then skip
    else replace
