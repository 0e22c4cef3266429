-- ===== src/Assets/Client.antt =====
-- backend/app/services/asc/asset_sync.py: the set and asset calls. The App Store Connect client,
-- the file system, MD5 and `str.lower` are the record `World`: each reply may depend on all the
-- calls made before it. A call that raises an ASCAPIError fails with a text; a reply without a key
-- that the code reads raises a KeyError.
use aso_light.Base.{
  ℕ, String, Option, none, some, List, [], ◌∷◌, map, take, drop, length, str_eq, if◌then◌else◌,
}
use aso_light.Base.Dict.{Dict, lookup, insert, contains}
use aso_light.Assets.Slots.{Asset, Resource, ExportFile, shape_asset, or_else}

abbrev pub Bytes : Type 0
Bytes = List ℕ

-- A request, with what it sends. `read` reads a local file; `add_localization` stands for
-- `ensure_localization` of a source.
pub data Call : Type 0 where
  list_sets : String → Call
  create_set : String → Option String → Call
  reserve : String → String → ℕ → Dict String → Call
  put : String → Bytes → String → Call
  commit : String → String → Call
  list_assets : String → Call
  order_set : Option String → List String → Call
  delete : String → Call
  add_localization : String → String → Call
  read : String → Call

abbrev pub Calls : Type 0
Calls = List Call

pub data Reply {ℓ} (A : Type ℓ) : Type ℓ where
  answered : A → Reply A
  failed : String → Reply A
  malformed : Reply A

-- An entry of `uploadOperations`, where each key may be missing, and a set resource.
pub record Operation : Type 0 where
  pub url : Option String
  pub headers : List (String × Option String)
  pub offset : Option ℕ
  pub size : Option ℕ

pub record Reservation : Type 0 where
  pub id : Option String
  pub operations : List Operation

pub record SetObject : Type 0 where
  pub id : String
  pub type_value : Option String

-- The replies, from the calls before; the newest call stands first.
pub record World : Type 0 where
  pub md5 : Bytes → String
  pub lower : String → String
  pub read_file : Calls → ExportFile → Option Bytes
  pub sets : Calls → String → Reply (List SetObject)
  pub new_set : Calls → String → Option String → Reply String
  pub reserved : Calls → String → ExportFile → Reply Reservation
  pub stored : Calls → String → Bytes → Reply (Unit {0})
  pub committed : Calls → String → String → Reply (Option String)
  pub assets : Calls → String → Reply (List Resource)
  pub ordered : Calls → Option String → List String → Reply (Unit {0})
  pub deleted : Calls → String → Reply (Unit {0})
  pub localization : Calls → String → String → Reply String

-- An ASCAPIError, the ExportChangedError of a file, or a KeyError.
pub data Error : Type 0 where
  api_error : String → Error
  no_reservation_id : String → Error
  no_asset_id : String → String → Error
  file_changed : String → Error
  missing_key : Error

pub data Result {ℓ} (A : Type ℓ) : Type ℓ where
  ok : A → Result A
  err : Error → Result A

-- The calls made, and `step.localization_id`.
pub record Progress : Type 0 where
  pub calls : Calls
  pub localization_id : Option String

abbrev pub M {ℓ} : Type ℓ → Type ℓ
M A = Progress → Result A × Progress

abbrev pub pure {ℓ} : {A : Type ℓ} → A → M A
pure a p = (ok a, p)

abbrev pub raise {ℓ} : {A : Type ℓ} → Error → M A
raise e p = (err e, p)

unfoldable pub continue {ℓ κ} :
    {A : Type ℓ} {B : Type κ} → Result A × Progress → (A → M B) → Result B × Progress
continue (ok a, p) f = f a p
continue (err e, p) f = (err e, p)

infixl 5 ◌>>=◌ ◌>>◌
abbrev pub ◌>>=◌ {ℓ κ} : {A : Type ℓ} {B : Type κ} → M A → (A → M B) → M B
◌>>=◌ m f p = continue (m p) f

abbrev pub ◌>>◌ {ℓ} : {B : Type ℓ} → M (Unit {0}) → M B → M B
m >> k = m >>= λ _. k

abbrev pub outcome {ℓ} : {A : Type ℓ} → Reply A → Result A
outcome (answered a) = ok a
outcome (failed message) = err (api_error message)
outcome malformed = err missing_key

abbrev pub called : Call → Progress → Progress
called c p = record p { calls = c ∷ p.calls }

-- The call is made, whatever the reply.
abbrev pub request {ℓ} : {A : Type ℓ} → Call → (Calls → Reply A) → M A
request c reply p = (outcome (reply p.calls), called c p)

module _ (w : World) where
  -- `asset_set_ids`: the first set of each type
  abbrev pub set_ids : List SetObject → Dict String → Dict String
  set_ids [] ids = ids
  set_ids (s ∷ ss) ids = set_ids ss (elim s.type_value [
    | none ↦ ids
    | some t ↦ if str_eq t "" then ids else if contains t ids then ids else insert t s.id ids
  ])

  unfoldable pub asset_set_ids : String → M (Dict String)
  asset_set_ids localization_id = do
    objects ← request (list_sets localization_id) (λ h. w.sets h localization_id)
    pure (set_ids objects [])

  -- `set_ids.get(type)`; no key is `None`.
  abbrev pub set_of : Option String → Dict String → Option String
  set_of none ids = none
  set_of (some t) ids = lookup t ids

  abbrev pub set_or_new : String → Option String → Option String → M String
  set_or_new localization_id type_value (some i) = pure i
  set_or_new localization_id type_value none =
      request (create_set localization_id type_value) (λ h. w.new_set h localization_id type_value)

  -- `find_or_create_asset_set`
  unfoldable pub find_or_create_asset_set : String → Option String → M String
  find_or_create_asset_set localization_id type_value = do
    ids ← asset_set_ids localization_id
    set_or_new localization_id type_value (set_of type_value ids)

  -- The content type of an operation: that of its last such header.
  -- A key that is there, or the KeyError.
  abbrev pub key {ℓ} : {A : Type ℓ} → Option A → M A
  key none = raise missing_key
  key (some a) = pure a

  abbrev pub content_type : String → List (String × Option String) → M String
  content_type current [] = pure current
  content_type current ((name, value) ∷ headers) =
      if str_eq (w.lower name) "content-type"
      then (key value >>= λ v. content_type v headers)
      else content_type current headers

  abbrev pub chunk : Operation → ℕ → Bytes → Bytes
  chunk op size bytes = take size (drop (or_else op.offset 0) bytes)

  abbrev pub put_part : Operation → Bytes → M (Unit {0})
  put_part op bytes = do
    content ← content_type "application/octet-stream" op.headers
    url ← key op.url
    size ← key op.size
    request (put url (chunk op size bytes) content) (λ h. w.stored h url (chunk op size bytes))

  unfoldable pub put_all : List Operation → Bytes → M (Unit {0})
  put_all [] bytes = pure tt
  put_all (op ∷ ops) bytes = do put_part op bytes; put_all ops bytes

  -- `str(reserved.get("id") or "")`, if it is not empty
  abbrev pub required : Option String → Error → M String
  required none e = raise e
  required (some i) e = if str_eq i "" then raise e else pure i

  -- `upload_asset`: reserve, put each part, commit
  unfoldable pub upload_asset : String → Bytes → ExportFile → M (Option String)
  upload_asset set_id bytes f = do
    reservation ←
        request (reserve set_id f.name (length bytes) f.attributes) (λ h. w.reserved h set_id f)
    asset_id ← required reservation.id (no_reservation_id f.name)
    put_all reservation.operations bytes
    request (commit asset_id (w.md5 bytes)) (λ h. w.committed h asset_id (w.md5 bytes))

  -- `list_set_assets`
  unfoldable pub list_set_assets : String → M (List Asset)
  list_set_assets set_id = do
    resources ← request (list_assets set_id) (λ h. w.assets h set_id)
    pure (map shape_asset resources)

  unfoldable pub reorder_set : Option String → List String → M (Unit {0})
  reorder_set set_id ids = request (order_set set_id ids) (λ h. w.ordered h set_id ids)

  unfoldable pub delete_asset : String → M (Unit {0})
  delete_asset i = request (delete i) (λ h. w.deleted h i)

  abbrev pub unchanged_bytes : ExportFile → Option Bytes → Result Bytes
  unchanged_bytes f none = err (file_changed f.path)
  unchanged_bytes f (some bytes) =
      if str_eq (w.md5 bytes) f.md5 then ok bytes else err (file_changed f.path)

  -- `read_planned_bytes` with `require_unchanged`
  unfoldable pub read_planned_bytes : ExportFile → M Bytes
  read_planned_bytes f p = (unchanged_bytes f (w.read_file p.calls f), called (read f.path) p)
