-- ===== src/Assets/Sync.antt =====
-- backend/app/services/asc/asset_sync.py: `plan_sync`, `apply_sync_step` and `apply_sync`.
-- `ensure_localization` of a source is one call of the client. `on_step` only reports progress.
pub mod Rules
pub mod Counts
pub mod Cap
pub mod Retry
mod Tests
use aso_light.Base.{
  ℕ, String, Bool, true, false, not, ◌&&◌, Option, none, some, List, [], ◌∷◌, ◌++◌, str_eq,
  if◌then◌else◌, map,
}
use aso_light.Base.Dict.{Dict, lookup, mem, insert}
use aso_light.Assets.Slots.{
  Asset, ExportFile, SyncStep, SyncAction, skip, action, slot_matches, is_truthy, is_absent,
  or_else,
}
use aso_light.Assets.Client.{
  Call, Calls, add_localization, World, Error, api_error, no_reservation_id, no_asset_id,
  file_changed, missing_key, Result, ok, err, Progress, M, pure, raise, request, ◌>>=◌, ◌>>◌,
  asset_set_ids, set_of, find_or_create_asset_set, upload_asset, list_set_assets, reorder_set,
  delete_asset, read_planned_bytes, required,
}

-- A step after its action, with the calls made; `localization_id` stays what the action set.
abbrev pub with_progress : SyncStep → Progress → SyncStep
with_progress step p = record step { localization_id = p.localization_id }

abbrev pub started : SyncStep → Calls → Progress
started step h = record { calls = h; localization_id = step.localization_id }

-- What one step of `plan_sync` ends with: an error may leave the step with its set.
abbrev pub Planned : Type 0
Planned = Result (Unit {0}) × SyncStep × Calls

-- `except ASCAPIError`
abbrev pub is_api : Error → Bool
is_api (file_changed path) = false
is_api missing_key = false
is_api e = true

-- What `_apply_or_record` ends with: the step it leaves, and an error that it lets through.
abbrev pub Recorded : Type 0
Recorded = Result (Unit {0}) × SyncStep × Calls

-- `str(exc)`; only what tells the errors apart is kept of their texts.
abbrev pub message : Error → String
message (api_error m) = m
message (no_reservation_id name) = name
message (no_asset_id locale name) = name
message (file_changed path) = path
message missing_key = ""

abbrev pub is_skip : SyncAction → Bool
is_skip skip = true
is_skip _ = false

abbrev pub forgotten : SyncStep → SyncStep
forgotten step = record step { set_id = none; existing = [] }

-- A step without a localization takes that of an earlier step of its locale.
abbrev pub adopt : Dict String → SyncStep → SyncStep
adopt ids step =
    if is_absent step.localization_id
    then record step { localization_id = lookup step.locale ids }
    else step

-- The localizations handed on: the first of a locale stays.
abbrev pub hand_on : SyncStep → Dict String → Dict String
hand_on step ids = elim step.localization_id [
  | none ↦ ids
  | some i ↦ elim (lookup step.locale ids) [ none ↦ insert step.locale i ids | some j ↦ ids ]
]

-- What `apply_sync` ends with: an error that it lets through, the steps and the calls.
abbrev pub Applied : Type 0
Applied = Result (Unit {0}) × List SyncStep × Calls

module _ (w : World) where
  module _ (version_id locale : String) (display_type : Option String) where
    abbrev pub remember : String → M String
    remember i p = (ok i, record p { localization_id = some i })

    abbrev pub known_or_added : Option String → M String
    known_or_added (some i) = pure i
    known_or_added none = do
      i ← request (add_localization version_id locale) (λ h. w.localization h version_id locale)
      remember i

    abbrev pub ensure_localization : M String
    ensure_localization p = known_or_added p.localization_id p

    -- `_ensure_step_set`
    unfoldable pub ensure_step_set : M String
    ensure_step_set = do i ← ensure_localization; find_or_create_asset_set w i display_type

    -- `set_id or await self._ensure_step_set(...)`
    abbrev pub set_or_ensure : Option String → M String
    set_or_ensure none = ensure_step_set
    set_or_ensure (some i) = if str_eq i "" then ensure_step_set else pure i

    abbrev pub delete_current : Option Asset → M (Unit {0})
    delete_current none = pure tt
    delete_current (some a) = delete_asset w a.id

    -- The slot of a file that does not match: the set and the id of the upload.
    unfoldable pub fill_slot : Option String → Option Asset → ExportFile → M (String × String)
    fill_slot set_id current f = do
      bytes ← read_planned_bytes w f
      delete_current current
      target ← set_or_ensure set_id
      uploaded ← upload_asset w target bytes f
      i ← required w uploaded (no_asset_id locale f.name)
      pure (target, i)

    -- The loop over `step.files`: the set, the order, and what is left of `step.existing`.
    unfoldable pub fill_slots :
        List ExportFile
        → List Asset
        → Option String
        → List String
        → M (Option String × List String × List Asset)
    fill_slots [] existing set_id order = pure (set_id, order, existing)
    fill_slots (f ∷ files) [] set_id order = do
      filled ← fill_slot set_id none f
      fill_slots files [] (some filled.0) (order ++ filled.1 ∷ [])
    fill_slots (f ∷ files) (a ∷ existing) set_id order = elim (slot_matches a f) [
      | true ↦ fill_slots files existing set_id (order ++ a.id ∷ [])
      | false ↦ (do
        filled ← fill_slot set_id (some a) f
        fill_slots files existing (some filled.0) (order ++ filled.1 ∷ []))
    ]

    unfoldable pub delete_extras : List Asset → M (Unit {0})
    delete_extras [] = pure tt
    delete_extras (a ∷ extras) = do delete_asset w a.id; delete_extras extras

    -- `apply_sync_step`, from the files, the existing assets and the set of the step
    unfoldable pub apply_slots : List ExportFile → List Asset → Option String → M (Unit {0})
    apply_slots files existing set_id = do
      slots ← fill_slots files existing set_id []
      delete_extras slots.2
      reorder_set w slots.0 slots.1

  -- `apply_sync_step`
  abbrev pub apply_sync_step : SyncStep → String → Calls → Result (Unit {0}) × Progress
  apply_sync_step step version_id h =
      apply_slots version_id step.locale step.display_type step.files step.existing step.set_id
        (started step h)

  abbrev pub with_assets : SyncStep → Result (List Asset) × Progress → Planned
  with_assets step (ok existing, p) = (ok tt, record step { existing = existing }, p.calls)
  with_assets step (err e, p) = (err e, step, p.calls)

  -- The assets of a set that the step has.
  abbrev pub list_existing : SyncStep → Option String → Calls → Planned
  list_existing step none h = (ok tt, record step { set_id = none }, h)
  list_existing step (some i) h =
      if str_eq i ""
      then (ok tt, record step { set_id = some i }, h)
      else with_assets (record step { set_id = some i }) (list_set_assets w i (started step h))

  abbrev pub with_sets : SyncStep → Result (Dict String) × Progress → Planned
  with_sets step (ok ids, p) = list_existing step (set_of w step.display_type ids) p.calls
  with_sets step (err e, p) = (err e, step, p.calls)

  abbrev pub plan_in : SyncStep → Option String → Calls → Planned
  plan_in step none h = (ok tt, step, h)
  plan_in step (some localization_id) h =
      with_sets step (asset_set_ids w localization_id (started step h))

  -- `plan_sync` on one step
  unfoldable pub plan_step : SyncStep → Calls → Planned
  plan_step step h =
      if is_truthy step.error then (ok tt, step, h) else plan_in step step.localization_id h

  abbrev pub record_failure : SyncStep → Error → Calls → Recorded
  record_failure step e h =
      if is_api e then (ok tt, record step { failed = some (message e) }, h) else (err e, step, h)

  abbrev pub after_second : SyncStep → Result (Unit {0}) × Progress → Recorded
  after_second step (ok u, p) = (ok tt, with_progress step p, p.calls)
  after_second step (err e, p) = record_failure (with_progress step p) e p.calls

  -- The second attempt, from the new plan.
  abbrev pub retry : String → Planned → Recorded
  retry version_id (err e, step, h) = record_failure step e h
  retry version_id (ok u, step, h) =
      if is_skip (action step)
      then (ok tt, step, h)
      else after_second step (apply_sync_step step version_id h)

  abbrev pub after_first : SyncStep → String → Result (Unit {0}) × Progress → Recorded
  after_first step version_id (ok u, p) = (ok tt, with_progress step p, p.calls)
  after_first step version_id (err e, p) =
      if is_api e
      then retry version_id (plan_step (forgotten (with_progress step p)) p.calls)
      else (err e, with_progress step p, p.calls)

  -- `_apply_or_record`
  unfoldable pub apply_or_record : SyncStep → String → Calls → Recorded
  apply_or_record step version_id h =
      after_first step version_id (apply_sync_step step version_id h)

  -- `apply_sync`: `done` are the steps before, `ids` the localizations handed to their siblings. An
  -- error that `_apply_or_record` lets through ends the loop.
  unfoldable pub apply_steps :
      String → List SyncStep → Dict String → List SyncStep → Calls → Applied
  apply_steps version_id done ids [] h = (ok tt, map (adopt ids) done, h)
  apply_steps version_id done ids (step ∷ rest) h = elim (is_skip (action (adopt ids step))) [
    | true ↦ apply_steps version_id (done ++ adopt ids step ∷ []) ids rest h
    | false ↦
        (let (result, step', h') = apply_or_record (adopt ids step) version_id h in
          elim result [
            | ok u ↦ apply_steps version_id (done ++ step' ∷ []) (hand_on step' ids) rest h'
            | err e ↦ (err e, map (adopt ids) (done ++ step' ∷ rest), h')
          ])
  ]

  abbrev pub apply_sync : List SyncStep → String → Calls → Applied
  apply_sync steps version_id h = apply_steps version_id [] [] steps h
