-- ===== src/Assets/Sync/Tests.antt =====
-- backend/app/services/asc/asset_sync.py: a set of two screenshots against an export of two files, the
-- second of which is new.
use aso_light.Base.{
  String, true, false, ◌≡◌, refl, Bool, ◌+◌, none, some, List, [], ◌∷◌, arith, ◌↔◌, length,
}
use aso_light.Assets.Slots.{
  Asset, ExportFile, SyncStep, slot_matches, slot_processing, skip, action, is_truthy, is_absent,
  is_empty, uploads, deletes,
}
use aso_light.Assets.Slots.Skip.{IsCopy, action-skip}
use aso_light.Assets.Client.{
  World, answered, failed, ok, Progress, continue, put_all, upload_asset, reorder_set, delete_asset,
  read_planned_bytes,
}
use aso_light.Assets.Sync.{
  fill_slot, fill_slots, delete_extras, apply_slots, apply_sync_step, apply_sync,
}
use aso_light.Assets.Sync.Rules.{reserves, deletions, Fits}
use aso_light.Assets.Sync.Counts.{apply_sync_step-counts}
use aso_light.Assets.Sync.Cap.{apply_sync_step-Fits}
use aso_light.Assets.Sync.Retry.{Contained, apply_sync-Contained}

-- Every upload is stored in one part; the order of a set is refused.
abbrev store : Bool → World
store ordered_ok = record {
  md5 = λ bytes. "sum";
  lower = λ s. s;
  read_file = λ h f. some (1 ∷ 2 ∷ []);
  sets = λ h i. answered [];
  new_set = λ h i t. answered "set-1";
  reserved = λ h i f. answered (record {
    id = some "shot-9";
    operations =
        record { url = some "https://put"; headers = []; offset = some 0; size = some 2 } ∷ [];
  });
  stored = λ h url bytes. answered tt;
  committed = λ h i sum. answered (some i);
  assets = λ h i. answered [];
  ordered = λ h i ids. elim ordered_ok [ true ↦ answered tt | false ↦ failed "409" ];
  deleted = λ h i. answered tt;
  localization = λ h v l. answered "loc-1";
}

abbrev asset : String → String → Asset
asset i sum = record {
  id = i;
  file_name = some i;
  state = some "COMPLETE";
  checksum = some sum;
  file_size = some 2;
  errors = [];
}

abbrev file : String → String → ExportFile
file name sum = record { path = name; name = name; md5 = sum; size = 2; attributes = [] }

abbrev step : List ExportFile → SyncStep
step files = record {
  locale = "en-US";
  display_type = some "APP_IPHONE_67";
  files = files;
  error = none;
  localization_id = some "loc-1";
  set_id = some "set-1";
  existing = asset "shot-1" "first" ∷ asset "shot-2" "second" ∷ [];
  failed = none;
}

abbrev replacing : SyncStep
replacing = step (file "1.png" "first" ∷ file "2.png" "sum" ∷ [])

abbrev copied : SyncStep
copied = step (file "1.png" "first" ∷ file "2.png" "second" ∷ [])

abbrev after : Progress
after = (apply_sync_step (store true) replacing "version-1" []).1

replacing-succeeds : apply_sync_step (store true) replacing "version-1" [] ≡ (ok tt, after)
unfolding fill_slot fill_slots delete_extras apply_slots continue put_all upload_asset reorder_set
    delete_asset read_planned_bytes slot_matches slot_processing
replacing-succeeds = refl

apply_sync_step-counts_example :
    (reserves after.calls ≡ uploads replacing + reserves [])
    × (deletions after.calls ≡ deletes replacing + deletions [])
apply_sync_step-counts_example =
    apply_sync_step-counts (store true) replacing "version-1" [] tt after replacing-succeeds

apply_sync_step-Fits_example :
    Fits 2 2 (apply_sync_step (store true) replacing "version-1" []).1.calls
apply_sync_step-Fits_example =
    apply_sync_step-Fits (store true) replacing "version-1" 2 (omega arith) (omega arith)

action-skip_example : (action copied ≡ skip) ↔ (
    (is_truthy copied.error ≡ false)
    × (is_absent copied.localization_id ≡ false)
    × (is_empty copied.existing ≡ false)
    × IsCopy copied.existing copied.files)
action-skip_example = action-skip copied

-- The order is refused twice: the step fails and the sync ends well.
apply_sync-Contained_example :
    Contained (apply_sync (store false) (copied ∷ replacing ∷ []) "version-1" []).0
    × (length (apply_sync (store false) (copied ∷ replacing ∷ []) "version-1" []).1 ≡ 2)
apply_sync-Contained_example =
    apply_sync-Contained (store false) (copied ∷ replacing ∷ []) "version-1" []
