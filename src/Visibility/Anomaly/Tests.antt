-- ===== src/Visibility/Anomaly/Tests.antt =====
-- backend/app/services/visibility/anomaly.py: four tracks over three snapshots.
use aso_light.Base.{
  arith, ℕ, String, true, ◌≡◌, refl, ◌≢◌, some, none, List, [], ◌∷◌, All, any, map,
}
use aso_light.Base.Sort.{IsSorted}
use aso_light.Visibility.Anomaly.{
  Result, Snapshot, Anomaly, AnomalyKind, surge, new, gone, detect_anomalies, result_index,
  build_history, empty_history, found, comes_before, present_anomalies, gone_anomalies,
  median_position,
}
use aso_light.Visibility.Anomaly.Cases.{IsMeant, detect_anomalies-IsMeant}
use aso_light.Visibility.Anomaly.Complete.{
  reports, tells_new, tells_move, detect_anomalies-tells_new, detect_anomalies-tells_move,
}

abbrev at : String → ℕ → Result
at t n = record { track_id = t; name = t; icon_url = ""; position = n }

abbrev latest : Snapshot
latest = at "notes" 1 ∷ at "photos" 2 ∷ at "maps" 9 ∷ []

abbrev prior : List Snapshot
prior =
    (at "maps" 8 ∷ at "photos" 12 ∷ at "mail" 3 ∷ [])
    ∷ (at "mail" 5 ∷ at "maps" 9 ∷ at "photos" 9 ∷ [])
    ∷ []

abbrev kind_and_track : Anomaly → AnomalyKind × String
kind_and_track a = (a.kind, a.track_id)

reported :
    map kind_and_track (detect_anomalies 5 2 (latest ∷ prior))
    ≡ (surge, "photos") ∷ (new, "notes") ∷ (gone, "mail") ∷ []
unfolding detect_anomalies found result_index build_history comes_before present_anomalies
    gone_anomalies median_position aso_light.Base.Int.◌-ℤ◌
reported = refl

photos_history :
    (build_history prior empty_history).positions
    ≡ ("maps", 8 ∷ 9 ∷ []) ∷ ("photos", 12 ∷ 9 ∷ []) ∷ ("mail", 3 ∷ 5 ∷ []) ∷ []
unfolding build_history
photos_history = refl

detect_anomalies-IsMeant_example :
    All
      (IsMeant 5 2 (result_index latest) (build_history prior empty_history).positions)
      (detect_anomalies 5 2 (latest ∷ prior))
    × IsSorted comes_before (detect_anomalies 5 2 (latest ∷ prior))
detect_anomalies-IsMeant_example = detect_anomalies-IsMeant 5 2 latest prior

detect_anomalies-tells_new_example :
    any (reports tells_new "notes") (detect_anomalies 5 2 (latest ∷ prior)) ≡ true
unfolding result_index build_history
detect_anomalies-tells_new_example =
    detect_anomalies-tells_new 5 2 latest prior "notes" (at "notes" 1) refl refl

detect_anomalies-tells_move_example :
    any (reports tells_move "photos") (detect_anomalies 5 2 (latest ∷ prior)) ≡ true
unfolding result_index build_history median_position aso_light.Base.Int.◌-ℤ◌
detect_anomalies-tells_move_example =
    detect_anomalies-tells_move 5 2 latest prior "photos" (at "photos" 2) (12 ∷ 9 ∷ []) refl refl
      (λ e. ground (arith, e)) (omega arith) (omega arith)
