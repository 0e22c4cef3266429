-- ===== src/Visibility/Anomaly/Cases.antt =====
-- backend/app/services/visibility/anomaly.py: what each reported anomaly means, and their order.
use aso_light.Base.{
  arith, ℕ, ◌≤◌, String, true, false, ◌≡◌, refl, sym, ap, subst, leb→le, ◌||◌, Option, none, some,
  List, [], ◌∷◌, length, ltb, leb, All, All-append, All-weaken, inl, inr, Bool-cases,
}
use aso_light.Base.Dict.{Dict, contains, lookup, IsUnique, insert-IsUnique, IsUnique-lookup}
use aso_light.Base.Int.{pos, ◌-ℤ◌, ltb_ℤ, abs}
use aso_light.Base.Sort.{sort-All, IsSorted, sort-IsSorted}
use aso_light.Visibility.Anomaly.{
  Result, Snapshot, Anomaly, AnomalyKind, surge, drop, new, gone, result_index, positions_of,
  build_history, median_position, present, present_anomalies, vanished, gone_anomalies, found,
  detect_anomalies, comes_before, empty_history, History, add_result, add_results,
}

module _ (min_delta history_min : ℕ) where
  module _ (latest : Dict Result) (history : Dict (List ℕ)) where
    -- The track moved by at least `min_delta` from the median of enough earlier positions.
    abbrev pub HasMoved : Anomaly → Type 0
    HasMoved a =
        (p : ℕ) × (a.latest_position ≡ some p)
        × (a.prev_median_position ≡ some (median_position (positions_of a.track_id history)))
        × (a.delta ≡ (pos p -ℤ pos (median_position (positions_of a.track_id history))))
        × (min_delta ≤ abs a.delta)
        × (history_min ≤ length (positions_of a.track_id history))

    abbrev pub Means : AnomalyKind → Anomaly → Type 0
    Means surge a = HasMoved a × (ltb_ℤ a.delta (pos 0) ≡ true)
    Means drop a = HasMoved a × (ltb_ℤ a.delta (pos 0) ≡ false)
    Means new a = (positions_of a.track_id history ≡ []) × (a.prev_median_position ≡ none)
    Means gone a =
        (contains a.track_id latest ≡ false)
        × (a.latest_position ≡ none)
        × (a.prev_median_position ≡ some (median_position (positions_of a.track_id history)))
        × (history_min ≤ length (positions_of a.track_id history))

    abbrev pub IsMeant : Anomaly → Type 0
    IsMeant a = Means a.kind a

    present-IsMeant :
        (t : String) (r : Result) (ps : List ℕ)
        → positions_of t history ≡ ps
        → All IsMeant (present min_delta history_min t r ps)
    present-IsMeant t r [] e = ((e, refl), tt)
    present-IsMeant t r (p ∷ ps) e = elim (Bool-cases (ltb (length (p ∷ ps)) history_min)) [
      | inl few ↦ rw few tt
      | inr enough ↦
          elim (Bool-cases
            (leb min_delta (abs (pos r.position -ℤ pos (median_position (p ∷ ps)))))) [
              | inr small ↦ rw (enough, small) tt
              | inl large ↦
                  elim (Bool-cases
                    (ltb_ℤ (pos r.position -ℤ pos (median_position (p ∷ ps))) (pos 0))) [
                      | inl up ↦
                          rw (enough, large, up)
                            (
                              (
                                ((
                                  r.position,
                                  refl,
                                  ap (λ l. some (median_position l)) (sym e),
                                  ap (λ l. pos r.position -ℤ pos (median_position l)) (sym e),
                                  leb→le _ _ large,
                                  subst (λ l. history_min ≤ length l) (sym e)
                                      (ground (arith, enough)),
                                )),
                                up,
                              ),
                              tt,
                            )
                      | inr down ↦
                          rw (enough, large, down)
                            (
                              (
                                ((
                                  r.position,
                                  refl,
                                  ap (λ l. some (median_position l)) (sym e),
                                  ap (λ l. pos r.position -ℤ pos (median_position l)) (sym e),
                                  leb→le _ _ large,
                                  subst (λ l. history_min ≤ length l) (sym e)
                                      (ground (arith, enough)),
                                )),
                                down,
                              ),
                              tt,
                            )
                    ]
            ]
    ]

    present_anomalies-IsMeant :
        (d : Dict Result) → All IsMeant (present_anomalies min_delta history_min history d)
    unfolding present_anomalies
    present_anomalies-IsMeant [] = tt
    present_anomalies-IsMeant ((t, r) ∷ d) =
        All-append IsMeant (present min_delta history_min t r (positions_of t history)) _
          (present-IsMeant t r (positions_of t history) refl) (present_anomalies-IsMeant d)

    vanished-IsMeant :
        (t : String) (ps : List ℕ) (o : Option Result)
        → contains t latest ≡ false
        → positions_of t history ≡ ps
        → history_min ≤ length ps
        → All IsMeant (vanished min_delta history_min t ps o)
    vanished-IsMeant t ps none absent e enough = tt
    vanished-IsMeant t ps (some r) absent e enough = (
      (
        absent,
        refl,
        ap (λ l. some (median_position l)) (sym e),
        subst (λ l. history_min ≤ length l) (sym e) enough,
      ),
      tt,
    )

    gone_anomalies-IsMeant :
        (meta : Dict Result) (d : Dict (List ℕ))
        → All (λ (e : String × List ℕ). positions_of e.0 history ≡ e.1) d
        → All IsMeant (gone_anomalies min_delta history_min latest meta d)
    unfolding gone_anomalies
    gone_anomalies-IsMeant meta [] known = tt
    gone_anomalies-IsMeant meta ((t, ps) ∷ d) known =
        elim (Bool-cases (contains t latest || ltb (length ps) history_min)) [
          | inl skips ↦ rw skips (gone_anomalies-IsMeant meta d known.1)
          | inr tells ↦ rw tells (
              All-append IsMeant (vanished min_delta history_min t ps (lookup t meta)) _
                (vanished-IsMeant t ps (lookup t meta) (ground (arith, tells)) known.0
                  (ground (arith, tells)))
                (gone_anomalies-IsMeant meta d known.1))
        ]

add_results-IsUnique :
    (rs : List Result) (h : History) → IsUnique h.positions → IsUnique (add_results rs h).positions
add_results-IsUnique [] h u = u
add_results-IsUnique (r ∷ rs) h u =
    add_results-IsUnique rs (add_result r h) (insert-IsUnique r.track_id _ h.positions u)

build_history-IsUnique :
    (snaps : List Snapshot) (h : History)
    → IsUnique h.positions
    → IsUnique (build_history snaps h).positions
unfolding build_history
build_history-IsUnique [] h u = u
build_history-IsUnique (snap ∷ snaps) h u =
    build_history-IsUnique snaps (add_results snap h) (add_results-IsUnique snap h u)

positions_of-found :
    (t : String) (ps : List ℕ) (history : Dict (List ℕ))
    → lookup t history ≡ some ps
    → positions_of t history ≡ ps
positions_of-found t ps history e = rw (positions_of, e) refl

-- Each entry of a history is its track's own list of positions.
build_history-own :
    (prior : List Snapshot)
    → All
        (λ (e : String × List ℕ).
          positions_of e.0 (build_history prior empty_history).positions ≡ e.1)
        (build_history prior empty_history).positions
build_history-own prior =
    let d = (build_history prior empty_history).positions in
    All-weaken _ _ d (λ e f. positions_of-found e.0 e.1 d f)
      (IsUnique-lookup d (build_history-IsUnique prior empty_history tt))

comes_before_total : (a b : Anomaly) → comes_before a b ≡ false → comes_before b a ≡ true
unfolding comes_before
comes_before_total a b h = ground (arith, h)

-- Surges and drops moved by at least `min_delta` from the median of at least `history_min` earlier
-- positions of their track, upwards or not; new tracks have no earlier position; gone tracks have at
-- least `history_min` of them, show their median and are missing from the latest snapshot. They
-- come by kind, larger moves first.
pub detect_anomalies-IsMeant :
    (min_delta history_min : ℕ) (latest : Snapshot) (prior : List Snapshot)
    → All
        (IsMeant min_delta history_min
          (result_index latest)
          (build_history prior empty_history).positions)
        (detect_anomalies min_delta history_min (latest ∷ prior))
      × IsSorted comes_before (detect_anomalies min_delta history_min (latest ∷ prior))
unfolding detect_anomalies found
detect_anomalies-IsMeant min_delta history_min latest prior =
    let h = build_history prior empty_history in
    let index = result_index latest in
    let P = IsMeant min_delta history_min index h.positions in
    (
      sort-All comes_before P (found min_delta history_min latest h) (
          All-append P (present_anomalies min_delta history_min h.positions index) _
            (present_anomalies-IsMeant min_delta history_min index h.positions index)
            (gone_anomalies-IsMeant min_delta history_min index h.positions h.meta h.positions
              (build_history-own prior))),
      sort-IsSorted comes_before comes_before_total (found min_delta history_min latest h),
    )
