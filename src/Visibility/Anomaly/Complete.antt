-- ===== src/Visibility/Anomaly/Complete.antt =====
-- backend/app/services/visibility/anomaly.py: no track of the latest snapshot is overlooked.
use aso_light.Base.{
  arith, ℕ, ◌≤◌, String, Bool, true, false, ◌≡◌, ◌≢◌, refl, ◌∙◌, ap, ◌||◌, ◌&&◌, some, List, [],
  ◌∷◌, ◌++◌, length, ltb, leb, any, inl, inr, Bool-cases, str_eq, eq_iff,
}
use aso_light.Base.Dict.{Dict, lookup}
use aso_light.Base.Int.{pos, ◌-ℤ◌, ltb_ℤ, abs}
use aso_light.Base.Sort.{sort, insert_sorted}
use aso_light.Visibility.Anomaly.{
  Result, Snapshot, Anomaly, AnomalyKind, surge, drop, new, result_index, positions_of,
  build_history, median_position, present, present_anomalies, found, detect_anomalies, comes_before,
  empty_history,
}

any-append : (p : Anomaly → Bool) (xs ys : List Anomaly) → any p (xs ++ ys) ≡ (any p xs || any p ys)
any-append p [] ys = refl
any-append p (x ∷ xs) ys = ground (arith, any-append p xs ys)

any-insert_sorted :
    (p : Anomaly → Bool) (x : Anomaly) (ys : List Anomaly)
    → any p (insert_sorted comes_before x ys) ≡ (p x || any p ys)
any-insert_sorted p x [] = refl
any-insert_sorted p x (y ∷ ys) = elim (Bool-cases (comes_before x y)) [
  | inl first ↦ rw first refl
  | inr later ↦ rw (later, any-insert_sorted p x ys) (ground arith)
]

any-sort : (p : Anomaly → Bool) (xs : List Anomaly) → any p (sort comes_before xs) ≡ any p xs
any-sort p [] = refl
any-sort p (x ∷ xs) =
    any-insert_sorted p x (sort comes_before xs) ∙ ap (λ b. p x || b) (any-sort p xs)

-- The anomaly reports the track as new, or as moved.
abbrev pub tells_new : AnomalyKind → Bool
tells_new new = true
tells_new _ = false

abbrev pub tells_move : AnomalyKind → Bool
tells_move surge = true
tells_move drop = true
tells_move _ = false

abbrev pub reports : (AnomalyKind → Bool) → String → Anomaly → Bool
reports kinds t a = kinds a.kind && str_eq t a.track_id

module _ (min_delta history_min : ℕ) where
  present_anomalies-any :
      (p : Anomaly → Bool) (history : Dict (List ℕ)) (t : String) (r : Result) (d : Dict Result)
      → lookup t d ≡ some r
      → any p (present min_delta history_min t r (positions_of t history)) ≡ true
      → any p (present_anomalies min_delta history_min history d) ≡ true
  unfolding present_anomalies
  present_anomalies-any p history t r [] h k = absurd (ground (arith, h))
  present_anomalies-any p history t r ((j, u) ∷ d) h k =
      any-append p (present min_delta history_min j u (positions_of j history)) _
      ∙ elim (Bool-cases (str_eq t j)) [
        | inl same ↦
            let jt : j ≡ t = ground (arith, same, eq_iff t j) in
            let ur : u ≡ r = ground (arith, h, same) in rw (jt, ur, k) refl
        | inr other ↦
            rw (present_anomalies-any p history t r d (ground (arith, h, other)) k) (ground arith)
      ]

  -- What the first loop says of a track of the latest snapshot is in the result.
  detect_anomalies-any :
      (p : Anomaly → Bool) (latest : Snapshot) (prior : List Snapshot) (t : String) (r : Result)
      → lookup t (result_index latest) ≡ some r
      → any p (
          present min_delta history_min t r
            (positions_of t (build_history prior empty_history).positions))
        ≡ true
      → any p (detect_anomalies min_delta history_min (latest ∷ prior)) ≡ true
  unfolding detect_anomalies found
  detect_anomalies-any p latest prior t r h k =
      let history = build_history prior empty_history in
      any-sort p _
      ∙ any-append p
          (present_anomalies min_delta history_min history.positions (result_index latest)) _
      ∙ rw (present_anomalies-any p history.positions t r (result_index latest) h k) refl

  present-new :
      (t : String) (r : Result) (ps : List ℕ)
      → ps ≡ []
      → any (reports tells_new t) (present min_delta history_min t r ps) ≡ true
  present-new t r [] h = ground (arith, eq_iff t t)
  present-new t r (p ∷ ps) h = absurd (ground (arith, h))

  present-moved :
      (t : String) (r : Result) (ps : List ℕ)
      → ps ≢ []
      → history_min ≤ length ps
      → min_delta ≤ abs (pos r.position -ℤ pos (median_position ps))
      → any (reports tells_move t) (present min_delta history_min t r ps) ≡ true
  present-moved t r [] n h k = absurd (n refl)
  present-moved t r (p ∷ ps) n h k =
      let enough : ltb (length (p ∷ ps)) history_min ≡ false = ground (arith, h) in
      let large : leb min_delta (abs (pos r.position -ℤ pos (median_position (p ∷ ps)))) ≡ true =
        ground (arith, k) in
      elim (Bool-cases (ltb_ℤ (pos r.position -ℤ pos (median_position (p ∷ ps))) (pos 0))) [
        | inl up ↦ rw (enough, large, up) (ground (arith, eq_iff t t))
        | inr down ↦ rw (enough, large, down) (ground (arith, eq_iff t t))
      ]

  -- A track of the latest snapshot without any earlier position is reported as new.
  pub detect_anomalies-tells_new :
      (latest : Snapshot) (prior : List Snapshot) (t : String) (r : Result)
      → lookup t (result_index latest) ≡ some r
      → positions_of t (build_history prior empty_history).positions ≡ []
      → any (reports tells_new t) (detect_anomalies min_delta history_min (latest ∷ prior)) ≡ true
  detect_anomalies-tells_new latest prior t r h none_before =
      detect_anomalies-any (reports tells_new t) latest prior t r h (present-new t r _ none_before)

  -- A track of the latest snapshot is reported as a surge or a drop if it has at least one and at
  -- least `history_min` earlier positions and is at least `min_delta` off their median.
  pub detect_anomalies-tells_move :
      (latest : Snapshot) (prior : List Snapshot) (t : String) (r : Result) (ps : List ℕ)
      → lookup t (result_index latest) ≡ some r
      → positions_of t (build_history prior empty_history).positions ≡ ps
      → ps ≢ []
      → history_min ≤ length ps
      → min_delta ≤ abs (pos r.position -ℤ pos (median_position ps))
      → any (reports tells_move t) (detect_anomalies min_delta history_min (latest ∷ prior)) ≡ true
  detect_anomalies-tells_move latest prior t r ps h e some_before enough large =
      detect_anomalies-any (reports tells_move t) latest prior t r h
        (rw e (present-moved t r ps some_before enough large))
