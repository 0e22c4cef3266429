-- ===== src/Assets/Sync/Retry.antt =====
-- backend/app/services/asc/asset_sync.py, `_apply_or_record` and `apply_sync`: which errors end a sync.
use aso_light.Base.{
  ◌+◌, String, false, ◌≡◌, ◌⊎◌, refl, subst, arith, List, [], ◌∷◌, ◌++◌, map, length, inl, inr,
  Bool-cases, length-append,
}
use aso_light.Base.Dict.{Dict}
use aso_light.Assets.Slots.{SyncStep, action}
use aso_light.Assets.Client.{
  Calls, World, Error, api_error, no_reservation_id, no_asset_id, file_changed, missing_key, Result,
  ok, err, Progress,
}
use aso_light.Assets.Sync.{
  apply_sync_step, plan_step, is_api, record_failure, after_second, after_first, retry,
  apply_or_record, apply_steps, apply_sync, is_skip, adopt, hand_on, Planned, with_progress,
  forgotten,
}

-- An ExportChangedError or a KeyError
abbrev pub MayEnd : Error → Type 0
MayEnd (file_changed path) = Unit
MayEnd missing_key = Unit
MayEnd (api_error message) = ⊥
MayEnd (no_reservation_id name) = ⊥
MayEnd (no_asset_id locale name) = ⊥

other-MayEnd : (e : Error) → is_api e ≡ false → MayEnd e
other-MayEnd (file_changed path) h = tt
other-MayEnd missing_key h = tt
other-MayEnd (api_error message) h = ground (arith, h)
other-MayEnd (no_reservation_id name) h = ground (arith, h)
other-MayEnd (no_asset_id locale name) h = ground (arith, h)

-- The action ends well, or with an error that is not one of App Store Connect.
abbrev pub Contained : Result (Unit {0}) → Type 0
Contained (ok u) = Unit
Contained (err e) = MayEnd e

length-map : {A : Type 0} {B : Type 0} (f : A → B) (xs : List A) → length (map f xs) ≡ length xs
length-map f [] = refl
length-map f (x ∷ xs) = omega (arith, length-map f xs)

Result-cases : {A : Type 0} (r : Result A) → ((a : A) × (r ≡ ok a)) ⊎ ((e : Error) × (r ≡ err e))
Result-cases (ok a) = inl (a, refl)
Result-cases (err e) = inr (e, refl)

module _ (w : World) where
  record_failure-Contained :
      (step : SyncStep) (e : Error) (h : Calls) → Contained (record_failure w step e h).0
  record_failure-Contained step e h = elim (Bool-cases (is_api e)) [
    | inl api ↦ rw api tt
    | inr other ↦ rw other (other-MayEnd e other)
  ]

  after_second-Contained :
      (step : SyncStep) (r : Result (Unit {0}) × Progress) → Contained (after_second w step r).0
  after_second-Contained step (ok u, p) = tt
  after_second-Contained step (err e, p) = record_failure-Contained (with_progress step p) e p.calls

  retry-Contained : (version_id : String) (r : Planned) → Contained (retry w version_id r).0
  retry-Contained version_id (err e, step, h) = record_failure-Contained step e h
  retry-Contained version_id (ok u, step, h) = elim (Bool-cases (is_skip (action step))) [
    | inl idle ↦ rw idle tt
    | inr busy ↦ rw busy (after_second-Contained step (apply_sync_step w step version_id h))
  ]

  after_first-Contained :
      (step : SyncStep) (version_id : String) (r : Result (Unit {0}) × Progress)
      → Contained (after_first w step version_id r).0
  after_first-Contained step version_id (ok u, p) = tt
  after_first-Contained step version_id (err e, p) = elim (Bool-cases (is_api e)) [
    | inl api ↦
        rw api (retry-Contained version_id (plan_step w (forgotten (with_progress step p)) p.calls))
    | inr other ↦ rw other (other-MayEnd e other)
  ]

  apply_or_record-Contained :
      (step : SyncStep) (version_id : String) (h : Calls)
      → Contained (apply_or_record w step version_id h).0
  unfolding apply_or_record
  apply_or_record-Contained step version_id h =
      after_first-Contained step version_id (apply_sync_step w step version_id h)

  apply_steps-Contained :
      (version_id : String) (done : List SyncStep) (ids : Dict String) (rest : List SyncStep)
      (h : Calls)
      → Contained (apply_steps w version_id done ids rest h).0
        × (length (apply_steps w version_id done ids rest h).1 ≡ length done + length rest)
  unfolding apply_steps
  apply_steps-Contained version_id done ids [] h = (tt, omega (arith, length-map (adopt ids) done))
  apply_steps-Contained version_id done ids (step ∷ rest) h =
      elim (Bool-cases (is_skip (action (adopt ids step)))) [
        | inl idle ↦
            rw (apply_steps, idle)
              (let (ended, kept) =
                  apply_steps-Contained version_id (done ++ adopt ids step ∷ []) ids rest h in
                (ended, omega (arith, kept, length-append done (adopt ids step ∷ []))))
        | inr busy ↦
            let (result, step', h') = apply_or_record w (adopt ids step) version_id h in
            let contained = apply_or_record-Contained (adopt ids step) version_id h in
            elim (Result-cases result) [
              | inl (u, e) ↦
                  rw (apply_steps, busy, e)
                    (let (ended, kept) =
                        apply_steps-Contained version_id (done ++ step' ∷ []) (hand_on step' ids)
                          rest h' in
                      (ended, omega (arith, kept, length-append done (step' ∷ []))))
              | inr (x, e) ↦
                  rw (apply_steps, busy, e)
                    (
                      subst Contained e contained,
                      omega (
                        arith,
                        length-map (adopt ids) (done ++ step' ∷ rest),
                        length-append done (step' ∷ rest),
                      ),
                    )
            ]
      ]

-- A sync ends well, or because an export file changed since the plan, or because a reply lacks a key
-- that the code reads; never because of a call that App Store Connect refused or an asset or a
-- reservation without an id. In each case it leaves one step for each planned step.
pub apply_sync-Contained :
    (w : World) (steps : List SyncStep) (version_id : String) (h : Calls)
    → Contained (apply_sync w steps version_id h).0
      × (length (apply_sync w steps version_id h).1 ≡ length steps)
apply_sync-Contained w steps version_id h =
    let (ended, kept) = apply_steps-Contained w version_id [] [] steps h in
    (ended, omega (arith, kept))
