-- ===== src/Assets/Sync/Cap.antt =====
-- backend/app/services/asc/asset_sync.py, `apply_sync_step`: the cap on the assets of a set.
use aso_light.Base.{
  ℕ, suc, ◌+◌, ◌-◌, ◌≤◌, String, ◌≡◌, subst, arith, Option, none, some, List, [], ◌∷◌, ◌++◌, length,
  inl, inr, Bool-cases,
}
use aso_light.Assets.Slots.{Asset, ExportFile, SyncStep, slot_matches}
use aso_light.Assets.Client.{
  Calls, World, delete, order_set, Result, ok, Progress, continue, M, no_asset_id,
  read_planned_bytes, delete_asset, reorder_set,
}
use aso_light.Assets.Sync.{
  fill_slot, fill_slots, delete_extras, apply_slots, apply_sync_step, started,
}
use aso_light.Assets.Sync.Rules.{
  Made, Made-refl, called-Made, continue-keeps, ended-Made, Fits, reserves, deletions,
}
use aso_light.Assets.Sync.Counts.{
  held, delete_current-Made, set_or_ensure-Made, upload_asset-Made, required-Made, fill_slot-Made,
}

one_less : (o k : ℕ) → suc k ≤ o → (m : ℕ) × (o ≡ m + 1)
one_less o k h = (o - 1, omega (arith, h))

Fits-room : (n cap : ℕ) (h : Calls) → Fits n cap h → n + reserves h ≤ cap + deletions h
Fits-room n cap [] h = omega (arith, h)
Fits-room n cap (c ∷ cs) h = h.0

module _ (w : World) (n cap : ℕ) (version_id locale : String) (display_type : Option String) where
  -- The calls so far fit, and `o` assets are left.
  record Holds (o : ℕ) (p : Progress) : Type 0 where
    fits : Fits n cap p.calls
    left : n + reserves p.calls ≡ o + deletions p.calls

  Made-Holds :
      {r d o o' : ℕ} {p q : Progress}
      → Made r d p q
      → Holds o p
      → o + r ≤ cap
      → o + r ≡ o' + d
      → Holds o' q
  Made-Holds m h room e = record {
    fits = m.kept n cap (omega (arith, h.left, room)) h.fits;
    left = omega (arith, h.left, m.begun, m.gone, e);
  }

  abbrev EndFits {ℓ} : {A : Type ℓ} → Result A × Progress → Type 0
  EndFits r = Fits n cap r.1.calls

  -- One more part of an action, with room for its uploads.
  part-Fits {ℓ κ} :
      {A : Type ℓ} {B : Type κ} {r d o : ℕ} {p : Progress} (o' : ℕ) (m : Result A × Progress)
      (f : A → M B)
      → Made r d p m.1
      → Holds o p
      → o + r ≤ cap
      → o + r ≡ o' + d
      → ((a : A) (q : Progress) → m ≡ (ok a, q) → Holds o' q → EndFits (f a q))
      → EndFits (continue m f)
  part-Fits o' m f made h room e next =
      continue-keeps (λ q. Fits n cap q.calls) m f (Made-Holds {o' = o'} made h room e).fits
        λ a q eq. next a q eq (Made-Holds (ended-Made made eq) h room e)

  -- An upload needs room only after the asset in its slot is deleted.
  fill_slot-Fits :
      (set_id : Option String) (current : Option Asset) (f : ExportFile) (p : Progress) (o : ℕ)
      → Holds (o + held current) p
      → o + held current ≤ cap
      → o + 1 ≤ cap
      → EndFits (fill_slot w version_id locale display_type set_id current f p)
  unfolding fill_slot read_planned_bytes
  fill_slot-Fits set_id current f p o h full room =
      part-Fits (o + held current) _ _ (called-Made _ p) h (omega arith) (omega arith)
        λ bytes q e1 at_q.
          part-Fits o _ _ (delete_current-Made w version_id locale display_type current q) at_q
            (omega arith) (omega arith)
            λ u x e2 at_x.
              part-Fits o _ _ (set_or_ensure-Made w version_id locale display_type set_id x) at_x
                (omega arith) (omega arith)
                λ target y e3 at_y.
                  part-Fits (o + 1) _ _ (upload_asset-Made w target bytes f y) at_y (omega arith)
                    (omega arith)
                    λ i z e4 at_z.
                      part-Fits (o + 1) _ _ (required-Made w i (no_asset_id locale f.name) z) at_z
                        (omega arith) (omega arith) λ j v e5 at_v. at_v.fits

  fill_slots-Fits :
      (files : List ExportFile) (existing : List Asset) (set_id : Option String)
      (order : List String) (p : Progress) (o : ℕ)
      → Holds o p
      → o + (length files - length existing) ≤ cap
      → length existing ≤ o
      → EndFits (fill_slots w version_id locale display_type files existing set_id order p)
  unfolding fill_slots
  fill_slots-Fits [] existing set_id order p o h room some_left = h.fits
  fill_slots-Fits (f ∷ files) [] set_id order p o h room some_left =
      let slot = fill_slot-Made w version_id locale display_type set_id none f p in
      continue-keeps (λ q. Fits n cap q.calls) _ _
        (fill_slot-Fits set_id none f p o (Made-Holds (Made-refl p) h (omega arith) (omega arith))
          (omega arith) (omega arith))
        λ filled q eq.
          fill_slots-Fits files [] _ _ q (o + 1)
            (Made-Holds (slot filled q eq) h (omega arith) (omega arith)) (omega arith)
            (omega arith)
  fill_slots-Fits (f ∷ files) (a ∷ existing) set_id order p o h room some_left =
      let slot = fill_slot-Made w version_id locale display_type set_id (some a) f p in
      elim (Bool-cases (slot_matches a f)) [
        | inl same ↦
            rw (fill_slots, same)
              (fill_slots-Fits files existing set_id (order ++ a.id ∷ []) p o h (omega arith)
                (omega arith))
        | inr new ↦
            let (before, e) = one_less o (length existing) some_left in
            let fitted =
              fill_slot-Fits set_id (some a) f p before
                (Made-Holds (Made-refl p) h (omega arith) (omega (arith, e))) (omega (arith, e))
                (omega (arith, e)) in
            rw (fill_slots, new)
              (continue-keeps (λ q. Fits n cap q.calls) _ _ fitted
                λ filled q eq.
                  let made = slot filled q eq in
                  fill_slots-Fits files existing _ _ q o
                    (record {
                      fits = subst (λ x. Fits n cap x.1.calls) eq fitted;
                      left = omega (arith, made.begun, made.gone, h.left);
                    })
                    (omega arith) (omega arith))
      ]

  delete_extras-Fits :
      (extras : List Asset) (p : Progress)
      → n + reserves p.calls ≤ cap + deletions p.calls
      → Fits n cap p.calls
      → EndFits (delete_extras w version_id locale display_type extras p)
  unfolding delete_extras delete_asset
  delete_extras-Fits [] p room fits = fits
  delete_extras-Fits (a ∷ extras) p room fits =
      let gone = called-Made (delete a.id) p in
      continue-keeps (λ q. Fits n cap q.calls) _ _ (gone.kept n cap (omega (arith, room)) fits)
        λ u q eq.
          let made = ended-Made gone eq in
          delete_extras-Fits extras q (omega (arith, room, made.begun, made.gone))
            (made.kept n cap (omega (arith, room)) fits)

  apply_slots-Fits :
      (files : List ExportFile) (existing : List Asset) (set_id : Option String) (p : Progress)
      → Holds (length existing) p
      → length existing ≤ cap
      → length files ≤ cap
      → EndFits (apply_slots w version_id locale display_type files existing set_id p)
  unfolding apply_slots reorder_set
  apply_slots-Fits files existing set_id p h room room' =
      let slots_fit =
        fill_slots-Fits files existing set_id [] p (length existing) h (omega arith)
          (omega arith) in
      continue-keeps (λ q. Fits n cap q.calls) _ _ slots_fit
        λ slots q eq.
          let fits_q = subst (λ x. Fits n cap x.1.calls) eq slots_fit in
          let extras_fit = delete_extras-Fits slots.2 q (Fits-room n cap q.calls fits_q) fits_q in
          continue-keeps (λ x. Fits n cap x.calls) _ _ extras_fit
            λ u t eq'.
              let fits_t = subst (λ x. Fits n cap x.1.calls) eq' extras_fit in
              (called-Made (order_set slots.0 slots.1) t).kept n cap
                (omega (arith, Fits-room n cap t.calls fits_t)) fits_t

-- A set never holds more assets than its cap while a step replaces them: with at most `cap` assets
-- and files, after every call the uploads begun exceed the deletions by no more than the room left.
pub apply_sync_step-Fits :
    (w : World) (step : SyncStep) (version_id : String) (cap : ℕ)
    → length step.existing ≤ cap
    → length step.files ≤ cap
    → Fits (length step.existing) cap (apply_sync_step w step version_id []).1.calls
apply_sync_step-Fits w step version_id cap room room' =
    apply_slots-Fits w (length step.existing) cap version_id step.locale step.display_type
      step.files step.existing step.set_id (started step [])
      (record { fits = room; left = omega arith }) room room'
