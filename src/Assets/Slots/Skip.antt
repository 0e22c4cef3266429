-- ===== src/Assets/Slots/Skip.antt =====
-- backend/app/services/asc/asset_sync.py, `SyncStep.action`: when a set is left alone.
use aso_light.Base.{
  ◌+◌, ◌-◌, true, false, ◌≡◌, ◌↔◌, refl, arith, List, [], ◌∷◌, length, inl, inr, Bool-cases,
}
use aso_light.Assets.Slots.{
  Asset, ExportFile, SyncStep, skip, action, slot_matches, count_changed, count_replaced, uploads,
  deletes, is_truthy, is_absent, is_empty,
}

-- Slot by slot the assets are the files, and there are as many of them.
abbrev pub IsCopy : List Asset → List ExportFile → Type 0
IsCopy [] [] = Unit
IsCopy [] (f ∷ files) = ⊥
IsCopy (a ∷ existing) [] = ⊥
IsCopy (a ∷ existing) (f ∷ files) = (slot_matches a f ≡ true) × IsCopy existing files

-- No upload and no deletion is planned.
abbrev IsIdle : List Asset → List ExportFile → Type 0
IsIdle existing files =
    (count_changed existing files ≡ 0)
    × (count_replaced existing files + (length existing - length files) ≡ 0)

IsIdle-iff :
    (existing : List Asset) (files : List ExportFile)
    → IsIdle existing files ↔ IsCopy existing files
IsIdle-iff [] [] = (λ h. tt, λ h. (refl, omega arith))
IsIdle-iff [] (f ∷ files) = (λ h. absurd (omega (arith, h.0)), λ h. absurd h)
IsIdle-iff (a ∷ existing) [] = (λ h. absurd (omega (arith, h.1)), λ h. absurd h)
IsIdle-iff (a ∷ existing) (f ∷ files) = elim (Bool-cases (slot_matches a f)) [
  | inl same ↦
      let rest = IsIdle-iff existing files in
      rw same (
        λ h. (refl, rest.0 (h.0, omega (arith, h.1))),
        λ h. let k = rest.1 h.1 in (k.0, omega (arith, k.1)),
      )
  | inr new ↦ rw new (λ h. absurd (omega (arith, h.0)), λ h. absurd (ground (arith, h.0)))
]

-- A step is skipped exactly when it has no error, its localization exists, its set holds assets,
-- and the assets are the files, slot by slot.
pub action-skip :
    (step : SyncStep)
    → (action step ≡ skip) ↔ (
        (is_truthy step.error ≡ false)
        × (is_absent step.localization_id ≡ false)
        × (is_empty step.existing ≡ false)
        × IsCopy step.existing step.files)
unfolding action uploads deletes
action-skip step =
    let idle = IsIdle-iff step.existing step.files in
    (
      λ h. (
        ground (arith, h),
        ground (arith, h),
        ground (arith, h),
        idle.0 (ground (arith, h), ground (arith, h)),
      ),
      λ h. let k = idle.1 h.3 in ground (arith, h.0, h.1, h.2, k.0, k.1),
    )
