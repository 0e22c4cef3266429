-- ===== src/Revenuecat/Swap/Ledger.antt =====
-- backend/app/services/revenuecat/swap.py: the calls that a swap makes, and their order.
use aso_light.Base.{ℕ, suc, ◌+◌, ◌≤◌, String, ◌≡◌, List, [], ◌∷◌, map}
use aso_light.Revenuecat.Client.{
  Call, Calls, create_product, attach_entitlement, detach_entitlement, attach_package,
  detach_package, archive_product, Client, SwapRequest, SwapOutcome, ended, swapped,
}
use aso_light.Revenuecat.Swap.Found.{IsOld, IsNew, IsEntitled, IsOffered}

-- The calls that change an entitlement, a package or the old product, and the products created.
abbrev pub is_change : Call → ℕ
is_change (attach_entitlement e p) = 1
is_change (detach_entitlement e p) = 1
is_change (attach_package k p) = 1
is_change (detach_package k p) = 1
is_change (archive_product p) = 1
is_change _ = 0

abbrev pub is_creation : Call → ℕ
is_creation (create_product store app kind name period) = 1
is_creation _ = 0

abbrev pub changes : Calls → ℕ
changes [] = 0
changes (c ∷ h) = is_change c + changes h

abbrev pub creations : Calls → ℕ
creations [] = 0
creations (c ∷ h) = is_creation c + creations h

-- The calls made in order after those before.
abbrev pub onto : Calls → Calls → Calls
onto [] h = h
onto (c ∷ cs) h = onto cs (c ∷ h)

-- Every new attachment, then every detachment, then the archive.
abbrev pub moved_calls : String → String → List String → List (String × String) → Calls → Calls
moved_calls old_id new_id entitlements packages h =
    archive_product old_id
    ∷ onto (map (λ p. detach_package p old_id) packages) (
        onto (map (λ e. detach_entitlement e old_id) entitlements) (
          onto (map (λ p. attach_package p new_id) packages)
            (onto (map (λ e. attach_entitlement e new_id) entitlements) h)))

-- Nothing but lists was asked for since, and at most one product was created.
abbrev pub IsQuiet : Calls → Calls → Type 0
IsQuiet h h' = (changes h' ≡ changes h) × (creations h' ≤ suc (creations h))

module _ (c : Client) (r : SwapRequest) where
  -- What the calls of a swap are, by how it ends.
  abbrev pub Settled : Calls → SwapOutcome × Calls → Type 0
  Settled h (ended steps errors, h') = IsQuiet h h'
  Settled h (swapped steps errors old_id new_id entitlements packages, h') =
      IsOld c r h old_id
      × IsNew c r new_id
      × IsEntitled c r old_id entitlements
      × IsOffered c r old_id packages
      × ((before : Calls) × IsQuiet h before
          × (h' ≡ moved_calls old_id new_id entitlements packages before))
