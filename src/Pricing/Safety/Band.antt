-- ===== src/Pricing/Safety/Band.antt =====
-- backend/app/services/pricing/safety.py: which changes pass the band.
use aso_light.Base.{String, Bool, true, false, ◌≡◌, ◌↔◌, ◌⊎◌, refl, Option, none, some, arith}
use aso_light.Base.Int.{pos, negsuc, ◌*ℤ◌, ◌≤ℤ◌}
use aso_light.Pricing.Decimal.{Decimal}
use aso_light.Pricing.Safety.{exceeds_safety_band, safety_skip_item, band_skip}

-- A change that may be sent: forced, from no known or no positive price, or between half and one
-- and a half of the current price, both ends included.
abbrev pub MayApply : Option Decimal → Decimal → Bool → Type 0
MayApply none new force = Unit
MayApply (some current) new force =
    (force ≡ true)
    ⊎ ((current ≤ℤ pos 0) ⊎ ((current ≤ℤ pos 2 *ℤ new) × (pos 2 *ℤ new ≤ℤ pos 3 *ℤ current)))

exceeds_iff :
    (current new : Decimal)
    → (exceeds_safety_band current new ≡ false)
      ↔ ((current ≤ℤ pos 2 *ℤ new) × (pos 2 *ℤ new ≤ℤ pos 3 *ℤ current))
unfolding exceeds_safety_band ◌*ℤ◌
exceeds_iff (pos c) (pos n) = (λ h. ground arith, λ h. ground arith)
exceeds_iff (pos c) (negsuc n) = (λ h. ground arith, λ h. ground arith)
exceeds_iff (negsuc c) (pos n) = (λ h. ground arith, λ h. ground arith)
exceeds_iff (negsuc c) (negsuc n) = (λ h. ground arith, λ h. ground arith)

module _ (diff_pct : Decimal → Decimal → Decimal) (reason : Decimal → String) where
  -- A territory is applied, not skipped, exactly when the change may be sent.
  pub safety_skip_item-none_iff :
      (code : String) (current : Option Decimal) (new : Decimal) (force : Bool)
      → (safety_skip_item diff_pct reason code current new force ≡ none)
        ↔ MayApply current new force
  unfolding safety_skip_item band_skip
  safety_skip_item-none_iff code none new force = (λ h. tt, λ h. refl)
  safety_skip_item-none_iff code (some current) new force =
      (λ h. ground (arith, exceeds_iff current new), λ h. ground (arith, exceeds_iff current new))
