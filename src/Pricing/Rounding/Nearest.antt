-- ===== src/Pricing/Rounding/Nearest.antt =====
-- backend/app/services/pricing/currency_rounding.py: the band of ± flex_pct never decides which
-- candidate is chosen.
use Prim.Native.Nat.{◌*◌, ◌<◌}
use mathlib.Core.Option
use mathlib.Core.Path.{fun_ext}
use aso_light.Base.{
  ℕ, String, Bool, true, false, ◌≡◌, refl, sym, ap, ◌∙◌, Option, none, some, List, [], ◌∷◌, keep,
  arith, leb, ltb, inl, inr, Bool-cases, keep-keep,
}
use aso_light.Base.Int.{pos, negsuc, ◌-ℤ◌, ◌*ℤ◌, leb_ℤ, pos_part}
use aso_light.Pricing.Decimal.{unit, Decimal}
use aso_light.Pricing.Rounding.{
  distance, in_band, allowed, nearest, fallback, choose, nearer, select, round_positive,
  apply_currency_rounding, CurrencyProfile, profile_for, generate_nice_candidates,
}

in_band-eq :
    (price flex : ℕ) (c : Decimal)
    → in_band price flex c ≡ leb (distance price c * unit) (price * flex)
unfolding in_band ◌*ℤ◌ ◌-ℤ◌
in_band-eq price flex (pos n) = ground arith
in_band-eq price flex (negsuc n) = ground arith

module _ (price flex : ℕ) where
  abbrev close : Decimal → Bool
  close = in_band price flex

  -- What is nearer than a candidate in the band is in the band too.
  close-down :
      (c d : Decimal) → close c ≡ true → close d ≡ false → distance price c < distance price d
  close-down c d h k =
      ground (arith, sym (in_band-eq price flex c) ∙ h, sym (in_band-eq price flex d) ∙ k)

  nearer-close : (c d : Decimal) → close c ≡ true → close d ≡ true → close (nearer price c d) ≡ true
  nearer-close c d h k = elim (Bool-cases (ltb (distance price d) (distance price c))) [
    | inl b ↦ rw b k
    | inr b ↦ rw b h
  ]

  nearer-far :
      (c d : Decimal) → close c ≡ false → close d ≡ false → close (nearer price c d) ≡ false
  nearer-far c d h k = elim (Bool-cases (ltb (distance price d) (distance price c))) [
    | inl b ↦ rw b k
    | inr b ↦ rw b h
  ]

  nearer-keeps : (c d : Decimal) → close c ≡ true → close d ≡ false → nearer price c d ≡ c
  nearer-keeps c d h k = ground (arith, close-down c d h k)

  nearer-takes : (c d : Decimal) → close c ≡ false → close d ≡ true → nearer price c d ≡ d
  nearer-takes c d h k = ground (arith, close-down d c k h)

  nearest-keep :
      (c : Decimal) (cs : List Decimal)
      → close c ≡ true
      → nearest price c (keep close cs) ≡ nearest price c cs
  unfolding nearest
  nearest-keep c [] h = refl
  nearest-keep c (d ∷ cs) h = elim (Bool-cases (close d)) [
    | inl near ↦ rw near (nearest-keep (nearer price c d) cs (nearer-close c d h near))
    | inr far ↦
        rw far (nearest-keep c cs h ∙ ap (λ x. nearest price x cs) (sym (nearer-keeps c d h far)))
  ]

  -- The nearest of a list, if it has one.
  abbrev closest : List Decimal → Option Decimal
  closest [] = none
  closest (c ∷ cs) = some (nearest price c cs)

  nearest-skip :
      (c r : Decimal) (cs : List Decimal)
      → close c ≡ false
      → closest (keep close cs) ≡ some r
      → some (nearest price c cs) ≡ some r
  unfolding nearest
  nearest-skip c r [] h k = absurd (ground arith)
  nearest-skip c r (d ∷ cs) h k = elim (Bool-cases (close d)) [
    | inl near ↦
        let first = rw near at k in
        rw (nearer-takes c d h near) (ap some (sym (nearest-keep d cs near)) ∙ first)
    | inr far ↦ nearest-skip (nearer price c d) r cs (nearer-far c d h far) (rw far at k)
  ]

  closest-keep :
      (cs : List Decimal) (r : Decimal) → closest (keep close cs) ≡ some r → closest cs ≡ some r
  closest-keep [] r h = h
  closest-keep (c ∷ cs) r h = elim (Bool-cases (close c)) [
    | inl near ↦ ap some (sym (nearest-keep c cs near)) ∙ (rw near at h)
    | inr far ↦ nearest-skip c r cs far (rw far at h)
  ]

  fallback-closest :
      (profile : CurrencyProfile) (cs : List Decimal) (r : Decimal)
      → closest cs ≡ some r
      → fallback price profile cs ≡ some r
  unfolding fallback
  fallback-closest profile [] r h = absurd (ground arith)
  fallback-closest profile (c ∷ cs) r h = h

  choose-fallback :
      (profile : CurrencyProfile) (cs valid : List Decimal)
      → valid ≡ keep close (keep (allowed profile.min_price) cs)
      → choose price profile valid cs ≡ fallback price profile (keep (allowed profile.min_price) cs)
  unfolding choose
  choose-fallback profile cs [] e = refl
  choose-fallback profile cs (c ∷ valid) e = sym (
      fallback-closest profile (keep (allowed profile.min_price) cs) (nearest price c valid) (
        closest-keep (keep (allowed profile.min_price) cs) (nearest price c valid)
          (ap closest (sym e))))

  pub select-fallback :
      (profile : CurrencyProfile) (cs : List Decimal)
      → select price flex profile cs ≡ fallback price profile (keep (allowed profile.min_price) cs)
  unfolding select
  select-fallback profile cs =
      choose-fallback profile cs _ (keep-keep close (allowed profile.min_price) cs)

-- `flex_pct` has no effect: whatever fractions two calls pass, they return the same price.
pub apply_currency_rounding-flex :
    (price : Decimal) (code : String) (flex other : ℕ)
    → apply_currency_rounding price code flex ≡ apply_currency_rounding price code other
unfolding apply_currency_rounding round_positive
apply_currency_rounding-flex price code flex other = elim (Bool-cases (leb_ℤ price (pos 0))) [
  | inl free ↦ rw free
  | inr paid ↦ rw paid (
      ap (Option.bind (generate_nice_candidates (pos_part price) (profile_for code))) (
        fun_ext (λ cs.
          select-fallback (pos_part price) flex (profile_for code) cs
          ∙ sym (select-fallback (pos_part price) other (profile_for code) cs))))
]
