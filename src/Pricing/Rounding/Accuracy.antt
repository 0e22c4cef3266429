-- ===== src/Pricing/Rounding/Accuracy.antt =====
-- backend/app/services/pricing/currency_rounding.py: how far rounding moves a price in a currency
-- with a fractional suffix and no tiers.
use aso_light.Base.{
  ℕ, ◌+◌, ◌*◌, ◌/◌, ◌≤◌, Bool, true, false, ◌||◌, ◌≡◌, refl, String, some, List, [], ◌∷◌, keep, All,
  arith, eqb, inl, inr, Bool-cases, and_true, subst, sym, ap, ◌∙◌, ◌-◌,
}
use aso_light.Base.Int.{ℤ, pos, negsuc, ◌+ℤ◌, ◌-ℤ◌, ltb_ℤ, leb_ℤ, eq_of_leb}
use aso_light.Pricing.Decimal.{unit, Decimal, of_ℤ}
use aso_light.Pricing.Rounding.{
  CurrencyProfile, distance, allowed, plain_fractional, fractional, dedupe, is_in, eqb_ℤ, offsets_3,
  apply_currency_rounding, profile_for, generate_nice_candidates,
}
use aso_light.Pricing.Rounding.Total.{IsBest, apply_currency_rounding-IsBest_of}

keep-All-apart {ℓ} :
    (P : Decimal → Type ℓ) (p : Decimal → Bool) (cs : List Decimal)
    → All P (keep p cs)
    → All (λ c. p c ≡ true → P c) cs
keep-All-apart P p [] h = tt
keep-All-apart P p (c ∷ cs) h = elim (Bool-cases (p c)) [
  | inl fits ↦ let k = rw fits at h in (λ _. k.0, keep-All-apart P p cs k.1)
  | inr fails ↦ (λ e. absurd (ground arith), keep-All-apart P p cs (rw fails at h))
]

is_in-All {ℓ} :
    (P : Decimal → Type ℓ) (c : Decimal) (seen : List Decimal)
    → is_in c seen ≡ true
    → All P seen
    → P c
is_in-All P c [] h k = absurd (ground arith)
is_in-All P c (d ∷ seen) h k = elim (Bool-cases (eqb_ℤ c d)) [
  | inl same ↦
      let (le, ge) = and_true (leb_ℤ c d) (leb_ℤ d c) same in
      subst P (sym (eq_of_leb c d le ge)) k.0
  | inr other ↦ is_in-All P c seen (rw other at h) k.1
]

-- Dropping duplicates drops no value.
dedupe-All {ℓ} :
    (P : Decimal → Type ℓ) (seen cs : List Decimal) → All P seen → All P (dedupe seen cs) → All P cs
unfolding dedupe
dedupe-All P seen [] s h = tt
dedupe-All P seen (c ∷ cs) s h = elim (Bool-cases (is_in c seen)) [
  | inl old ↦ (is_in-All P c seen old s, dedupe-All P seen cs s (rw old at h))
  | inr new ↦ let k = rw new at h in (k.0, dedupe-All P (c ∷ seen) cs (k.0, s) k.1)
]

plain_fractional-All {ℓ} :
    (P : Decimal → Type ℓ) (suffix base : ℕ) (offsets : List ℤ)
    → All P (plain_fractional suffix base offsets)
    → All
        (λ offset.
          ltb_ℤ (pos base +ℤ offset) (pos 0) ≡ false → P (of_ℤ (pos base +ℤ offset) +ℤ pos suffix))
        offsets
unfolding plain_fractional
plain_fractional-All P suffix base [] h = tt
plain_fractional-All P suffix base (offset ∷ offsets) h =
    elim (Bool-cases (ltb_ℤ (pos base +ℤ offset) (pos 0))) [
      | inl below ↦
          (λ e. absurd (ground arith), plain_fractional-All P suffix base offsets (rw below at h))
      | inr fits ↦
          let k = rw fits at h in (λ _. k.0, plain_fractional-All P suffix base offsets k.1)
    ]

abbrev IsAsNear : ℕ → ℕ → Decimal → Decimal → Type 0
IsAsNear price low r c = allowed low c ≡ true → distance price r ≤ distance price c

of_ℤ-nonneg : (b s : ℕ) → of_ℤ (pos b) +ℤ pos s ≡ pos (b * unit + s)
unfolding ◌+ℤ◌
of_ℤ-nonneg b s = ground arith

candidate_below : (b s : ℕ) → 1 ≤ b → of_ℤ (pos b +ℤ negsuc 0) +ℤ pos s ≡ pos ((b - 1) * unit + s)
candidate_below b s h = ap (λ c. of_ℤ c +ℤ pos s) (one_less b h) ∙ of_ℤ-nonneg (b - 1) s
  where
    one_less : (b : ℕ) → 1 ≤ b → pos b +ℤ negsuc 0 ≡ pos (b - 1)
    one_less b h = unfold ◌+ℤ◌ in ground arith

candidate_at : (b k s : ℕ) → of_ℤ (pos b +ℤ pos k) +ℤ pos s ≡ pos ((b + k) * unit + s)
candidate_at b k s = ap (λ c. of_ℤ c +ℤ pos s) (sum b k) ∙ of_ℤ-nonneg (b + k) s
  where
    sum : (b k : ℕ) → pos b +ℤ pos k ≡ pos (b + k)
    sum b k = unfold ◌+ℤ◌ in ground arith

distance-pos : (price c : ℕ) → distance price (pos c) ≡ (c - price) + (price - c)
unfolding ◌-ℤ◌
distance-pos price c = ground arith

near_pos :
    (price low : ℕ) (r : Decimal) (c : ℕ) {d : Decimal}
    → low ≤ c
    → d ≡ pos c
    → IsAsNear price low r d
    → distance price r ≤ (c - price) + (price - c)
near_pos price low r c {d} h e near =
    let at_c = subst (IsAsNear price low r) e near in
    omega (arith, distance-pos price c, at_c (ground arith))

-- The price lies between two of three points that are one apart.
half_of_three :
    (price suffix d : ℕ)
    → unit ≤ price
    → suffix ≤ unit
    → d
      ≤ ((price / unit - 1) * unit + suffix - price)
        + (price - ((price / unit - 1) * unit + suffix))
    → d
      ≤ ((price / unit + 0) * unit + suffix - price)
        + (price - ((price / unit + 0) * unit + suffix))
    → d
      ≤ ((price / unit + 1) * unit + suffix - price)
        + (price - ((price / unit + 1) * unit + suffix))
    → 2 * d ≤ unit
half_of_three price suffix d big su a b c = omega arith

near_half :
    (price suffix low : ℕ) (r : Decimal)
    → unit ≤ price
    → low ≤ suffix
    → suffix ≤ unit
    → IsAsNear price low r (of_ℤ (pos (price / unit) +ℤ negsuc 0) +ℤ pos suffix)
    → IsAsNear price low r (of_ℤ (pos (price / unit) +ℤ pos 0) +ℤ pos suffix)
    → IsAsNear price low r (of_ℤ (pos (price / unit) +ℤ pos 1) +ℤ pos suffix)
    → 2 * distance price r ≤ unit
near_half price suffix low r big ml su a b c =
    let n = price / unit in
    half_of_three price suffix (distance price r) big su
      (near_pos price low r ((n - 1) * unit + suffix) (omega arith)
        (candidate_below n suffix (omega arith)) a)
      (near_pos price low r ((n + 0) * unit + suffix) (omega arith) (candidate_at n 0 suffix) b)
      (near_pos price low r ((n + 1) * unit + suffix) (omega arith) (candidate_at n 1 suffix) c)

candidates-plain :
    (price : ℕ) (profile : CurrencyProfile)
    → profile.tiers ≡ []
    → (eqb profile.decimals 2 || eqb profile.decimals 3) ≡ true
    → generate_nice_candidates price profile
      ≡ some (dedupe [] (plain_fractional profile.decimal_suffix (price / unit) offsets_3))
unfolding generate_nice_candidates fractional
candidates-plain price profile no_tiers fraction = rw fraction (rw no_tiers refl)

not_below : (b : ℕ) (k : ℕ) → 1 ≤ b → ltb_ℤ (pos b +ℤ pos k) (pos 0) ≡ false
unfolding ◌+ℤ◌
not_below b k h = ground arith

not_below_less : (b : ℕ) → 1 ≤ b → ltb_ℤ (pos b +ℤ negsuc 0) (pos 0) ≡ false
unfolding ◌+ℤ◌
not_below_less b h = ground arith

best-half :
    (price : ℕ) (profile : CurrencyProfile) (r : Decimal)
    → unit ≤ price
    → profile.min_price ≤ profile.decimal_suffix
    → profile.decimal_suffix ≤ unit
    → IsBest price profile
        (dedupe [] (plain_fractional profile.decimal_suffix (price / unit) offsets_3))
        r
    → 2 * distance price r ≤ unit
best-half price profile r big ml su best =
    let P = IsAsNear price profile.min_price r in
    let n = price / unit in
    let raw = plain_fractional profile.decimal_suffix n offsets_3 in
    let all = plain_fractional-All P profile.decimal_suffix n offsets_3 (
      dedupe-All P [] raw tt (
        keep-All-apart (λ c. distance price r ≤ distance price c) (allowed profile.min_price)
          (dedupe [] raw) best.nearest_allowed)) in
    near_half price profile.decimal_suffix profile.min_price r big ml su
      (all.1.1.0 (not_below_less n (omega arith))) (all.1.1.1.0 (not_below n 0 (omega arith)))
      (all.1.1.1.1.0 (not_below n 1 (omega arith)))

-- In a currency whose profile has a fractional suffix, no tiers and a minimum of at most the
-- suffix (the .99, .90 and .999 currencies), a price of at least one unit of the currency is
-- moved by at most half a unit.
pub apply_currency_rounding-half :
    (price : ℕ) (code : String) (flex : ℕ)
    → (profile_for code).tiers ≡ []
    → (eqb (profile_for code).decimals 2 || eqb (profile_for code).decimals 3) ≡ true
    → (profile_for code).min_price ≤ (profile_for code).decimal_suffix
    → (profile_for code).decimal_suffix ≤ unit
    → unit ≤ price
    → (r : Decimal) × (apply_currency_rounding (pos price) code flex ≡ some r)
      × (2 * distance price r ≤ unit)
apply_currency_rounding-half price code flex no_tiers fraction ml su big =
    let (r, e, best) =
      apply_currency_rounding-IsBest_of (pos price) code flex
        (dedupe [] (plain_fractional (profile_for code).decimal_suffix (price / unit) offsets_3))
        (omega arith) (candidates-plain price (profile_for code) no_tiers fraction) in
    (r, e, best-half price (profile_for code) r big ml su best)
