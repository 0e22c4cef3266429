-- ===== src/Pricing/Rounding/Total.antt =====
-- backend/app/services/pricing/currency_rounding.py: the rounding never fails, respects the
-- currency's minimum and takes the nearest candidate.
use mathlib.Core.Option
use native.Mathlib.Nat.{div-lt_iff_lt-mul}
use aso_light.Base.{
  ℕ, zero, suc, ◌+◌, ◌*◌, ◌^◌, ◌<◌, ◌≤◌, ◌/◌, String, Bool, true, false, ◌&&◌, ◌||◌, ◌≡◌, refl, ap,
  ◌∙◌, Option, some, List, [], ◌∷◌, keep, All, All-weaken, keep-All, ◌⊎◌, arith, ltb, eqb, str_eq,
  if◌then◌else◌, inl, inr, Bool-cases, if_both, and_true,
}
use aso_light.Base.Dict.{Dict, lookup}
use aso_light.Base.Int.{ℤ, pos, leb_ℤ, pos_part, ◌≤ℤ◌, ◌<ℤ◌}
use aso_light.Pricing.Decimal.{unit, Decimal, quantize, half_up, whole, hundredths, thousandths}
use aso_light.Pricing.Rounding.{
  distance, allowed, nearest, nearer, fallback, quantum, select, round_positive, max_ℤ,
  apply_currency_rounding, CurrencyProfile, currency_profiles, profile_for, or_default,
  generate_nice_candidates, fractional, whole_candidates, round_to_step, get_tier,
}
use aso_light.Pricing.Rounding.Nearest.{select-fallback}

-- A profile with a known number of decimals that has tiers if it has no decimals.
abbrev pub has_tiers : List (ℕ × ℕ × ℤ) → Bool
has_tiers [] = false
has_tiers (t ∷ ts) = true

abbrev pub is_well_formed : CurrencyProfile → Bool
is_well_formed p = (eqb p.decimals 2 || eqb p.decimals 3) || (eqb p.decimals 0 && has_tiers p.tiers)

abbrev all_well_formed : Dict CurrencyProfile → Bool
all_well_formed [] = true
all_well_formed ((k, p) ∷ d) = is_well_formed p && all_well_formed d

lookup-is_well_formed :
    (k : String) (d : Dict CurrencyProfile)
    → all_well_formed d ≡ true
    → is_well_formed (or_default (lookup k d)) ≡ true
lookup-is_well_formed k [] h = refl
lookup-is_well_formed k ((j, p) ∷ d) h =
    let (here, there) = and_true (is_well_formed p) (all_well_formed d) h in
    elim (Bool-cases (str_eq k j)) [
      | inl found ↦ rw found here
      | inr other ↦ rw other (lookup-is_well_formed k d there)
    ]

currency_profiles-well_formed : all_well_formed currency_profiles ≡ true
unfolding currency_profiles
currency_profiles-well_formed = refl

pub profile_for-is_well_formed : (code : String) → is_well_formed (profile_for code) ≡ true
unfolding profile_for
profile_for-is_well_formed code =
    lookup-is_well_formed code currency_profiles currency_profiles-well_formed

-- The computation raised nothing.
abbrev Defined {ℓ} : {A : Type ℓ} → Option A → Type ℓ
Defined {A} o = (a : A) × (o ≡ some a)

bind-Defined {ℓ κ} :
    {A : Type ℓ} {B : Type κ} (o : Option A) (f : A → Option B)
    → Defined o
    → ((a : A) → Defined (f a))
    → Defined (Option.bind o f)
unfolding Option.bind
bind-Defined o f (a, e) h = let (b, e') = h a in (b, ap (λ p. Option.bind p f) e ∙ e')

map-Defined {ℓ κ} :
    {A : Type ℓ} {B : Type κ} (f : A → B) (o : Option A) → Defined o → Defined (Option.map f o)
map-Defined f o (a, e) = (f a, ap (Option.map f) e)

tiers_needed :
    (fraction none_zero t : Bool)
    → fraction ≡ false
    → (fraction || (none_zero && t)) ≡ true
    → t ≡ true
tiers_needed fraction none_zero t e h = ground arith

module _ (price : ℕ) where
  nearest-All {ℓ} :
      (P : Decimal → Type ℓ) (c : Decimal) (cs : List Decimal)
      → P c
      → All P cs
      → P (nearest price c cs)
  unfolding nearest
  nearest-All P c [] h k = h
  nearest-All P c (d ∷ cs) h k =
      nearest-All P (nearer price c d) cs
        (if_both P (ltb (distance price d) (distance price c)) d c k.0 h) k.1

  distance-nearer-left : (c d : Decimal) → distance price (nearer price c d) ≤ distance price c
  distance-nearer-left c d = ground arith

  distance-nearer-right : (c d : Decimal) → distance price (nearer price c d) ≤ distance price d
  distance-nearer-right c d = ground arith

  nearest-le-head :
      (c : Decimal) (cs : List Decimal) → distance price (nearest price c cs) ≤ distance price c
  unfolding nearest
  nearest-le-head c [] = omega arith
  nearest-le-head c (d ∷ cs) =
      omega (arith, nearest-le-head (nearer price c d) cs, distance-nearer-left c d)

  nearest-le :
      (c : Decimal) (cs : List Decimal)
      → All (λ d. distance price (nearest price c cs) ≤ distance price d) cs
  unfolding nearest
  nearest-le c [] = tt
  nearest-le c (d ∷ cs) = (
    omega (arith, nearest-le-head (nearer price c d) cs, distance-nearer-right c d),
    nearest-le (nearer price c d) cs,
  )

  -- `r` is one of the prices.
  abbrev pub IsOneOf : Decimal → List Decimal → Type 0
  IsOneOf r [] = ⊥
  IsOneOf r (c ∷ cs) = (r ≡ c) ⊎ IsOneOf r cs

  -- One of the allowed candidates; where there is none, the price quantized to the currency's
  -- decimals, or the minimum if that is larger.
  abbrev pub IsChosen : CurrencyProfile → List Decimal → Decimal → Type 0
  IsChosen profile above r =
      IsOneOf r above
      ⊎ ((above ≡ [])
          × ((q : ℕ) × (quantum profile.decimals ≡ some q)
              × (r ≡ max_ℤ (quantize q (pos price)) (pos profile.min_price))))

  All-IsOneOf : (xs : List Decimal) → All (λ c. IsOneOf c xs) xs
  All-IsOneOf [] = tt
  All-IsOneOf (c ∷ cs) =
      (inl refl, All-weaken (λ d. IsOneOf d cs) _ cs (λ d h. inr h) (All-IsOneOf cs))

  -- The result `r` is a candidate, respects the minimum, and no allowed candidate is nearer.
  pub record IsBest (profile : CurrencyProfile) (cs : List Decimal) (r : Decimal) : Type 0 where
    pub chosen : IsChosen profile (keep (allowed profile.min_price) cs) r
    pub above_min : pos profile.min_price ≤ℤ r
    pub nearest_allowed :
        All (λ c. distance price r ≤ distance price c) (keep (allowed profile.min_price) cs)

  allowed-All :
      (low : ℕ) (cs : List Decimal)
      → All (λ c. allowed low c ≡ true) cs
      → All (λ c. pos low ≤ℤ c) cs
  allowed-All low [] h = tt
  allowed-All low (c ∷ cs) h = (ground arith, allowed-All low cs h.1)

  quantum-known :
      (decimals : ℕ) (t : Bool)
      → ((eqb decimals 2 || eqb decimals 3) || (eqb decimals 0 && t)) ≡ true
      → (q : ℕ) × (quantum decimals ≡ some q)
  unfolding quantum
  quantum-known zero t h = (whole 1, refl)
  quantum-known (suc zero) t h = absurd (ground arith)
  quantum-known (suc (suc zero)) t h = (hundredths 1, refl)
  quantum-known (suc (suc (suc zero))) t h = (thousandths 1, refl)
  quantum-known (suc (suc (suc (suc n)))) t h = absurd (ground arith)

  fallback_best :
      (profile : CurrencyProfile) (above : List Decimal)
      → is_well_formed profile ≡ true
      → All (λ c. pos profile.min_price ≤ℤ c) above
      → (r : Decimal) × (fallback price profile above ≡ some r)
        × IsChosen profile above r
        × (pos profile.min_price ≤ℤ r)
        × All (λ c. distance price r ≤ distance price c) above
  unfolding fallback
  fallback_best profile [] w h =
      let (q, e) = quantum-known profile.decimals (has_tiers profile.tiers) w in
      (
        max_ℤ (quantize q (pos price)) (pos profile.min_price),
        rw e,
        inr (refl, (q, e, refl)),
        ground arith,
        tt,
      )
  fallback_best profile (c ∷ cs) w h = (
    nearest price c cs,
    refl,
    inl (
        nearest-All (λ x. IsOneOf x (c ∷ cs)) c cs (All-IsOneOf (c ∷ cs)).0
          (All-IsOneOf (c ∷ cs)).1),
    nearest-All (λ x. pos profile.min_price ≤ℤ x) c cs h.0 h.1,
    (nearest-le-head c cs, nearest-le c cs),
  )

  get_tier-some :
      (whole_price : ℕ) (tiers : List (ℕ × ℕ × ℤ))
      → has_tiers tiers ≡ true
      → (t : ℕ × ℤ) × (get_tier whole_price tiers ≡ some t)
  unfolding get_tier
  get_tier-some n [] h = absurd (ground arith)
  get_tier-some n ((threshold, step, suffix) ∷ tiers) h = (_, refl)

  round_to_step-some : (step : ℕ) → price < whole (10 ^ 24) → Defined (round_to_step price step)
  unfolding round_to_step half_up
  round_to_step-some zero h = (_, refl)
  round_to_step-some (suc k) h =
      let positive : 0 < 2 * whole (suc k) = omega arith in
      let small : 2 * price + whole (suc k) < 10 ^ 28 * (2 * whole (suc k)) = omega (arith, h) in
      let few : (2 * price + whole (suc k)) / (2 * whole (suc k)) < 10 ^ 28 =
        (div-lt_iff_lt-mul positive).1 small in
      let fits : ltb ((2 * price + whole (suc k)) / (2 * whole (suc k))) (10 ^ 28) ≡ true =
        ground (arith, few) in
      (half_up price (whole (suc k)) * suc k, rw fits refl)

  fractional-some :
      price < whole (10 ^ 24)
      → (suffix : ℕ) (tiers : List (ℕ × ℕ × ℤ))
      → (cs : List Decimal) × (fractional price suffix tiers ≡ some cs)
  unfolding fractional
  fractional-some h suffix [] = (_, refl)
  fractional-some h suffix (t ∷ ts) =
      bind-Defined (get_tier (price / unit) (t ∷ ts)) _ (get_tier-some (price / unit) (t ∷ ts) refl)
        λ tier. map-Defined _ (round_to_step price tier.0) (round_to_step-some tier.0 h)

  whole-some :
      price < whole (10 ^ 24)
      → (tiers : List (ℕ × ℕ × ℤ)) → has_tiers tiers ≡ true
      → (cs : List Decimal) × (whole_candidates price tiers ≡ some cs)
  unfolding whole_candidates
  whole-some small tiers h =
      bind-Defined (get_tier (price / unit) tiers) _ (get_tier-some (price / unit) tiers h)
        λ tier. map-Defined _ (round_to_step price tier.0) (round_to_step-some tier.0 small)

  branch-some :
      (profile : CurrencyProfile)
      → is_well_formed profile ≡ true
      → price < whole (10 ^ 24)
      → Defined (
          if eqb profile.decimals 2 || eqb profile.decimals 3
          then fractional price profile.decimal_suffix profile.tiers
          else whole_candidates price profile.tiers)
  branch-some profile w h = elim (Bool-cases (eqb profile.decimals 2 || eqb profile.decimals 3)) [
    | inl fraction ↦ rw fraction (fractional-some h profile.decimal_suffix profile.tiers)
    | inr without ↦ rw without (
        whole-some h profile.tiers
          (tiers_needed _ (eqb profile.decimals 0) (has_tiers profile.tiers) without w))
  ]

  candidates-some :
      (profile : CurrencyProfile)
      → is_well_formed profile ≡ true
      → price < whole (10 ^ 24)
      → Defined (generate_nice_candidates price profile)
  unfolding generate_nice_candidates
  candidates-some profile w h = map-Defined _ _ (branch-some profile w h)

  pub round_positive-IsBest :
      (flex : ℕ) (profile : CurrencyProfile) (cs : List Decimal)
      → is_well_formed profile ≡ true
      → generate_nice_candidates price profile ≡ some cs
      → (r : Decimal) × (round_positive price flex profile ≡ some r) × IsBest profile cs r
  unfolding round_positive Option.bind
  round_positive-IsBest flex profile cs w made =
      let above = keep (allowed profile.min_price) cs in
      let (r, e, chosen, low, near) =
        fallback_best profile above w (allowed-All profile.min_price above (keep-All _ cs)) in
      (
        r,
        ap (λ o. Option.bind o (select price flex profile)) made
            ∙ (select-fallback price flex profile cs ∙ e),
        record { chosen = chosen; above_min = low; nearest_allowed = near },
      )

not_free : (price : Decimal) → pos 0 <ℤ price → leb_ℤ price (pos 0) ≡ false
not_free price h = ground arith

-- The result for candidates that are known.
pub apply_currency_rounding-IsBest_of :
    (price : Decimal) (code : String) (flex : ℕ) (cs : List Decimal)
    → pos 0 <ℤ price
    → generate_nice_candidates (pos_part price) (profile_for code) ≡ some cs
    → (r : Decimal) × (apply_currency_rounding price code flex ≡ some r)
      × IsBest (pos_part price) (profile_for code) cs r
unfolding apply_currency_rounding
apply_currency_rounding-IsBest_of price code flex cs h made =
    let (r, e, best) =
      round_positive-IsBest (pos_part price) flex (profile_for code) cs
        (profile_for-is_well_formed code) made in
    (r, rw (not_free price h) e, best)

-- A positive price below 10^24 is always rounded, to the candidate nearest to it among those that
-- respect the currency's minimum; where none does, to its value quantized to the currency's decimals
-- or to the minimum, whichever is larger.
pub apply_currency_rounding-IsBest :
    (price : Decimal) (code : String) (flex : ℕ)
    → pos 0 <ℤ price
    → pos_part price < whole (10 ^ 24)
    → (cs : List Decimal) × (r : Decimal) × (generate_nice_candidates
          (pos_part price)
          (profile_for code)
        ≡ some cs)
      × (apply_currency_rounding price code flex ≡ some r)
      × IsBest (pos_part price) (profile_for code) cs r
apply_currency_rounding-IsBest price code flex h small =
    let (cs, made) =
      candidates-some (pos_part price) (profile_for code) (profile_for-is_well_formed code) small in
    let (r, e, best) = apply_currency_rounding-IsBest_of price code flex cs h made in
    (cs, r, made, e, best)

-- Rounding returns a price for every input below 10^24, also for one that is not positive.
pub apply_currency_rounding-total :
    (price : Decimal) (code : String) (flex : ℕ)
    → pos_part price < whole (10 ^ 24)
    → (r : Decimal) × (apply_currency_rounding price code flex ≡ some r)
unfolding apply_currency_rounding
apply_currency_rounding-total price code flex small = elim (Bool-cases (leb_ℤ price (pos 0))) [
  | inl free ↦ (price, rw free)
  | inr paid ↦
      let (cs, r, made, e, best) =
        apply_currency_rounding-IsBest price code flex (ground (arith, paid)) small in
      (r, e)
]
