-- ===== src/Pricing/Charming.antt =====
-- backend/app/services/pricing/charming.py: prices that end in .99 or .95.
use Prim.Native.Nat.{◌*◌, ◌/◌, ◌%◌, ◌-◌, ◌<◌, ◌≤◌, ◌^◌}
use aso_light.Base.{
  ℕ, suc, ◌+◌, String, ◌≡◌, ap, ◌∙◌, sym, arith, leb, ltb, str_eq, if◌then◌else◌, inl, inr,
  Bool-cases, ◌⊎◌,
}
use aso_light.Base.Int.{ℤ, pos, negsuc, sub_ℕ, ◌+ℤ◌, ◌-ℤ◌, ltb_ℤ, leb_ℤ}
use aso_light.Pricing.Decimal.{unit, Decimal, of_ℤ, hundredths, half_even, quantize}

-- `int(price)`, which drops the fraction of a negative number too
pub int_part : Decimal → ℤ
int_part (pos n) = pos (n / unit)
int_part (negsuc n) = sub_ℕ 0 (suc n / unit)

abbrev max_zero : ℤ → ℤ
max_zero (pos n) = pos n
max_zero (negsuc n) = pos 0

-- The part of `apply_charming` below the choice of the suffix.
pub charm : ℕ → Decimal → Decimal
charm suffix price =
    let integer_part = int_part price in
    let fraction = price -ℤ of_ℤ integer_part in
    if leb_ℤ (pos suffix) fraction
    then of_ℤ integer_part +ℤ pos suffix
    else if ltb_ℤ fraction (pos (hundredths 50))
    then of_ℤ (max_zero (integer_part -ℤ pos 1)) +ℤ pos suffix
    else of_ℤ integer_part +ℤ pos suffix

-- `apply_charming`
unfoldable pub apply_charming : Decimal → String → Decimal
apply_charming price mode =
    if str_eq mode "none"
    then quantize (hundredths 1) price
    else if str_eq mode "99"
    then charm (hundredths 99) price
    else if str_eq mode "95"
    then charm (hundredths 95) price
    else quantize (hundredths 1) price

-- On a price that is not negative, in natural numbers.
charm_nat : ℕ → ℕ → ℕ
charm_nat suffix n =
    if leb suffix (n % unit)
    then n / unit * unit + suffix
    else if ltb (n % unit) (hundredths 50)
    then (n / unit - 1) * unit + suffix
    else n / unit * unit + suffix

charm-eq : (suffix n : ℕ) → charm suffix (pos n) ≡ pos (charm_nat suffix n)
unfolding charm charm_nat int_part ◌+ℤ◌ ◌-ℤ◌
charm-eq suffix n = ground arith

charm_nat_idem : (s n : ℕ) → s < unit → charm_nat s (charm_nat s n) ≡ charm_nat s n
unfolding charm_nat
charm_nat_idem s n h = ground arith

half_even-exact : (k : ℕ) → half_even (k * 10 ^ 38) (10 ^ 38) ≡ k
unfolding half_even
half_even-exact k = ground arith

quantize_idem :
    (n : ℕ)
    → quantize (hundredths 1) (quantize (hundredths 1) (pos n)) ≡ quantize (hundredths 1) (pos n)
unfolding quantize
quantize_idem n =
    ap (λ (k : ℕ). pos (k * hundredths 1)) (half_even-exact (half_even n (hundredths 1)))

charm_idem : (s n : ℕ) → s < unit → charm s (charm s (pos n)) ≡ charm s (pos n)
charm_idem s n h =
    ap (charm s) (charm-eq s n)
    ∙ charm-eq s (charm_nat s n)
    ∙ ap pos (charm_nat_idem s n h)
    ∙ sym (charm-eq s n)

-- Charming a price that is not negative a second time changes nothing, in every mode.
pub apply_charming_idem :
    (n : ℕ) (mode : String)
    → apply_charming (apply_charming (pos n) mode) mode ≡ apply_charming (pos n) mode
unfolding apply_charming
apply_charming_idem n mode = elim (Bool-cases (str_eq mode "none")) [
  | inl plain ↦ rw plain (quantize_idem n)
  | inr charmed ↦ elim (Bool-cases (str_eq mode "99")) [
    | inl m ↦ rw (charmed, m) (charm_idem (hundredths 99) n (omega arith))
    | inr not_99 ↦ elim (Bool-cases (str_eq mode "95")) [
      | inl m ↦ rw (charmed, not_99, m) (charm_idem (hundredths 95) n (omega arith))
      | inr other ↦ rw (charmed, not_99, other) (quantize_idem n)
    ]
  ]
]

-- What a charmed price ends in.
abbrev pub IsEnding : String → ℕ → Type 0
IsEnding mode suffix =
    ((mode ≡ "99") × (suffix ≡ hundredths 99)) ⊎ ((mode ≡ "95") × (suffix ≡ hundredths 95))

-- How a price `n` of one or more is moved: to `k` and the suffix, by less than 1.50 less the
-- suffix (so by less than 0.51 for .99 and 0.55 for .95).
abbrev pub IsCharmed : ℕ → ℕ → Decimal → Type 0
IsCharmed suffix n r =
    (k : ℕ) × (r ≡ pos (k * unit + suffix))
    × ((k * unit + suffix - n) + (n - (k * unit + suffix)) + suffix < hundredths 150)

charm_nat-near :
    (s n : ℕ)
    → unit ≤ n
    → hundredths 95 ≤ s
    → s < unit
    → (k : ℕ) × (charm_nat s n ≡ k * unit + s)
      × ((k * unit + s - n) + (n - (k * unit + s)) + s < hundredths 150)
unfolding charm_nat
charm_nat-near s n big lo hi = elim (Bool-cases (leb s (n % unit))) [
  | inl above ↦ (n / unit, rw above, ground arith)
  | inr below ↦ elim (Bool-cases (ltb (n % unit) (hundredths 50))) [
    | inl low ↦ (n / unit - 1, rw (below, low), ground arith)
    | inr high ↦ (n / unit, rw (below, high), ground arith)
  ]
]

-- In the modes .99 and .95 a price of at least one is moved to an amount with that ending, by less
-- than 0.51 and 0.55.
pub apply_charming-near :
    (n : ℕ) (mode : String) (suffix : ℕ)
    → unit ≤ n
    → IsEnding mode suffix
    → IsCharmed suffix n (apply_charming (pos n) mode)
unfolding apply_charming
apply_charming-near n mode suffix big (inl (m, s)) =
    let (k, e, near) = charm_nat-near (hundredths 99) n big (omega arith) (omega arith) in
    rw (m, s) (k, charm-eq (hundredths 99) n ∙ ap pos e, near)
apply_charming-near n mode suffix big (inr (m, s)) =
    let (k, e, near) = charm_nat-near (hundredths 95) n big (omega arith) (omega arith) in
    rw (m, s) (k, charm-eq (hundredths 95) n ∙ ap pos e, near)
