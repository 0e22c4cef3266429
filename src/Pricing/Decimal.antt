-- ===== src/Pricing/Decimal.antt =====
-- Python's `Decimal` as a number of units of 10^-40: every value of 28 significant digits that is
-- at least 10^-12 is a whole number of them. Sums, comparisons, `int` and `quantize` are exact.
use aso_light.Base.{ℕ, suc, ◌+◌, ◌*◌, ◌/◌, ◌%◌, ◌^◌, Option, none, some, ltb, if◌then◌else◌}
use aso_light.Base.Int.{ℤ, pos, negsuc, sub_ℕ}

abbrev pub unit : ℕ
unit = 10 ^ 40

abbrev pub Decimal : Type 0
Decimal = ℤ

-- `Decimal(n)` for a whole number, and `Decimal("0.99")` and `Decimal("0.999")` by their digits.
abbrev pub whole : ℕ → ℕ
whole n = n * unit

abbrev pub hundredths : ℕ → ℕ
hundredths n = n * 10 ^ 38

abbrev pub thousandths : ℕ → ℕ
thousandths n = n * 10 ^ 37

-- `Decimal(n)` for an integer
abbrev pub of_ℤ : ℤ → Decimal
of_ℤ (pos n) = pos (n * unit)
of_ℤ (negsuc n) = sub_ℕ 0 (suc n * unit)

-- `n / q` rounded to a whole number: ROUND_HALF_UP, and ROUND_HALF_EVEN, the context's default.
unfoldable pub half_up : ℕ → ℕ → ℕ
half_up n q = (2 * n + q) / (2 * q)

unfoldable pub half_even : ℕ → ℕ → ℕ
half_even n q =
    let k = n / q in
    let r = n % q in if ltb (2 * r) q then k else if ltb q (2 * r) then k + 1 else k + k % 2

-- `price.quantize(step)`, for a step of `q` units and a result of at most 28 digits
unfoldable pub quantize : ℕ → Decimal → Decimal
quantize q (pos n) = pos (half_even n q * q)
quantize q (negsuc n) = sub_ℕ 0 (half_even (suc n) q * q)

-- `price.quantize(step)` as the context's precision of 28 digits allows it; `none` is the
-- InvalidOperation of a result with more digits.
abbrev pub size : Decimal → ℕ
size (pos n) = n
size (negsuc n) = suc n

unfoldable pub quantize_or_raise : ℕ → Decimal → Option Decimal
quantize_or_raise q price =
    if ltb (half_even (size price) q) (10 ^ 28) then some (quantize q price) else none
