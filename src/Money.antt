-- ===== src/Money.antt =====
-- Amounts, rates and costs: `decimal.Decimal` values held as whole numbers of 10^-6, the scale of the
-- NUMERIC(18, 6) columns, and `quantize(Decimal("0.000001"), rounding=ROUND_HALF_UP)`.
use modishlog.Prelude.{ℕ, ◌+◌, ◌*◌, ◌/◌, ◌≤◌, ◌<◌, ◌≡◌, arith}

-- One unit of money, rate or cost.
abbrev pub one : ℕ
one = 1_000_000

-- `quantize` of a value that is held with `2 * half` parts to the last kept decimal.
abbrev pub round_half_up : ℕ → ℕ → ℕ
round_half_up half x = (x + half) / (2 * half)

-- The product of two values at scale 6 has scale 12.
abbrev pub quantize_product : ℕ → ℕ
quantize_product x = round_half_up 500_000 x

-- A quotient rounded to the last kept decimal, a tie going up. `Decimal` first rounds the quotient to
-- 28 digits; for operands that fit NUMERIC(18, 6) this moves no quotient across a tie.
abbrev pub quantize_quotient : ℕ → ℕ → ℕ
quantize_quotient x y = (2 * x + y) / (2 * y)

-- The rounded product is within half a unit of the exact one, and a tie goes up.
pub quantize_product_nearest :
    (x : ℕ) → (quantize_product x * one ≤ x + 500_000) × (x < quantize_product x * one + 500_000)
quantize_product_nearest x = omega arith

pub quantize_product-exact : (x : ℕ) → quantize_product (x * one) ≡ x
quantize_product-exact x = omega arith
