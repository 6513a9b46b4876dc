-- ===== src/Rounding.antt =====
-- Rounding to the nearest whole number: `round(x, k)` of Python in units of the last digit kept.
-- Where the exact quotient falls half way, the program's binary fraction decides, and here a
-- parameter does.
use native.Mathlib.Nat.{
  div-lt_iff_lt-mul, le-div_iff_mul-le, div-le_of_le-mul, mul-mod_left, mul_comm,
}
use native.Mathlib.Decide.{dec_lt}
use human_data.Prelude.{ℕ, Bool, ◌<◌, if◌then◌else◌, ◌*◌, ◌≤◌, ◌/◌, ltb, ◌%◌, ◌+◌, arith, ◌≡◌, ap}

-- `n / d` to the nearest whole number
unfoldable pub div_round : (ℕ → ℕ → Bool) → ℕ → ℕ → ℕ
div_round up n d =
    if ltb (2 * (n % d)) d
    then n / d
    else (if ltb d (2 * (n % d)) then n / d + 1 else (if up n d then n / d + 1 else n / d))

div-lt_of_rest : (hi d n : ℕ) → 0 < d → 0 < n % d → n ≤ hi * d → n / d < hi
div-lt_of_rest hi d n p r h = (div-lt_iff_lt-mul p).1 (elim (dec_lt n (hi * d)) [
  | yes below ↦ below
  | no above ↦
      let same : n ≡ hi * d = omega arith in
      absurd (omega (arith, ap (λ (m : ℕ). m % d) same, mul-mod_left hi d))
])

-- A rounded quotient stays between any whole bounds of the exact one.
pub div_round_bounds :
    (up : ℕ → ℕ → Bool) (n d lo hi : ℕ)
    → 0 < d
    → lo * d ≤ n
    → n ≤ hi * d
    → (lo ≤ div_round up n d) × (div_round up n d ≤ hi)
unfolding div_round
div_round_bounds up n d lo hi p l h =
    let low : lo ≤ n / d = (le-div_iff_mul-le p).1 l in
    let high : n / d ≤ hi = div-le_of_le-mul d (rw mul_comm h) in
    ground (arith, div-lt_of_rest hi d n p)
