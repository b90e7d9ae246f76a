-- ===== src/Prelude/Rounding.antt =====
-- Python's `round` of a quotient: to the nearest integer, a tie to the even one. The quotient is
-- exact here, where the program's is a double.
use Prim.Native.Nat.{ℕ, zero, suc, ◌+◌, ◌*◌, ◌/◌, ◌%◌, ◌≤◌, ◌<◌}
use native.Mathlib.Nat.{div-add-mod}
use native.Mathlib.Omega.{arith}
use ai_detention.Prelude.Tests.{ltb, ◌==◌, if◌then◌else◌}

unfoldable pub round_div : ℕ → ℕ → ℕ
round_div n d =
    if ltb (2 * (n % d)) d
    then n / d
    else (if 2 * (n % d) == d then (if (n / d) % 2 == 0 then n / d else n / d + 1) else n / d + 1)

div-le_of_le_mul : (n d k : ℕ) → 0 < d → n ≤ k * d → n / d ≤ k
div-le_of_le_mul n d k h p = grind (arith, div-add-mod n d)

div-lt_of_mod_pos : (n d k : ℕ) → 0 < d → 0 < n % d → n ≤ k * d → n / d + 1 ≤ k
div-lt_of_mod_pos n d k h r p = grind (arith, div-add-mod n d)

-- A rounded quotient does not pass a whole number that the quotient does not pass.
pub round_div-le : (n d k : ℕ) → 0 < d → n ≤ k * d → round_div n d ≤ k
unfolding round_div
round_div-le n d k h p = ground (arith, div-le_of_le_mul n d k h p, div-lt_of_mod_pos n d k h)

le-div_of_mul_le : (n d k : ℕ) → 0 < d → k * d ≤ n → k ≤ n / d
le-div_of_mul_le n d k h p = grind (arith, div-add-mod n d)

-- Nor does it fall below a whole number that the quotient does not fall below.
pub round_div-ge : (n d k : ℕ) → 0 < d → k * d ≤ n → k ≤ round_div n d
unfolding round_div
round_div-ge n d k h p = ground (arith, le-div_of_mul_le n d k h p)

pub mul-le : (a b c : ℕ) → a ≤ b → a * c ≤ b * c
mul-le a b zero h = omega arith
mul-le a b (suc c) h = grind (arith, mul-le a b c h)
