-- ===== src/Prelude/Decimal.antt =====
-- `(a / d).quantize(Decimal("1"), rounding=ROUND_HALF_UP)`: the nearest whole number, a tie away
-- from zero.
use Prim.Native.Nat.{ℕ, suc, ◌+◌, ◌*◌, ◌/◌, ◌≤◌, ◌<◌}
use mathlib.Core.Path.{◌≡◌, ap}
use native.Mathlib.Omega.{arith}
use nextgen_backend.Prelude.Int.{ℤ, pos, negsuc, neg}

unfoldable pub half_up : ℕ → ℕ → ℕ
half_up n d = (2 * n + d) / (2 * d)

unfoldable pub quantize : ℤ → ℕ → ℤ
unfolding half_up
quantize (pos n) d = pos (half_up n d)
quantize (negsuc n) d = neg (pos (half_up (suc n) d))

-- The result is within half a unit of the exact quotient, and a tie goes up.
pub half_up_nearest :
    (n d : ℕ)
    → 0 < d
    → (2 * (d * half_up n d) ≤ 2 * n + d) × (2 * n + d < 2 * (d * half_up n d) + 2 * d)
unfolding half_up
half_up_nearest n d h = grind arith

-- Only one number is that near.
pub half_up_unique :
    (n d q : ℕ)
    → 0 < d
    → 2 * (d * q) ≤ 2 * n + d
    → 2 * n + d < 2 * (d * q) + 2 * d
    → half_up n d ≡ q
half_up_unique n d q h lo hi = grind (arith, half_up_nearest n d h)

pub quantize_zero : (d : ℕ) → 0 < d → quantize (pos 0) d ≡ pos 0
unfolding quantize
quantize_zero d h = ap pos (half_up_unique 0 d 0 h (omega arith) (omega arith))
