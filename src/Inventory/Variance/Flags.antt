-- ===== src/Inventory/Variance/Flags.antt =====
-- Which variances reach the manager (backend/app/inventory/variance.py, is_flagged).
use nextgen_backend.Prelude.{
  ℕ, ◌+◌, ◌*◌, ◌≤◌, ◌<◌, ◌≡◌, ◌↔◌, Bool, true, false, not, none, some, arith, ◌≢◌, refl, zero, suc,
}
use nextgen_backend.Prelude.Int.{ℤ, pos, negsuc, pos_part, neg_part, ◌*ℤ◌, abs, eqb_ℤ, leb_ℤ}
use nextgen_backend.Prelude.Decimal.{half_up, half_up_nearest, quantize}
use nextgen_backend.Inventory.Variance.{
  IngredientVariance, variance_milli, basis_points, variance_basis_points, is_flagged,
  default_variance_alert_basis_points,
}

abbrev pub magnitude : ℤ → ℕ
magnitude a = pos_part a + neg_part a

-- The absolute value of a rounded quotient is the rounded quotient of the absolute values.
magnitude-quantize : (n : ℤ) (d : ℕ) → magnitude (quantize n d) ≡ half_up (magnitude n) d
unfolding quantize
magnitude-quantize (pos n) d = ground (arith, half_up n d)
magnitude-quantize (negsuc n) d = ground (arith)

magnitude-scaled : (n : ℤ) → magnitude (n *ℤ pos 10_000) ≡ magnitude n * 10_000
unfolding ◌*ℤ◌
magnitude-scaled n = ground arith

-- Rounded half up, a quotient reaches 200 from 199.5 on.
half_up_200 : (n d : ℕ) → 0 < d → (200 ≤ half_up (n * 10_000) d) ↔ (399 * d ≤ 20_000 * n)
half_up_200 n d h =
    let near = half_up_nearest (n * 10_000) d h in
    (λ le. grind (arith, near), λ le. grind (arith, near))

nonzero : (a : ℤ) → a ≢ pos 0 → (eqb_ℤ a (pos 0) ≡ false) × (0 < magnitude a)
nonzero (pos zero) h = absurd (h refl)
nonzero (pos (suc n)) h = ground arith
nonzero (negsuc n) h = ground arith

eqb_zero : (a : ℤ) → (not (eqb_ℤ a (pos 0)) ≡ true) ↔ (a ≢ pos 0)
eqb_zero (pos zero) = (λ e. cc, λ h. absurd (h refl))
eqb_zero (pos (suc n)) = (λ e p. cc, λ h. ground arith)
eqb_zero (negsuc n) = (λ e p. cc, λ h. ground arith)

-- The test of is_flagged on a variance and a consumption.
abbrev flag : ℤ → ℤ → Bool
flag variance consumption = elim (basis_points variance consumption) [
  | none ↦ not (eqb_ℤ variance (pos 0))
  | some bp ↦ leb_ℤ default_variance_alert_basis_points (abs bp)
]

flag_iff : (n d : ℤ) → d ≢ pos 0 → (flag n d ≡ true) ↔ (399 * magnitude d ≤ 20_000 * magnitude n)
unfolding basis_points
flag_iff n d h =
    let positive = nonzero d h in
    let bp : magnitude (quantize (n *ℤ pos 10_000) (magnitude d))
        ≡ half_up (magnitude n * 10_000) (magnitude d) =
      rw (← magnitude-scaled n) (magnitude-quantize (n *ℤ pos 10_000) (magnitude d)) in
    let iff = half_up_200 (magnitude n) (magnitude d) positive.1 in
    (λ e. iff.0 (ground (arith, positive.0, bp)), λ e. ground (arith, positive.0, bp, iff.1 e))

flag_zero : (n d : ℤ) → d ≡ pos 0 → (flag n d ≡ true) ↔ (n ≢ pos 0)
unfolding basis_points
flag_zero n d h = rw h (eqb_zero n)

-- With consumption to compare against, an ingredient is flagged exactly when its variance is at
-- least 1.995% of theoretical consumption, in either direction.
pub flagged_iff :
    (v : IngredientVariance)
    → v.theoretical_consumption_milli ≢ pos 0
    → (is_flagged v ≡ true)
      ↔ (399 * magnitude v.theoretical_consumption_milli ≤ 20_000 * magnitude (variance_milli v))
unfolding is_flagged variance_basis_points
flagged_iff v h = flag_iff (variance_milli v) v.theoretical_consumption_milli h

-- With none, it is flagged exactly when any stock moved at all.
pub flagged_without_consumption :
    (v : IngredientVariance)
    → v.theoretical_consumption_milli ≡ pos 0
    → (is_flagged v ≡ true) ↔ (variance_milli v ≢ pos 0)
unfolding is_flagged variance_basis_points
flagged_without_consumption v h = flag_zero (variance_milli v) v.theoretical_consumption_milli h
