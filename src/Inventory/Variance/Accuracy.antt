-- ===== src/Inventory/Variance/Accuracy.antt =====
-- The headline accuracy (backend/app/inventory/variance.py,
-- value_weighted_accuracy_basis_points).
use nextgen_backend.Prelude.{ℕ, ◌+◌, ◌*◌, ◌≤◌, ◌<◌, ◌≡◌, ◌≢◌, refl, some, List, [], ◌∷◌, arith, All}
use nextgen_backend.Prelude.Int.{ℤ, pos, negsuc, ◌-ℤ◌, ◌*ℤ◌, ◌≤ℤ◌, int_laws}
use nextgen_backend.Prelude.Decimal.{half_up, half_up_nearest, quantize, quantize_zero}
use nextgen_backend.Inventory.Ledger.{value_cents}
use nextgen_backend.Inventory.Variance.{
  IngredientVariance, variance_milli, variance_value_cents, theoretical_value_cents, sum_abs,
  value_weighted_accuracy_basis_points,
}

-- The headline is 100% less an error that is the whole number of basis points nearest to the
-- variance's value over the consumption's, a tie rounded up; so it never passes 100%.
pub accuracy_nearest :
    (vs : List IngredientVariance) (a : ℤ)
    → value_weighted_accuracy_basis_points vs ≡ some a
    → let used = sum_abs theoretical_value_cents vs in
      let lost = sum_abs variance_value_cents vs in
      (error : ℕ) × (a ≡ pos 10_000 -ℤ pos error)
      × (a ≤ℤ pos 10_000)
      × (2 * (used * error) ≤ 2 * (lost * 10_000) + used)
      × (2 * (lost * 10_000) < 2 * (used * error) + used)
unfolding value_weighted_accuracy_basis_points quantize
accuracy_nearest vs a h =
    let used = sum_abs theoretical_value_cents vs in
    let lost = sum_abs variance_value_cents vs in
    let error = half_up (lost * 10_000) used in
    let positive : 0 < used = ground arith in
    let near = half_up_nearest (lost * 10_000) used positive in
    let exact : a ≡ pos 10_000 -ℤ pos error = ground arith in
    (error, exact, rw exact (omega int_laws), near.0, omega (arith, near))

value_of_zero : (c : ℤ) → value_cents (pos 0) c ≡ pos 0
unfolding value_cents quantize ◌*ℤ◌ half_up
value_of_zero (pos c) = ground arith
value_of_zero (negsuc c) = ground arith

no_variance :
    (vs : List IngredientVariance)
    → All (λ v. variance_milli v ≡ pos 0) vs
    → sum_abs variance_value_cents vs ≡ 0
unfolding sum_abs variance_value_cents
no_variance [] h = refl
no_variance (v ∷ vs) h = rw (h.0, value_of_zero v.unit_cost_micro_cents, no_variance vs h.1) refl

-- A stocktake that finds what the books expect, for every ingredient, scores 100% when anything of
-- value was consumed.
pub perfect_stocktake :
    (vs : List IngredientVariance)
    → All (λ v. variance_milli v ≡ pos 0) vs
    → sum_abs theoretical_value_cents vs ≢ 0
    → value_weighted_accuracy_basis_points vs ≡ some (pos 10_000)
unfolding value_weighted_accuracy_basis_points
perfect_stocktake vs h used =
    rw (no_variance vs h, quantize_zero (sum_abs theoretical_value_cents vs) (omega arith))
      (grind int_laws)
