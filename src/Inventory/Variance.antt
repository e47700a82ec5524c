-- ===== src/Inventory/Variance.antt =====
-- backend/app/inventory/variance.py: expected against counted stock, in basis points of what the
-- recipes say should have been used. `none` is Python's None.
pub mod Flags
pub mod Accuracy
use nextgen_backend.Prelude.{
  ℕ, ◌+◌, ◌*◌, Bool, true, false, not, Option, none, some, List, [], ◌∷◌, leb, ◌==◌, if◌then◌else◌,
}
use nextgen_backend.Prelude.Int.{ℤ, pos, pos_part, neg_part, ◌+ℤ◌, ◌-ℤ◌, ◌*ℤ◌, abs, eqb_ℤ, leb_ℤ}
use nextgen_backend.Prelude.Decimal.{half_up, quantize}
use nextgen_backend.Inventory.Ledger.{value_cents}

abbrev pub default_variance_alert_basis_points : ℤ
default_variance_alert_basis_points = pos 200

pub record IngredientVariance : Type 0 where
  pub opening_milli : ℤ
  pub received_milli : ℤ
  pub theoretical_consumption_milli : ℤ
  pub wastage_milli : ℤ
  pub adjustment_milli : ℤ
  pub counted_milli : ℤ
  pub unit_cost_micro_cents : ℤ

unfoldable pub expected_milli : IngredientVariance → ℤ
expected_milli v =
    v.opening_milli +ℤ v.received_milli -ℤ v.theoretical_consumption_milli -ℤ v.wastage_milli
    +ℤ v.adjustment_milli

unfoldable pub variance_milli : IngredientVariance → ℤ
variance_milli v = v.counted_milli -ℤ expected_milli v

unfoldable pub variance_value_cents : IngredientVariance → ℤ
variance_value_cents v = value_cents (variance_milli v) v.unit_cost_micro_cents

unfoldable pub theoretical_value_cents : IngredientVariance → ℤ
theoretical_value_cents v = value_cents v.theoretical_consumption_milli v.unit_cost_micro_cents

unfoldable pub basis_points : ℤ → ℤ → Option ℤ
basis_points numerator_milli denominator_milli =
    if eqb_ℤ denominator_milli (pos 0)
    then none
    else some (quantize (numerator_milli *ℤ pos 10_000) (pos_part (abs denominator_milli)))

unfoldable pub variance_basis_points : IngredientVariance → Option ℤ
variance_basis_points v = basis_points (variance_milli v) v.theoretical_consumption_milli

unfoldable pub is_flagged : IngredientVariance → Bool
is_flagged v = elim (variance_basis_points v) [
  | none ↦ not (eqb_ℤ (variance_milli v) (pos 0))
  | some bp ↦ leb_ℤ default_variance_alert_basis_points (abs bp)
]

-- The sums of absolute rand values.
unfoldable pub sum_abs : (IngredientVariance → ℤ) → List IngredientVariance → ℕ
sum_abs value [] = 0
sum_abs value (v ∷ vs) = pos_part (abs (value v)) + sum_abs value vs

unfoldable pub value_weighted_accuracy_basis_points : List IngredientVariance → Option ℤ
value_weighted_accuracy_basis_points variances =
    let total_theoretical = sum_abs theoretical_value_cents variances in
    if total_theoretical == 0
    then none
    else some (
        pos 10_000
        -ℤ quantize (pos (sum_abs variance_value_cents variances * 10_000)) total_theoretical)
