-- ===== src/Pricing/Vat.antt =====
-- The VAT functions (shared/pricing/engine.py, calculate_vat_cents and apply_vat_to_total).
use nextgen_backend.Prelude.{ℕ, ◌+◌, ◌*◌, ◌≤◌, ◌<◌, ◌≡◌, ◌⊎◌, Bool, true, arith, false}
use nextgen_backend.Prelude.Int.{ℤ, pos, ◌+ℤ◌, ◌≤ℤ◌, int_laws}
use nextgen_backend.Prelude.Decimal.{half_up, half_up_nearest}
use nextgen_backend.Pricing.{calculate_vat_cents, apply_vat_to_total}

-- A rate or an amount of zero or less carries no VAT, whichever way prices are quoted.
pub no_vat :
    (amount rate : ℤ) (inclusive : Bool)
    → (rate ≤ℤ pos 0) ⊎ (amount ≤ℤ pos 0)
    → apply_vat_to_total amount rate inclusive ≡ (amount, pos 0)
unfolding apply_vat_to_total calculate_vat_cents ◌+ℤ◌
no_vat amount rate inclusive h = ground arith

-- A share of less than the whole is at most the whole.
half_up-le : (n r : ℕ) → half_up (n * r) (10_000 + r) ≤ n
half_up-le n r = grind (arith, half_up_nearest (n * r) (10_000 + r))

-- VAT inside a price is the whole cent nearest to amount * rate / (10000 + rate), a tie rounded
-- up, and is never negative nor more than the price itself.
pub inclusive_vat_nearest :
    (amount rate : ℕ)
    → 1 ≤ amount
    → 1 ≤ rate
    → (vat : ℕ) × (calculate_vat_cents (pos amount) (pos rate) true ≡ pos vat)
      × (2 * ((10_000 + rate) * vat) ≤ 2 * (amount * rate) + (10_000 + rate))
      × (2 * (amount * rate) < 2 * ((10_000 + rate) * vat) + (10_000 + rate))
      × (vat ≤ amount)
unfolding calculate_vat_cents
inclusive_vat_nearest amount rate h k =
    let near = half_up_nearest (amount * rate) (10_000 + rate) (omega arith) in
    (
      half_up (amount * rate) (10_000 + rate),
      ground arith,
      near.0,
      omega (arith, near),
      half_up-le amount rate,
    )

vat_nonneg :
    (amount rate : ℤ) (inclusive : Bool) → pos 0 ≤ℤ calculate_vat_cents amount rate inclusive
unfolding calculate_vat_cents
vat_nonneg amount rate inclusive = ground arith

-- VAT never lowers a total.
pub apply_vat_to_total-covers :
    (net rate : ℤ) (inclusive : Bool) → net ≤ℤ (apply_vat_to_total net rate inclusive).0
unfolding apply_vat_to_total
apply_vat_to_total-covers net rate true = ground arith
apply_vat_to_total-covers net rate false = omega (int_laws, vat_nonneg net rate false)
