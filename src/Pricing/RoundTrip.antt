-- ===== src/Pricing/RoundTrip.antt =====
-- Adding VAT and taking it out again (shared/pricing/engine.py, apply_vat_to_total).
use nextgen_backend.Prelude.{ℕ, ◌+◌, ◌*◌, ◌≡◌, true, false, arith}
use nextgen_backend.Prelude.Int.{ℤ, pos, negsuc, ◌+ℤ◌}
use nextgen_backend.Prelude.Decimal.{half_up, half_up_nearest, half_up_unique}
use nextgen_backend.Pricing.{calculate_vat_cents, apply_vat_to_total}

-- The two rounded quotients agree on numbers.
half_up_gross :
    (n r : ℕ) → half_up ((n + half_up (n * r) 10_000) * r) (10_000 + r) ≡ half_up (n * r) 10_000
half_up_gross n r =
    let near = half_up_nearest (n * r) 10_000 (omega arith) in
    half_up_unique ((n + half_up (n * r) 10_000) * r) (10_000 + r) (half_up (n * r) 10_000)
      (omega arith) (omega (arith, near)) (omega (arith, near))

-- A net amount to which VAT has been added contains exactly that VAT: taking the VAT out of the
-- gross total by the inclusive formula gives back the cents that the exclusive formula added,
-- with no rounding drift, for every amount and rate.
pub exclusive_inclusive_round_trip :
    (net rate : ℤ)
    → let (total, vat) = apply_vat_to_total net rate false in
      apply_vat_to_total total rate true ≡ (total, vat)
unfolding apply_vat_to_total calculate_vat_cents ◌+ℤ◌
exclusive_inclusive_round_trip (negsuc n) rate = ground arith
exclusive_inclusive_round_trip (pos n) (negsuc r) = ground arith
exclusive_inclusive_round_trip (pos n) (pos r) = ground (arith, half_up_gross n r)
