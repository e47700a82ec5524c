-- ===== src/Inventory/Units.antt =====
-- backend/app/inventory/units.py: quantities in thousandths of a canonical unit. A `Decimal` is an
-- exact fraction; a unit's text, stripped and in capitals, is one of the keys of UNIT_DEFS or
-- `none`, and so is a quantity that is no number. A raised UnitError is `none`.
use nextgen_backend.Prelude.{
  ℕ, suc, ◌*◌, ◌-◌, ◌<◌, ◌≡◌, ap, ◌∙◌, Bool, true, false, Option, none, some, arith, if◌then◌else◌,
}
use nextgen_backend.Prelude.Int.{ℤ, pos, negsuc, neg, ◌*ℤ◌, leb_ℤ, pos_part}
use nextgen_backend.Prelude.Decimal.{half_up, quantize, half_up_unique}
use nextgen_backend.Prelude.OptionMonad.{◌>>=◌}

pub data MeasureFamily : Type 0 where
  mass volume counted : MeasureFamily

pub data CanonicalUnit : Type 0 where
  gram millilitre unit : CanonicalUnit

-- The keys of UNIT_DEFS; those that count things stand together.
pub data UnitKey : Type 0 where
  key_mg key_g key_kg key_ml key_l key_each : UnitKey

pub record Fraction : Type 0 where
  pub numerator : ℤ
  pub denominator : ℕ

unfoldable pub canonical_family : CanonicalUnit → MeasureFamily
canonical_family gram = mass
canonical_family millilitre = volume
canonical_family unit = counted

-- UNIT_DEFS, with the factor times MILLI: thousandths of the canonical unit in one of the unit.
unfoldable pub unit_defs : UnitKey → MeasureFamily × ℕ
unit_defs key_mg = (mass, 1)
unit_defs key_g = (mass, 1_000)
unit_defs key_kg = (mass, 1_000_000)
unit_defs key_ml = (volume, 1_000)
unit_defs key_l = (volume, 1_000_000)
unit_defs key_each = (counted, 1_000)

abbrev pub same_family : MeasureFamily → MeasureFamily → Bool
same_family mass mass = true
same_family volume volume = true
same_family counted counted = true
same_family _ _ = false

-- The multiplication and the rounding of to_milli, at a factor in thousandths.
abbrev scaled : ℕ → Option Fraction → Option ℤ
scaled factor none = none
scaled factor (some q) = some (quantize (q.numerator *ℤ pos factor) q.denominator)

unfoldable pub to_milli : Option Fraction → Option UnitKey → CanonicalUnit → Option ℤ
to_milli quantity none canonical = none
to_milli quantity (some key) canonical =
    let (family, factor) = unit_defs key in
    if same_family (canonical_family canonical) family then scaled factor quantity else none

-- `Decimal(milli) / Decimal(MILLI) / factor`
unfoldable pub from_milli : ℤ → UnitKey → Fraction
from_milli quantity_milli key = record {
  numerator = quantity_milli;
  denominator = (unit_defs key).1;
}

unfoldable pub pack_to_milli : Option Fraction → ℤ → Option ℤ
pack_to_milli pack_count pack_size_milli = do
  q ← pack_count
  some (quantize (q.numerator *ℤ pack_size_milli) q.denominator)

unfoldable pub cost_per_canonical_micro_cents : ℤ → ℤ → Option ℤ
cost_per_canonical_micro_cents pack_cost_cents pack_size_milli =
    if leb_ℤ pack_size_milli (pos 0)
    then none
    else some (quantize (pack_cost_cents *ℤ pos 1_000_000_000) (pos_part pack_size_milli))

half_up_exact : (n d : ℕ) → 0 < d → half_up (n * d) d ≡ n
half_up_exact n d h = half_up_unique (n * d) d n h (omega arith) (omega arith)

product_pos : (n d : ℕ) → pos n *ℤ pos d ≡ pos (n * d)
unfolding ◌*ℤ◌
product_pos n d = ground arith

product_negsuc : (n d : ℕ) → 0 < d → (m : ℕ) × (negsuc n *ℤ pos d ≡ negsuc m) × (suc m ≡ suc n * d)
unfolding ◌*ℤ◌
product_negsuc n d h =
    let some_left : 0 < suc n * d = omega arith in (suc n * d - 1, ground arith, omega arith)

neg-pos : (n : ℕ) → neg (pos (suc n)) ≡ negsuc n
neg-pos n = ground arith

quantize_exact : (m : ℤ) (d : ℕ) → 0 < d → quantize (m *ℤ pos d) d ≡ m
unfolding quantize
quantize_exact (pos n) d h = rw (product_pos n d) (ap pos (half_up_exact n d h))
quantize_exact (negsuc n) d h =
    let (m, product, size) = product_negsuc n d h in
    rw (product, size) (ap (λ k. neg (pos k)) (half_up_exact (suc n) d h) ∙ neg-pos n)

factor_positive : (k : UnitKey) → 0 < (unit_defs k).1
unfolding unit_defs
factor_positive k = ground arith

same_family_self : (f : MeasureFamily) → same_family f f ≡ true
same_family_self f = ground arith

-- A stored quantity that is shown in any unit of its family and read back is the same quantity.
pub to_milli-from_milli :
    (milli : ℤ) (key : UnitKey) (canonical : CanonicalUnit)
    → canonical_family canonical ≡ (unit_defs key).0
    → to_milli (some (from_milli milli key)) (some key) canonical ≡ some milli
unfolding to_milli from_milli
to_milli-from_milli milli key canonical h =
    rw (h, same_family_self (unit_defs key).0)
      (ap some (quantize_exact milli (unit_defs key).1 (factor_positive key)))
