-- ===== src/Inventory/Stocktake/Expected.antt =====
-- _compute_variances (backend/app/api/v1/routes_stocktake.py): what should be on the shelf.
use nextgen_backend.Prelude.{ℕ, Option, none, some, List, [], ◌∷◌}
use nextgen_backend.Prelude.Int.{ℤ, pos, ◌+ℤ◌, neg}
use nextgen_backend.Inventory.Ledger.{
  Movement, MovementType, opening_balance, goods_received, sale_consumption, sale_reversal,
  remake_consumption, wastage, staff_meal, complimentary, manual_adjustment, stocktake_adjustment,
  supplier_return, wastage_reversal, stock_on_hand, movement_total,
}
use nextgen_backend.Inventory.Variance.{IngredientVariance}
use nextgen_backend.Inventory.Stocktake.Types.{StockItem, StocktakeSession}

-- _RECEIPT_TYPES, _CONSUMPTION_TYPES and _WASTAGE_TYPES; every other type is an adjustment.
pub data TermKind : Type 0 where
  receipt_term consumption_term wastage_term adjustment_term : TermKind

unfoldable pub term_of : MovementType → TermKind
term_of goods_received = receipt_term
term_of sale_consumption = consumption_term
term_of remake_consumption = consumption_term
term_of sale_reversal = consumption_term
term_of wastage = wastage_term
term_of staff_meal = wastage_term
term_of complimentary = wastage_term
term_of _ = adjustment_term

pub record Terms : Type 0 where
  pub received : ℤ
  pub consumption : ℤ
  pub wasted : ℤ
  pub adjustment : ℤ

abbrev pub no_terms : Terms
no_terms = record { received = pos 0; consumption = pos 0; wasted = pos 0; adjustment = pos 0 }

abbrev pub add_term : TermKind → ℤ → Terms → Terms
add_term receipt_term q t = record t { received = t.received +ℤ q }
add_term consumption_term q t = record t { consumption = t.consumption +ℤ neg q }
add_term wastage_term q t = record t { wasted = t.wasted +ℤ neg q }
add_term adjustment_term q t = record t { adjustment = t.adjustment +ℤ q }

-- The groups that the totals can have.
abbrev pub all_types : List MovementType
all_types =
    opening_balance ∷ goods_received ∷ sale_consumption ∷ sale_reversal ∷ remake_consumption
    ∷ wastage ∷ staff_meal ∷ complimentary ∷ manual_adjustment ∷ stocktake_adjustment
    ∷ supplier_return ∷ wastage_reversal ∷ []

-- The loop over the totals of one ingredient; a type that no movement has adds 0.
unfoldable pub tally : (MovementType → ℤ) → List MovementType → Terms → Terms
tally total [] t = t
tally total (kind ∷ kinds) t = tally total kinds (add_term (term_of kind) (total kind) t)

unfoldable pub opening : ℕ → Option ℕ → List Movement → ℕ → ℤ
opening business none ledger k = pos 0
opening business (some start) ledger k = stock_on_hand business (some start) ledger k

unfoldable pub compute_variance : StocktakeSession → List Movement → StockItem → IngredientVariance
compute_variance session ledger item =
    let total =
      movement_total session.business_id session.period_start_at (some session.cutoff_at) ledger
        item.id in
    let terms = tally total all_types no_terms in
    record {
      opening_milli = opening session.business_id session.period_start_at ledger item.id;
      received_milli = terms.received;
      theoretical_consumption_milli = terms.consumption;
      wastage_milli = terms.wasted;
      adjustment_milli = terms.adjustment;
      counted_milli = pos 0;
      unit_cost_micro_cents = item.cost_per_canonical_micro_cents;
    }
