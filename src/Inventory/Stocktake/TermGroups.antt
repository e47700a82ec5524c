-- ===== src/Inventory/Stocktake/TermGroups.antt =====
-- Which movement types make up which term of the expected quantity
-- (backend/app/api/v1/routes_stocktake.py, _compute_variances).
use nextgen_backend.Prelude.{◌≡◌, refl, some, List}
use nextgen_backend.Prelude.Int.{ℤ, pos, ◌+ℤ◌, neg, int_laws}
use nextgen_backend.Inventory.Ledger.{
  Movement, MovementType, opening_balance, goods_received, sale_consumption, sale_reversal,
  remake_consumption, wastage, staff_meal, complimentary, manual_adjustment, stocktake_adjustment,
  supplier_return, wastage_reversal, movement_total,
}
use nextgen_backend.Inventory.Variance.{IngredientVariance}
use nextgen_backend.Inventory.Stocktake.{
  StockItem, StocktakeSession, term_of, tally, compute_variance,
}

one_added : (a : ℤ) → pos 0 +ℤ a ≡ a
one_added a = grind int_laws

neg_add : (a b : ℤ) → neg (a +ℤ b) ≡ neg a +ℤ neg b
neg_add a b = grind int_laws

three_taken : (a b c : ℤ) → pos 0 +ℤ neg a +ℤ neg b +ℤ neg c ≡ neg (a +ℤ b +ℤ c)
three_taken a b c = rw (one_added (neg a), neg_add (a +ℤ b) c, neg_add a b) refl

five_added : (a b c d e : ℤ) → pos 0 +ℤ a +ℤ b +ℤ c +ℤ d +ℤ e ≡ a +ℤ b +ℤ c +ℤ d +ℤ e
five_added a b c d e = rw (one_added a) refl

-- Each movement type stands in one term: deliveries were received; sales and remakes, less what was
-- reversed, were consumed; spoilage, staff meals and free meals were wasted; all else adjusts.
pub Itemised : IngredientVariance → (MovementType → ℤ) → Type 0
Itemised v total =
    (v.received_milli ≡ total goods_received)
    × (v.theoretical_consumption_milli
        ≡ neg (total sale_consumption +ℤ total sale_reversal +ℤ total remake_consumption))
    × (v.wastage_milli ≡ neg (total wastage +ℤ total staff_meal +ℤ total complimentary))
    × (v.adjustment_milli
        ≡ total opening_balance
          +ℤ total manual_adjustment
          +ℤ total stocktake_adjustment
          +ℤ total supplier_return
          +ℤ total wastage_reversal)

pub compute_variance-Itemised :
    (session : StocktakeSession) (ledger : List Movement) (item : StockItem)
    → Itemised (compute_variance session ledger item) (
        movement_total session.business_id session.period_start_at
          (some session.cutoff_at)
          ledger
          item.id)
unfolding compute_variance tally term_of Itemised
compute_variance-Itemised session ledger item =
    (one_added _, three_taken _ _ _, three_taken _ _ _, five_added _ _ _ _ _)
