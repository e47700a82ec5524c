-- ===== src/Inventory/Ledger/RoundTrip.antt =====
-- A sale and its void (backend/app/inventory/ledger.py, post_sale_consumption and
-- reverse_sale_consumption).
use nextgen_backend.Prelude.{
  ℕ, String, ◌≡◌, refl, ap, true, false, Option, none, some, List, [], ◌∷◌, ◌++◌, arith, exists,
}
use nextgen_backend.Prelude.Int.{pos_part, neg_part, int_laws}
use nextgen_backend.Prelude.OptionMonad.{>>=-eq-some}
use mathlib.Core.Option.{some-injective}
use nextgen_backend.Inventory.Consumption.{LineItemSpec, ConsumptionResult, Recipes, resolve_order}
use nextgen_backend.Inventory.Consumption.Demand.{resolve_order-demand}
use nextgen_backend.Inventory.Ledger.{
  Movement, MovementType, Ingredient, post_sale_consumption, reverse_sale_consumption, originals,
  reversed_already, of_order, is_consumption, stock_on_hand,
}
use nextgen_backend.Inventory.Ledger.Period.{stock_on_hand-append}
use nextgen_backend.Inventory.Ledger.Reversal.{
  originals-append, reversed_already-append, reversal_restores,
}
use nextgen_backend.Inventory.Ledger.Posting.{
  rows, rows-originals, rows-DistinctIngredients, stock-rows,
}

-- A ledger with no row of an order has no originals and no reversals of it.
untouched :
    (business order : ℕ) (ledger : List Movement)
    → exists (of_order business order) ledger ≡ false
    → (originals business order ledger ≡ []) × (reversed_already business order ledger ≡ [])
unfolding originals reversed_already
untouched business order [] h = (refl, refl)
untouched business order (m ∷ ms) h = ground (arith, untouched business order ms)

-- A sale of a new order, voided afterwards by anybody, leaves the stock of every ingredient as it
-- was before the sale, whatever the recipes are by then.
pub sale_then_void :
    (now later business order : ℕ) (specs : List LineItemSpec) (by by' occurred_at : Option ℕ)
    (notes : Option String) (kind : MovementType) (item_recipes add_on_recipes : Recipes)
    (ingredients : List Ingredient) (ledger : List Movement) {r : ConsumptionResult}
    {after : List Movement} (k : ℕ)
    → post_sale_consumption now business order specs by occurred_at kind item_recipes add_on_recipes
        ingredients ledger
      ≡ some (r, after)
    → is_consumption kind ≡ true
    → exists (of_order business order) ledger ≡ false
    → stock_on_hand business none
        (reverse_sale_consumption later business order by' notes after).1
        k
      ≡ stock_on_hand business none ledger k
unfolding post_sale_consumption
sale_then_void now later business order specs by by' occurred_at notes kind item_recipes
      add_on_recipes ingredients ledger {r} {after} k e sale fresh =
    let (res, resolved, posted) =
      >>=-eq-some (resolve_order specs item_recipes add_on_recipes) _ e in
    let sold = rows now business order by occurred_at kind ingredients res.lines in
    let demand = resolve_order-demand specs item_recipes add_on_recipes res resolved in
    let whole : ledger ++ sold ≡ after = ap (λ p. p.1) (some-injective _ _ posted) in
    let before = untouched business order ledger fresh in
    let mine = rows-originals now business order by occurred_at kind ingredients res.lines sale in
    let own : originals business order (ledger ++ sold) ≡ sold =
      rw (originals-append business order ledger sold, before.0) mine.0 in
    let none_yet : reversed_already business order (ledger ++ sold) ≡ [] =
      rw (reversed_already-append business order ledger sold, before.1) mine.1 in
    let back =
      reversal_restores later business order by' notes (ledger ++ sold) k
        (rw own (
          rows-DistinctIngredients now business order by occurred_at kind ingredients res.lines
            demand.1))
        none_yet in
    let back' =
      rw
        (
          own,
          stock_on_hand-append business none ledger sold k,
          stock-rows now business order by occurred_at kind ingredients k res.lines,
        )
        at back in
    rw (← whole) (omega (int_laws, ap pos_part back', ap neg_part back'))
