-- ===== src/Inventory/Ledger/Posting.antt =====
-- post_sale_consumption (backend/app/inventory/ledger.py): the rows of a sale.
use nextgen_backend.Prelude.{
  ℕ, ◌≡◌, refl, ap, ◌∙◌, inl, inr, true, false, Option, none, some, List, [], ◌∷◌, ◌++◌, arith,
  ◌==◌, contains, ==_iff, Bool-cases,
}
use nextgen_backend.Prelude.Int.{ℤ, pos, pos_part, neg_part, ◌+ℤ◌, ◌≤ℤ◌, neg, abs, int_laws}
use nextgen_backend.Prelude.OptionMonad.{>>=-eq-some}
use nextgen_backend.Inventory.Totals.{Totals, total_of, has_key, DistinctKeys, total_of_absent}
use nextgen_backend.Inventory.Consumption.{LineItemSpec, ConsumptionResult, Recipes, resolve_order}
use nextgen_backend.Inventory.Consumption.Demand.{order_demand, resolve_order-demand}
use nextgen_backend.Inventory.Ledger.{
  Movement, MovementType, Ingredient, build_movement, ingredient_cost, sale_movements,
  post_sale_consumption, originals, reversed_already, ingredients_of, stock_on_hand, in_stock,
  is_consumption, source_order, sale_key,
}
use nextgen_backend.Inventory.Ledger.Period.{stock_on_hand-append}
use nextgen_backend.Inventory.Ledger.Reversal.{sum_at, DistinctIngredients}
use mathlib.Core.Option.{some-injective}

neg-abs : (q : ℤ) → pos 0 ≤ℤ q → neg (abs q) +ℤ q ≡ pos 0
unfolding ◌+ℤ◌
neg-abs q h = ground arith

module _ (now business order : ℕ) (by occurred_at : Option ℕ) (kind : MovementType)
    (ingredients : List Ingredient) where
  abbrev pub rows : Totals → List Movement
  rows = sale_movements now business order by occurred_at kind ingredients

  abbrev row : ℕ → ℤ → Movement
  row k q =
      build_movement now business k (neg (abs q)) kind (ingredient_cost business ingredients k)
        (some order) (some source_order) by (some (sale_key order k)) none occurred_at

  row_fields :
      (k : ℕ) (q : ℤ) (j : ℕ)
      → ((row k q).ingredient_id ≡ k)
        × ((row k q).quantity_milli ≡ neg (abs q))
        × (in_stock business none j (row k q) ≡ (k == j))
  unfolding build_movement in_stock
  row_fields k q j = ground arith

  originals-row :
      (k : ℕ) (q : ℤ) (ms : List Movement)
      → is_consumption kind ≡ true
      → originals business order (row k q ∷ ms) ≡ row k q ∷ originals business order ms
  unfolding build_movement originals
  originals-row k q ms h = ground arith

  reversed_already-row :
      (k : ℕ) (q : ℤ) (ms : List Movement)
      → is_consumption kind ≡ true
      → reversed_already business order (row k q ∷ ms) ≡ reversed_already business order ms
  unfolding build_movement reversed_already
  reversed_already-row k q ms h = ground arith

  -- The rows are this order's originals, and no reversals.
  pub rows-originals :
      (t : Totals)
      → is_consumption kind ≡ true
      → (originals business order (rows t) ≡ rows t)
        × (reversed_already business order (rows t) ≡ [])
  unfolding sale_movements
  rows-originals [] h = (unfold originals in refl, unfold reversed_already in refl)
  rows-originals ((k, q) ∷ t) h =
      let rest = rows-originals t h in
      (
        originals-row k q (rows t) h ∙ ap (λ ms. row k q ∷ ms) rest.0,
        reversed_already-row k q (rows t) h ∙ rest.1,
      )

  contains-rows : (j : ℕ) (t : Totals) → contains j (ingredients_of (rows t)) ≡ has_key j t
  unfolding sale_movements
  contains-rows j [] = refl
  contains-rows j ((k, q) ∷ t) = rw ((row_fields k q j).0, contains-rows j t)

  pub rows-DistinctIngredients : (t : Totals) → DistinctKeys t → DistinctIngredients (rows t)
  unfolding sale_movements
  rows-DistinctIngredients [] d = tt
  rows-DistinctIngredients ((k, q) ∷ t) d =
      (rw (row_fields k q k).0 (contains-rows k t ∙ d.0), rows-DistinctIngredients t d.1)

  -- Every row counts towards the stock of its own ingredient.
  pub stock-rows : (k : ℕ) (t : Totals) → stock_on_hand business none (rows t) k ≡ sum_at k (rows t)
  unfolding sale_movements stock_on_hand
  stock-rows k [] = refl
  stock-rows k ((j, q) ∷ t) =
      rw ((row_fields j q k).2, (row_fields j q k).0, (row_fields j q k).1, stock-rows k t)

  sum_at_absent : (k : ℕ) (t : Totals) → has_key k t ≡ false → sum_at k (rows t) ≡ pos 0
  unfolding sale_movements
  sum_at_absent k [] h = refl
  sum_at_absent k ((j, q) ∷ t) h =
      rw ((row_fields j q k).0, (row_fields j q k).1) (grind (int_laws, sum_at_absent k t))

  -- A resolved quantity that is not negative leaves stock in full.
  pub sum_at-rows :
      (k : ℕ) (t : Totals)
      → DistinctKeys t
      → pos 0 ≤ℤ total_of k t
      → sum_at k (rows t) +ℤ total_of k t ≡ pos 0
  unfolding sale_movements
  sum_at-rows k [] d h = grind int_laws
  sum_at-rows k ((j, q) ∷ t) d h =
      rw ((row_fields j q k).0, (row_fields j q k).1)
        (elim (Bool-cases (j == k)) [
          | inl same ↦
              let absent : has_key k t ≡ false = rw (← (==_iff j k).0 same) d.0 in
              rw same (
                grind (
                  int_laws,
                  sum_at_absent k t absent,
                  total_of_absent k t absent,
                  neg-abs q (omega (int_laws, rw (same, total_of_absent k t absent) at h)),
                ))
          | inr other ↦ rw other (grind (int_laws, sum_at-rows k t d.1))
        ])

-- A sale lowers the stock of every ingredient by exactly what the order's recipes ask of it, an
-- amount that is not negative.
pub posting_lowers_stock :
    (now business order : ℕ) (specs : List LineItemSpec) (by occurred_at : Option ℕ)
    (kind : MovementType) (item_recipes add_on_recipes : Recipes) (ingredients : List Ingredient)
    (ledger : List Movement) {r : ConsumptionResult} {after : List Movement} (k : ℕ)
    → post_sale_consumption now business order specs by occurred_at kind item_recipes add_on_recipes
        ingredients ledger
      ≡ some (r, after)
    → pos 0 ≤ℤ order_demand k item_recipes add_on_recipes specs
    → stock_on_hand business none after k +ℤ order_demand k item_recipes add_on_recipes specs
      ≡ stock_on_hand business none ledger k
unfolding post_sale_consumption
posting_lowers_stock now business order specs by occurred_at kind item_recipes add_on_recipes
      ingredients ledger {r} {after} k e h =
    let (res, resolved, posted) =
      >>=-eq-some (resolve_order specs item_recipes add_on_recipes) _ e in
    let sold = rows now business order by occurred_at kind ingredients res.lines in
    let demand = resolve_order-demand specs item_recipes add_on_recipes res resolved in
    let whole : ledger ++ sold ≡ after = ap (λ p. p.1) (some-injective _ _ posted) in
    let taken : sum_at k sold +ℤ order_demand k item_recipes add_on_recipes specs ≡ pos 0 =
      rw (← demand.0 k) (
        sum_at-rows now business order by occurred_at kind ingredients k res.lines demand.1
          (rw (demand.0 k) h)) in
    rw (← whole, stock_on_hand-append business none ledger sold k)
      (rw (stock-rows now business order by occurred_at kind ingredients k res.lines)
        (omega (int_laws, ap pos_part taken, ap neg_part taken)))
