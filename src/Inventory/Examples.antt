-- ===== src/Inventory/Examples.antt =====
-- Runs of the stock engine (backend/app/inventory) on a small kitchen: business 1, menu item 10
-- with a burger's recipe, add-on 20, and the ingredients 100 and 101.
use nextgen_backend.Prelude.{
  ℕ, ◌*◌, ◌+◌, ◌≤◌, ◌<◌, ◌≡◌, ◌≢◌, ◌↔◌, refl, true, false, none, some, List, [], ◌∷◌, ◌++◌, arith,
  exists, contains,
}
use nextgen_backend.Prelude.Int.{ℤ, pos, ◌+ℤ◌, ◌-ℤ◌, ◌*ℤ◌, ◌≤ℤ◌}
use nextgen_backend.Inventory.Totals.{total_of, DistinctKeys, bump}
use nextgen_backend.Inventory.Consumption.{
  RecipeLineSpec, LineItemSpec, ConsumptionResult, Recipes, resolve_order, resolve_items,
  resolve_line_item, resolve_lines, get_recipe, resolve_base, resolve_add_on, resolve_add_ons,
  merge, scale, add, applies,
}
use nextgen_backend.Inventory.Consumption.Demand.{order_demand, resolve_order-demand}
use nextgen_backend.Inventory.Consumption.Success.{unrecorded, resolve_order_total}
use nextgen_backend.Inventory.Ledger.{
  Movement, sale_consumption, Ingredient, post_sale_consumption, reverse_sale_consumption,
  stock_on_hand, originals, reversed_already, of_order, build_movement, opening_balance,
  sale_movements, value_cents,
}
use nextgen_backend.Inventory.Ledger.RecipeLoading.{
  Recipe, load_recipe_specs, FiledFrom, load_recipe_specs-own_rows, recipe_spec,
}
use nextgen_backend.Inventory.Ledger.Reversal.{reversal_idempotent, DistinctIngredients}
use nextgen_backend.Inventory.Ledger.RoundTrip.{sale_then_void}
use nextgen_backend.Inventory.Variance.{
  IngredientVariance, variance_milli, variance_value_cents, theoretical_value_cents, is_flagged,
  sum_abs, value_weighted_accuracy_basis_points, expected_milli,
}
use nextgen_backend.Inventory.Variance.Flags.{magnitude, flagged_iff}
use nextgen_backend.Inventory.Variance.Accuracy.{accuracy_nearest}
use nextgen_backend.Prelude.Decimal.{quantize}

abbrev line : ℕ → ℤ → RecipeLineSpec
line k q = record {
  ingredient_id = k;
  quantity_milli = q;
  option_id = none;
  removable_ref_id = none;
}

abbrev item_recipes : Recipes
item_recipes =
    (10, record { lines = line 100 (pos 150_000) ∷ line 101 (pos 1_000) ∷ []; yield_qty = pos 1 })
    ∷ []

abbrev add_on_recipes : Recipes
add_on_recipes = (20, record { lines = line 101 (pos 500) ∷ []; yield_qty = pos 1 }) ∷ []

abbrev two_burgers : List LineItemSpec
two_burgers =
    record {
      menu_item_id = 10;
      quantity = pos 2;
      selected_option_ids = [];
      add_on_selections = record { add_on_id = 20; quantity = pos 1 } ∷ [];
      removed_ref_ids = [];
    }
    ∷ []

abbrev used : ConsumptionResult
used = record { lines = (100, pos 300_000) ∷ (101, pos 3_000) ∷ []; menu_items_without_recipe = [] }

resolved : resolve_order two_burgers item_recipes add_on_recipes ≡ some used
unfolding resolve_order resolve_items resolve_line_item resolve_base resolve_add_ons resolve_add_on
    resolve_lines get_recipe merge bump scale add applies quantize ◌*ℤ◌ ◌+ℤ◌
resolved = refl

resolve_order-demand_example :
    ((k : ℕ) → total_of k used.lines ≡ order_demand k item_recipes add_on_recipes two_burgers)
    × DistinctKeys used.lines
resolve_order-demand_example =
    resolve_order-demand two_burgers item_recipes add_on_recipes used resolved

resolve_order_total_example :
    (r : ConsumptionResult) × (resolve_order two_burgers item_recipes add_on_recipes ≡ some r)
    × ((k : ℕ) → contains k r.menu_items_without_recipe ≡ unrecorded k item_recipes two_burgers)
resolve_order_total_example =
    resolve_order_total two_burgers item_recipes add_on_recipes (refl, tt) (refl, tt)

abbrev opening : List Movement
opening =
    build_movement 900 1 100 (pos 1_000_000) opening_balance (pos 2_000) none none none none none
      none
    ∷ build_movement 900 1 101 (pos 40_000) opening_balance (pos 90_000) none none none none none
        none
    ∷ []

abbrev pantry : List Ingredient
pantry =
    record { id = 100; business_id = 1; cost_per_canonical_micro_cents = pos 2_000 }
    ∷ record { id = 101; business_id = 1; cost_per_canonical_micro_cents = pos 90_000 }
    ∷ []

abbrev sold : List Movement
sold = opening ++ sale_movements 1_000 1 500 (some 3) none sale_consumption pantry used.lines

sale_posted :
    post_sale_consumption 1_000 1 500 two_burgers
      (some 3)
      none
      sale_consumption
      item_recipes
      add_on_recipes
      pantry
      opening
    ≡ some (used, sold)
unfolding post_sale_consumption
sale_posted = rw resolved refl

demand_nonneg : pos 0 ≤ℤ order_demand 101 item_recipes add_on_recipes two_burgers
unfolding ◌+ℤ◌
demand_nonneg =
    rw (← (resolve_order-demand two_burgers item_recipes add_on_recipes used resolved).0 101)
      (omega arith)

new_order : exists (of_order 1 500) opening ≡ false
unfolding build_movement
new_order = refl

sale_then_void_example :
    stock_on_hand 1 none (reverse_sale_consumption 2_000 1 500 (some 4) none sold).1 101
    ≡ stock_on_hand 1 none opening 101
sale_then_void_example =
    sale_then_void 1_000 2_000 1 500 two_burgers (some 3) (some 4) none none sale_consumption
      item_recipes add_on_recipes pantry opening 101 sale_posted refl new_order

reversal_idempotent_example :
    let after = (reverse_sale_consumption 2_000 1 500 (some 4) none sold).1 in
    reverse_sale_consumption 3_000 1 500 none (some "again") after ≡ (0, after)
reversal_idempotent_example =
    reversal_idempotent 2_000 3_000 1 500 (some 4) none none (some "again") sold

rows_distinct : DistinctIngredients (originals 1 500 sold)
unfolding originals build_movement sale_movements
rows_distinct = (refl, (refl, tt))

not_reversed : reversed_already 1 500 sold ≡ []
unfolding reversed_already build_movement sale_movements
not_reversed = refl

abbrev burger_row : Recipe
burger_row = record {
  business_id = 1;
  is_active = true;
  menu_item_id = some 10;
  menu_add_on_id = none;
  yield_qty = pos 1;
  items =
      record {
        ingredient_id = 100;
        quantity_milli = pos 150_000;
        option_id = none;
        removable_ref_id = none;
        sort_order = none;
      }
      ∷ [];
}

abbrev recipe_rows : List Recipe
recipe_rows = record burger_row { business_id = 2; yield_qty = pos 9 } ∷ burger_row ∷ []

load_recipe_specs-own_rows_example :
    let (items, add_ons) = load_recipe_specs 1 (10 ∷ []) [] recipe_rows in
    (get_recipe 10 items ≡ some (recipe_spec burger_row)
      → FiledFrom 1 recipe_rows (λ r. r.menu_item_id) 10 (recipe_spec burger_row))
    × (get_recipe 10 add_ons ≡ some (recipe_spec burger_row)
        → FiledFrom 1 recipe_rows (λ r. r.menu_add_on_id) 10 (recipe_spec burger_row))
load_recipe_specs-own_rows_example =
    load_recipe_specs-own_rows 1 recipe_rows (10 ∷ []) [] 10 (recipe_spec burger_row)

-- 40 000 counted down to 36 500 where the recipes say 37 000 should be left.
abbrev cheese : IngredientVariance
cheese = record {
  opening_milli = pos 40_000;
  received_milli = pos 0;
  theoretical_consumption_milli = pos 3_000;
  wastage_milli = pos 0;
  adjustment_milli = pos 0;
  counted_milli = pos 36_500;
  unit_cost_micro_cents = pos 90_000_000;
}

abbrev exact : IngredientVariance
exact = record cheese { counted_milli = pos 37_000 }

flagged_iff_example : (is_flagged cheese ≡ true) ↔ (
    399 * magnitude cheese.theoretical_consumption_milli
    ≤ 20_000 * magnitude (variance_milli cheese))
flagged_iff_example = flagged_iff cheese (λ h. cc)

cheese_accuracy : value_weighted_accuracy_basis_points (cheese ∷ []) ≡ some (pos 8_333)
unfolding value_weighted_accuracy_basis_points sum_abs theoretical_value_cents value_cents quantize
    ◌*ℤ◌ ◌-ℤ◌ variance_value_cents variance_milli expected_milli ◌+ℤ◌
cheese_accuracy = refl

accuracy_nearest_example :
    let used_value = sum_abs theoretical_value_cents (cheese ∷ []) in
    let lost = sum_abs variance_value_cents (cheese ∷ []) in
    (error : ℕ) × (pos 8_333 ≡ pos 10_000 -ℤ pos error)
    × (pos 8_333 ≤ℤ pos 10_000)
    × (2 * (used_value * error) ≤ 2 * (lost * 10_000) + used_value)
    × (2 * (lost * 10_000) < 2 * (used_value * error) + used_value)
accuracy_nearest_example = accuracy_nearest (cheese ∷ []) (pos 8_333) cheese_accuracy

no_variance : variance_milli exact ≡ pos 0
unfolding variance_milli ◌-ℤ◌ expected_milli ◌+ℤ◌
no_variance = refl

some_value : sum_abs theoretical_value_cents (exact ∷ []) ≢ 0
unfolding sum_abs theoretical_value_cents value_cents quantize ◌*ℤ◌
some_value = λ h. omega (arith, h)
