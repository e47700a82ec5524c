-- ===== src/Inventory/Consumption/Demand.antt =====
-- What a whole order takes (backend/app/inventory/consumption.py, resolve_order) against an
-- independent sum: over the lines of the order, over the recipes of a line, over the lines of a
-- recipe.
use nextgen_backend.Prelude.{ℕ, ◌≡◌, Option, none, some, List, [], ◌∷◌, arith}
use nextgen_backend.Prelude.Int.{ℤ, pos, ◌+ℤ◌, ◌*ℤ◌, max_ℤ, int_laws}
use nextgen_backend.Prelude.OptionMonad.{>>=-eq-some}
use nextgen_backend.Inventory.Totals.{
  Totals, total_of, DistinctKeys, bump, total_of-bump, bump-DistinctKeys,
}
use nextgen_backend.Inventory.Consumption.{
  RecipeSpec, AddOnSelectionSpec, LineItemSpec, ConsumptionResult, Recipes, get_recipe,
  option_values, resolve_base, resolve_add_on, resolve_add_ons, resolve_line_item, merge,
  resolve_items, resolve_order, note_missing,
}
use nextgen_backend.Inventory.Consumption.Lines.{
  lines_demand, resolve_lines-total, resolve_lines-DistinctKeys,
}

-- What a recipe asks, at a factor; no recipe asks nothing.
unfoldable pub recipe_demand : ℕ → LineItemSpec → ℤ → Option RecipeSpec → ℤ
recipe_demand k item factor none = pos 0
recipe_demand k item factor (some recipe) =
    lines_demand k (option_values item.selected_option_ids) item.removed_ref_ids factor
      recipe.yield_qty recipe.lines

unfoldable pub add_ons_demand : ℕ → LineItemSpec → Recipes → List AddOnSelectionSpec → ℤ
add_ons_demand k item recipes [] = pos 0
add_ons_demand k item recipes (s ∷ selections) =
    recipe_demand k item (item.quantity *ℤ max_ℤ (pos 0) s.quantity)
      (get_recipe s.add_on_id recipes)
    +ℤ add_ons_demand k item recipes selections

-- The demand of one order line, and of a whole order.
unfoldable pub item_demand : ℕ → Recipes → Recipes → LineItemSpec → ℤ
item_demand k item_recipes add_on_recipes item =
    recipe_demand k item item.quantity (get_recipe item.menu_item_id item_recipes)
    +ℤ add_ons_demand k item add_on_recipes item.add_on_selections

unfoldable pub order_demand : ℕ → Recipes → Recipes → List LineItemSpec → ℤ
order_demand k item_recipes add_on_recipes [] = pos 0
order_demand k item_recipes add_on_recipes (item ∷ items) =
    item_demand k item_recipes add_on_recipes item
    +ℤ order_demand k item_recipes add_on_recipes items

-- A step that adds a demand to the table, and keeps one entry for each ingredient.
abbrev Adds : (ℕ → ℤ) → Totals → Totals → Type 0
Adds demand t u =
    ((k : ℕ) → total_of k u ≡ demand k +ℤ total_of k t) × (DistinctKeys t → DistinctKeys u)

resolve_base-Adds :
    (item : LineItemSpec) (recipe : Option RecipeSpec) (t u : Totals)
    → resolve_base item recipe t ≡ some u
    → Adds (λ k. recipe_demand k item item.quantity recipe) t u
unfolding resolve_base recipe_demand
resolve_base-Adds item none t u e = (λ k. grind int_laws, λ h. ground arith)
resolve_base-Adds item (some recipe) t u e = (
  λ k. resolve_lines-total _ _ _ _ k recipe.lines t u e,
  resolve_lines-DistinctKeys _ _ _ _ recipe.lines t u e,
)

resolve_add_on-Adds :
    (item : LineItemSpec) (s : AddOnSelectionSpec) (recipe : Option RecipeSpec) (t u : Totals)
    → resolve_add_on item s recipe t ≡ some u
    → Adds (λ k. recipe_demand k item (item.quantity *ℤ max_ℤ (pos 0) s.quantity) recipe) t u
unfolding resolve_add_on recipe_demand
resolve_add_on-Adds item s none t u e = (λ k. grind int_laws, λ h. ground arith)
resolve_add_on-Adds item s (some recipe) t u e = (
  λ k. resolve_lines-total _ _ _ _ k recipe.lines t u e,
  resolve_lines-DistinctKeys _ _ _ _ recipe.lines t u e,
)

resolve_add_ons-Adds :
    (item : LineItemSpec) (recipes : Recipes) (ss : List AddOnSelectionSpec) (t u : Totals)
    → resolve_add_ons item recipes ss t ≡ some u
    → Adds (λ k. add_ons_demand k item recipes ss) t u
unfolding resolve_add_ons add_ons_demand
resolve_add_ons-Adds item recipes [] t u e = (λ k. grind int_laws, λ h. ground arith)
resolve_add_ons-Adds item recipes (s ∷ ss) t u e =
    let (v, first, rest) =
      >>=-eq-some (resolve_add_on item s (get_recipe s.add_on_id recipes) t) _ e in
    let one = resolve_add_on-Adds item s (get_recipe s.add_on_id recipes) t v first in
    let more = resolve_add_ons-Adds item recipes ss v u rest in
    (λ k. grind (int_laws, one.0 k, more.0 k), λ h. more.1 (one.1 h))

resolve_line_item-Adds :
    (item : LineItemSpec) (item_recipes add_on_recipes : Recipes) (u : Totals)
    → resolve_line_item item (get_recipe item.menu_item_id item_recipes) add_on_recipes ≡ some u
    → Adds (λ k. item_demand k item_recipes add_on_recipes item) [] u
unfolding resolve_line_item item_demand
resolve_line_item-Adds item item_recipes add_on_recipes u e =
    let recipe = get_recipe item.menu_item_id item_recipes in
    let (v, first, rest) = >>=-eq-some (resolve_base item recipe []) _ e in
    let one = resolve_base-Adds item recipe [] v first in
    let more = resolve_add_ons-Adds item add_on_recipes item.add_on_selections v u rest in
    (λ k. grind (int_laws, one.0 k, more.0 k), λ h. more.1 (one.1 h))

merge-Adds : (c t : Totals) → Adds (λ k. total_of k c) t (merge c t)
unfolding merge
merge-Adds [] t = (λ k. grind int_laws, λ h. h)
merge-Adds ((j, a) ∷ c) t =
    let rest = merge-Adds c (bump j a t) in
    (
      λ k. grind (int_laws, rest.0 k, total_of-bump k j a t),
      λ h. rest.1 (bump-DistinctKeys j a t h),
    )

resolve_items-Adds :
    (item_recipes add_on_recipes : Recipes) (items : List LineItemSpec) (t : Totals)
    (missing : List ℕ) (r : ConsumptionResult)
    → resolve_items item_recipes add_on_recipes items t missing ≡ some r
    → Adds (λ k. order_demand k item_recipes add_on_recipes items) t r.lines
unfolding resolve_items order_demand
resolve_items-Adds item_recipes add_on_recipes [] t missing r e =
    (λ k. grind int_laws, λ h. ground arith)
resolve_items-Adds item_recipes add_on_recipes (item ∷ items) t missing r e =
    let recipe = get_recipe item.menu_item_id item_recipes in
    let (c, first, rest) = >>=-eq-some (resolve_line_item item recipe add_on_recipes) _ e in
    let one = resolve_line_item-Adds item item_recipes add_on_recipes c first in
    let into = merge-Adds c t in
    let more =
      resolve_items-Adds item_recipes add_on_recipes items (merge c t)
        (note_missing item.menu_item_id recipe missing) r rest in
    (λ k. grind (int_laws, one.0 k, into.0 k, more.0 k), λ h. more.1 (into.1 h))

-- When an order resolves, its result holds, for every ingredient, exactly the sum of what the
-- applicable recipe lines of all its items and add-ons ask, and lists no ingredient twice.
pub resolve_order-demand :
    (items : List LineItemSpec) (item_recipes add_on_recipes : Recipes) (r : ConsumptionResult)
    → resolve_order items item_recipes add_on_recipes ≡ some r
    → ((k : ℕ) → total_of k r.lines ≡ order_demand k item_recipes add_on_recipes items)
      × DistinctKeys r.lines
unfolding resolve_order
resolve_order-demand items item_recipes add_on_recipes r e =
    let all = resolve_items-Adds item_recipes add_on_recipes items [] [] r e in
    (λ k. grind (int_laws, all.0 k), all.1 tt)
