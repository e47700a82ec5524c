-- ===== src/Inventory/Consumption/Success.antt =====
-- When resolve_order returns, and which items it reports (backend/app/inventory/consumption.py).
use nextgen_backend.Prelude.{
  ℕ, ◌≡◌, refl, inl, inr, Bool, false, Option, none, some, List, [], ◌∷◌, arith, ◌==◌, contains,
  ◌||◌, ==_iff, Bool-cases, contains-append,
}
use nextgen_backend.Prelude.Int.{pos, leb_ℤ}
use nextgen_backend.Prelude.OptionMonad.{>>=-eq-some}
use nextgen_backend.Inventory.Totals.{Totals}
use nextgen_backend.Inventory.Consumption.{
  RecipeSpec, AddOnSelectionSpec, LineItemSpec, ConsumptionResult, Recipes, get_recipe,
  resolve_base, resolve_add_on, resolve_add_ons, resolve_line_item, merge, resolve_items,
  resolve_order, note_missing,
}
use nextgen_backend.Inventory.Consumption.Lines.{resolve_lines-some}

-- Every recipe of the table makes at least one portion.
abbrev pub PositiveYields : Recipes → Type 0
PositiveYields [] = Unit
PositiveYields ((j, r) ∷ rs) = (leb_ℤ r.yield_qty (pos 0) ≡ false) × PositiveYields rs

abbrev PositiveYield : Option RecipeSpec → Type 0
PositiveYield none = Unit
PositiveYield (some r) = leb_ℤ r.yield_qty (pos 0) ≡ false

get_recipe-PositiveYield :
    (k : ℕ) (rs : Recipes) → PositiveYields rs → PositiveYield (get_recipe k rs)
unfolding get_recipe
get_recipe-PositiveYield k [] h = tt
get_recipe-PositiveYield k ((j, r) ∷ rs) h = ground (arith, get_recipe-PositiveYield k rs h.1)

resolve_base-some :
    (item : LineItemSpec) (recipe : Option RecipeSpec) (t : Totals)
    → PositiveYield recipe
    → (u : Totals) × (resolve_base item recipe t ≡ some u)
unfolding resolve_base
resolve_base-some item none t h = (t, refl)
resolve_base-some item (some r) t h = resolve_lines-some _ _ _ _ r.lines t h

resolve_add_on-some :
    (item : LineItemSpec) (s : AddOnSelectionSpec) (recipe : Option RecipeSpec) (t : Totals)
    → PositiveYield recipe
    → (u : Totals) × (resolve_add_on item s recipe t ≡ some u)
unfolding resolve_add_on
resolve_add_on-some item s none t h = (t, refl)
resolve_add_on-some item s (some r) t h = resolve_lines-some _ _ _ _ r.lines t h

resolve_add_ons-some :
    (item : LineItemSpec) (recipes : Recipes) (ss : List AddOnSelectionSpec) (t : Totals)
    → PositiveYields recipes
    → (u : Totals) × (resolve_add_ons item recipes ss t ≡ some u)
unfolding resolve_add_ons
resolve_add_ons-some item recipes [] t h = (t, refl)
resolve_add_ons-some item recipes (s ∷ ss) t h =
    let (v, e) =
      resolve_add_on-some item s (get_recipe s.add_on_id recipes) t
        (get_recipe-PositiveYield s.add_on_id recipes h) in
    let (u, f) = resolve_add_ons-some item recipes ss v h in (u, rw e f)

resolve_line_item-some :
    (item : LineItemSpec) (recipe : Option RecipeSpec) (add_on_recipes : Recipes)
    → PositiveYield recipe
    → PositiveYields add_on_recipes
    → (u : Totals) × (resolve_line_item item recipe add_on_recipes ≡ some u)
unfolding resolve_line_item
resolve_line_item-some item recipe add_on_recipes h k =
    let (v, e) = resolve_base-some item recipe [] h in
    let (u, f) = resolve_add_ons-some item add_on_recipes item.add_on_selections v k in (u, rw e f)

-- `k` is one of the ordered items, and has no recipe.
abbrev pub unrecorded : ℕ → Recipes → List LineItemSpec → Bool
unrecorded k recipes [] = false
unrecorded k recipes (item ∷ items) =
    (elim (get_recipe item.menu_item_id recipes) [ none ↦ k == item.menu_item_id | some _ ↦ false ])
    || unrecorded k recipes items

contains-note_missing :
    (k j : ℕ) (recipe : Option RecipeSpec) (xs : List ℕ)
    → contains k (note_missing j recipe xs)
      ≡ (contains k xs || elim recipe [ none ↦ k == j | some _ ↦ false ])
contains-note_missing k j none xs = elim (Bool-cases (contains j xs)) [
  | inl old ↦ rw old (ground (arith, ==_iff k j))
  | inr new ↦ rw (new, contains-append k xs (j ∷ [])) (ground arith)
]
contains-note_missing k j (some r) xs = ground arith

resolve_items-missing :
    (item_recipes add_on_recipes : Recipes) (items : List LineItemSpec) (t : Totals)
    (missing : List ℕ) (r : ConsumptionResult) (k : ℕ)
    → resolve_items item_recipes add_on_recipes items t missing ≡ some r
    → contains k r.menu_items_without_recipe
      ≡ (contains k missing || unrecorded k item_recipes items)
unfolding resolve_items
resolve_items-missing item_recipes add_on_recipes [] t missing r k e = ground arith
resolve_items-missing item_recipes add_on_recipes (item ∷ items) t missing r k e =
    let recipe = get_recipe item.menu_item_id item_recipes in
    let (c, _, rest) = >>=-eq-some (resolve_line_item item recipe add_on_recipes) _ e in
    let more =
      resolve_items-missing item_recipes add_on_recipes items (merge c t)
        (note_missing item.menu_item_id recipe missing) r k rest in
    ground (arith, more, contains-note_missing k item.menu_item_id recipe missing)

resolve_items-some :
    (item_recipes add_on_recipes : Recipes) (items : List LineItemSpec) (t : Totals)
    (missing : List ℕ)
    → PositiveYields item_recipes
    → PositiveYields add_on_recipes
    → (r : ConsumptionResult) × (resolve_items item_recipes add_on_recipes items t missing ≡ some r)
unfolding resolve_items
resolve_items-some item_recipes add_on_recipes [] t missing h k = (_, refl)
resolve_items-some item_recipes add_on_recipes (item ∷ items) t missing h k =
    let recipe = get_recipe item.menu_item_id item_recipes in
    let (c, e) =
      resolve_line_item-some item recipe add_on_recipes
        (get_recipe-PositiveYield item.menu_item_id item_recipes h) k in
    let (r, f) =
      resolve_items-some item_recipes add_on_recipes items (merge c t)
        (note_missing item.menu_item_id recipe missing) h k in
    (r, rw e f)

-- With recipes that all yield at least one portion an order always resolves, and the result
-- reports exactly the ordered menu items that have no recipe.
pub resolve_order_total :
    (items : List LineItemSpec) (item_recipes add_on_recipes : Recipes)
    → PositiveYields item_recipes
    → PositiveYields add_on_recipes
    → (r : ConsumptionResult) × (resolve_order items item_recipes add_on_recipes ≡ some r)
      × ((k : ℕ) → contains k r.menu_items_without_recipe ≡ unrecorded k item_recipes items)
unfolding resolve_order
resolve_order_total items item_recipes add_on_recipes h k =
    let (r, e) = resolve_items-some item_recipes add_on_recipes items [] [] h k in
    (r, e, λ j. resolve_items-missing item_recipes add_on_recipes items [] [] r j e)
