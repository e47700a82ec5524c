-- ===== src/Inventory/Consumption.antt =====
-- backend/app/inventory/consumption.py: what an order takes out of stock. A raised ValueError is
-- `none`; an identifier, or a non-empty text that is only compared, is a number.
pub mod Lines
pub mod Demand
pub mod Success
use nextgen_backend.Prelude.{
  ℕ, ◌≡◌, Bool, true, false, not, ◌&&◌, ◌||◌, Option, none, some, List, [], ◌∷◌, ◌++◌, map, leb,
  ◌==◌, if◌then◌else◌, contains,
}
use nextgen_backend.Prelude.Int.{ℤ, pos, pos_part, ◌+ℤ◌, ◌*ℤ◌, leb_ℤ, eqb_ℤ, max_ℤ}
use nextgen_backend.Prelude.Decimal.{quantize}
use nextgen_backend.Prelude.OptionMonad.{◌>>=◌}
use nextgen_backend.Inventory.Totals.{Totals, bump}

pub record RecipeLineSpec : Type 0 where
  pub ingredient_id : ℕ
  pub quantity_milli : ℤ
  pub option_id : Option ℕ
  pub removable_ref_id : Option ℕ

pub record RecipeSpec : Type 0 where
  pub lines : List RecipeLineSpec
  pub yield_qty : ℤ

pub record AddOnSelectionSpec : Type 0 where
  pub add_on_id : ℕ
  pub quantity : ℤ

pub record LineItemSpec : Type 0 where
  pub menu_item_id : ℕ
  pub quantity : ℤ
  pub selected_option_ids : List (ℕ × ℕ)
  pub add_on_selections : List AddOnSelectionSpec
  pub removed_ref_ids : List ℕ

-- `lines` is the list of (ingredient_id, quantity_milli).
pub record ConsumptionResult : Type 0 where
  pub lines : Totals
  pub menu_items_without_recipe : List ℕ

abbrev pub Recipes : Type 0
Recipes = List (ℕ × RecipeSpec)

-- `recipes.get(k)`
unfoldable pub get_recipe : ℕ → Recipes → Option RecipeSpec
get_recipe k [] = none
get_recipe k ((j, r) ∷ rs) = if k == j then some r else get_recipe k rs

unfoldable pub scale : ℤ → ℤ → ℤ → Option ℤ
scale quantity_milli multiplier yield_qty =
    if leb_ℤ yield_qty (pos 0)
    then none
    else some (quantize (quantity_milli *ℤ multiplier) (pos_part yield_qty))

-- The inner function `add` of resolve_line_item.
unfoldable pub add : ℕ → ℤ → Totals → Totals
add ingredient_id amount totals =
    if eqb_ℤ amount (pos 0) then totals else bump ingredient_id amount totals

abbrev pub is_removed : Option ℕ → List ℕ → Bool
is_removed none removed = false
is_removed (some ref) removed = contains ref removed

abbrev pub is_selected : Option ℕ → List ℕ → Bool
is_selected none selected = true
is_selected (some option) selected = contains option selected

-- The two `continue` tests in front of each `add`.
unfoldable pub applies : List ℕ → List ℕ → RecipeLineSpec → Bool
applies selected removed line =
    not (is_removed line.removable_ref_id removed) && is_selected line.option_id selected

-- One loop over a recipe's lines, with the factor and the yield that it scales by.
unfoldable pub resolve_lines :
    List ℕ → List ℕ → ℤ → ℤ → List RecipeLineSpec → Totals → Option Totals
resolve_lines selected removed factor yield_qty [] totals = some totals
resolve_lines selected removed factor yield_qty (line ∷ lines) totals =
    (if applies selected removed line
      then (do
        amount ← scale line.quantity_milli factor yield_qty
        some (add line.ingredient_id amount totals))
      else some totals)
    >>= resolve_lines selected removed factor yield_qty lines

abbrev pub option_values : List (ℕ × ℕ) → List ℕ
option_values [] = []
option_values ((group, option) ∷ rest) = option ∷ option_values rest

unfoldable pub resolve_base : LineItemSpec → Option RecipeSpec → Totals → Option Totals
resolve_base item none totals = some totals
resolve_base item (some recipe) totals =
    resolve_lines (option_values item.selected_option_ids) item.removed_ref_ids item.quantity
      recipe.yield_qty recipe.lines totals

unfoldable pub resolve_add_on :
    LineItemSpec → AddOnSelectionSpec → Option RecipeSpec → Totals → Option Totals
resolve_add_on item selection none totals = some totals
resolve_add_on item selection (some recipe) totals =
    resolve_lines (option_values item.selected_option_ids) item.removed_ref_ids
      (item.quantity *ℤ max_ℤ (pos 0) selection.quantity) recipe.yield_qty recipe.lines totals

unfoldable pub resolve_add_ons :
    LineItemSpec → Recipes → List AddOnSelectionSpec → Totals → Option Totals
resolve_add_ons item add_on_recipes [] totals = some totals
resolve_add_ons item add_on_recipes (s ∷ selections) totals =
    resolve_add_on item s (get_recipe s.add_on_id add_on_recipes) totals
    >>= resolve_add_ons item add_on_recipes selections

unfoldable pub resolve_line_item : LineItemSpec → Option RecipeSpec → Recipes → Option Totals
resolve_line_item item item_recipe add_on_recipes =
    resolve_base item item_recipe [] >>= resolve_add_ons item add_on_recipes item.add_on_selections

-- The inner loop of resolve_order, which adds one item's consumption.
unfoldable pub merge : Totals → Totals → Totals
merge [] totals = totals
merge ((k, amount) ∷ rest) totals = merge rest (bump k amount totals)

abbrev note_missing : ℕ → Option RecipeSpec → List ℕ → List ℕ
note_missing k (some r) missing = missing
note_missing k none missing = if contains k missing then missing else missing ++ k ∷ []

unfoldable pub resolve_items :
    Recipes → Recipes → List LineItemSpec → Totals → List ℕ → Option ConsumptionResult
resolve_items item_recipes add_on_recipes [] totals missing =
    some (record { lines = totals; menu_items_without_recipe = missing })
resolve_items item_recipes add_on_recipes (item ∷ items) totals missing =
    let recipe = get_recipe item.menu_item_id item_recipes in
    resolve_line_item item recipe add_on_recipes >>= λ consumption.
    resolve_items item_recipes add_on_recipes items (merge consumption totals)
      (note_missing item.menu_item_id recipe missing)

unfoldable pub resolve_order : List LineItemSpec → Recipes → Recipes → Option ConsumptionResult
unfolding resolve_items
resolve_order items item_recipes add_on_recipes =
    resolve_items item_recipes add_on_recipes items [] []
