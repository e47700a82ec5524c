-- ===== src/Inventory/Ledger.antt =====
-- backend/app/inventory/ledger.py: the stock ledger. A table is the list of its rows;
-- a query is a filter by the columns that its `where` names. `now` is the clock.
mod Types
pub mod RecipeLoading
pub mod Posting
pub mod Reversal
pub mod RoundTrip
pub mod Period
pub use Types.*
use nextgen_backend.Prelude.{
  ℕ, suc, zero, ◌+◌, String, ◌≡◌, Bool, true, false, not, ◌&&◌, ◌||◌, Option, none, some, List, [],
  ◌∷◌, ◌++◌, map, ltb, leb, ◌==◌, if◌then◌else◌, opt_eq, contains, keep,
}
use nextgen_backend.Prelude.Int.{ℤ, pos, ◌+ℤ◌, ◌*ℤ◌, neg, abs}
use nextgen_backend.Prelude.Decimal.{quantize}
use nextgen_backend.Prelude.OptionMonad.{◌>>=◌}
use nextgen_backend.Inventory.Totals.{Totals}
use nextgen_backend.Inventory.Consumption.{LineItemSpec, ConsumptionResult, Recipes, resolve_order}

-- units.py, value_cents: micro-cents per canonical unit times thousandths of it.
unfoldable pub value_cents : ℤ → ℤ → ℤ
value_cents quantity_milli cost = quantize (quantity_milli *ℤ cost) 1_000_000_000

-- `dt or now`
abbrev pub time_or : Option ℕ → ℕ → ℕ
time_or none now = now
time_or (some t) now = t

unfoldable pub build_movement :
    (now business_id ingredient_id : ℕ) (quantity_milli : ℤ) (movement_type : MovementType)
    (unit_cost : ℤ) (source_id : Option ℕ) (source_type : Option SourceType) (created_by : Option ℕ)
    (key : Option Key) (notes : Option String) (occurred_at : Option ℕ)
    → Movement
build_movement now business ingredient quantity kind cost source_id source_type by key notes
      occurred_at =
    record {
      business_id = business;
      ingredient_id = ingredient;
      quantity_milli = quantity;
      movement_type = kind;
      source_type = source_type;
      source_id = source_id;
      unit_cost_micro_cents = cost;
      value_cents = value_cents quantity cost;
      created_by_user_id = by;
      idempotency_key = key;
      notes = notes;
      occurred_at = time_or occurred_at now;
      created_at = now;
    }

-- _ingredient_costs, read at one ingredient; `costs.get(k, 0)`.
unfoldable pub ingredient_cost : ℕ → List Ingredient → ℕ → ℤ
ingredient_cost business [] k = pos 0
ingredient_cost business (i ∷ is) k =
    let rest = ingredient_cost business is k in
    if i.business_id == business && i.id == k then i.cost_per_canonical_micro_cents else rest

-- The loop that stages one movement for each resolved ingredient.
unfoldable pub sale_movements :
    ℕ → ℕ → ℕ → Option ℕ → Option ℕ → MovementType → List Ingredient → Totals → List Movement
sale_movements now business order by occurred_at kind ingredients [] = []
sale_movements now business order by occurred_at kind ingredients ((k, q) ∷ lines) =
    build_movement now business k (neg (abs q)) kind (ingredient_cost business ingredients k)
      (some order) (some source_order) by (some (sale_key order k)) none occurred_at
    ∷ sale_movements now business order by occurred_at kind ingredients lines

-- `none` is the ValueError of a recipe with no yield, on which the caller's transaction rolls back.
unfoldable pub post_sale_consumption :
    (now business order : ℕ) (line_specs : List LineItemSpec) (by occurred_at : Option ℕ)
    (kind : MovementType) (item_recipes add_on_recipes : Recipes) (ingredients : List Ingredient)
    (ledger : List Movement)
    → Option (ConsumptionResult × List Movement)
post_sale_consumption now business order specs by occurred_at kind item_recipes add_on_recipes
      ingredients ledger =
    do
      result ← resolve_order specs item_recipes add_on_recipes
      some (
        result,
        ledger ++ sale_movements now business order by occurred_at kind ingredients result.lines,
      )

-- The rows of one order's sale, and the ingredients that it has already had reversed.
abbrev pub of_order : ℕ → ℕ → Movement → Bool
of_order business order m =
    m.business_id == business && is_order m.source_type && opt_eq m.source_id (some order)

unfoldable pub originals : ℕ → ℕ → List Movement → List Movement
originals business order = keep (λ m. of_order business order m && is_consumption m.movement_type)

abbrev pub ingredients_of : List Movement → List ℕ
ingredients_of = map (λ m. m.ingredient_id)

unfoldable pub reversed_already : ℕ → ℕ → List Movement → List ℕ
reversed_already business order ledger =
    ingredients_of (keep (λ m. of_order business order m && is_reversal m.movement_type) ledger)

unfoldable pub reversal : ℕ → ℕ → ℕ → Option ℕ → Option String → Movement → Movement
reversal now business order by notes original =
    build_movement now business original.ingredient_id (neg original.quantity_milli) sale_reversal
      original.unit_cost_micro_cents (some order) (some source_order) by
      (some (reversal_key order original.ingredient_id)) notes none

-- The loop over the originals, with the set `already`: the rows that it writes.
unfoldable pub reversals :
    ℕ → ℕ → ℕ → Option ℕ → Option String → List Movement → List ℕ → List Movement
reversals now business order by notes [] already = []
reversals now business order by notes (m ∷ ms) already =
    let skip = contains m.ingredient_id already in
    let rest =
      reversals now business order by notes ms
        (if skip then already else m.ingredient_id ∷ already) in
    if skip then rest else reversal now business order by notes m ∷ rest

abbrev pub count_rows : List Movement → ℕ
count_rows [] = 0
count_rows (m ∷ ms) = suc (count_rows ms)

-- How many movements were written, and the ledger.
unfoldable pub reverse_sale_consumption :
    ℕ → ℕ → ℕ → Option ℕ → Option String → List Movement → ℕ × List Movement
reverse_sale_consumption now business order by notes ledger =
    let written =
      reversals now business order by notes (originals business order ledger)
        (reversed_already business order ledger) in
    (count_rows written, ledger ++ written)

-- The rows that stock_on_hand sums for one ingredient.
unfoldable pub in_stock : ℕ → Option ℕ → ℕ → Movement → Bool
in_stock business as_of k m =
    m.business_id == business && m.ingredient_id == k && until_ok as_of m.occurred_at

-- stock_on_hand, read at one ingredient of a business: a missing group is 0.
unfoldable pub stock_on_hand : ℕ → Option ℕ → List Movement → ℕ → ℤ
stock_on_hand business as_of [] k = pos 0
stock_on_hand business as_of (m ∷ ms) k =
    (if in_stock business as_of k m then m.quantity_milli else pos 0)
    +ℤ stock_on_hand business as_of ms k

-- The rows that movement_totals_by_type sums for one ingredient and type.
unfoldable pub in_group : ℕ → ℕ → MovementType → Movement → Bool
in_group business k kind m =
    m.business_id == business && m.ingredient_id == k && same_type m.movement_type kind

-- movement_totals_by_type, read at one ingredient and type.
unfoldable pub movement_total : ℕ → Option ℕ → Option ℕ → List Movement → ℕ → MovementType → ℤ
movement_total business since until [] k kind = pos 0
movement_total business since until (m ∷ ms) k kind =
    (if in_group business k kind m && since_ok since m.occurred_at && until_ok until m.occurred_at
      then m.quantity_milli
      else pos 0)
    +ℤ movement_total business since until ms k kind
