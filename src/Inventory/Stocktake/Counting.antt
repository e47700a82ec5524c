-- ===== src/Inventory/Stocktake/Counting.antt =====
-- The counts handed in, and the completed count with its variance (backend/app/api/v1/routes_stocktake.py).
use nextgen_backend.Prelude.{
  ℕ, Bool, not, ◌&&◌, Option, none, some, List, [], ◌∷◌, map, ◌==◌, if◌then◌else◌, find, exists,
  is_some,
}
use nextgen_backend.Prelude.Int.{ℤ, pos, ◌+ℤ◌, ltb_ℤ}
use nextgen_backend.Prelude.Result.{Outcome, done, raised, ◌>>=◌, ◌>>◌, raise_when}
use nextgen_backend.Inventory.Ledger.{Movement}
use nextgen_backend.Inventory.Units.{to_milli}
use nextgen_backend.Inventory.Variance.{
  IngredientVariance, expected_milli, variance_milli, variance_value_cents, variance_basis_points,
  theoretical_value_cents,
}
use nextgen_backend.Inventory.Stocktake.Types.{
  stocktake_completed, StockItem, StocktakeLine, StocktakeSession, CountLine, StocktakeDb,
  StocktakeError, inventory_not_enabled, already_completed, ingredient_not_on_count, invalid_unit,
  invalid_quantity, not_draft, incomplete_count,
}
use nextgen_backend.Inventory.Stocktake.Expected.{compute_variance}
use nextgen_backend.Inventory.Stocktake.Sessions.{
  is_draft, is_completed, load_session, reject_if_locked, put_session,
}

abbrev pub find_item : ℕ → ℕ → List StockItem → Option StockItem
find_item business k = find (λ i. i.id == k && i.business_id == business)

abbrev find_line : ℕ → List StocktakeLine → Option StocktakeLine
find_line k = find (λ l. l.ingredient_id == k)

abbrev set_count : ℕ → ℤ → StocktakeLine → StocktakeLine
set_count k counted l =
    if l.ingredient_id == k then record l { counted_quantity_milli = some counted } else l

-- One turn of the loop over the submitted lines.
unfoldable pub count_line :
    ℕ
    → List StockItem
    → CountLine
    → List StocktakeLine
    → Outcome StocktakeError (List StocktakeLine)
count_line business items entry lines = elim (find_line entry.ingredient_id lines) [
  | none ↦ raised ingredient_not_on_count
  | some line ↦ elim (find_item business entry.ingredient_id items) [
    | none ↦ raised ingredient_not_on_count
    | some item ↦ elim (to_milli entry.quantity entry.unit item.canonical_unit) [
      | none ↦ raised invalid_unit
      | some counted ↦
          if ltb_ℤ counted (pos 0)
          then raised invalid_quantity
          else done (map (set_count entry.ingredient_id counted) lines)
    ]
  ]
]

unfoldable pub count_lines :
    ℕ
    → List StockItem
    → List CountLine
    → List StocktakeLine
    → Outcome StocktakeError (List StocktakeLine)
count_lines business items [] lines = done lines
count_lines business items (entry ∷ entries) lines =
    count_line business items entry lines >>= count_lines business items entries

unfoldable pub submit_counts :
    (business : ℕ) (enabled : Bool) (k : ℕ) (entries : List CountLine) (db : StocktakeDb)
    → Outcome StocktakeError StocktakeDb
submit_counts business enabled k entries db = do
  raise_when (not enabled) inventory_not_enabled
  session ← load_session business k db
  reject_if_locked session
  raise_when (is_completed session.status) already_completed
  lines ← count_lines business db.items entries session.lines
  done (put_session (record session { lines = lines }) db)

abbrev count_or_zero : Option ℤ → ℤ
count_or_zero none = pos 0
count_or_zero (some c) = c

abbrev pub counted_variance :
    StocktakeSession → List Movement → StockItem → StocktakeLine → IngredientVariance
counted_variance session ledger item line = record (compute_variance session ledger item) {
  counted_milli = count_or_zero line.counted_quantity_milli;
}

-- The assignments of complete_stocktake's loop.
abbrev pub snapshot : IngredientVariance → StocktakeLine → StocktakeLine
snapshot v line = record line {
  opening_quantity_milli = v.opening_milli;
  received_quantity_milli = v.received_milli;
  theoretical_consumption_milli = v.theoretical_consumption_milli;
  wastage_quantity_milli = v.wastage_milli;
  adjustment_quantity_milli = v.adjustment_milli;
  expected_quantity_milli = expected_milli v;
  variance_quantity_milli = variance_milli v;
  variance_value_cents = variance_value_cents v;
  variance_basis_points = variance_basis_points v;
  unit_cost_micro_cents = v.unit_cost_micro_cents;
}

-- The loop: the lines, and the two totals.
unfoldable pub snapshot_lines :
    StocktakeSession → StocktakeDb → List StocktakeLine → List StocktakeLine × ℤ × ℤ
snapshot_lines session db [] = ([], pos 0, pos 0)
snapshot_lines session db (line ∷ lines) =
    let (rest, total_variance, total_theoretical) = snapshot_lines session db lines in
    elim (find_item session.business_id line.ingredient_id db.items) [
      | none ↦ (line ∷ rest, total_variance, total_theoretical)
      | some item ↦
          let v = counted_variance session db.movements item line in
          (
            snapshot v line ∷ rest,
            variance_value_cents v +ℤ total_variance,
            theoretical_value_cents v +ℤ total_theoretical,
          )
    ]

abbrev is_uncounted : StocktakeLine → Bool
is_uncounted l = not (is_some l.counted_quantity_milli)

abbrev pub completed_session : ℕ → ℕ → StocktakeSession → StocktakeDb → StocktakeSession
completed_session now by session db =
    let (lines, total_variance, total_theoretical) = snapshot_lines session db session.lines in
    record session {
      lines = lines;
      status = stocktake_completed;
      completed_by_user_id = some by;
      completed_at = some now;
      total_variance_value_cents = total_variance;
      total_theoretical_value_cents = total_theoretical;
    }

unfoldable pub complete_stocktake :
    (now business by : ℕ) (enabled : Bool) (k : ℕ) (db : StocktakeDb)
    → Outcome StocktakeError StocktakeDb
complete_stocktake now business by enabled k db = do
  raise_when (not enabled) inventory_not_enabled
  session ← load_session business k db
  reject_if_locked session
  raise_when (not (is_draft session.status)) not_draft
  raise_when (exists is_uncounted session.lines) incomplete_count
  done (put_session (completed_session now by session db) db)
