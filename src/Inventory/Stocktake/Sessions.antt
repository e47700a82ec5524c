-- ===== src/Inventory/Stocktake/Sessions.antt =====
-- The stocktake sessions, and how one is opened (backend/app/api/v1/routes_stocktake.py).
use nextgen_backend.Prelude.{
  ℕ, Bool, true, false, not, ◌&&◌, Option, none, some, List, [], ◌∷◌, ◌++◌, map, ltb, ◌==◌,
  if◌then◌else◌, find, replace_first, keep, exists,
}
use nextgen_backend.Prelude.Int.{pos}
use nextgen_backend.Prelude.Result.{Outcome, done, raised, ◌>>◌, raise_when}
use nextgen_backend.Inventory.Ledger.{time_or}
use nextgen_backend.Inventory.Stocktake.Types.{
  StocktakeStatus, stocktake_draft, stocktake_completed, stocktake_approved, stocktake_cancelled,
  StockItem, StocktakeLine, StocktakeSession, StocktakeDb, StocktakeError, inventory_not_enabled,
  not_found, locked, cancelled, already_open, pending_approval, no_ingredients,
}

abbrev pub is_draft : StocktakeStatus → Bool
is_draft stocktake_draft = true
is_draft _ = false

abbrev pub is_completed : StocktakeStatus → Bool
is_completed stocktake_completed = true
is_completed _ = false

abbrev pub is_approved : StocktakeStatus → Bool
is_approved stocktake_approved = true
is_approved _ = false

abbrev pub is_cancelled : StocktakeStatus → Bool
is_cancelled stocktake_cancelled = true
is_cancelled _ = false

abbrev pub is_session : ℕ → ℕ → StocktakeSession → Bool
is_session business k s = s.id == k && s.business_id == business

unfoldable pub load_session : ℕ → ℕ → StocktakeDb → Outcome StocktakeError StocktakeSession
load_session business k db = elim (find (is_session business k) db.sessions) [
  | none ↦ raised not_found
  | some s ↦ done s
]

unfoldable pub reject_if_locked : StocktakeSession → Outcome StocktakeError (Unit {0})
reject_if_locked s = do
  raise_when (is_approved s.status) locked
  raise_when (is_cancelled s.status) cancelled

abbrev pub put_session : StocktakeSession → StocktakeDb → StocktakeDb
put_session new db = record db {
  sessions = replace_first (is_session new.business_id new.id) new db.sessions;
}

abbrev pub has_status : ℕ → (StocktakeStatus → Bool) → StocktakeSession → Bool
has_status business test s = s.business_id == business && test s.status

-- The latest cut-off of the approved counts, which is where the new period starts.
unfoldable pub previous_cutoff : ℕ → List StocktakeSession → Option ℕ
previous_cutoff business [] = none
previous_cutoff business (s ∷ ss) =
    let rest = previous_cutoff business ss in
    if has_status business is_approved s
    then (elim rest [
      | none ↦ some s.cutoff_at
      | some t ↦ some (if ltb t s.cutoff_at then s.cutoff_at else t)
    ])
    else rest

abbrev counts_item : ℕ → StockItem → Bool
counts_item business i = i.business_id == business && i.is_active && not i.is_deleted

abbrev new_line : StockItem → StocktakeLine
new_line i = record {
  ingredient_id = i.id;
  counted_quantity_milli = none;
  opening_quantity_milli = pos 0;
  received_quantity_milli = pos 0;
  theoretical_consumption_milli = pos 0;
  wastage_quantity_milli = pos 0;
  adjustment_quantity_milli = pos 0;
  expected_quantity_milli = pos 0;
  variance_quantity_milli = pos 0;
  variance_value_cents = pos 0;
  variance_basis_points = none;
  unit_cost_micro_cents = i.cost_per_canonical_micro_cents;
}

abbrev has_lines {ℓ} : {A : Type ℓ} → List A → Bool
has_lines [] = false
has_lines (_ ∷ _) = true

abbrev pub new_session : ℕ → ℕ → ℕ → ℕ → Option ℕ → StocktakeDb → StocktakeSession
new_session now business by k cutoff db = record {
  id = k;
  business_id = business;
  status = stocktake_draft;
  cutoff_at = time_or cutoff now;
  period_start_at = previous_cutoff business db.sessions;
  opened_by_user_id = some by;
  opened_at = now;
  completed_by_user_id = none;
  completed_at = none;
  approved_by_user_id = none;
  approved_at = none;
  total_variance_value_cents = pos 0;
  total_theoretical_value_cents = pos 0;
  lines = map new_line (keep (counts_item business) db.items);
}

-- `enabled` is the business's inventory module, and `k` the new row's identifier.
unfoldable pub open_stocktake :
    (now business by : ℕ) (enabled : Bool) (k : ℕ) (cutoff : Option ℕ) (db : StocktakeDb)
    → Outcome StocktakeError StocktakeDb
open_stocktake now business by enabled k cutoff db = do
  raise_when (not enabled) inventory_not_enabled
  raise_when (exists (has_status business is_draft) db.sessions) already_open
  raise_when (exists (has_status business is_completed) db.sessions) pending_approval
  raise_when (not (has_lines (keep (counts_item business) db.items))) no_ingredients
  done (record db { sessions = db.sessions ++ new_session now business by k cutoff db ∷ [] })
