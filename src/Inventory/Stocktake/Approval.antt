-- ===== src/Inventory/Stocktake/Approval.antt =====
-- Approving a count and cancelling one (backend/app/api/v1/routes_stocktake.py).
use nextgen_backend.Prelude.{ℕ, Bool, not, none, some, List, [], ◌∷◌, ◌++◌, if◌then◌else◌}
use nextgen_backend.Prelude.Int.{pos, eqb_ℤ}
use nextgen_backend.Prelude.Result.{Outcome, done, ◌>>=◌, ◌>>◌, raise_when}
use nextgen_backend.Inventory.Ledger.{
  Movement, stocktake_adjustment, source_stocktake, stocktake_adjustment_key, build_movement,
}
use nextgen_backend.Inventory.Stocktake.Types.{
  stocktake_approved, stocktake_cancelled, StocktakeLine, StocktakeSession, StocktakeDb,
  StocktakeError, inventory_not_enabled, locked, not_completed,
}
use nextgen_backend.Inventory.Stocktake.Sessions.{
  is_completed, is_approved, load_session, reject_if_locked, put_session,
}

abbrev pub adjustment_row : ℕ → ℕ → StocktakeSession → StocktakeLine → Movement
adjustment_row now by session line =
    build_movement now session.business_id line.ingredient_id line.variance_quantity_milli
      stocktake_adjustment line.unit_cost_micro_cents (some session.id) (some source_stocktake)
      (some by) (some (stocktake_adjustment_key session.id line.ingredient_id)) none
      (some session.cutoff_at)

unfoldable pub adjustments : ℕ → ℕ → StocktakeSession → List StocktakeLine → List Movement
adjustments now by session [] = []
adjustments now by session (line ∷ lines) =
    let rest = adjustments now by session lines in
    if eqb_ℤ line.variance_quantity_milli (pos 0)
    then rest
    else adjustment_row now by session line ∷ rest

abbrev pub approved_session : ℕ → ℕ → StocktakeSession → StocktakeSession
approved_session now by session = record session {
  status = stocktake_approved;
  approved_by_user_id = some by;
  approved_at = some now;
}

unfoldable pub approve_stocktake :
    (now business by : ℕ) (enabled post_adjustments : Bool) (k : ℕ) (db : StocktakeDb)
    → Outcome StocktakeError StocktakeDb
approve_stocktake now business by enabled post_adjustments k db = do
  raise_when (not enabled) inventory_not_enabled
  session ← load_session business k db
  raise_when (is_approved session.status) locked
  raise_when (not (is_completed session.status)) not_completed
  let posted = if post_adjustments then adjustments now by session session.lines else []
  done (record (put_session (approved_session now by session) db) {
    movements = db.movements ++ posted;
    approvals = db.approvals ++ (by, k) ∷ [];
  })

unfoldable pub cancel_stocktake :
    (business : ℕ) (enabled : Bool) (k : ℕ) (db : StocktakeDb) → Outcome StocktakeError StocktakeDb
cancel_stocktake business enabled k db = do
  raise_when (not enabled) inventory_not_enabled
  session ← load_session business k db
  reject_if_locked session
  done (put_session (record session { status = stocktake_cancelled }) db)
