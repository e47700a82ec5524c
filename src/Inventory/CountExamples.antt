-- ===== src/Inventory/CountExamples.antt =====
-- A count of 500 against a book stock of 600 of ingredient 7, and a loss of 100 of it, in business 1.
use nextgen_backend.Prelude.{
  ◌≡◌, refl, inr, true, false, none, some, List, [], ◌∷◌, ◌++◌, All, replace_first,
}
use nextgen_backend.Prelude.Int.{pos, ◌*ℤ◌}
use nextgen_backend.Prelude.Decimal.{quantize, half_up}
use nextgen_backend.Prelude.Result.{done, raised}
use nextgen_backend.Orders.{owner, AuthUser}
use nextgen_backend.Inventory.Ledger.{Movement, goods_received, build_movement, stock_on_hand}
use nextgen_backend.Inventory.Units.{
  unit, key_each, key_kg, gram, to_milli, from_milli, to_milli-from_milli, canonical_family,
  unit_defs,
}
use nextgen_backend.Inventory.Variance.{expected_milli}
use nextgen_backend.Inventory.Stocktake.{
  stocktake_draft, StockItem, StocktakeLine, StocktakeSession, StocktakeDb, locked,
  compute_variance, load_session, reject_if_locked, put_session, completed_session,
  complete_stocktake, submit_counts, cancel_stocktake, approve_stocktake,
}
use nextgen_backend.Inventory.Ledger.{movement_total}
use nextgen_backend.Inventory.Stocktake.TermGroups.{Itemised}
use nextgen_backend.Inventory.Stocktake.BookStock.{expected_milli-stock}
use nextgen_backend.Inventory.Stocktake.Steps.{approved_db, approved_locked}
use nextgen_backend.Inventory.Stocktake.Settled.{approval_settles}
use nextgen_backend.Inventory.Wastage.{
  spoiled, WastageRequest, WastageDb, record_wastage, reject_wastage, reject_entry, load_entry,
  requires_approval, new_entry, put_back, rejected_entry, loss_row,
}
use nextgen_backend.Inventory.Wastage.Rejection.{recorded_db, rejection_restores}
use nextgen_backend.Inventory.Wastage.Review.{Reviewed, reject_loss, perform, perform-Reviewed}

abbrev tomato : StockItem
tomato = record {
  id = 7;
  business_id = 1;
  cost_per_canonical_micro_cents = pos 0;
  canonical_unit = unit;
  is_active = true;
  is_deleted = false;
}

abbrev delivered : List Movement
delivered =
    build_movement 1_000 1 7 (pos 600) goods_received (pos 0) none none none none none none ∷ []

abbrev line : StocktakeLine
line = record {
  ingredient_id = 7;
  counted_quantity_milli = some (pos 500);
  opening_quantity_milli = pos 0;
  received_quantity_milli = pos 0;
  theoretical_consumption_milli = pos 0;
  wastage_quantity_milli = pos 0;
  adjustment_quantity_milli = pos 0;
  expected_quantity_milli = pos 0;
  variance_quantity_milli = pos 0;
  variance_value_cents = pos 0;
  variance_basis_points = none;
  unit_cost_micro_cents = pos 0;
}

abbrev session : StocktakeSession
session = record {
  id = 3;
  business_id = 1;
  status = stocktake_draft;
  cutoff_at = 2_000;
  period_start_at = none;
  opened_by_user_id = some 5;
  opened_at = 2_000;
  completed_by_user_id = none;
  completed_at = none;
  approved_by_user_id = none;
  approved_at = none;
  total_variance_value_cents = pos 0;
  total_theoretical_value_cents = pos 0;
  lines = line ∷ [];
}

abbrev counting : StocktakeDb
counting = record {
  items = tomato ∷ [];
  sessions = session ∷ [];
  movements = delivered;
  approvals = [];
}

abbrev counted : StocktakeSession
counted = completed_session 2_100 6 session counting

abbrev completed : StocktakeDb
completed = put_session counted counting

abbrev approved : StocktakeDb
approved = approved_db 2_200 6 true 3 counted completed

loads : load_session 1 3 counting ≡ done session
unfolding load_session
loads = refl

completes : complete_stocktake 2_100 1 6 true 3 counting ≡ done completed
unfolding complete_stocktake load_session reject_if_locked
completes = refl

approves :
    approve_stocktake 2_200 1 6 true true 3
      (record completed { movements = completed.movements ++ [] })
    ≡ done approved
unfolding approve_stocktake load_session build_movement replace_first
approves = refl

expected_milli-stock_example :
    (expected_milli (compute_variance session delivered tomato)
      ≡ stock_on_hand 1 (some 2_000) delivered 7)
    × Itemised
        (compute_variance session delivered tomato)
        (movement_total 1 session.period_start_at (some 2_000) delivered 7)
expected_milli-stock_example = expected_milli-stock session delivered tomato tt

approval_settles_example : stock_on_hand 1 (some 2_000) approved.movements 7 ≡ pos 500
approval_settles_example =
    approval_settles 2_100 1 6 true 3 counting completed approved session line tomato (pos 500)
      2_200 6 true [] loads tt (tt, tt) refl refl refl completes tt approves

approved_locked_example :
    (submit_counts 1 true 3 [] approved ≡ raised locked)
    × (complete_stocktake 3_000 1 6 true 3 approved ≡ raised locked)
    × (approve_stocktake 3_000 1 6 true true 3 approved ≡ raised locked)
    × (cancel_stocktake 1 true 3 approved ≡ raised locked)
approved_locked_example =
    approved_locked 2_200 1 6 true 3 completed approved 3_000 6 true [] approves

to_milli-from_milli_example :
    to_milli (some (from_milli (pos 1_250_000) key_kg)) (some key_kg) gram ≡ some (pos 1_250_000)
unfolding canonical_family unit_defs
to_milli-from_milli_example = to_milli-from_milli (pos 1_250_000) key_kg gram refl

abbrev eve : AuthUser
eve = record { user_id = 6; business_id = 1; role = owner }

abbrev loss : WastageRequest
loss = record {
  ingredient_id = 7;
  quantity = some (record { numerator = pos 1; denominator = 10 });
  unit = some key_each;
  reason = spoiled;
  has_note = false;
  links_owned = true;
  occurred_at = none;
}

abbrev shelf : WastageDb
shelf = record { items = tomato ∷ []; entries = []; movements = [] }

abbrev logged : WastageDb
logged = recorded_db 3_000 eve (new_entry 3_000 eve (pos 0) 40 loss tomato (pos 100)) tomato shelf

records : record_wastage 3_000 eve true (pos 0) 40 loss shelf ≡ done logged
unfolding record_wastage to_milli unit_defs canonical_family quantize half_up ◌*ℤ◌ requires_approval
records = refl

abbrev undone : WastageDb
undone =
    let entry = new_entry 3_000 eve (pos 0) 40 loss tomato (pos 100) in
    record logged {
      entries = rejected_entry 3_100 eve entry ∷ [];
      movements =
          logged.movements ++ put_back 3_100 eve entry (loss_row 3_000 eve entry tomato) ∷ [];
    }

rejects : reject_wastage 3_100 eve true 40 logged ≡ done undone
unfolding reject_wastage load_entry reject_entry replace_first requires_approval build_movement
rejects = refl

rejection_restores_example : stock_on_hand 1 none undone.movements 7 ≡ stock_on_hand 1 none [] 7
rejection_restores_example =
    rejection_restores 3_000 eve true (pos 0) 40 loss shelf logged undone 3_100 eve true 7 tt tt
      refl records rejects

perform-Reviewed_example : All Reviewed undone.entries
unfolding perform
perform-Reviewed_example =
    perform-Reviewed (reject_loss 3_100 eve true 40) logged undone (inr refl, tt) rejects
