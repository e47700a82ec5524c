-- ===== src/Inventory/Wastage.antt =====
-- backend/app/api/v1/routes_wastage.py: a logged loss, its approval and its rejection. `now` is the
-- clock; texts, photos and the lists for screens are left out, and the roles that a route asks for
-- are checked before.
pub mod Rejection
pub mod Review
use nextgen_backend.Prelude.{
  ℕ, Bool, true, false, not, ◌&&◌, ◌||◌, Option, none, some, List, [], ◌∷◌, ◌++◌, ◌==◌, opt_eq,
  if◌then◌else◌, find, replace_first, is_some,
}
use nextgen_backend.Prelude.Int.{ℤ, pos, neg, leb_ℤ, eqb_ℤ}
use nextgen_backend.Prelude.Result.{Outcome, done, raised, ◌>>=◌, ◌>>◌, raise_when}
use nextgen_backend.Orders.{Role, owner, manager, AuthUser}
use nextgen_backend.Inventory.Ledger.{
  Movement, MovementType, wastage, staff_meal, complimentary, wastage_reversal, SourceType,
  source_wastage_entry, wastage_key, wastage_reversal_key, build_movement, value_cents, time_or,
}
use nextgen_backend.Inventory.Units.{to_milli, Fraction, UnitKey}
use nextgen_backend.Inventory.Stocktake.{StockItem}

pub data WastageReason : Type 0 where
  dropped burnt incorrect_preparation remake spoiled expired damaged_packaging reason_staff_meal
        reason_complimentary training other_loss :
      WastageReason

pub record WastageEntry : Type 0 where
  pub id : ℕ
  pub business_id : ℕ
  pub ingredient_id : ℕ
  pub quantity_milli : ℤ
  pub reason : WastageReason
  pub value_cents : ℤ
  pub created_by_user_id : ℕ
  pub approved_by_user_id : Option ℕ
  pub rejected_by_user_id : Option ℕ
  pub rejected_at : Option ℕ
  pub occurred_at : ℕ

-- `has_note` is whether the note is more than white space, and `links_owned` whether the photo and
-- the order that the request names are the business's.
pub record WastageRequest : Type 0 where
  pub ingredient_id : ℕ
  pub quantity : Option Fraction
  pub unit : Option UnitKey
  pub reason : WastageReason
  pub has_note : Bool
  pub links_owned : Bool
  pub occurred_at : Option ℕ

pub record WastageDb : Type 0 where
  pub items : List StockItem
  pub entries : List WastageEntry
  pub movements : List Movement

pub data WastageError : Type 0 where
  note_required wastage_not_enabled wastage_not_found bad_unit bad_quantity already_rejected
        already_approved movement_missing :
      WastageError

-- _MOVEMENT_TYPE_FOR_REASON.get(reason, WASTAGE)
unfoldable pub movement_type_for : WastageReason → MovementType
movement_type_for reason_staff_meal = staff_meal
movement_type_for reason_complimentary = complimentary
movement_type_for _ = wastage

abbrev pub needs_note : WastageReason → Bool
needs_note other_loss = true
needs_note _ = false

abbrev pub is_manager : Role → Bool
is_manager owner = true
is_manager manager = true
is_manager _ = false

-- `bool(threshold) and value >= threshold`
unfoldable pub requires_approval : ℤ → ℤ → Bool
requires_approval threshold value = not (eqb_ℤ threshold (pos 0)) && leb_ℤ threshold value

abbrev pub is_item : ℕ → ℕ → StockItem → Bool
is_item business k i = i.id == k && i.business_id == business && not i.is_deleted

abbrev pub new_entry : ℕ → AuthUser → ℤ → ℕ → WastageRequest → StockItem → ℤ → WastageEntry
new_entry now user threshold k body item quantity =
    let loss = value_cents quantity item.cost_per_canonical_micro_cents in
    record {
      id = k;
      business_id = user.business_id;
      ingredient_id = item.id;
      quantity_milli = quantity;
      reason = body.reason;
      value_cents = loss;
      created_by_user_id = user.user_id;
      approved_by_user_id =
          if requires_approval threshold loss && is_manager user.role
          then some user.user_id
          else none;
      rejected_by_user_id = none;
      rejected_at = none;
      occurred_at = time_or body.occurred_at now;
    }

abbrev pub loss_row : ℕ → AuthUser → WastageEntry → StockItem → Movement
loss_row now user entry item =
    build_movement now user.business_id item.id (neg entry.quantity_milli)
      (movement_type_for entry.reason) item.cost_per_canonical_micro_cents (some entry.id)
      (some source_wastage_entry) (some user.user_id) (some (wastage_key entry.id item.id)) none
      (some entry.occurred_at)

-- `enabled` and `threshold` are the business's settings, and `k` the new row's identifier.
unfoldable pub record_wastage :
    (now : ℕ) (user : AuthUser) (enabled : Bool) (threshold : ℤ) (k : ℕ) (body : WastageRequest)
    (db : WastageDb)
    → Outcome WastageError WastageDb
record_wastage now user enabled threshold k body db = do
  raise_when (needs_note body.reason && not body.has_note) note_required
  raise_when (not enabled) wastage_not_enabled
  elim (find (is_item user.business_id body.ingredient_id) db.items) [
    | none ↦ raised wastage_not_found
    | some item ↦ elim (to_milli body.quantity body.unit item.canonical_unit) [
      | none ↦ raised bad_unit
      | some quantity ↦ do
        raise_when (leb_ℤ quantity (pos 0)) bad_quantity
        raise_when (not body.links_owned) wastage_not_found
        let entry = new_entry now user threshold k body item quantity
        done (record db {
          entries = db.entries ++ entry ∷ [];
          movements = db.movements ++ loss_row now user entry item ∷ [];
        })
    ]
  ]

abbrev pub is_entry : ℕ → ℕ → WastageEntry → Bool
is_entry business k e = e.id == k && e.business_id == business

unfoldable pub load_entry : ℕ → ℕ → WastageDb → Outcome WastageError WastageEntry
load_entry business k db = elim (find (is_entry business k) db.entries) [
  | none ↦ raised wastage_not_found
  | some e ↦ done e
]

unfoldable pub approve_wastage :
    (user : AuthUser) (enabled : Bool) (k : ℕ) (db : WastageDb) → Outcome WastageError WastageDb
approve_wastage user enabled k db = do
  raise_when (not enabled) wastage_not_enabled
  entry ← load_entry user.business_id k db
  raise_when (is_some entry.rejected_by_user_id) already_rejected
  let approved = record entry { approved_by_user_id = some user.user_id }
  done (
      if is_some entry.approved_by_user_id
      then db
      else record db { entries = replace_first (is_entry user.business_id k) approved db.entries })

abbrev is_wastage_source : Option SourceType → Bool
is_wastage_source (some source_wastage_entry) = true
is_wastage_source _ = false

-- The row that the loss took from stock.
abbrev pub of_entry : ℕ → ℕ → Movement → Bool
of_entry business k m =
    m.business_id == business && is_wastage_source m.source_type && opt_eq m.source_id (some k)

abbrev pub put_back : ℕ → AuthUser → WastageEntry → Movement → Movement
put_back now user entry original =
    build_movement now user.business_id entry.ingredient_id (neg original.quantity_milli)
      wastage_reversal original.unit_cost_micro_cents (some entry.id) (some source_wastage_entry)
      (some user.user_id) (some (wastage_reversal_key entry.id entry.ingredient_id)) none none

abbrev pub rejected_entry : ℕ → AuthUser → WastageEntry → WastageEntry
rejected_entry now user entry = record entry {
  rejected_by_user_id = some user.user_id;
  rejected_at = some now;
}

-- The branch that rejects; a commit that loses the race for its key leaves what the winner wrote.
unfoldable pub reject_entry :
    ℕ → AuthUser → WastageEntry → WastageDb → Outcome WastageError WastageDb
reject_entry now user entry db = elim (find (of_entry user.business_id entry.id) db.movements) [
  | none ↦ raised movement_missing
  | some original ↦ done (record db {
    entries =
        replace_first (is_entry user.business_id entry.id) (rejected_entry now user entry)
          db.entries;
    movements = db.movements ++ put_back now user entry original ∷ [];
  })
]

unfoldable pub reject_wastage :
    (now : ℕ) (user : AuthUser) (enabled : Bool) (k : ℕ) (db : WastageDb)
    → Outcome WastageError WastageDb
reject_wastage now user enabled k db = do
  raise_when (not enabled) wastage_not_enabled
  entry ← load_entry user.business_id k db
  raise_when (is_some entry.approved_by_user_id) already_approved
  elim entry.rejected_by_user_id [ some by ↦ done db | none ↦ reject_entry now user entry db ]

-- The words of _wastage_status.
pub data WastageStatus : Type 0 where
  wastage_rejected wastage_approved wastage_pending_approval wastage_not_required : WastageStatus

unfoldable pub wastage_status : WastageEntry → Bool → WastageStatus
wastage_status entry required =
    if is_some entry.rejected_by_user_id
    then wastage_rejected
    else if is_some entry.approved_by_user_id
    then wastage_approved
    else if required
    then wastage_pending_approval
    else wastage_not_required
