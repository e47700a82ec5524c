-- ===== src/Inventory/Wastage/Rejection.antt =====
-- Rejecting a logged loss (backend/app/api/v1/routes_wastage.py).
use nextgen_backend.Prelude.{
  ℕ, ◌≡◌, refl, sym, ap, ◌∙◌, inl, inr, Bool, true, false, not, ◌&&◌, Option, none, some, List, [],
  ◌∷◌, ◌++◌, arith, ◌==◌, if◌then◌else◌, find, find-append_last, is_some, All, Option-cases,
}
use nextgen_backend.Prelude.Int.{
  ℤ, pos, ◌+ℤ◌, neg, int_laws, leb_ℤ, pos_part, neg_part, +ℤ_parts, eq_of_parts,
}
use nextgen_backend.Prelude.Result.{done, done_inj, passed_on}
use nextgen_backend.Orders.{AuthUser}
use nextgen_backend.Inventory.Ledger.{Movement, stock_on_hand, in_stock, build_movement}
use nextgen_backend.Inventory.Ledger.Period.{stock_on_hand-append}
use nextgen_backend.Inventory.Wastage.{
  new_entry, loss_row, record_wastage, is_item, note_required, bad_quantity, wastage_not_found,
  needs_note, WastageEntry, WastageRequest, WastageDb, wastage_not_enabled, already_approved,
  load_entry, is_entry, of_entry, put_back, reject_entry, reject_wastage,
}
use nextgen_backend.Inventory.Units.{to_milli}
use nextgen_backend.Inventory.Stocktake.{StockItem}

abbrev pub recorded_db : ℕ → AuthUser → WastageEntry → StockItem → WastageDb → WastageDb
recorded_db now user entry item db = record db {
  entries = db.entries ++ entry ∷ [];
  movements = db.movements ++ loss_row now user entry item ∷ [];
}

pub is_some-none {ℓ} : {A : Type ℓ} {o : Option A} → is_some o ≡ false → o ≡ none
is_some-none {o = none} h = refl
is_some-none {o = some a} h = cc

pub record_wastage-done :
    (now : ℕ) (user : AuthUser) (enabled : Bool) (threshold : ℤ) (k : ℕ) (body : WastageRequest)
    (db after : WastageDb)
    → record_wastage now user enabled threshold k body db ≡ done after
    → (item : StockItem) × (quantity : ℤ) × (after
        ≡ recorded_db now user (new_entry now user threshold k body item quantity) item db)
unfolding record_wastage
record_wastage-done now user enabled threshold k body db after e =
    let (_, e1) = passed_on (needs_note body.reason && not body.has_note) note_required _ e in
    let (_, e2) = passed_on (not enabled) wastage_not_enabled _ e1 in
    elim (Option-cases (find (is_item user.business_id body.ingredient_id) db.items)) [
      | inl missing ↦ ground arith
      | inr (item, found) ↦
          elim (Option-cases (to_milli body.quantity body.unit item.canonical_unit)) [
            | inl bad ↦ ground arith
            | inr (quantity, read) ↦
                let (_, e3) =
                  passed_on (leb_ℤ quantity (pos 0)) bad_quantity _ (rw (found, read) at e2) in
                let (_, e4) = passed_on (not body.links_owned) wastage_not_found _ e3 in
                (item, quantity, sym (done_inj e4))
          ]
    ]

reject_wastage-done :
    (now : ℕ) (user : AuthUser) (enabled : Bool) (k : ℕ) (db after : WastageDb)
    (entry : WastageEntry)
    → load_entry user.business_id k db ≡ done entry
    → entry.rejected_by_user_id ≡ none
    → reject_wastage now user enabled k db ≡ done after
    → (entry.approved_by_user_id ≡ none) × (reject_entry now user entry db ≡ done after)
unfolding reject_wastage
reject_wastage-done now user enabled k db after entry found fresh e =
    let (_, e1) = passed_on (not enabled) wastage_not_enabled _ e in
    let (unapproved, e2) =
      passed_on (is_some entry.approved_by_user_id) already_approved _ (rw found at e1) in
    (is_some-none unapproved, rw fresh at e2)

-- What is taken and then put back, in stock or not.
taken_put_back :
    (counted : Bool) (q : ℤ)
    → ((if counted then neg q else pos 0) +ℤ pos 0)
        +ℤ ((if counted then neg (neg q) else pos 0) +ℤ pos 0)
      ≡ pos 0
taken_put_back true q = grind int_laws
taken_put_back false q = grind int_laws

==_self : (n : ℕ) → (n == n) ≡ true
==_self n = ground arith

nothing_changes :
    (total before lost with_loss back : ℤ)
    → total ≡ with_loss +ℤ back
    → with_loss ≡ before +ℤ lost
    → lost +ℤ back ≡ pos 0
    → total ≡ before
nothing_changes total before lost with_loss back h g z = eq_of_parts total before (
    omega (
      +ℤ_parts with_loss back,
      +ℤ_parts before lost,
      +ℤ_parts lost back,
      ap pos_part h,
      ap neg_part h,
      ap pos_part g,
      ap neg_part g,
      ap pos_part z,
      ap neg_part z,
      arith,
    ))

load_entry_new :
    (business k : ℕ) (db : WastageDb) (e : WastageEntry) (ms : List Movement)
    → All (λ x. is_entry business k x ≡ false) db.entries
    → is_entry business k e ≡ true
    → load_entry business k (record db { entries = db.entries ++ e ∷ []; movements = ms }) ≡ done e
unfolding load_entry
load_entry_new business k db e ms absent mine =
    rw (load_entry, find-append_last (is_entry business k) db.entries e absent mine) refl

reject_entry-movements :
    (now : ℕ) (user : AuthUser) (entry : WastageEntry) (original : Movement) (db after : WastageDb)
    → find (of_entry user.business_id entry.id) db.movements ≡ some original
    → reject_entry now user entry db ≡ done after
    → after.movements ≡ db.movements ++ put_back now user entry original ∷ []
unfolding reject_entry
reject_entry-movements now user entry original db after found e =
    ap (λ t. t.movements) (sym (done_inj (rw (reject_entry, found) at e)))

loss_row-of_entry :
    (now : ℕ) (user : AuthUser) (entry : WastageEntry) (item : StockItem)
    → of_entry user.business_id entry.id (loss_row now user entry item) ≡ true
unfolding build_movement
loss_row-of_entry now user entry item = rw (==_self user.business_id, ==_self entry.id) refl

two_rows-stock :
    (now now' : ℕ) (user reviewer : AuthUser) (entry : WastageEntry) (item : StockItem) (i : ℕ)
    → reviewer.business_id ≡ user.business_id
    → entry.ingredient_id ≡ item.id
    → let loss = loss_row now user entry item in
      stock_on_hand user.business_id none (loss ∷ []) i
        +ℤ stock_on_hand user.business_id none (put_back now' reviewer entry loss ∷ []) i
      ≡ pos 0
unfolding stock_on_hand in_stock build_movement
two_rows-stock now now' user reviewer entry item i same listed =
    rw (same, listed, ==_self user.business_id)
      (taken_put_back (item.id == i && true) entry.quantity_milli)

-- A loss that is logged and then rejected leaves the stock of every ingredient as it was before.
pub rejection_restores :
    (now : ℕ) (user : AuthUser) (enabled : Bool) (threshold : ℤ) (k : ℕ) (body : WastageRequest)
    (db recorded after : WastageDb) (now' : ℕ) (reviewer : AuthUser) (enabled' : Bool) (i : ℕ)
    → All (λ e. is_entry user.business_id k e ≡ false) db.entries
    → All (λ m. of_entry user.business_id k m ≡ false) db.movements
    → reviewer.business_id ≡ user.business_id
    → record_wastage now user enabled threshold k body db ≡ done recorded
    → reject_wastage now' reviewer enabled' k recorded ≡ done after
    → stock_on_hand user.business_id none after.movements i
      ≡ stock_on_hand user.business_id none db.movements i
rejection_restores now user enabled threshold k body db recorded after now' reviewer enabled' i
      new_id new_source same records rejects =
    let b = user.business_id in
    let (item, quantity, made) =
      record_wastage-done now user enabled threshold k body db recorded records in
    let entry = new_entry now user threshold k body item quantity in
    let loss = loss_row now user entry item in
    let here : load_entry b k recorded ≡ done entry =
      ap (load_entry b k) made
      ∙ load_entry_new b k db entry (db.movements ++ loss ∷ []) new_id
          (rw (==_self k, ==_self b) refl) in
    let found : load_entry reviewer.business_id k recorded ≡ done entry =
      ap (λ t. load_entry t k recorded) same ∙ here in
    let (_, e1) =
      reject_wastage-done now' reviewer enabled' k recorded after entry found refl rejects in
    let source : find (of_entry reviewer.business_id k) recorded.movements ≡ some loss =
      ap (λ t. find (of_entry t k) recorded.movements) same
      ∙ ap (λ t. find (of_entry b k) t.movements) made
      ∙ find-append_last (of_entry b k) db.movements loss new_source
          (loss_row-of_entry now user entry item) in
    let back = put_back now' reviewer entry loss in
    let moved : after.movements ≡ (db.movements ++ loss ∷ []) ++ back ∷ [] =
      reject_entry-movements now' reviewer entry loss recorded after source e1
      ∙ ap (λ t. t.movements ++ back ∷ []) made in
    let rows = two_rows-stock now now' user reviewer entry item i same refl in
    let outer = stock_on_hand-append b none (db.movements ++ loss ∷ []) (back ∷ []) i in
    let inner = stock_on_hand-append b none db.movements (loss ∷ []) i in
    ap (λ ms. stock_on_hand b none ms i) moved ∙ nothing_changes _ _ _ _ _ outer inner rows
