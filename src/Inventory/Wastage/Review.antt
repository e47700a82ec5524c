-- ===== src/Inventory/Wastage/Review.antt =====
-- Approval and rejection of a logged loss (backend/app/api/v1/routes_wastage.py).
use nextgen_backend.Prelude.{
  ℕ, ◌≡◌, ◌⊎◌, refl, inl, inr, Bool, not, none, some, [], ◌∷◌, find, All-append, All-replace_first,
  is_some, All, Bool-cases, Option-cases,
}
use nextgen_backend.Prelude.Int.{ℤ}
use nextgen_backend.Prelude.Result.{Outcome, done, done_inj, >>=-eq-done, passed_on}
use nextgen_backend.Orders.{AuthUser}
use nextgen_backend.Inventory.Wastage.{
  WastageEntry, WastageRequest, WastageDb, WastageError, wastage_not_enabled, already_rejected,
  already_approved, load_entry, is_entry, record_wastage, approve_wastage, of_entry, rejected_entry,
  reject_entry, reject_wastage, new_entry,
}
use nextgen_backend.Inventory.Wastage.Rejection.{is_some-none, record_wastage-done}

-- An entry is never both approved and rejected.
abbrev pub Reviewed : WastageEntry → Type 0
Reviewed e = (e.approved_by_user_id ≡ none) ⊎ (e.rejected_by_user_id ≡ none)

record-Reviewed :
    (now : ℕ) (user : AuthUser) (enabled : Bool) (threshold : ℤ) (k : ℕ) (body : WastageRequest)
    (db after : WastageDb)
    → All Reviewed db.entries
    → record_wastage now user enabled threshold k body db ≡ done after
    → All Reviewed after.entries
record-Reviewed now user enabled threshold k body db after all e =
    let (item, quantity, made) = record_wastage-done now user enabled threshold k body db after e in
    let entry = new_entry now user threshold k body item quantity in
    rw made (All-append Reviewed db.entries (entry ∷ []) all (inr refl, tt))

approve-Reviewed :
    (user : AuthUser) (enabled : Bool) (k : ℕ) (db after : WastageDb)
    → All Reviewed db.entries
    → approve_wastage user enabled k db ≡ done after
    → All Reviewed after.entries
unfolding approve_wastage
approve-Reviewed user enabled k db after all e =
    let (_, e1) = passed_on (not enabled) wastage_not_enabled _ e in
    let (entry, found, e2) = >>=-eq-done (load_entry user.business_id k db) _ e1 in
    let (unrejected, e3) = passed_on (is_some entry.rejected_by_user_id) already_rejected _ e2 in
    let made = done_inj e3 in
    elim (Bool-cases (is_some entry.approved_by_user_id)) [
      | inl already ↦ rw (← made, already) all
      | inr new ↦
          rw (← made, new)
            (All-replace_first Reviewed (is_entry user.business_id k)
              (record entry { approved_by_user_id = some user.user_id }) db.entries
              (inr (is_some-none unrejected)) all)
    ]

reject-Reviewed :
    (now : ℕ) (user : AuthUser) (enabled : Bool) (k : ℕ) (db after : WastageDb)
    → All Reviewed db.entries
    → reject_wastage now user enabled k db ≡ done after
    → All Reviewed after.entries
unfolding reject_wastage reject_entry
reject-Reviewed now user enabled k db after all e =
    let (_, e1) = passed_on (not enabled) wastage_not_enabled _ e in
    let (entry, found, e2) = >>=-eq-done (load_entry user.business_id k db) _ e1 in
    let (unapproved, e3) = passed_on (is_some entry.approved_by_user_id) already_approved _ e2 in
    elim (Option-cases entry.rejected_by_user_id) [
      | inr (by, already) ↦ rw (← done_inj (rw already at e3)) all
      | inl fresh ↦ elim (Option-cases (find (of_entry user.business_id entry.id) db.movements)) [
        | inl missing ↦ let e4 = rw (fresh, reject_entry, missing) at e3 in cc
        | inr (original, source) ↦
            let made = done_inj (rw (fresh, reject_entry, source) at e3) in
            rw (← made) (
              All-replace_first Reviewed (is_entry user.business_id entry.id)
                (rejected_entry now user entry) db.entries (inl (is_some-none unapproved)) all)
      ]
    ]

pub data ReviewAction : Type 0 where
  log_loss : ℕ → AuthUser → Bool → ℤ → ℕ → WastageRequest → ReviewAction
  approve_loss : AuthUser → Bool → ℕ → ReviewAction
  reject_loss : ℕ → AuthUser → Bool → ℕ → ReviewAction

unfoldable pub perform : ReviewAction → WastageDb → Outcome WastageError WastageDb
perform (log_loss now user enabled threshold k body) db =
    record_wastage now user enabled threshold k body db
perform (approve_loss user enabled k) db = approve_wastage user enabled k db
perform (reject_loss now user enabled k) db = reject_wastage now user enabled k db

-- Logging, approving and rejecting never leave an entry both approved and rejected, where none was
-- before.
pub perform-Reviewed :
    (action : ReviewAction) (db after : WastageDb)
    → All Reviewed db.entries
    → perform action db ≡ done after
    → All Reviewed after.entries
unfolding perform
perform-Reviewed (log_loss now user enabled threshold k body) db after all e =
    record-Reviewed now user enabled threshold k body db after all e
perform-Reviewed (approve_loss user enabled k) db after all e =
    approve-Reviewed user enabled k db after all e
perform-Reviewed (reject_loss now user enabled k) db after all e =
    reject-Reviewed now user enabled k db after all e
