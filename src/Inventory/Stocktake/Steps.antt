-- ===== src/Inventory/Stocktake/Steps.antt =====
-- What a successful call of a stocktake route has done, and what an approved count refuses
-- (backend/app/api/v1/routes_stocktake.py).
use nextgen_backend.Prelude.{
  ℕ, ◌≡◌, refl, sym, ap, ◌∙◌, Bool, true, false, not, some, List, [], ◌∷◌, ◌++◌, arith,
  if◌then◌else◌, find, find-replace_first,
}
use nextgen_backend.Prelude.Result.{done, raised, done_inj, >>=-eq-done, passed_on}
use nextgen_backend.Loyalty.Audit.{find_sound}
use nextgen_backend.Inventory.Stocktake.{
  StocktakeSession, StocktakeDb, inventory_not_enabled, not_draft, incomplete_count, locked,
  not_completed, is_draft, is_completed, is_approved, is_session, load_session, reject_if_locked,
  put_session, CountLine, submit_counts, cancel_stocktake, completed_session, complete_stocktake,
  adjustments, approved_session, approve_stocktake,
}

load_session_found :
    (business k : ℕ) (db : StocktakeDb) (s : StocktakeSession)
    → load_session business k db ≡ done s
    → find (is_session business k) db.sessions ≡ some s
unfolding load_session
load_session_found business k db s e = ground arith

pub load_session_mine :
    (business k : ℕ) (db : StocktakeDb) (s : StocktakeSession)
    → load_session business k db ≡ done s
    → (s.id ≡ k) × (s.business_id ≡ business)
load_session_mine business k db s e =
    let mine =
      find_sound (is_session business k) db.sessions (load_session_found business k db s e) in
    (ground arith, ground arith)

pub load_session-put :
    (db : StocktakeDb) (old new : StocktakeSession)
    → load_session new.business_id new.id db ≡ done old
    → load_session new.business_id new.id (put_session new db) ≡ done new
unfolding load_session
load_session-put db old new e =
    let mine : is_session new.business_id new.id new ≡ true = ground arith in
    let found = load_session_found new.business_id new.id db old e in
    rw
      (
        load_session,
        find-replace_first (is_session new.business_id new.id) new old db.sessions found mine,
      )
      refl

pub load_session-sessions :
    (business k : ℕ) (db db' : StocktakeDb)
    → db.sessions ≡ db'.sessions
    → load_session business k db ≡ load_session business k db'
unfolding load_session
load_session-sessions business k db db' e = rw (load_session, e) refl

not-false : {b : Bool} → not b ≡ false → b ≡ true
not-false {b = true} h = refl
not-false {b = false} h = cc

pub complete_stocktake-done :
    (now business by : ℕ) (enabled : Bool) (k : ℕ) (db after : StocktakeDb)
    → complete_stocktake now business by enabled k db ≡ done after
    → (s : StocktakeSession) × (load_session business k db ≡ done s)
      × (is_draft s.status ≡ true)
      × (after ≡ put_session (completed_session now by s db) db)
unfolding complete_stocktake reject_if_locked
complete_stocktake-done now business by enabled k db after e =
    let (_, e1) = passed_on (not enabled) inventory_not_enabled _ e in
    let (s, found, e2) = >>=-eq-done (load_session business k db) _ e1 in
    let (_, _, e3) = >>=-eq-done (reject_if_locked s) _ e2 in
    let (draft, e4) = passed_on (not (is_draft s.status)) not_draft _ e3 in
    let (_, e5) = passed_on _ incomplete_count _ e4 in
    (s, found, not-false draft, sym (done_inj e5))

-- The tables after an approval.
abbrev pub approved_db : ℕ → ℕ → Bool → ℕ → StocktakeSession → StocktakeDb → StocktakeDb
approved_db now by post k s db = record (put_session (approved_session now by s) db) {
  movements = db.movements ++ (if post then adjustments now by s s.lines else []);
  approvals = db.approvals ++ (by, k) ∷ [];
}

pub approve_stocktake-done :
    (now business by : ℕ) (enabled post : Bool) (k : ℕ) (db after : StocktakeDb)
    → approve_stocktake now business by enabled post k db ≡ done after
    → (s : StocktakeSession) × (load_session business k db ≡ done s)
      × (is_completed s.status ≡ true)
      × (after ≡ approved_db now by post k s db)
unfolding approve_stocktake
approve_stocktake-done now business by enabled post k db after e =
    let (_, e1) = passed_on (not enabled) inventory_not_enabled _ e in
    let (s, found, e2) = >>=-eq-done (load_session business k db) _ e1 in
    let (_, e3) = passed_on (is_approved s.status) locked _ e2 in
    let (completed, e4) = passed_on (not (is_completed s.status)) not_completed _ e3 in
    (s, found, not-false completed, sym (done_inj e4))

-- A count that has been approved refuses every further change: counts cannot be handed in, and it
-- is neither completed, approved again nor cancelled, so its corrections are posted once.
pub approved_locked :
    (now business by : ℕ) (post : Bool) (k : ℕ) (db after : StocktakeDb) (later user : ℕ)
    (post' : Bool) (entries : List CountLine)
    → approve_stocktake now business by true post k db ≡ done after
    → (submit_counts business true k entries after ≡ raised locked)
      × (complete_stocktake later business user true k after ≡ raised locked)
      × (approve_stocktake later business user true post' k after ≡ raised locked)
      × (cancel_stocktake business true k after ≡ raised locked)
unfolding submit_counts complete_stocktake approve_stocktake cancel_stocktake reject_if_locked
approved_locked now business by post k db after later user post' entries e =
    let (s, found, _, made) = approve_stocktake-done now business by true post k db after e in
    let (mine_k, mine_b) = load_session_mine business k db s found in
    let new = approved_session now by s in
    let there : load_session s.business_id s.id db ≡ done s =
      ap (λ b. load_session b s.id db) mine_b
      ∙ ap (λ i. load_session business i db) mine_k
      ∙ found in
    let reached : load_session business k after ≡ done new =
      ap (λ b. load_session b k after) (sym mine_b)
      ∙ ap (λ i. load_session s.business_id i after) (sym mine_k)
      ∙ load_session-sessions s.business_id s.id after (put_session new db)
          (ap (λ t. t.sessions) made)
      ∙ load_session-put db s new there in
    (rw reached refl, rw reached refl, rw reached refl, rw reached refl)
