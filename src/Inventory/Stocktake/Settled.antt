-- ===== src/Inventory/Stocktake/Settled.antt =====
-- From the count to the ledger: a completed count that is approved
-- (backend/app/api/v1/routes_stocktake.py).
use nextgen_backend.Prelude.{
  ℕ, ◌≡◌, refl, ◌&&◌, sym, ap, ◌∙◌, Bool, true, false, some, List, [], ◌∷◌, ◌++◌, arith, ◌==◌,
  if◌then◌else◌, find, All,
}
use nextgen_backend.Prelude.Int.{ℤ, pos, ◌+ℤ◌, ◌-ℤ◌, int_laws}
use nextgen_backend.Prelude.Result.{done, done_inj}
use nextgen_backend.Inventory.Ledger.{Movement, stock_on_hand, in_stock, until_ok}
use nextgen_backend.Inventory.Ledger.Period.{Precedes, stock_on_hand-append}
use nextgen_backend.Inventory.Variance.{expected_milli, variance_milli}
use nextgen_backend.Inventory.Stocktake.{
  StockItem, StocktakeLine, StocktakeSession, StocktakeDb, load_session, put_session,
  compute_variance, find_item, counted_variance, snapshot, completed_session, complete_stocktake,
  adjustments, approve_stocktake,
}
use nextgen_backend.Inventory.Stocktake.BookStock.{zero_right, expected_milli-stock}
use nextgen_backend.Inventory.Stocktake.Reconciled.{
  OneLineEach, line_of, one_line-correction, snapshot_lines-OneLineEach, snapshot_lines-find,
  adjustments-stock,
}
use nextgen_backend.Inventory.Stocktake.Steps.{
  load_session_mine, load_session-put, load_session-sessions, complete_stocktake-done,
  approve_stocktake-done,
}

outside :
    (mine listed before : Bool) (q : ℤ)
    → before ≡ false
    → (if mine && listed && before then q else pos 0) ≡ pos 0
outside mine listed before q h = ground arith

after_cutoff-stock :
    (business cutoff : ℕ) (later : List Movement) (k : ℕ)
    → All (λ m. until_ok (some cutoff) m.occurred_at ≡ false) later
    → stock_on_hand business (some cutoff) later k ≡ pos 0
unfolding stock_on_hand in_stock
after_cutoff-stock business cutoff [] k h = refl
after_cutoff-stock business cutoff (m ∷ ms) k h =
    let rest = after_cutoff-stock business cutoff ms k h.1 in
    rw
      (
        outside (m.business_id == business) (m.ingredient_id == k)
            (until_ok (some cutoff) m.occurred_at) m.quantity_milli h.0,
        rest,
      )
      (zero_right (pos 0))

-- Book stock, nothing, and the correction to the count make the count.
settles : (book counted : ℤ) → (book +ℤ pos 0) +ℤ (counted -ℤ book) ≡ counted
settles book counted = grind int_laws

counted_variance-milli :
    (session : StocktakeSession) (ledger : List Movement) (item : StockItem) (line : StocktakeLine)
    (counted : ℤ)
    → line.counted_quantity_milli ≡ some counted
    → variance_milli (counted_variance session ledger item line)
      ≡ counted -ℤ expected_milli (compute_variance session ledger item)
unfolding variance_milli expected_milli
counted_variance-milli session ledger item line counted e = rw e refl

settled_ledger :
    (now by : ℕ) (db : StocktakeDb) (session : StocktakeSession) (line : StocktakeLine)
    (item : StockItem) (counted : ℤ) (now' by' : ℕ) (later : List Movement)
    → Precedes session.period_start_at session.cutoff_at
    → OneLineEach session.lines
    → find (line_of item.id) session.lines ≡ some line
    → find_item session.business_id line.ingredient_id db.items ≡ some item
    → line.counted_quantity_milli ≡ some counted
    → All (λ m. until_ok (some session.cutoff_at) m.occurred_at ≡ false) later
    → let cs = completed_session now by session db in
      stock_on_hand session.business_id
        (some session.cutoff_at)
        ((db.movements ++ later) ++ adjustments now' by' cs cs.lines)
        item.id
      ≡ counted
settled_ledger now by db session line item counted now' by' later tiles lines listed known count
      after_it =
    let cs = completed_session now by session db in
    let business = session.business_id in
    let until = some session.cutoff_at in
    let v = counted_variance session db.movements item line in
    let posted = adjustments now' by' cs cs.lines in
    let snapped = snapshot_lines-find session db item.id session.lines line item listed known in
    let corrected =
      adjustments-stock now' by' cs cs.lines item.id
      ∙ one_line-correction item.id cs.lines (snapshot v line)
          (snapshot_lines-OneLineEach session db session.lines lines) snapped
      ∙ counted_variance-milli session db.movements item line counted count
      ∙ ap (λ b. counted -ℤ b) (expected_milli-stock session db.movements item tiles).0 in
    let book = stock_on_hand business until db.movements item.id in
    stock_on_hand-append business until (db.movements ++ later) posted item.id
    ∙ ap (λ x. x +ℤ stock_on_hand business until posted item.id)
        (stock_on_hand-append business until db.movements later item.id
          ∙ ap (λ x. book +ℤ x)
              (after_cutoff-stock business session.cutoff_at later item.id after_it))
    ∙ ap (λ x. (book +ℤ pos 0) +ℤ x) corrected
    ∙ settles book counted

-- A count that is completed and then approved with its corrections leaves as the stock at its
-- cut-off what was counted, for each ingredient with a count on it. The conditions: the period ends
-- no earlier than it starts, each ingredient has one line, and between the two routes the ledger
-- gained only movements after the cut-off.
pub approval_settles :
    (now business by : ℕ) (enabled : Bool) (k : ℕ) (db completed after : StocktakeDb)
    (session : StocktakeSession) (line : StocktakeLine) (item : StockItem) (counted : ℤ)
    (now' by' : ℕ) (enabled' : Bool) (later : List Movement)
    → load_session business k db ≡ done session
    → Precedes session.period_start_at session.cutoff_at
    → OneLineEach session.lines
    → find (line_of item.id) session.lines ≡ some line
    → find_item business line.ingredient_id db.items ≡ some item
    → line.counted_quantity_milli ≡ some counted
    → complete_stocktake now business by enabled k db ≡ done completed
    → All (λ m. until_ok (some session.cutoff_at) m.occurred_at ≡ false) later
    → approve_stocktake now' business by' enabled' true k
        (record completed { movements = completed.movements ++ later })
      ≡ done after
    → stock_on_hand business (some session.cutoff_at) after.movements item.id ≡ counted
approval_settles now business by enabled k db completed after session line item counted now' by'
      enabled' later at_first tiles lines listed known count completes after_it approves =
    let (mine_k, mine_b) = load_session_mine business k db session at_first in
    let (session1, found1, _, made1) =
      complete_stocktake-done now business by enabled k db completed completes in
    let same1 : session1 ≡ session = done_inj (sym found1 ∙ at_first) in
    let cs = completed_session now by session db in
    let made : completed ≡ put_session cs db = rw (← same1) made1 in
    let (session2, found2, _, made2) =
      approve_stocktake-done now' business by' enabled' true k
        (record completed { movements = completed.movements ++ later }) after approves in
    let there : load_session cs.business_id cs.id db ≡ done session =
      ap (λ b. load_session b session.id db) mine_b
      ∙ ap (λ i. load_session business i db) mine_k
      ∙ at_first in
    let reached : load_session business k completed ≡ done cs =
      ap (λ b. load_session b k completed) (sym mine_b)
      ∙ ap (λ i. load_session session.business_id i completed) (sym mine_k)
      ∙ ap (λ t. load_session session.business_id session.id t) made
      ∙ load_session-put db session cs there in
    let same2 : session2 ≡ cs = done_inj (
      sym found2
      ∙ load_session-sessions business k
          (record completed { movements = completed.movements ++ later }) completed refl
      ∙ reached) in
    let moved : after.movements ≡ (db.movements ++ later) ++ adjustments now' by' cs cs.lines =
      ap (λ t. t.movements) made2
      ∙ ap (λ x. (completed.movements ++ later) ++ adjustments now' by' x x.lines) same2
      ∙ ap (λ x. (x.movements ++ later) ++ adjustments now' by' cs cs.lines) made in
    let result =
      settled_ledger now by db session line item counted now' by' later tiles lines listed
        (ap (λ b. find_item b line.ingredient_id db.items) mine_b ∙ known) count after_it in
    let until = some session.cutoff_at in
    ap (λ b. stock_on_hand b until after.movements item.id) (sym mine_b)
    ∙ ap (λ ms. stock_on_hand session.business_id until ms item.id) moved
    ∙ result
