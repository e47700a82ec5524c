-- ===== src/Inventory/Stocktake/Reconciled.antt =====
-- What completing and approving a count leave in the stock ledger
-- (backend/app/api/v1/routes_stocktake.py, complete_stocktake and approve_stocktake).
use nextgen_backend.Prelude.{
  ℕ, ◌≡◌, refl, sym, ap, ◌∙◌, inl, inr, Bool, true, false, ◌&&◌, some, List, [], ◌∷◌, arith, ◌==◌,
  leb, if◌then◌else◌, find, All, Bool-cases, Option-cases,
}
use nextgen_backend.Prelude.Int.{ℤ, pos, ◌+ℤ◌, int_laws, eqb_ℤ}
use nextgen_backend.Inventory.Ledger.{stock_on_hand, in_stock, build_movement}
use nextgen_backend.Inventory.Stocktake.{
  StockItem, StocktakeLine, StocktakeSession, StocktakeDb, find_item, counted_variance, snapshot,
  snapshot_lines, adjustments,
}
use nextgen_backend.Inventory.Stocktake.BookStock.{zero_right}

==_self : (n : ℕ) → (n == n) ≡ true
==_self n = ground arith

leb_self : (n : ℕ) → leb n n ≡ true
leb_self n = ground arith

&&-true : (b : Bool) → (b && true) ≡ b
&&-true true = refl
&&-true false = refl

no_correction :
    (listed : Bool) (v rest : ℤ)
    → eqb_ℤ v (pos 0) ≡ true
    → (if listed then v else pos 0) +ℤ rest ≡ rest
no_correction true v rest e = grind int_laws
no_correction false v rest e = grind int_laws

-- The corrections of one ingredient among the lines of a count.
abbrev pub correction : ℕ → List StocktakeLine → ℤ
correction k [] = pos 0
correction k (line ∷ lines) =
    (if line.ingredient_id == k then line.variance_quantity_milli else pos 0) +ℤ correction k lines

-- The rows that an approval posts hold the corrections, all of them at the cut-off.
pub adjustments-stock :
    (now by : ℕ) (session : StocktakeSession) (lines : List StocktakeLine) (k : ℕ)
    → stock_on_hand session.business_id
        (some session.cutoff_at)
        (adjustments now by session lines)
        k
      ≡ correction k lines
unfolding adjustments stock_on_hand in_stock build_movement
adjustments-stock now by session [] k = refl
adjustments-stock now by session (line ∷ lines) k =
    let rest = adjustments-stock now by session lines k in
    elim (Bool-cases (eqb_ℤ line.variance_quantity_milli (pos 0))) [
      | inl even ↦ rw even (
          rest
          ∙ sym (
              no_correction (line.ingredient_id == k) line.variance_quantity_milli
                (correction k lines) even))
      | inr off ↦
          rw
            (
              off,
              ==_self session.business_id,
              leb_self session.cutoff_at,
              &&-true (line.ingredient_id == k),
              rest,
            )
            refl
    ]

-- Each ingredient stands on one line, as the table's unique key has it.
abbrev pub OneLineEach : List StocktakeLine → Type 0
OneLineEach [] = Unit
OneLineEach (line ∷ lines) =
    All (λ l. (l.ingredient_id == line.ingredient_id) ≡ false) lines × OneLineEach lines

absent-correction :
    (k : ℕ) (lines : List StocktakeLine)
    → All (λ l. (l.ingredient_id == k) ≡ false) lines
    → correction k lines ≡ pos 0
absent-correction k [] h = refl
absent-correction k (line ∷ lines) h = rw (h.0, absent-correction k lines h.1) (grind int_laws)

abbrev pub line_of : ℕ → StocktakeLine → Bool
line_of k l = l.ingredient_id == k

pub one_line-correction :
    (k : ℕ) (lines : List StocktakeLine) (line : StocktakeLine)
    → OneLineEach lines
    → find (line_of k) lines ≡ some line
    → correction k lines ≡ line.variance_quantity_milli
one_line-correction k [] line h e = cc
one_line-correction k (l ∷ ls) line h e = elim (Bool-cases (l.ingredient_id == k)) [
  | inl here ↦
      let same : l ≡ line = ground arith in
      let key : k ≡ l.ingredient_id = ground arith in
      let others : correction k ls ≡ pos 0 = rw key (absent-correction l.ingredient_id ls h.0) in
      rw (here, others)
        (zero_right l.variance_quantity_milli ∙ ap (λ x. x.variance_quantity_milli) same)
  | inr there ↦
      let rest = one_line-correction k ls line h.1 (ground arith) in
      rw (there, rest) (grind int_laws)
]

-- The snapshot keeps each line's ingredient.
snapshot_lines-ids :
    (session : StocktakeSession) (db : StocktakeDb) (k : ℕ) (lines : List StocktakeLine)
    → All (λ l. (l.ingredient_id == k) ≡ false) lines
    → All (λ l. (l.ingredient_id == k) ≡ false) (snapshot_lines session db lines).0
unfolding snapshot_lines
snapshot_lines-ids session db k [] h = tt
snapshot_lines-ids session db k (line ∷ lines) h =
    let rest = snapshot_lines-ids session db k lines h.1 in
    elim (Option-cases (find_item session.business_id line.ingredient_id db.items)) [
      | inl missing ↦ rw (snapshot_lines, missing) (h.0, rest)
      | inr (item, found) ↦ rw (snapshot_lines, found) (h.0, rest)
    ]

pub snapshot_lines-OneLineEach :
    (session : StocktakeSession) (db : StocktakeDb) (lines : List StocktakeLine)
    → OneLineEach lines
    → OneLineEach (snapshot_lines session db lines).0
unfolding snapshot_lines
snapshot_lines-OneLineEach session db [] h = tt
snapshot_lines-OneLineEach session db (line ∷ lines) h =
    let others = snapshot_lines-ids session db line.ingredient_id lines h.0 in
    let rest = snapshot_lines-OneLineEach session db lines h.1 in
    elim (Option-cases (find_item session.business_id line.ingredient_id db.items)) [
      | inl missing ↦ rw (snapshot_lines, missing) (others, rest)
      | inr (item, found) ↦ rw (snapshot_lines, found) (others, rest)
    ]

pub snapshot_lines-find :
    (session : StocktakeSession) (db : StocktakeDb) (k : ℕ) (lines : List StocktakeLine)
    (line : StocktakeLine) (item : StockItem)
    → find (line_of k) lines ≡ some line
    → find_item session.business_id line.ingredient_id db.items ≡ some item
    → find (line_of k) (snapshot_lines session db lines).0
      ≡ some (snapshot (counted_variance session db.movements item line) line)
unfolding snapshot_lines
snapshot_lines-find session db k [] line item e found = cc
snapshot_lines-find session db k (l ∷ ls) line item e found =
    elim (Bool-cases (l.ingredient_id == k)) [
      | inl here ↦
          let same : l ≡ line = ground arith in
          let found' : find_item session.business_id l.ingredient_id db.items ≡ some item =
            rw same found in
          rw (snapshot_lines, found', here)
            (ap (λ x. some (snapshot (counted_variance session db.movements item x) x)) same)
      | inr there ↦
          let rest = snapshot_lines-find session db k ls line item (ground arith) found in
          elim (Option-cases (find_item session.business_id l.ingredient_id db.items)) [
            | inl missing ↦ rw (snapshot_lines, missing, there) rest
            | inr (other, found') ↦ rw (snapshot_lines, found', there) rest
          ]
    ]
