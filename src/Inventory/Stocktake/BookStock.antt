-- ===== src/Inventory/Stocktake/BookStock.antt =====
-- The expected quantity of a count against the stock ledger
-- (backend/app/api/v1/routes_stocktake.py, _compute_variances; backend/app/inventory/ledger.py).
use nextgen_backend.Prelude.{
  ℕ, ◌≤◌, ◌≡◌, refl, ap, ◌∙◌, Bool, true, false, ◌&&◌, Option, none, some, List, [], ◌∷◌, ◌==◌,
  arith, if◌then◌else◌,
}
use nextgen_backend.Prelude.Int.{ℤ, pos, ◌+ℤ◌, ◌-ℤ◌, int_laws, pos_part, neg_part}
use nextgen_backend.Inventory.Ledger.{
  Movement, MovementType, opening_balance, goods_received, sale_consumption, sale_reversal,
  remake_consumption, wastage, staff_meal, complimentary, manual_adjustment, stocktake_adjustment,
  supplier_return, wastage_reversal, stock_on_hand, in_stock, in_group, movement_total, since_ok,
  until_ok, same_type,
}
use nextgen_backend.Inventory.Ledger.Period.{Precedes}
use nextgen_backend.Inventory.Variance.{expected_milli}
use nextgen_backend.Inventory.Stocktake.TermGroups.{Itemised, compute_variance-Itemised}
use nextgen_backend.Inventory.Stocktake.{
  StockItem, StocktakeSession, TermKind, receipt_term, consumption_term, wastage_term,
  adjustment_term, Terms, no_terms, add_term, term_of, all_types, tally, opening, compute_variance,
}

-- What the terms say came in, less what they say went out.
net : Terms → ℤ
net t = t.received -ℤ t.consumption -ℤ t.wasted +ℤ t.adjustment

net-add_term : (kind : TermKind) (q : ℤ) (t : Terms) → net (add_term kind q t) ≡ net t +ℤ q
unfolding net
net-add_term receipt_term q t = grind int_laws
net-add_term consumption_term q t = grind int_laws
net-add_term wastage_term q t = grind int_laws
net-add_term adjustment_term q t = grind int_laws

abbrev sum_types : (MovementType → ℤ) → List MovementType → ℤ
sum_types total [] = pos 0
sum_types total (kind ∷ kinds) = total kind +ℤ sum_types total kinds

net-tally :
    (total : MovementType → ℤ) (kinds : List MovementType) (t : Terms)
    → net (tally total kinds t) ≡ net t +ℤ sum_types total kinds
unfolding tally
net-tally total [] t = grind int_laws
net-tally total (kind ∷ kinds) t =
    let rest = net-tally total kinds (add_term (term_of kind) (total kind) t) in
    let first = net-add_term (term_of kind) (total kind) t in grind (int_laws, rest, first)

pub zero_left : (a : ℤ) → pos 0 +ℤ a ≡ a
zero_left a = grind int_laws

pub zero_right : (a : ℤ) → a +ℤ pos 0 ≡ a
zero_right a = grind int_laws

-- One row counts under its own type and under no other.
sum_types-row :
    (kind : MovementType) (q : ℤ)
    → sum_types (λ k. if same_type kind k then q else pos 0) all_types ≡ q
sum_types-row opening_balance q = simp (zero_left, zero_right)
sum_types-row goods_received q = simp (zero_left, zero_right)
sum_types-row sale_consumption q = simp (zero_left, zero_right)
sum_types-row sale_reversal q = simp (zero_left, zero_right)
sum_types-row remake_consumption q = simp (zero_left, zero_right)
sum_types-row wastage q = simp (zero_left, zero_right)
sum_types-row staff_meal q = simp (zero_left, zero_right)
sum_types-row complimentary q = simp (zero_left, zero_right)
sum_types-row manual_adjustment q = simp (zero_left, zero_right)
sum_types-row stocktake_adjustment q = simp (zero_left, zero_right)
sum_types-row supplier_return q = simp (zero_left, zero_right)
sum_types-row wastage_reversal q = simp (zero_left, zero_right)

sum_types-cong :
    (f g : MovementType → ℤ) (kinds : List MovementType)
    → ((k : MovementType) → f k ≡ g k)
    → sum_types f kinds ≡ sum_types g kinds
sum_types-cong f g [] h = refl
sum_types-cong f g (kind ∷ kinds) h = rw (h kind, sum_types-cong f g kinds h) refl

gates :
    (mine listed same begun ended : Bool) (q : ℤ)
    → (if (mine && listed && same) && begun && ended then q else pos 0)
      ≡ (if same then (if mine && listed && begun && ended then q else pos 0) else pos 0)
gates mine listed same begun ended q = ground arith

-- One row of the ledger, which is one of the ingredient in the period or is not.
row_total :
    (mine listed begun ended : Bool) (kind : MovementType) (q : ℤ)
    → sum_types
        (λ k. if (mine && listed && same_type kind k) && begun && ended then q else pos 0)
        all_types
      ≡ (if mine && listed && begun && ended then q else pos 0)
row_total mine listed begun ended kind q =
    sum_types-cong _ _ all_types (λ k. gates mine listed (same_type kind k) begun ended q)
    ∙ sum_types-row kind (if mine && listed && begun && ended then q else pos 0)

sum_types-add :
    (f g : MovementType → ℤ) (kinds : List MovementType)
    → sum_types (λ k. f k +ℤ g k) kinds ≡ sum_types f kinds +ℤ sum_types g kinds
sum_types-add f g [] = grind int_laws
sum_types-add f g (kind ∷ kinds) = grind (int_laws, sum_types-add f g kinds)

-- What one ingredient's movements of a period add up to, whatever their types.
abbrev period_total : ℕ → Option ℕ → Option ℕ → List Movement → ℕ → ℤ
period_total business since until [] k = pos 0
period_total business since until (m ∷ ms) k =
    (if m.business_id == business
        && m.ingredient_id == k
        && since_ok since m.occurred_at
        && until_ok until m.occurred_at
      then m.quantity_milli
      else pos 0)
    +ℤ period_total business since until ms k

sum_types-movement_total :
    (business : ℕ) (since until : Option ℕ) (ledger : List Movement) (k : ℕ)
    → sum_types (movement_total business since until ledger k) all_types
      ≡ period_total business since until ledger k
unfolding movement_total in_group
sum_types-movement_total business since until [] k = simp zero_left
sum_types-movement_total business since until (m ∷ ms) k =
    let rest = sum_types-movement_total business since until ms k in
    let row =
      row_total (m.business_id == business) (m.ingredient_id == k) (since_ok since m.occurred_at)
        (until_ok until m.occurred_at) m.movement_type m.quantity_milli in
    let counted : MovementType → ℤ = λ kind.
      if in_group business k kind m && since_ok since m.occurred_at && until_ok until m.occurred_at
      then m.quantity_milli
      else pos 0 in
    let others = movement_total business since until ms k in
    sum_types-add counted others all_types
    ∙ ap (λ x. x +ℤ sum_types others all_types) row
    ∙ ap
        (λ y.
          (if m.business_id == business
              && m.ingredient_id == k
              && since_ok since m.occurred_at
              && until_ok until m.occurred_at
            then m.quantity_milli
            else pos 0)
          +ℤ y)
        rest

-- A row is in the opening stock, in the period, or after the count.
row_in_stock :
    (mine listed : Bool) (start cutoff t : ℕ) (q : ℤ)
    → start ≤ cutoff
    → (if mine && listed && until_ok (some start) t then q else pos 0)
        +ℤ (if mine && listed && since_ok (some start) t && until_ok (some cutoff) t
            then q
            else pos 0)
      ≡ (if mine && listed && until_ok (some cutoff) t then q else pos 0)
row_in_stock true true start cutoff t q h = grind int_laws
row_in_stock true false start cutoff t q h = zero_left (pos 0)
row_in_stock false listed start cutoff t q h = zero_left (pos 0)

-- The stock at the start and the movements since then make the stock at the end.
opening-period :
    (business : ℕ) (start : Option ℕ) (cutoff : ℕ) (ledger : List Movement) (k : ℕ)
    → Precedes start cutoff
    → opening business start ledger k +ℤ period_total business start (some cutoff) ledger k
      ≡ stock_on_hand business (some cutoff) ledger k
unfolding opening stock_on_hand in_stock
opening-period business none cutoff [] k h = zero_left (pos 0)
opening-period business none cutoff (m ∷ ms) k h =
    let rest = opening-period business none cutoff ms k h in grind (int_laws, rest)
opening-period business (some start) cutoff [] k h = zero_left (pos 0)
opening-period business (some start) cutoff (m ∷ ms) k h =
    let rest = opening-period business (some start) cutoff ms k h in
    let row =
      row_in_stock (m.business_id == business) (m.ingredient_id == k) start cutoff m.occurred_at
        m.quantity_milli h in
    omega (int_laws, ap pos_part row, ap neg_part row, ap pos_part rest, ap neg_part rest)

regroup :
    (o : ℤ) (t : Terms) → o +ℤ t.received -ℤ t.consumption -ℤ t.wasted +ℤ t.adjustment ≡ o +ℤ net t
unfolding net
regroup o t = grind int_laws

from_nothing : (q : ℤ) → net no_terms +ℤ q ≡ q
unfolding net
from_nothing q = grind int_laws

expected_book :
    (session : StocktakeSession) (ledger : List Movement) (item : StockItem)
    → Precedes session.period_start_at session.cutoff_at
    → expected_milli (compute_variance session ledger item)
      ≡ stock_on_hand session.business_id (some session.cutoff_at) ledger item.id
unfolding expected_milli compute_variance
expected_book session ledger item h =
    let total =
      movement_total session.business_id session.period_start_at (some session.cutoff_at) ledger
        item.id in
    let terms = net-tally total all_types no_terms in
    let sums =
      sum_types-movement_total session.business_id session.period_start_at (some session.cutoff_at)
        ledger item.id in
    let tiles =
      opening-period session.business_id session.period_start_at session.cutoff_at ledger item.id
        h in
    let start = opening session.business_id session.period_start_at ledger item.id in
    regroup start (tally total all_types no_terms)
    ∙ ap (λ x. start +ℤ x) (terms ∙ from_nothing (sum_types total all_types) ∙ sums)
    ∙ tiles

-- The terms that a count is held against: received is the goods-received total of the period,
-- consumption the negated total of sales, their reversals and remakes, wastage the negated total of
-- wastage, staff and complimentary meals, and adjustment the total of every other type. Where the
-- period ends no earlier than it starts, the expected quantity that they make is the book stock at
-- the cut-off: what was there at the start and every movement since.
pub expected_milli-stock :
    (session : StocktakeSession) (ledger : List Movement) (item : StockItem)
    → Precedes session.period_start_at session.cutoff_at
    → (expected_milli (compute_variance session ledger item)
        ≡ stock_on_hand session.business_id (some session.cutoff_at) ledger item.id)
      × Itemised (compute_variance session ledger item) (
          movement_total session.business_id session.period_start_at
            (some session.cutoff_at)
            ledger
            item.id)
expected_milli-stock session ledger item h =
    (expected_book session ledger item h, compute_variance-Itemised session ledger item)
