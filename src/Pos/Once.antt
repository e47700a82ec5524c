-- ===== src/Pos/Once.antt =====
-- An order at the till is reversed at most once (backend/app/api/v1/routes_pos.py).
use nextgen_backend.Prelude.{
  ℕ, ◌≡◌, ◌⊎◌, refl, ◌∙◌, inl, inr, Bool, true, false, ◌||◌, some, arith, find, Bool-cases,
}
use nextgen_backend.Prelude.Int.{ℤ, pos, eqb_ℤ}
use nextgen_backend.Prelude.Result.{done, raised}
use nextgen_backend.Pos.{
  PosOrder, PosDb, RefundBody, pos_order_not_paid, is_payment_paid, is_pos_order, below,
  load_pos_order_for_reversal, refunded_order, refund_pos_order, void_pos_order,
}
use nextgen_backend.Pos.Reversal.{load_found, refund_inv, void_inv}

-- A refunded order is no longer paid, in part or in full.
refunded-unpaid :
    (now : ℕ) (amount cash : ℤ) (o : PosOrder)
    → is_payment_paid (refunded_order now amount cash o).payment_status ≡ false
refunded-unpaid now amount cash o = elim (Bool-cases (eqb_ℤ amount o.total_cents)) [
  | inl h ↦ rw h refl
  | inr h ↦ rw h refl
]

closed_load :
    (business k : ℕ) (db : PosDb) (o : PosOrder)
    → find (is_pos_order business k) db.orders ≡ some o
    → o.is_pos ≡ true
    → is_payment_paid o.payment_status ≡ false
    → load_pos_order_for_reversal business k db ≡ raised pos_order_not_paid
unfolding load_pos_order_for_reversal
closed_load business k db o f sold unpaid = ground arith

-- The row that a refund or a void leaves.
reversed_row :
    (now business by : ℕ) (inventory : Bool) (k : ℕ) (body : RefundBody) (db after : PosDb)
    → (refund_pos_order now business by inventory k body db ≡ done after)
      ⊎ (void_pos_order now business by inventory k db ≡ done after)
    → (o : PosOrder) × (find (is_pos_order business k) after.orders ≡ some o)
      × (o.is_pos ≡ true)
      × (is_payment_paid o.payment_status ≡ false)
reversed_row now business by inventory k body db after (inl e) =
    let (o, amount, cash, loaded, eq, fits, valid, portion, f, rows, flags) =
      refund_inv now business by inventory k body db after e in
    (_, f, (load_found business k db o loaded).1, refunded-unpaid now amount cash o)
reversed_row now business by inventory k body db after (inr e) =
    let (o, loaded, f, rows, flags) = void_inv now business by inventory k db after e in
    (_, f, (load_found business k db o loaded).1, refl)

-- Once an order has been refunded, in part or in full, or voided, and for as long as nothing else
-- changes its row, whatever happens to other orders, stock, points and tills, every void of it and
-- every refund of it with a valid body raises pos_order_not_paid.
pub reversed_once :
    (now business by : ℕ) (inventory : Bool) (k : ℕ) (body : RefundBody) (db after : PosDb)
    (later someone : ℕ) (keeps : Bool) (again : RefundBody) (db' : PosDb)
    → (refund_pos_order now business by inventory k body db ≡ done after)
      ⊎ (void_pos_order now business by inventory k db ≡ done after)
    → find (is_pos_order business k) db'.orders ≡ find (is_pos_order business k) after.orders
    → (below (pos 1) again.amount_cents || below (pos 0) again.cash_refund_cents) ≡ false
    → (void_pos_order later business someone keeps k db' ≡ raised pos_order_not_paid)
      × (refund_pos_order later business someone keeps k again db' ≡ raised pos_order_not_paid)
unfolding refund_pos_order void_pos_order
reversed_once now business by inventory k body db after later someone keeps again db' e same valid =
    let (o, f, sold, unpaid) = reversed_row now business by inventory k body db after e in
    let stuck = closed_load business k db' o (same ∙ f) sold unpaid in
    (rw stuck refl, rw (valid, stuck) refl)
