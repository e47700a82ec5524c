-- ===== src/Pos/Reversal.antt =====
-- What a refund or a void at the till leaves (backend/app/api/v1/routes_pos.py).
use nextgen_backend.Prelude.{
  ℕ, ◌≡◌, refl, Bool, true, false, ◌||◌, some, arith, find, find-replace_first, replace_first,
}
use nextgen_backend.Prelude.Int.{ℤ, pos, ltb_ℤ}
use nextgen_backend.Prelude.Result.{done, >>=-eq-done, passed_on}
use nextgen_backend.Loyalty.Audit.{find_sound}
use nextgen_backend.Pos.{
  PosOrder, PosDb, RefundBody, is_payment_paid, compute_cash_portion, is_pos_order,
  flag_pay_by_link, load_pos_order_for_reversal, require_open_till_for_cash_reversal,
  refund_cash_portion, amount_or, below, refunded_order, voided_order, restore, written_back,
  refund_pos_order, void_pos_order,
}

restore-tables :
    (now business k by : ℕ) (stock points : Bool) (db after : PosDb)
    → restore now business k by stock points db ≡ done after
    → (after.orders ≡ db.orders) × (after.allocations ≡ db.allocations)
unfolding restore
restore-tables now business k by stock points db after e = ground arith

pub load_found :
    (business k : ℕ) (db : PosDb) (o : PosOrder)
    → load_pos_order_for_reversal business k db ≡ done o
    → (find (is_pos_order business k) db.orders ≡ some o)
      × (o.is_pos ≡ true)
      × (is_payment_paid o.payment_status ≡ true)
unfolding load_pos_order_for_reversal
load_found business k db o e = ground arith

-- The row written back is the one found afterwards.
restore-found :
    (now business k by : ℕ) (stock points : Bool) (new old : PosOrder) (amount cash : ℤ)
    (db after : PosDb)
    → find (is_pos_order business k) db.orders ≡ some old
    → is_pos_order business k new ≡ true
    → restore now business k by stock points (written_back business k new amount cash db)
      ≡ done after
    → find (is_pos_order business k) after.orders ≡ some new
restore-found now business k by stock points new old amount cash db after f mine e =
    rw (restore-tables now business k by stock points _ after e).0
      (find-replace_first (is_pos_order business k) new old db.orders f mine)

-- What a refund did: the order it found, the amount and the cash.
pub refund_inv :
    (now business by : ℕ) (inventory : Bool) (k : ℕ) (body : RefundBody) (db after : PosDb)
    → refund_pos_order now business by inventory k body db ≡ done after
    → (o : PosOrder) × (amount : ℤ) × (cash : ℤ) × (load_pos_order_for_reversal business k db
        ≡ done o)
      × (amount ≡ amount_or body.amount_cents o.total_cents)
      × (ltb_ℤ o.total_cents amount ≡ false)
      × ((below (pos 1) body.amount_cents || below (pos 0) body.cash_refund_cents) ≡ false)
      × (refund_cash_portion o amount body.cash_refund_cents db.allocations ≡ done cash)
      × (find (is_pos_order business k) after.orders ≡ some (refunded_order now amount cash o))
      × (after.orders
          ≡ replace_first (is_pos_order business k) (refunded_order now amount cash o) db.orders)
      × (after.allocations ≡ flag_pay_by_link k amount cash db.allocations)
unfolding refund_pos_order
refund_inv now business by inventory k body db after e =
    let (valid, e1) = passed_on _ _ _ e in
    let (o, loaded, e2) = >>=-eq-done (load_pos_order_for_reversal business k db) _ e1 in
    let (u, till, e3) = >>=-eq-done (require_open_till_for_cash_reversal business o db) _ e2 in
    let (fits, e4) = passed_on _ _ _ e3 in
    let (cash, portion, e5) = >>=-eq-done (refund_cash_portion o _ _ _) _ e4 in
    let found = (load_found business k db o loaded).0 in
    (
      o,
      _,
      cash,
      loaded,
      refl,
      fits,
      valid,
      portion,
      restore-found now business k by _ _ _ o _ cash db after found
          (find_sound (is_pos_order business k) db.orders found) e5,
      (restore-tables now business k by _ _ _ after e5).0,
      (restore-tables now business k by _ _ _ after e5).1,
    )

pub void_inv :
    (now business by : ℕ) (inventory : Bool) (k : ℕ) (db after : PosDb)
    → void_pos_order now business by inventory k db ≡ done after
    → (o : PosOrder) × (load_pos_order_for_reversal business k db ≡ done o)
      × (find (is_pos_order business k) after.orders
          ≡ some (voided_order now by (compute_cash_portion o o.total_cents db.allocations) o))
      × (after.orders
          ≡ replace_first
              (is_pos_order business k)
              (voided_order now by (compute_cash_portion o o.total_cents db.allocations) o)
              db.orders)
      × (after.allocations
          ≡ flag_pay_by_link k o.total_cents
              (compute_cash_portion o o.total_cents db.allocations)
              db.allocations)
unfolding void_pos_order
void_inv now business by inventory k db after e =
    let (o, loaded, e2) = >>=-eq-done (load_pos_order_for_reversal business k db) _ e in
    let (u, till, e3) = >>=-eq-done (require_open_till_for_cash_reversal business o db) _ e2 in
    let found = (load_found business k db o loaded).0 in
    (
      o,
      loaded,
      restore-found now business k by _ _ _ o _ _ db after found
          (find_sound (is_pos_order business k) db.orders found) e3,
      (restore-tables now business k by _ _ _ after e3).0,
      (restore-tables now business k by _ _ _ after e3).1,
    )
