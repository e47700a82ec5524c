-- ===== src/Pos/CashUp.antt =====
-- Refunds and voids against the cash-up (backend/app/api/v1/routes_pos.py).
use nextgen_backend.Prelude.{
  ℕ, ◌≡◌, ◌⊎◌, refl, ◌∙◌, inl, inr, Bool, true, false, leb, some, List, arith, ◌==◌, if◌then◌else◌,
  find, replace_first,
}
use nextgen_backend.Prelude.Int.{ℤ, pos, ◌+ℤ◌, ◌-ℤ◌, int_laws, eqb_ℤ}
use nextgen_backend.Prelude.Result.{done}
use nextgen_backend.Orders.{PaymentStatus, payment_refunded, payment_partially_refunded}
use nextgen_backend.Loyalty.Audit.{find_sound}
use nextgen_backend.Pos.{
  PosOrder, PosDb, RefundBody, Allocation, TillSession, is_payment_paid, is_pos_order,
  flag_pay_by_link, compute_expected_cash_cents, refund_pos_order, void_pos_order, refunded_order,
}
use nextgen_backend.Pos.Reversal.{load_found, refund_inv, void_inv}
use nextgen_backend.Pos.Till.{
  total, is_reversed, was_paid, legacy_cash, cash_refunded, expected_cash,
}
use nextgen_backend.Pos.Totals.{total-replace_first, total_same, flagged_cash, flagged_owners}

paid_counted :
    (s : PaymentStatus) → is_payment_paid s ≡ true → (was_paid s ≡ true) × (is_reversed s ≡ false)
paid_counted s h = ground arith

-- A paid order that becomes a reversed one with the same id, till, method and total.
pub Reverses : (now : ℕ) (cash : ℤ) (old new : PosOrder) → Type 0
Reverses now cash old new =
    (is_payment_paid old.payment_status ≡ true)
    × (is_reversed new.payment_status ≡ true)
    × (new.id ≡ old.id)
    × (new.business_id ≡ old.business_id)
    × (new.till_session_id ≡ old.till_session_id)
    × (new.payment_method ≡ old.payment_method)
    × (new.total_cents ≡ old.total_cents)
    × (new.refunded_at ≡ some now)
    × (new.refund_cash_cents ≡ some cash)

reversed_counted : (s : PaymentStatus) → is_reversed s ≡ true → was_paid s ≡ true
reversed_counted s h = ground arith

legacy_kept :
    (s now : ℕ) (cash : ℤ) (old new : PosOrder) (xs : List Allocation)
    → Reverses now cash old new
    → legacy_cash s xs new ≡ legacy_cash s xs old
unfolding Reverses
legacy_kept s now cash old new xs (paid, gone, i, b, t, m, a, at_now, c) =
    rw
      (
        i,
        t,
        m,
        a,
        reversed_counted new.payment_status gone,
        (paid_counted old.payment_status paid).0,
      )
      refl

refund_counted :
    (business start now : ℕ) (cash : ℤ) (old new : PosOrder)
    → Reverses now cash old new
    → old.business_id == business ≡ true
    → leb start now ≡ true
    → (cash_refunded business start new ≡ cash) × (cash_refunded business start old ≡ pos 0)
unfolding Reverses
refund_counted business start now cash old new (paid, gone, i, b, t, m, a, at_now, c) mine later = (
  rw (b, gone, at_now, c, mine, later) refl,
  rw ((paid_counted old.payment_status paid).1, mine) refl,
)

drop_same : (a b : ℤ) → a -ℤ b +ℤ b ≡ a
drop_same a b = grind int_laws

add_to_none : (a b : ℤ) → a -ℤ pos 0 +ℤ b ≡ a +ℤ b
add_to_none a b = grind int_laws

less_cash : (a b r c : ℤ) → a +ℤ b -ℤ (r +ℤ c) ≡ a +ℤ b -ℤ r -ℤ c
less_cash a b r c = grind int_laws

legacy_total :
    (s now k : ℕ) (amount cash paid_out : ℤ) (p : PosOrder → Bool) (old new : PosOrder)
    (orders : List PosOrder) (xs : List Allocation)
    → find p orders ≡ some old
    → Reverses now cash old new
    → total (legacy_cash s (flag_pay_by_link k amount paid_out xs)) (replace_first p new orders)
      ≡ total (legacy_cash s xs) orders
legacy_total s now k amount cash paid_out p old new orders xs f r =
    total_same _ _ _ (λ o. rw (flagged_owners o.id k amount paid_out xs) refl)
    ∙ total-replace_first (legacy_cash s xs) p new old orders f
    ∙ rw (legacy_kept s now cash old new xs r) (drop_same _ _)

refunds_total :
    (business start now : ℕ) (cash : ℤ) (p : PosOrder → Bool) (old new : PosOrder)
    (orders : List PosOrder)
    → find p orders ≡ some old
    → Reverses now cash old new
    → (old.business_id == business) ≡ true
    → leb start now ≡ true
    → total (cash_refunded business start) (replace_first p new orders)
      ≡ total (cash_refunded business start) orders +ℤ cash
refunds_total business start now cash p old new orders f r mine later =
    let (now_counted, not_before) = refund_counted business start now cash old new r mine later in
    total-replace_first (cash_refunded business start) p new old orders f
    ∙ rw (now_counted, not_before) (add_to_none _ _)

reversal_cash_up :
    (business now k : ℕ) (amount cash paid_out : ℤ) (old new : PosOrder) (t : TillSession)
    (db after : PosDb)
    → find (is_pos_order business k) db.orders ≡ some old
    → Reverses now cash old new
    → (old.business_id == business) ≡ true
    → leb t.opened_at now ≡ true
    → after.orders ≡ replace_first (is_pos_order business k) new db.orders
    → after.allocations ≡ flag_pay_by_link k amount paid_out db.allocations
    → expected_cash business t after ≡ expected_cash business t db -ℤ cash
unfolding expected_cash compute_expected_cash_cents
reversal_cash_up business now k amount cash paid_out old new t db after f r mine later rows flags =
    rw
      (
        rows,
        flags,
        flagged_cash t.id k amount paid_out db.allocations,
        legacy_total t.id now k amount cash paid_out _ old new db.orders db.allocations f r,
        refunds_total business t.opened_at now cash _ old new db.orders f r mine later,
      )
      (less_cash _ _ _ _)

found_mine :
    (business k : ℕ) (orders : List PosOrder) {o : PosOrder}
    → find (is_pos_order business k) orders ≡ some o
    → (o.business_id == business) ≡ true
found_mine business k orders {o} f =
    let h = find_sound (is_pos_order business k) orders f in ground arith

refunded_gone :
    (full : Bool)
    → is_reversed (if full then payment_refunded else payment_partially_refunded) ≡ true
refunded_gone true = refl
refunded_gone false = refl

refunded-Reverses :
    (now : ℕ) (amount cash : ℤ) (o : PosOrder)
    → is_payment_paid o.payment_status ≡ true
    → Reverses now cash o (refunded_order now amount cash o)
unfolding Reverses
refunded-Reverses now amount cash o paid =
    (paid, refunded_gone (eqb_ℤ amount o.total_cents), refl, refl, refl, refl, refl, refl, refl)

-- What a refund or a void pays out in cash is missing from what the cash-up expects: with a till
-- session opened no later than the reversal, the cash expected at its closing afterwards is the
-- cash expected before less the cash that the reversal records on the order.
pub reversal_reaches_cash_up :
    (now business by : ℕ) (inventory : Bool) (k : ℕ) (body : RefundBody) (db after : PosDb)
    (t : TillSession)
    → (refund_pos_order now business by inventory k body db ≡ done after)
      ⊎ (void_pos_order now business by inventory k db ≡ done after)
    → leb t.opened_at now ≡ true
    → (o : PosOrder) × (cash : ℤ) × (find (is_pos_order business k) after.orders ≡ some o)
      × (o.refund_cash_cents ≡ some cash)
      × (expected_cash business t after ≡ expected_cash business t db -ℤ cash)
unfolding Reverses
reversal_reaches_cash_up now business by inventory k body db after t (inl e) later =
    let (o, amount, cash, loaded, eq, fits, valid, portion, f, rows, flags) =
      refund_inv now business by inventory k body db after e in
    let (found, sold, paid) = load_found business k db o loaded in
    (
      _,
      cash,
      f,
      refl,
      reversal_cash_up business now k amount cash cash o _ t db after found
          (refunded-Reverses now amount cash o paid) (found_mine business k db.orders found) later
          rows flags,
    )
reversal_reaches_cash_up now business by inventory k body db after t (inr e) later =
    let (o, loaded, f, rows, flags) = void_inv now business by inventory k db after e in
    let (found, sold, paid) = load_found business k db o loaded in
    (
      _,
      _,
      f,
      refl,
      reversal_cash_up business now k _ _ _ o _ t db after found
          (paid, refl, refl, refl, refl, refl, refl, refl, refl)
          (found_mine business k db.orders found) later rows flags,
    )
