-- ===== src/Pos/Cash.antt =====
-- The money that a refund at the till records (backend/app/api/v1/routes_pos.py).
use nextgen_backend.Prelude.{
  ℕ, ◌≡◌, refl, Bool, true, false, ◌&&◌, ◌||◌, Option, none, some, List, [], ◌∷◌, arith, ◌==◌,
  if◌then◌else◌, find, find-All, All,
}
use nextgen_backend.Prelude.Int.{ℤ, pos, ◌≤ℤ◌, ◌+ℤ◌, int_laws}
use nextgen_backend.Prelude.Result.{done}
use nextgen_backend.Pos.{
  PosOrder, PosDb, RefundBody, Allocation, Tender, is_cash, is_split, allocated,
  compute_cash_portion, is_pos_order, split_cash_portion, refund_cash_portion, amount_or, below,
  refund_pos_order,
}
use nextgen_backend.Pos.Reversal.{load_found, refund_inv}

+ℤ_nonneg : (a b : ℤ) → pos 0 ≤ℤ a → pos 0 ≤ℤ b → pos 0 ≤ℤ a +ℤ b
+ℤ_nonneg a b p q = grind int_laws

counted_nonneg :
    (here : Bool) (a : Allocation)
    → pos 0 ≤ℤ a.amount_cents
    → pos 0 ≤ℤ (if here then a.amount_cents else pos 0)
counted_nonneg true a h = h
counted_nonneg false a h = omega arith

allocated_nonneg :
    (test : Tender → Bool) (k : ℕ) (xs : List Allocation)
    → All (λ a. pos 0 ≤ℤ a.amount_cents) xs
    → pos 0 ≤ℤ allocated test k xs
unfolding allocated
allocated_nonneg test k [] all = omega arith
allocated_nonneg test k (a ∷ xs) all =
    +ℤ_nonneg _ _ (counted_nonneg (a.order_id == k && test a.payment_method) a all.0)
      (allocated_nonneg test k xs all.1)

amount_or_nonneg :
    (asked : Option ℤ) (total : ℤ)
    → below (pos 1) asked ≡ false
    → pos 0 ≤ℤ total
    → pos 0 ≤ℤ amount_or asked total
amount_or_nonneg none total h t = t
amount_or_nonneg (some a) total h t = ground arith

cash_within :
    (o : PosOrder) (amount cash : ℤ) (asked : Option ℤ) (xs : List Allocation)
    → All (λ a. pos 0 ≤ℤ a.amount_cents) xs
    → pos 0 ≤ℤ amount
    → below (pos 0) asked ≡ false
    → refund_cash_portion o amount asked xs ≡ done cash
    → (pos 0 ≤ℤ cash) × (cash ≤ℤ amount)
unfolding refund_cash_portion split_cash_portion compute_cash_portion
cash_within o amount cash asked xs all a h e =
    let n = allocated_nonneg is_cash o.id xs all in ground arith

split_cash_within :
    (o : PosOrder) (amount cash : ℤ) (asked : Option ℤ) (xs : List Allocation)
    → is_split o.payment_method ≡ true
    → refund_cash_portion o amount asked xs ≡ done cash
    → cash ≤ℤ allocated is_cash o.id xs
unfolding refund_cash_portion split_cash_portion compute_cash_portion
split_cash_within o amount cash asked xs split e = ground arith

valid_parts : (a b : Bool) → (a || b) ≡ false → (a ≡ false) × (b ≡ false)
valid_parts a b h = ground arith

-- In a shop whose order totals and allocated amounts are not negative, a refund that goes through
-- records on the order an amount between nothing and the order's total, and a cash part between
-- nothing and that amount, which for an order paid in several ways is also at most the cash that
-- was taken for it.
pub refund_cash_bounded :
    (now business by : ℕ) (inventory : Bool) (k : ℕ) (body : RefundBody) (db after : PosDb)
    → All (λ o. pos 0 ≤ℤ o.total_cents) db.orders
    → All (λ a. pos 0 ≤ℤ a.amount_cents) db.allocations
    → refund_pos_order now business by inventory k body db ≡ done after
    → (o : PosOrder) × (amount : ℤ) × (cash : ℤ) × (find (is_pos_order business k) after.orders
        ≡ some o)
      × (o.refund_amount_cents ≡ some amount)
      × (o.refund_cash_cents ≡ some cash)
      × (pos 0 ≤ℤ amount)
      × (amount ≤ℤ o.total_cents)
      × (pos 0 ≤ℤ cash)
      × (cash ≤ℤ amount)
      × (is_split o.payment_method ≡ true → cash ≤ℤ allocated is_cash o.id db.allocations)
refund_cash_bounded now business by inventory k body db after totals all e =
    let (o, amount, cash, loaded, eq, fits, valid, portion, f, rows, flags) =
      refund_inv now business by inventory k body db after e in
    let ok = valid_parts _ _ valid in
    let total =
      find-All _ (is_pos_order business k) db.orders (load_found business k db o loaded).0 totals in
    let amount_ok : pos 0 ≤ℤ amount =
      rw eq (amount_or_nonneg body.amount_cents o.total_cents ok.0 total) in
    let within =
      cash_within o amount cash body.cash_refund_cents db.allocations all amount_ok ok.1 portion in
    (
      _,
      amount,
      cash,
      f,
      refl,
      refl,
      amount_ok,
      ground arith,
      within.0,
      within.1,
      λ split. split_cash_within o amount cash body.cash_refund_cents db.allocations split portion,
    )
