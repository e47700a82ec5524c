-- ===== src/Orders/Payments/Confirmation.antt =====
-- Webhook confirmations (backend/app/api/v1/routes_payments.py, _mark_order_paid).
use nextgen_backend.Prelude.{
  Text, ℕ, String, ◌≡◌, refl, ap, ◌∙◌, ◌≢◌, ◌⊎◌, inl, inr, true, false, Option, some, arith,
  Bool-cases,
}
use nextgen_backend.Prelude.Int.{ℤ, eq_of_parts}
use nextgen_backend.Prelude.Result.{done}
use nextgen_backend.Orders.{Order, Tables, get_order, write_order, is_paid}
use nextgen_backend.Orders.Rows.{Replaced, write_order-Replaced, get_order_found}
use nextgen_backend.Loyalty.{award_loyalty_points_if_enabled}
use nextgen_backend.Orders.Payments.{
  order_ref, amount_currency_ok, confirmed, confirm_payment, mark_order_paid,
}

found_confirms :
    (upper : Text → Text) (now business k : ℕ) (reference : Option String) (amount : Option ℤ)
    (currency : Option Text) (o : Order) (db : Tables)
    → get_order business k db ≡ done o
    → mark_order_paid upper now business k reference amount currency db
      ≡ confirm_payment upper now business k reference amount currency o db
unfolding mark_order_paid
found_confirms upper now business k reference amount currency o db found =
    rw (mark_order_paid, get_order_found business k o db found) refl

paid_stays :
    (upper : Text → Text) (now business k : ℕ) (reference : Option String) (amount : Option ℤ)
    (currency : Option Text) (o : Order) (db : Tables)
    → is_paid o.payment_status ≡ true
    → confirm_payment upper now business k reference amount currency o db ≡ db
unfolding confirm_payment
paid_stays upper now business k reference amount currency o db paid = rw paid refl

confirm_writes :
    (upper : Text → Text) (now business k : ℕ) (reference : Option String) (amount : Option ℤ)
    (currency : Option Text) (o : Order) (db : Tables)
    → is_paid o.payment_status ≡ false
    → amount_currency_ok upper o amount currency ≡ true
    → (confirm_payment upper now business k reference amount currency o db).orders
      ≡ write_order business k (confirmed now reference o) db.orders
unfolding confirm_payment
confirm_writes upper now business k reference amount currency o db unpaid agrees =
    rw (unpaid, agrees) refl

then_ignored :
    (upper : Text → Text) (later business k : ℕ) (reference : Option String) (amount : Option ℤ)
    (currency' : Option Text) (new : Order) (after : Tables)
    → get_order business k after ≡ done new
    → is_paid new.payment_status ≡ true
    → mark_order_paid upper later business k reference amount currency' after ≡ after
then_ignored upper later business k reference amount currency' new after found paid =
    found_confirms upper later business k reference amount currency' new after found
    ∙ paid_stays upper later business k reference amount currency' new after paid

confirm_awards :
    (upper : Text → Text) (now business k : ℕ) (reference : Option String) (amount : Option ℤ)
    (currency : Option Text) (o : Order) (db : Tables)
    → is_paid o.payment_status ≡ false
    → amount_currency_ok upper o amount currency ≡ true
    → (confirm_payment upper now business k reference amount currency o db).loyalty
      ≡ award_loyalty_points_if_enabled now business (order_ref o) db.loyalty
unfolding confirm_payment
confirm_awards upper now business k reference amount currency o db unpaid agrees =
    rw (unpaid, agrees) refl

-- What a confirmation does to the points: nothing where the order was PAID before, when no table
-- changes at all, and else the award for that order.
abbrev pub Awarded : ℕ → ℕ → Order → Tables → Tables → Type 0
Awarded now business o db after =
    ((is_paid o.payment_status ≡ true) × (after ≡ db))
    ⊎ ((is_paid o.payment_status ≡ false)
        × (after.loyalty ≡ award_loyalty_points_if_enabled now business (order_ref o) db.loyalty))

-- A confirmation whose amount and currency agree with the order leaves it PAID and every other
-- order alone. Where the order was not PAID before, its points are awarded; where it was, no table
-- changes. A confirmation for that order that comes next, whatever it carries, changes no table, so
-- that a repeated one awards nothing.
pub payment_confirmed_once :
    (upper : Text → Text) (now business k : ℕ) (reference : Option String) (amount : Option ℤ)
    (currency : Option Text) (db : Tables) (o : Order)
    → get_order business k db ≡ done o
    → amount_currency_ok upper o amount currency ≡ true
    → let after = mark_order_paid upper now business k reference amount currency db in
      (new : Order) × Replaced business k new db after
      × (is_paid new.payment_status ≡ true)
      × Awarded now business o db after
      × ((later : ℕ) (reference' : Option String) (amount' : Option ℤ) (currency' : Option Text)
          → mark_order_paid upper later business k reference' amount' currency' after ≡ after)
payment_confirmed_once upper now business k reference amount currency db o found agrees =
    let same = found_confirms upper now business k reference amount currency o db found in
    elim (Bool-cases (is_paid o.payment_status)) [
      | inl paid ↦
          let idle = same ∙ paid_stays upper now business k reference amount currency o db paid in
          (
            o,
            (ap (get_order business k) idle ∙ found, λ b' k' other. ap (get_order b' k') idle),
            paid,
            inl (paid, idle),
            λ later reference' amount' currency'.
                then_ignored upper later business k reference' amount' currency' o
                  (mark_order_paid upper now business k reference amount currency db)
                  (ap (get_order business k) idle ∙ found) paid,
          )
      | inr unpaid ↦
          let new = confirmed now reference o in
          let after = mark_order_paid upper now business k reference amount currency db in
          let kept =
            write_order-Replaced business k o new db after found (refl, refl)
              (ap (λ t. t.orders) same
                ∙ confirm_writes upper now business k reference amount currency o db unpaid
                    agrees) in
          (
            new,
            kept,
            refl,
            inr (
              unpaid,
              ap (λ t. t.loyalty) same
                  ∙ confirm_awards upper now business k reference amount currency o db unpaid
                      agrees,
            ),
            λ later reference' amount' currency'.
                then_ignored upper later business k reference' amount' currency' new after kept.0
                  refl,
          )
    ]

-- A confirmation for another amount than the order's total changes no table.
pub wrong_amount_ignored :
    (upper : Text → Text) (now business k : ℕ) (reference : Option String) (cents : ℤ)
    (currency : Option Text) (db : Tables) (o : Order)
    → get_order business k db ≡ done o
    → cents ≢ o.total_cents
    → mark_order_paid upper now business k reference (some cents) currency db ≡ db
unfolding confirm_payment amount_currency_ok
wrong_amount_ignored upper now business k reference cents currency db o found differs =
    found_confirms upper now business k reference (some cents) currency o db found
    ∙ ground (arith, eq_of_parts cents o.total_cents)
