-- ===== src/Orders/Payments/Refund.antt =====
-- Refunds (backend/app/api/v1/routes_orders.py, refund_order_payment).
use nextgen_backend.Prelude.{
  ℕ, ◌≡◌, refl, sym, ap, ◌⊎◌, inl, inr, true, false, not, ◌&&◌, Option, none, some, arith,
  if◌then◌else◌, Bool-cases,
}
use nextgen_backend.Prelude.Int.{ℤ, ◌≤ℤ◌, ltb_ℤ, eqb_ℤ}
use nextgen_backend.Prelude.Result.{Outcome, done, raised, raise_when, >>=-eq-done, done_inj}
use nextgen_backend.Orders.{
  AuthUser, Order, payment_refunded, payment_partially_refunded, Tables, OrderError, get_order,
  write_order, is_paid, refund_exceeds_total, refund_already_recorded, order_not_paid,
}
use nextgen_backend.Orders.Rows.{Replaced, write_order-Replaced}
use nextgen_backend.Orders.Payments.{
  RefundRequest, RefundResult, refund_amount, refunded, confirm_manual_refund, after_provider,
  provider_refund, refund_order_payment, is_refunded,
}

-- The order records a refund of `cents`, which is at most its total, and is PAID no longer.
abbrev pub Recorded : ℤ → Order → Order → Type 0
Recorded cents o new =
    (new.refund_amount_cents ≡ some cents)
    × (cents ≤ℤ o.total_cents)
    × (is_paid new.payment_status ≡ false)

-- What a provider's answer does: a completed refund is recorded under the provider's reference, and
-- any other leaves the order as it was.
abbrev pub Answered : RefundResult → ℤ → Order → Order → Type 0
Answered answer cents o new =
    (((answer.success && answer.is_completed) ≡ true)
      × Recorded cents o new
      × (new.refund_reference ≡ answer.provider_reference))
    ⊎ (((answer.success && answer.is_completed) ≡ false) × (new ≡ o))

-- What an accepted refund leaves in the order, by hand or through the provider.
abbrev pub RefundRow : Option (Order → ℤ → RefundResult) → RefundRequest → Order → Order → Type 0
RefundRow provider body o new =
    let cents = refund_amount body.amount_cents o.total_cents in
    ((body.confirm_manual ≡ true) × Recorded cents o new)
    ⊎ ((body.confirm_manual ≡ false)
        × ((refund_payment : Order → ℤ → RefundResult) × (provider ≡ some refund_payment)
            × Answered (refund_payment o cents) cents o new))

abbrev Written : AuthUser → ℕ → Order → Order → Tables → Tables → Type 0
Written user k o new db after =
    (after.orders ≡ write_order user.business_id k new db.orders)
    × (new.id ≡ o.id)
    × (new.business_id ≡ o.business_id)

abbrev Refunded :
    Option (Order → ℤ → RefundResult)
    → AuthUser
    → ℕ
    → RefundRequest
    → Order
    → Tables
    → Tables
    → Type 0
Refunded provider user k body o db after =
    (is_paid o.payment_status ≡ true)
    × ((new : Order) × Written user k o new db after × RefundRow provider body o new)

manual :
    (provider : Option (Order → ℤ → RefundResult)) (now : ℕ) (user : AuthUser) (k : ℕ)
    (body : RefundRequest) (o : Order) (db after : Tables)
    → body.confirm_manual ≡ true
    → confirm_manual_refund now user k body o db ≡ done after
    → Refunded provider user k body o db after
unfolding confirm_manual_refund
manual provider now user k body o db after by_hand e =
    let (_, _, e1) = >>=-eq-done (raise_when (is_refunded o.payment_status) _) _ e in
    let (_, paid, e2) = >>=-eq-done (raise_when (not (is_paid o.payment_status)) _) _ e1 in
    let cents = refund_amount body.amount_cents o.total_cents in
    let (_, within, e3) = >>=-eq-done (raise_when (ltb_ℤ o.total_cents cents) _) _ e2 in
    let status =
      if eqb_ℤ cents o.total_cents then payment_refunded else payment_partially_refunded in
    let new = refunded now status cents body.reference o in
    (
      ground arith,
      (
        new,
        (ap (λ t. t.orders) (sym (done_inj e3)), refl, refl),
        inl (by_hand, (refl, ground arith, ground arith)),
      ),
    )

within_total :
    (cents total : ℤ)
    → ◌≡◌ {A = Outcome OrderError Unit}
        (raise_when (ltb_ℤ total cents) refund_exceeds_total)
        (done tt)
    → cents ≤ℤ total
within_total cents total e = ground arith

after_provider-Answered :
    (now : ℕ) (cents : ℤ) (answer : RefundResult) (o : Order)
    → cents ≤ℤ o.total_cents
    → let new = after_provider now cents answer o in
      (new.id ≡ o.id) × (new.business_id ≡ o.business_id) × Answered answer cents o new
unfolding after_provider
after_provider-Answered now cents answer o within =
    elim (Bool-cases (answer.success && answer.is_completed)) [
      | inl completed ↦ rw completed (refl, refl, inl (refl, (refl, within, refl), refl))
      | inr waiting ↦ rw waiting (refl, refl, inr (refl, refl))
    ]

by_provider :
    (provider : Option (Order → ℤ → RefundResult)) (now : ℕ) (user : AuthUser) (k : ℕ)
    (body : RefundRequest) (o : Order) (db after : Tables)
    → body.confirm_manual ≡ false
    → provider_refund provider now user k body o db ≡ done after
    → Refunded provider user k body o db after
unfolding provider_refund
by_provider none now user k body o db after asked e =
    let (_, paid, e1) = >>=-eq-done (raise_when (not (is_paid o.payment_status)) _) _ e in
    let cents = refund_amount body.amount_cents o.total_cents in
    let (_, within, e2) = >>=-eq-done (raise_when (ltb_ℤ o.total_cents cents) _) _ e1 in cc
by_provider (some refund_payment) now user k body o db after asked e =
    let (_, paid, e1) = >>=-eq-done (raise_when (not (is_paid o.payment_status)) _) _ e in
    let cents = refund_amount body.amount_cents o.total_cents in
    let (_, within, e2) = >>=-eq-done (raise_when (ltb_ℤ o.total_cents cents) _) _ e1 in
    let new = after_provider now cents (refund_payment o cents) o in
    let (id, business, answered) =
      after_provider-Answered now cents (refund_payment o cents) o
        (within_total cents o.total_cents within) in
    (
      ground arith,
      (
        new,
        (ap (λ t. t.orders) (sym (done_inj e2)), id, business),
        inr (asked, (refund_payment, refl, answered)),
      ),
    )

-- An accepted refund was of an order of that business that was PAID, and other orders stay as they
-- are. A manual confirmation records a refund of the amount asked for, which is at most the order's
-- total, and the order is PAID no longer; through the provider the same holds where the provider
-- completed the refund, and else the order is left as it was.
pub refund_bounded :
    (provider : Option (Order → ℤ → RefundResult)) (now : ℕ) (user : AuthUser) (k : ℕ)
    (body : RefundRequest) (db after : Tables)
    → refund_order_payment provider now user k body db ≡ done after
    → (o new : Order) × (get_order user.business_id k db ≡ done o)
      × (is_paid o.payment_status ≡ true)
      × Replaced user.business_id k new db after
      × RefundRow provider body o new
unfolding refund_order_payment
refund_bounded provider now user k body db after e =
    let (o, found, e1) = >>=-eq-done (get_order user.business_id k db) _ e in
    let made : Refunded provider user k body o db after = elim (Bool-cases body.confirm_manual) [
      | inl by_hand ↦ manual provider now user k body o db after by_hand (rw by_hand at e1)
      | inr asked ↦ by_provider provider now user k body o db after asked (rw asked at e1)
    ] in
    let (paid, (new, (written, id, business), row)) = made in
    (
      o,
      new,
      found,
      paid,
      write_order-Replaced user.business_id k o new db after found (id, business) written,
      row,
    )

-- No money goes back twice: an order that is not PAID, as after a recorded refund, has every
-- request for a refund refused, whoever asks and whatever the provider would answer.
pub unpaid_refund_refused :
    (provider : Option (Order → ℤ → RefundResult)) (now : ℕ) (user : AuthUser) (k : ℕ)
    (body : RefundRequest) (db : Tables) (o : Order)
    → get_order user.business_id k db ≡ done o
    → is_paid o.payment_status ≡ false
    → (error : OrderError) × (refund_order_payment provider now user k body db ≡ raised error)
unfolding refund_order_payment confirm_manual_refund provider_refund
unpaid_refund_refused provider now user k body db o found unpaid =
    elim (Bool-cases body.confirm_manual) [
      | inl by_hand ↦ elim (Bool-cases (is_refunded o.payment_status)) [
        | inl already ↦ (refund_already_recorded, rw (found, by_hand, already) refl)
        | inr fresh ↦ (order_not_paid, rw (found, by_hand, fresh, unpaid) refl)
      ]
      | inr asked ↦ (order_not_paid, rw (found, asked, unpaid) refl)
    ]
