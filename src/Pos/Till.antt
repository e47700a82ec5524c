-- ===== src/Pos/Till.antt =====
-- The till: open_till, close_till and confirm_pos_order_provider_refund of
-- backend/app/api/v1/routes_pos.py.
use nextgen_backend.Prelude.{
  ℕ, Bool, true, false, not, ◌&&◌, leb, Option, none, some, List, [], ◌∷◌, ◌++◌, map, ◌==◌,
  if◌then◌else◌, find, exists, replace_first,
}
use nextgen_backend.Prelude.Int.{ℤ, pos, ◌+ℤ◌, ltb_ℤ}
use nextgen_backend.Prelude.Result.{Outcome, done, raised, ◌>>◌, raise_when}
use nextgen_backend.Orders.{
  PaymentStatus, payment_paid, payment_refunded, payment_partially_refunded, payment_voided,
}
use nextgen_backend.Pos.{
  PosOrder, PosDb, PosError, Allocation, TillSession, ProviderRefund, refund_pending_manual,
  refund_confirmed, invalid_request, till_already_open, till_session_not_found, till_already_closed,
  pos_order_not_found, no_pending_provider_refund, is_cash, is_pay_by_link, is_pos_order,
  compute_expected_cash_cents, compute_variance_cents,
}

unfoldable pub total {ℓ} : {A : Type ℓ} → (A → ℤ) → List A → ℤ
total f [] = pos 0
total f (x ∷ xs) = f x +ℤ total f xs

abbrev pub belongs : ℕ → Option ℕ → Bool
belongs s none = false
belongs s (some t) = t == s

abbrev pub is_reversed : PaymentStatus → Bool
is_reversed payment_refunded = true
is_reversed payment_partially_refunded = true
is_reversed payment_voided = true
is_reversed _ = false

abbrev pub was_paid : PaymentStatus → Bool
was_paid payment_paid = true
was_paid s = is_reversed s

abbrev pub happened_since : ℕ → Option ℕ → Bool
happened_since start none = false
happened_since start (some t) = leb start t

abbrev pub cents_or_zero : Option ℤ → ℤ
cents_or_zero none = pos 0
cents_or_zero (some a) = a

abbrev pub cash_taken : ℕ → Allocation → ℤ
cash_taken s a =
    if belongs s a.till_session_id && is_cash a.payment_method then a.amount_cents else pos 0

abbrev pub has_allocation : ℕ → List Allocation → Bool
has_allocation k = exists (λ a. a.order_id == k)

-- Cash sales of the time before orders had allocations.
abbrev pub legacy_cash : ℕ → List Allocation → PosOrder → ℤ
legacy_cash s allocations o =
    if belongs s o.till_session_id
      && is_cash o.payment_method
      && was_paid o.payment_status
      && not (has_allocation o.id allocations)
    then o.total_cents
    else pos 0

abbrev pub cash_refunded : ℕ → ℕ → PosOrder → ℤ
cash_refunded business start o =
    if o.business_id == business
      && is_reversed o.payment_status
      && happened_since start o.refunded_at
    then cents_or_zero o.refund_cash_cents
    else pos 0

-- What should lie in the drawer of a session.
unfoldable pub expected_cash : ℕ → TillSession → PosDb → ℤ
expected_cash business session db =
    compute_expected_cash_cents session.opening_float_cents
      (total (cash_taken session.id) db.allocations
        +ℤ total (legacy_cash session.id db.allocations) db.orders)
      (total (cash_refunded business session.opened_at) db.orders)

abbrev pub is_session : ℕ → ℕ → TillSession → Bool
is_session business s t = t.id == s && t.business_id == business

abbrev pub closed_session : (now by : ℕ) (expected counted : ℤ) → TillSession → TillSession
closed_session now by expected counted t = record t {
  till_open = false;
  closed_by_user_id = some by;
  closed_at = some now;
  expected_cash_cents = some expected;
  counted_cash_cents = some counted;
  variance_cents = some (compute_variance_cents expected counted);
}

abbrev pub new_till : (now business by key : ℕ) (float_cents : ℤ) → TillSession
new_till now business by key float_cents = record {
  id = key;
  business_id = business;
  opened_by_user_id = by;
  opened_at = now;
  opening_float_cents = float_cents;
  till_open = true;
  closed_by_user_id = none;
  closed_at = none;
  expected_cash_cents = none;
  counted_cash_cents = none;
  variance_cents = none;
}

unfoldable pub open_till :
    (now business by key : ℕ) (float_cents : ℤ) (db : PosDb) → Outcome PosError PosDb
open_till now business by key float_cents db =
    raise_when (ltb_ℤ float_cents (pos 0)) invalid_request
    >> raise_when (exists (λ t. t.business_id == business && t.till_open) db.tills)
        till_already_open
    >> done (record db { tills = db.tills ++ new_till now business by key float_cents ∷ [] })

unfoldable pub close_till :
    (now business by s : ℕ) (counted : ℤ) (db : PosDb) → Outcome PosError PosDb
close_till now business by s counted db =
    raise_when (ltb_ℤ counted (pos 0)) invalid_request
    >> elim (find (is_session business s) db.tills) [
      | none ↦ raised till_session_not_found
      | some t ↦
          if not t.till_open
          then raised till_already_closed
          else done (record db {
            tills =
                replace_first (is_session business s)
                  (closed_session now by (expected_cash business t db) counted t) db.tills;
          })
    ]

abbrev pub is_pending : Option ProviderRefund → Bool
is_pending (some refund_pending_manual) = true
is_pending _ = false

abbrev pub awaits_provider : ℕ → Allocation → Bool
awaits_provider k a =
    a.order_id == k && is_pay_by_link a.payment_method && is_pending a.provider_refund_status

unfoldable pub confirm_provider_refund : (business k : ℕ) (db : PosDb) → Outcome PosError PosDb
confirm_provider_refund business k db =
    raise_when (not (exists (is_pos_order business k) db.orders)) pos_order_not_found
    >> raise_when (not (exists (awaits_provider k) db.allocations)) no_pending_provider_refund
    >> done (record db {
      allocations =
          map
            (λ a.
              if awaits_provider k a
              then record a { provider_refund_status = some refund_confirmed }
              else a)
            db.allocations;
    })
