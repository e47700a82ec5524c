-- ===== src/Orders/Payments.antt =====
-- Money on an order: backend/app/api/v1/routes_payments.py (_amount_currency_ok,
-- _mark_order_paid), backend/app/api/v1/routes_orders.py (update_payment_status,
-- refund_order_payment) and backend/app/worker.py (cancel_unpaid_orders).
pub mod Confirmation
pub mod Refund
pub mod Timeout
use nextgen_backend.Prelude.{
  Text, same_text, ℕ, ◌+◌, ◌*◌, String, Bool, true, false, not, ◌&&◌, ◌||◌, Option, none, some,
  List, [], ◌∷◌, ◌++◌, leb, ◌==◌, if◌then◌else◌, find, is_some,
}
use nextgen_backend.Prelude.Int.{ℤ, pos, ltb_ℤ, eqb_ℤ}
use nextgen_backend.Prelude.Result.{Outcome, done, raised, ◌>>=◌, ◌>>◌, raise_when}
use nextgen_backend.Loyalty.{OrderRef, award_loyalty_points_if_enabled}
use nextgen_backend.Orders.{
  OrderStatus, status_cancelled, status_collected, status_delivered, PaymentStatus, payment_paid,
  payment_refunded, payment_partially_refunded, payment_pending, payment_failed, PaymentMethod,
  method_manual, Role, owner, manager, staff, AuthUser, Order, OrderEvent, AuditEvent, AuditAction,
  reverted_from_paid, manual_refund_confirmed, refund_attempted, Tables, OrderError, not_found,
  use_refund_endpoint, owner_or_manager_required, refund_already_recorded, order_not_paid,
  refund_exceeds_total, no_payment_provider, is_order_of, get_order, write_order, is_paid,
  is_unpaid, is_refund_or_void, change, status_in, reverse_consumption_on_cancel,
}

-- The code points of "ZAR".
abbrev pub zar : Text
zar = 90 ∷ 65 ∷ 82 ∷ []

-- `order.currency or "ZAR"`
abbrev pub expected_currency : Text → Text
expected_currency [] = zar
expected_currency (c ∷ cs) = c ∷ cs

-- An empty currency is none; `upper` is Python's str.upper.
abbrev pub currency_ok : (Text → Text) → Text → Option Text → Bool
currency_ok upper expected none = true
currency_ok upper expected (some []) = true
currency_ok upper expected (some (c ∷ cs)) =
    same_text (upper (c ∷ cs)) (upper (expected_currency expected))

unfoldable pub amount_currency_ok : (Text → Text) → Order → Option ℤ → Option Text → Bool
amount_currency_ok upper o amount currency =
    elim amount [ none ↦ true | some cents ↦ eqb_ℤ cents o.total_cents ]
    && currency_ok upper o.currency currency

abbrev pub order_ref : Order → OrderRef
order_ref o = record { id = some o.id; customer_id = o.customer_id; total_cents = o.total_cents }

-- `provider_reference and not order.payment_reference`: the first reference stays.
abbrev first_reference : Option String → Option String → Option String
first_reference none old = old
first_reference (some new) none = some new
first_reference (some new) (some old) = some old

abbrev pub confirmed : ℕ → Option String → Order → Order
confirmed now reference o = record o {
  payment_status = payment_paid;
  payment_reference = first_reference reference o.payment_reference;
  paid_at = some now;
}

-- The confirmation of a found order.
unfoldable pub confirm_payment :
    (Text → Text) → ℕ → ℕ → ℕ → Option String → Option ℤ → Option Text → Order → Tables → Tables
confirm_payment upper now business k reference amount currency o db =
    if is_paid o.payment_status || not (amount_currency_ok upper o amount currency)
    then db
    else record db {
      orders = write_order business k (confirmed now reference o) db.orders;
      events = db.events ++ change o.business_id o o.status o.status none ∷ [];
      loyalty = award_loyalty_points_if_enabled now business (order_ref o) db.loyalty;
    }

-- _mark_order_paid: an unknown order is logged and left.
unfoldable pub mark_order_paid :
    (Text → Text) → ℕ → ℕ → ℕ → Option String → Option ℤ → Option Text → Tables → Tables
mark_order_paid upper now business k reference amount currency db =
    elim (find (is_order_of business k) db.orders) [
      | none ↦ db
      | some o ↦ confirm_payment upper now business k reference amount currency o db
    ]

abbrev is_owner_or_manager : Role → Bool
is_owner_or_manager owner = true
is_owner_or_manager manager = true
is_owner_or_manager staff = false

abbrev or_else {ℓ} : {A : Type ℓ} → Option A → Option A → Option A
or_else none old = old
or_else (some new) old = some new

abbrev is_manual : Option PaymentMethod → Bool
is_manual (some method_manual) = true
is_manual _ = false

pub record PaymentUpdateRequest : Type 0 where
  pub payment_status : PaymentStatus
  pub payment_method : Option PaymentMethod
  pub payment_reference : Option String

abbrev pub audit : AuditAction → AuthUser → Order → AuditEvent
audit action user o = record {
  action = action;
  business_id = user.business_id;
  actor_user_id = some user.user_id;
  target_id = o.id;
}

unfoldable pub record_payment : ℕ → PaymentUpdateRequest → Order → Order
record_payment now body o = record o {
  payment_status = body.payment_status;
  payment_method = or_else body.payment_method o.payment_method;
  payment_reference = or_else body.payment_reference o.payment_reference;
  paid_at = if is_paid body.payment_status && not (is_some o.paid_at) then some now else o.paid_at;
}

unfoldable pub update_payment_status :
    ℕ → AuthUser → ℕ → PaymentUpdateRequest → Tables → Outcome OrderError Tables
update_payment_status now user k body db = do
  o ← get_order user.business_id k db
  raise_when (is_refund_or_void body.payment_status) use_refund_endpoint
  let reverts = is_paid o.payment_status && not (is_paid body.payment_status)
  raise_when (reverts && not (is_owner_or_manager user.role)) owner_or_manager_required
  let new = record_payment now body o
  done (record db {
    orders = write_order user.business_id k new db.orders;
    events =
        db.events
        ++ (if is_manual body.payment_method
            then change user.business_id o o.status o.status (some user.user_id) ∷ []
            else []);
    audits = db.audits ++ (if reverts then audit reverted_from_paid user o ∷ [] else []);
    loyalty =
        if is_paid body.payment_status && is_unpaid o.payment_status
        then award_loyalty_points_if_enabled now user.business_id (order_ref new) db.loyalty
        else db.loyalty;
  })

pub record RefundRequest : Type 0 where
  pub amount_cents : Option ℤ
  pub confirm_manual : Bool
  pub reference : Option String

-- What a payment provider answers to a refund.
pub record RefundResult : Type 0 where
  pub success : Bool
  pub is_completed : Bool
  pub provider_reference : Option String

-- `body.amount_cents or order.total_cents`
unfoldable pub refund_amount : Option ℤ → ℤ → ℤ
refund_amount none total = total
refund_amount (some cents) total = if eqb_ℤ cents (pos 0) then total else cents

abbrev pub is_refunded : PaymentStatus → Bool
is_refunded payment_refunded = true
is_refunded payment_partially_refunded = true
is_refunded _ = false

abbrev pub refunded : ℕ → PaymentStatus → ℤ → Option String → Order → Order
refunded now status cents reference o = record o {
  payment_status = status;
  refund_amount_cents = some cents;
  refund_reference = reference;
  refunded_at = some now;
}

-- The manual half of refund_order_payment.
unfoldable pub confirm_manual_refund :
    ℕ → AuthUser → ℕ → RefundRequest → Order → Tables → Outcome OrderError Tables
confirm_manual_refund now user k body o db = do
  raise_when (is_refunded o.payment_status) refund_already_recorded
  raise_when (not (is_paid o.payment_status)) order_not_paid
  let cents = refund_amount body.amount_cents o.total_cents
  raise_when (ltb_ℤ o.total_cents cents) refund_exceeds_total
  let status = if eqb_ℤ cents o.total_cents then payment_refunded else payment_partially_refunded
  done (record db {
    orders = write_order user.business_id k (refunded now status cents body.reference o) db.orders;
    events = db.events ++ change user.business_id o o.status o.status (some user.user_id) ∷ [];
    audits = db.audits ++ audit manual_refund_confirmed user o ∷ [];
  })

-- What a provider's answer does to the order: only a completed refund is recorded.
unfoldable pub after_provider : ℕ → ℤ → RefundResult → Order → Order
after_provider now cents answer o =
    if answer.success && answer.is_completed
    then refunded now payment_refunded cents answer.provider_reference o
    else o

-- The other half, which asks the provider: nothing where the business has none configured.
unfoldable pub provider_refund :
    Option (Order → ℤ → RefundResult)
    → ℕ
    → AuthUser
    → ℕ
    → RefundRequest
    → Order
    → Tables
    → Outcome OrderError Tables
provider_refund provider now user k body o db = do
  raise_when (not (is_paid o.payment_status)) order_not_paid
  let cents = refund_amount body.amount_cents o.total_cents
  raise_when (ltb_ℤ o.total_cents cents) refund_exceeds_total
  elim provider [
    | none ↦ raised no_payment_provider
    | some refund_payment ↦ done (record db {
      orders =
          write_order user.business_id k (after_provider now cents (refund_payment o cents) o)
            db.orders;
      audits = db.audits ++ audit refund_attempted user o ∷ [];
    })
  ]

unfoldable pub refund_order_payment :
    Option (Order → ℤ → RefundResult)
    → ℕ
    → AuthUser
    → ℕ
    → RefundRequest
    → Tables
    → Outcome OrderError Tables
refund_order_payment provider now user k body db = do
  o ← get_order user.business_id k db
  elim body.confirm_manual [
    | true ↦ confirm_manual_refund now user k body o db
    | false ↦ provider_refund provider now user k body o db
  ]

-- The rows that the payment-timeout job selects.
unfoldable pub timed_out : ℕ → ℕ → Order → Bool
timed_out now timeout o =
    o.payment_required
    && is_unpaid o.payment_status
    && not (status_in o.status (status_cancelled ∷ status_collected ∷ status_delivered ∷ []))
    && leb (o.created_at + timeout) now

-- One turn of the job's loop; `reason` is the text that names the timeout.
unfoldable pub cancel_unpaid_order : ℕ → Bool → String → Order → Tables → Tables
cancel_unpaid_order now inventory_enabled reason o db =
    let cancelled = record o {
      status = status_cancelled;
      payment_status = payment_failed;
      cancelled_reason = some reason;
    } in
    reverse_consumption_on_cancel now o.business_id inventory_enabled o.id o.status none
      (record db {
        orders = write_order o.business_id o.id cancelled db.orders;
        events = db.events ++ change o.business_id o o.status status_cancelled none ∷ [];
      })
