-- ===== src/Orders.antt =====
-- The life of an order: backend/app/api/v1/routes_orders.py (status, payment and refund routes),
-- backend/app/api/v1/routes_payments.py (the provider webhooks' confirmation),
-- backend/app/inventory/cancellation.py and backend/app/worker.py (the payment timeout). `now` is
-- the clock, in microseconds. Messages to customers and screens are not modelled.
mod Types
pub mod Lifecycle
pub mod Rows
pub mod StatusUpdate
pub mod Cancellation
pub mod OnlinePayment
pub mod DeliveryFee
mod Examples
pub mod Payments
unfoldable pub use Types.*
use nextgen_backend.Prelude.{
  ℕ, ◌+◌, ◌*◌, String, Bool, true, false, not, ◌&&◌, ◌||◌, Option, none, some, List, [], ◌∷◌, ◌++◌,
  ltb, ◌==◌, if◌then◌else◌, find, is_some,
}
use nextgen_backend.Prelude.Int.{ℤ, pos, ◌+ℤ◌, ◌-ℤ◌, ltb_ℤ, eqb_ℤ, max_ℤ}
use nextgen_backend.Prelude.Result.{Outcome, done, raised, ◌>>=◌, ◌>>◌, raise_when}
use nextgen_backend.Inventory.Ledger.{Movement, reverse_sale_consumption}
use nextgen_backend.Loyalty.{OrderRef, award_loyalty_points_if_enabled}

abbrev pub is_order_of : ℕ → ℕ → Order → Bool
is_order_of business k o = o.id == k && o.business_id == business

unfoldable pub get_order : ℕ → ℕ → Tables → Outcome OrderError Order
get_order business k db = elim (find (is_order_of business k) db.orders) [
  | none ↦ raised not_found
  | some o ↦ done o
]

-- The changed row is written back.
pub write_order : ℕ → ℕ → Order → List Order → List Order
write_order business k new [] = []
write_order business k new (o ∷ os) =
    if is_order_of business k o then new ∷ os else o ∷ write_order business k new os

abbrev pub is_paid : PaymentStatus → Bool
is_paid payment_paid = true
is_paid _ = false

abbrev pub is_unpaid : PaymentStatus → Bool
is_unpaid payment_unpaid = true
is_unpaid payment_pending = true
is_unpaid _ = false

abbrev pub is_refund_or_void : PaymentStatus → Bool
is_refund_or_void payment_refunded = true
is_refund_or_void payment_partially_refunded = true
is_refund_or_void payment_voided = true
is_refund_or_void _ = false

abbrev pub pre_preparation : OrderStatus → Bool
pre_preparation status_pending_delivery_fee = true
pre_preparation status_fee_sent = true
pre_preparation status_new = true
pre_preparation status_accepted = true
pre_preparation _ = false

unfoldable pub reverse_consumption_on_cancel :
    ℕ → ℕ → Bool → ℕ → OrderStatus → Option ℕ → Tables → Tables
reverse_consumption_on_cancel now business inventory_enabled order previous by db =
    if not inventory_enabled
    then db
    else if pre_preparation previous
    then record db {
      movements =
          (reverse_sale_consumption now business order by
            (some "Order cancelled before preparation started") db.movements).1;
    }
    else record db {
      audits =
          db.audits
          ++ record {
            action = stock_kept_consumed;
            business_id = business;
            actor_user_id = by;
            target_id = order;
          }
            ∷ [];
    }

pub record StatusUpdateRequest : Type 0 where
  pub status : OrderStatus
  pub reason : Option String
  pub estimated_ready_minutes : Option ℕ

abbrev microseconds_per_minute : ℕ
microseconds_per_minute = 60_000_000

-- The milestone fields of an order that reaches a status.
unfoldable pub milestones : ℕ → ℕ → StatusUpdateRequest → OrderStatus → Order → Order
milestones now user body status_accepted o = record o {
  accepted_at = some now;
  estimated_ready_at = elim body.estimated_ready_minutes [
    | none ↦ o.estimated_ready_at
    | some minutes ↦
        if minutes == 0
        then o.estimated_ready_at
        else some (now + minutes * microseconds_per_minute)
  ];
}
milestones now user body status_ready o = record o { ready_at = some now }
milestones now user body status_collected o = record o { completed_at = some now }
milestones now user body status_delivered o = record o { completed_at = some now }
milestones now user body status_cancelled o = record o {
  cancelled_reason = body.reason;
  cancelled_by_user_id = some user;
}
milestones now user body _ o = o

-- Accepting an order that is paid online starts the wait for the payment.
unfoldable pub await_payment : OrderStatus → Order → Order
await_payment requested o =
    if is_status requested status_accepted && o.payment_required
    then record o { payment_status = payment_pending }
    else o

-- The link that the business's payment provider may give is stored, where there is one.
abbrev pub with_link : Option String → OrderStatus → Order → Order
with_link none requested o = o
with_link (some url) requested o =
    if is_status requested status_accepted && o.payment_required
    then record o { payment_link_url = some url }
    else o

abbrev pub change : ℕ → Order → OrderStatus → OrderStatus → Option ℕ → OrderEvent
change business o old new by = record {
  order_id = o.id;
  business_id = business;
  old_status = old;
  new_status = new;
  changed_by_user_id = by;
}

-- `link` is what the provider's create_payment_link returned: nothing where it failed.
unfoldable pub update_order_status :
    ℕ
    → AuthUser
    → Bool
    → Option String
    → ℕ
    → StatusUpdateRequest
    → Tables
    → Outcome OrderError Tables
update_order_status now user inventory_enabled link k body db = do
  o ← get_order user.business_id k db
  let requested = body.status
  raise_when (not (status_in requested (order_status_transitions o.status)))
      (invalid_transition o.status requested)
  raise_when
      (is_status requested status_in_progress
        && o.payment_required
        && not (is_paid o.payment_status))
      (invalid_transition o.status requested)
  let moved = milestones now user.user_id body requested (record o { status = requested })
  let stocked =
      if is_status requested status_cancelled
      then reverse_consumption_on_cancel now user.business_id inventory_enabled o.id o.status
          (some user.user_id) db
      else db
  done (record stocked {
    orders =
        write_order user.business_id k (with_link link requested (await_payment requested moved))
          db.orders;
    events = db.events ++ change user.business_id o o.status requested (some user.user_id) ∷ [];
  })
