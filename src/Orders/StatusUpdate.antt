-- ===== src/Orders/StatusUpdate.antt =====
-- What a status update does to the tables (backend/app/api/v1/routes_orders.py,
-- update_order_status).
use nextgen_backend.Prelude.{
  ℕ, ◌≡◌, ap, ◌∙◌, Bool, true, not, ◌&&◌, Option, some, [], ◌∷◌, ◌++◌, arith, if◌then◌else◌, String,
}
use nextgen_backend.Prelude.Result.{done, raise_when, >>=-eq-done}
use nextgen_backend.Orders.{
  OrderStatus, status_in_progress, status_cancelled, order_status_transitions, status_in, is_status,
  AuthUser, Order, Tables, OrderError, StatusUpdateRequest, get_order, write_order, is_paid,
  reverse_consumption_on_cancel, milestones, await_payment, with_link, change, update_order_status,
}
use nextgen_backend.Orders.Rows.{Replaced, write_order-Replaced}

-- The row that a status update writes.
abbrev pub updated_row : ℕ → AuthUser → Option String → StatusUpdateRequest → Order → Order
updated_row now user link body o = with_link link body.status (
    await_payment body.status
      (milestones now user.user_id body body.status (record o { status = body.status })))

SameRow : Order → Order → Type 0
SameRow new o = (new.id ≡ o.id) × (new.business_id ≡ o.business_id) × (new.status ≡ o.status)

with_link-SameRow :
    (link : Option String) (requested : OrderStatus) (o : Order)
    → SameRow (with_link link requested o) o
unfolding SameRow
with_link-SameRow link requested o = ground arith

await_payment-SameRow :
    (requested : OrderStatus) (o : Order) → SameRow (await_payment requested o) o
unfolding SameRow await_payment
await_payment-SameRow requested o = ground arith

milestones-SameRow :
    (now user : ℕ) (body : StatusUpdateRequest) (requested : OrderStatus) (o : Order)
    → SameRow (milestones now user body requested o) o
unfolding SameRow milestones
milestones-SameRow now user body requested o = ground arith

updated_row-SameRow :
    (now : ℕ) (user : AuthUser) (link : Option String) (body : StatusUpdateRequest) (o : Order)
    → SameRow (updated_row now user link body o) (record o { status = body.status })
unfolding SameRow
updated_row-SameRow now user link body o =
    let moved = record o { status = body.status } in
    let a = milestones-SameRow now user.user_id body body.status moved in
    let marked = milestones now user.user_id body body.status moved in
    let b = await_payment-SameRow body.status marked in
    let c = with_link-SameRow link body.status (await_payment body.status marked) in
    (c.0 ∙ b.0 ∙ a.0, c.1 ∙ b.1 ∙ a.1, c.2 ∙ b.2 ∙ a.2)

gate :
    (cooking required paid : Bool) (e : OrderError)
    → raise_when (cooking && required && not paid) e ≡ done tt
    → cooking ≡ true
    → required ≡ true
    → paid ≡ true
gate cooking required paid e h = ground arith

allowed : (b : Bool) (e : OrderError) → raise_when (not b) e ≡ done tt → b ≡ true
allowed b e h = ground arith

-- The tables that the route writes.
abbrev pub written :
    ℕ → AuthUser → Bool → Option String → ℕ → StatusUpdateRequest → Order → Tables → Tables
written now user inventory link k body o db =
    let stocked =
      if is_status body.status status_cancelled
      then reverse_consumption_on_cancel now user.business_id inventory o.id o.status
          (some user.user_id) db
      else db in
    record stocked {
      orders = write_order user.business_id k (updated_row now user link body o) db.orders;
      events = db.events ++ change user.business_id o o.status body.status (some user.user_id) ∷ [];
    }

pub update_order_status-written :
    (now : ℕ) (user : AuthUser) (inventory : Bool) (link : Option String) (k : ℕ)
    (body : StatusUpdateRequest) (db after : Tables)
    → update_order_status now user inventory link k body db ≡ done after
    → (o : Order) × (get_order user.business_id k db ≡ done o)
      × (status_in body.status (order_status_transitions o.status) ≡ true)
      × (is_status body.status status_in_progress ≡ true
          → o.payment_required ≡ true
          → is_paid o.payment_status ≡ true)
      × (after ≡ written now user inventory link k body o db)
unfolding update_order_status
update_order_status-written now user inventory link k body db after e =
    let (o, found, e1) = >>=-eq-done (get_order user.business_id k db) _ e in
    let (_, legal, e2) =
      >>=-eq-done (raise_when (not (status_in body.status (order_status_transitions o.status))) _) _
        e1 in
    let (_, open_gate, e3) =
      >>=-eq-done
        (raise_when
          (is_status body.status status_in_progress
            && o.payment_required
            && not (is_paid o.payment_status))
          _)
        _ e2 in
    (
      o,
      found,
      allowed _ _ legal,
      gate (is_status body.status status_in_progress) o.payment_required (is_paid o.payment_status)
          _ open_gate,
      cc,
    )

-- An accepted status update found the order of that business, moves it along an allowed
-- transition and, into IN_PROGRESS, only with its required online payment PAID; the order then has
-- the requested status, every other order is as it was, and one event records the old and the new
-- status.
pub update_order_status-effect :
    (now : ℕ) (user : AuthUser) (inventory : Bool) (link : Option String) (k : ℕ)
    (body : StatusUpdateRequest) (db after : Tables)
    → update_order_status now user inventory link k body db ≡ done after
    → (o new : Order) × (get_order user.business_id k db ≡ done o)
      × (status_in body.status (order_status_transitions o.status) ≡ true)
      × (is_status body.status status_in_progress ≡ true
          → o.payment_required ≡ true
          → is_paid o.payment_status ≡ true)
      × Replaced user.business_id k new db after
      × (new.status ≡ body.status)
      × (after.events
          ≡ db.events ++ change user.business_id o o.status body.status (some user.user_id) ∷ [])
unfolding SameRow
update_order_status-effect now user inventory link k body db after e =
    let (o, found, legal, paid, made) =
      update_order_status-written now user inventory link k body db after e in
    let new = updated_row now user link body o in
    let same = updated_row-SameRow now user link body o in
    (
      o,
      new,
      found,
      legal,
      paid,
      write_order-Replaced user.business_id k o new db after found (same.0, same.1)
          (ap (λ t. t.orders) made),
      same.2,
      ap (λ t. t.events) made,
    )
