-- ===== src/Orders/OnlinePayment.antt =====
-- Accepting an order that is paid online (backend/app/api/v1/routes_orders.py,
-- update_order_status).
use nextgen_backend.Prelude.{ℕ, String, ◌≡◌, refl, sym, ap, ◌∙◌, Bool, true, Option, arith}
use nextgen_backend.Prelude.Result.{done, raised, done_inj}
use nextgen_backend.Orders.{
  status_accepted, status_in_progress, order_status_transitions, AuthUser, Order, payment_pending,
  Tables, StatusUpdateRequest, get_order, invalid_transition, milestones, await_payment, with_link,
  update_order_status,
}
use nextgen_backend.Orders.Rows.{write_order-Replaced}
use nextgen_backend.Orders.StatusUpdate.{update_order_status-written, updated_row}

pending_row :
    (now : ℕ) (user : AuthUser) (link : Option String) (body : StatusUpdateRequest) (o : Order)
    → o.payment_required ≡ true
    → let new = with_link link status_accepted (
        await_payment status_accepted (
          milestones now user.user_id body status_accepted
            (record o { status = status_accepted }))) in
      (new.payment_status ≡ payment_pending)
      × (new.payment_required ≡ true)
      × (new.status ≡ status_accepted)
      × (new.id ≡ o.id)
      × (new.business_id ≡ o.business_id)
unfolding milestones await_payment
pending_row now user link body o r = ground arith

accepted_row :
    (now : ℕ) (user : AuthUser) (link : Option String) (body : StatusUpdateRequest) (o : Order)
    → body.status ≡ status_accepted
    → o.payment_required ≡ true
    → let new = updated_row now user link body o in
      (new.payment_status ≡ payment_pending)
      × (new.payment_required ≡ true)
      × (new.status ≡ status_accepted)
      × (new.id ≡ o.id)
      × (new.business_id ≡ o.business_id)
accepted_row now user link body o a r =
    rw a (pending_row now user link (record body { status = status_accepted }) o r)

blocked :
    (now : ℕ) (user : AuthUser) (inventory : Bool) (link : Option String) (k : ℕ)
    (body : StatusUpdateRequest) (db : Tables) (o : Order)
    → get_order user.business_id k db ≡ done o
    → o.status ≡ status_accepted
    → o.payment_required ≡ true
    → o.payment_status ≡ payment_pending
    → body.status ≡ status_in_progress
    → update_order_status now user inventory link k body db
      ≡ raised (invalid_transition status_accepted status_in_progress)
unfolding update_order_status order_status_transitions
blocked now user inventory link k body db o found s r p c = rw (found, s, r, p, c) refl

-- Accepting an order that must be paid online leaves it PENDING, even where it was PAID before,
-- and the kitchen cannot start while that stands: every request for IN_PROGRESS is refused.
pub accepting_awaits_payment :
    (now : ℕ) (user : AuthUser) (inventory : Bool) (link : Option String) (k : ℕ)
    (body : StatusUpdateRequest) (db after : Tables) (o : Order)
    → get_order user.business_id k db ≡ done o
    → o.payment_required ≡ true
    → body.status ≡ status_accepted
    → update_order_status now user inventory link k body db ≡ done after
    → (new : Order) × (get_order user.business_id k after ≡ done new)
      × (new.payment_status ≡ payment_pending)
      × ((later : ℕ) (inventory' : Bool) (link' : Option String) (next : StatusUpdateRequest)
          → next.status ≡ status_in_progress
          → update_order_status later user inventory' link' k next after
            ≡ raised (invalid_transition status_accepted status_in_progress))
accepting_awaits_payment now user inventory link k body db after o found required accepts e =
    let (o', found', _, _, made) =
      update_order_status-written now user inventory link k body db after e in
    let same : o' ≡ o = done_inj (sym found' ∙ found) in
    let required' : o'.payment_required ≡ true = rw same required in
    let row = accepted_row now user link body o' accepts required' in
    let new = updated_row now user link body o' in
    let kept =
      write_order-Replaced user.business_id k o' new db after found' (row.3, row.4)
        (ap (λ t. t.orders) made) in
    (
      new,
      kept.0,
      row.0,
      λ later inventory' link' next starts.
          blocked later user inventory' link' k next after new kept.0 row.2 row.1 row.0 starts,
    )
