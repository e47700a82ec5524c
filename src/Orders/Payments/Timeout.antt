-- ===== src/Orders/Payments/Timeout.antt =====
-- The payment timeout (backend/app/worker.py, cancel_unpaid_orders).
use nextgen_backend.Prelude.{ℕ, ◌≡◌, refl, ◌∙◌, Bool, false, Option, none, some, arith, String}
use nextgen_backend.Prelude.Result.{done}
use nextgen_backend.Orders.{
  Order, OrderStatus, status_cancelled, payment_failed, Tables, get_order,
  reverse_consumption_on_cancel,
}
use nextgen_backend.Orders.Rows.{Replaced, write_order-Replaced, get_order_mine}
use nextgen_backend.Orders.Payments.{timed_out, cancel_unpaid_order}

keeps_orders :
    (now business : ℕ) (inventory : Bool) (k : ℕ) (previous : OrderStatus) (by : Option ℕ)
    (db : Tables)
    → (reverse_consumption_on_cancel now business inventory k previous by db).orders ≡ db.orders
unfolding reverse_consumption_on_cancel
keeps_orders now business inventory k previous by db = ground arith

-- An order that the job cancels ends CANCELLED with its payment FAILED, every other order is as it
-- was, and no later run of the job selects it again, under any timeout.
pub timeout_cancels_once :
    (now : ℕ) (inventory : Bool) (reason : String) (business k : ℕ) (o : Order) (db : Tables)
    → get_order business k db ≡ done o
    → (new : Order) × Replaced business k new db (cancel_unpaid_order now inventory reason o db)
      × (new.status ≡ status_cancelled)
      × (new.payment_status ≡ payment_failed)
      × ((later timeout : ℕ) → timed_out later timeout new ≡ false)
unfolding cancel_unpaid_order timed_out
timeout_cancels_once now inventory reason business k o db found =
    let new = record o {
      status = status_cancelled;
      payment_status = payment_failed;
      cancelled_reason = some reason;
    } in
    let ids = get_order_mine business k o db found in
    (
      new,
      write_order-Replaced business k o new db (cancel_unpaid_order now inventory reason o db) found
          (refl, refl)
          (keeps_orders now o.business_id inventory o.id o.status none _ ∙ rw (ids.0, ids.1) refl),
      refl,
      refl,
      λ later timeout. ground arith,
    )
