-- ===== src/Delivery/History.antt =====
-- Everything that happens to the platform orders, one event after another: webhooks, worker jobs in
-- any number and order, the staff's answers and the watchdog.
use nextgen_backend.Prelude.{ℕ, Bool, List, [], ◌∷◌}
use nextgen_backend.Delivery.{
  World, DeliveryDb, DenyReason, OrderKey, EventType, process_delivery_order, handle_cancellation,
  accept_order, deny_order, insert_delivery_order, watchdog,
}

pub data Event : Type 0 where
  webhook_order : World → ℕ → OrderKey → ℕ → ℕ → Event
  order_job : World → OrderKey → EventType → Bool → Event
  cancellation_job : World → OrderKey → Event
  staff_accept : World → Bool → Bool → OrderKey → Event
  staff_deny : World → DenyReason → OrderKey → Event
  watchdog_tick : World → ℕ → Event

unfoldable pub act : Event → DeliveryDb → DeliveryDb
act (webhook_order w seconds k connection event) db =
    insert_delivery_order w seconds k connection event db
act (order_job w k event force) db = (process_delivery_order w k event force db).0
act (cancellation_job w k) db = handle_cancellation w k db
act (staff_accept w has_pool enqueues k) db = (accept_order w has_pool enqueues k db).0
act (staff_deny w reason k) db = (deny_order w reason k db).0
act (watchdog_tick w grace) db = watchdog w grace db

unfoldable pub history : List Event → DeliveryDb → DeliveryDb
history [] db = db
history (e ∷ es) db = history es (act e db)

abbrev pub no_orders : DeliveryDb
no_orders = record { rows = []; sales = []; items = []; events = []; movements = [] }
