-- ===== src/Delivery/Jobs.antt =====
-- The worker's two jobs and their effect on the tables (backend/app/delivery/order_service.py,
-- process_delivery_order, _handle_order and _handle_cancellation).
use nextgen_backend.Prelude.{
  ℕ, Bool, true, false, not, Option, none, some, List, [], ◌∷◌, ◌++◌, ◌==◌, if◌then◌else◌, find,
}
use nextgen_backend.Orders.{status_cancelled, is_status}
use nextgen_backend.Delivery.Types.{
  DeliveryStatus, delivery_received, delivery_cancelled, delivery_denied, delivery_failed,
  SaleOrder, SaleEvent, World, DeliveryDb,
}
use nextgen_backend.Delivery.NewSale.{Booking}
use nextgen_backend.Delivery.Worker.{OrderKey, load_locked_row, write_row, Processed, handle_row}

abbrev pub is_received : DeliveryStatus → Bool
is_received delivery_received = true
is_received _ = false

abbrev pub add_booking : Option Booking → DeliveryDb → DeliveryDb
add_booking none db = db
add_booking (some b) db = record db {
  sales = db.sales ++ b.sale ∷ [];
  items = db.items ++ b.items;
  events = db.events ++ b.event ∷ [];
  movements = db.movements ++ b.movements;
}

unfoldable pub save : OrderKey → Processed → DeliveryDb → DeliveryDb
save k p db = add_booking p.booking (record db { rows = write_row k p.row db.rows })

-- Settled by a cancellation, which then changes nothing.
abbrev pub is_settled : DeliveryStatus → Bool
is_settled delivery_cancelled = true
is_settled delivery_denied = true
is_settled delivery_failed = true
is_settled _ = false

unfoldable pub cancel_sale : ℕ → List SaleOrder → List SaleOrder
cancel_sale k [] = []
cancel_sale k (s ∷ ss) =
    let rest = cancel_sale k ss in
    if s.id == k then record s { status = status_cancelled } ∷ ss else s ∷ rest

abbrev cancelled_event : ℕ → SaleOrder → SaleEvent
cancelled_event business sale = record {
  order_id = sale.id;
  business_id = business;
  old_status = some sale.status;
  new_status = status_cancelled;
}

unfoldable pub cancel_order : ℕ → Option ℕ → DeliveryDb → DeliveryDb
unfolding cancel_sale
cancel_order business none db = db
cancel_order business (some k) db = elim (find (λ s. s.id == k) db.sales) [
  | none ↦ db
  | some sale ↦ if is_status sale.status status_cancelled then db else record db {
    sales = cancel_sale k db.sales;
    events = db.events ++ cancelled_event business sale ∷ [];
  }
]

-- process_delivery_cancellation
unfoldable pub handle_cancellation : World → OrderKey → DeliveryDb → DeliveryDb
handle_cancellation w k db = elim (load_locked_row k db) [
  | none ↦ db
  | some row ↦
      if is_settled row.status
      then db
      else cancel_order k.business row.order_id (record db {
        rows =
            write_row k (record row { status = delivery_cancelled; cancelled_at = some w.now })
              db.rows;
      })
]

-- Whether `event_type` is orders.cancel or orders.failure.
pub data EventType : Type 0 where
  orders_cancel orders_failure other_event : EventType

abbrev pub is_cancel_event : EventType → Bool
is_cancel_event other_event = false
is_cancel_event _ = true

-- process_delivery_order: the tables, and whether the job asks to be retried.
unfoldable pub process_delivery_order :
    World → OrderKey → EventType → Bool → DeliveryDb → DeliveryDb × Bool
process_delivery_order w k event force_accept db =
    if is_cancel_event event
    then (handle_cancellation w k db, false)
    else elim (load_locked_row k db) [
      | none ↦ (db, false)
      | some row ↦
          if not (is_received row.status)
          then (db, false)
          else elim (handle_row w force_accept row) [
            | none ↦ (db, false)
            | some p ↦ (save k p db, p.retried)
          ]
    ]
