-- ===== src/Delivery/Staff.antt =====
-- The staff's answer to a platform order (backend/app/api/v1/routes_delivery.py, accept_order and
-- deny_order), and the row that a webhook inserts (backend/app/delivery/intake.py).
use nextgen_backend.Prelude.{
  ℕ, ◌+◌, Bool, true, false, not, Option, none, some, [], ◌∷◌, ◌++◌, if◌then◌else◌,
}
use nextgen_backend.Delivery.Types.{
  DeliveryStatus, DeliveryOrder, delivery_received, delivery_fetching, delivery_needs_mapping,
  delivery_ready_to_accept, DenyReason, Business, World, DeliveryDb,
}
use nextgen_backend.Delivery.Worker.{OrderKey, load_locked_row, write_row, get_business, issue_deny}

-- `reply_queued` carries `force_accept`.
pub data Reply : Type 0 where
  reply_not_found reply_not_enabled reply_not_acceptable reply_not_deniable reply_unavailable
        reply_server_error reply_denied :
      Reply
  reply_queued : Bool → Reply

-- _require_delivery_module_enabled
unfoldable pub module_refusal : Option Business → Option Reply
module_refusal none = some reply_not_found
module_refusal (some b) = if b.delivery_platforms_enabled then none else some reply_not_enabled

abbrev pub awaits_staff : DeliveryStatus → Bool
awaits_staff delivery_needs_mapping = true
awaits_staff delivery_ready_to_accept = true
awaits_staff _ = false

abbrev pub is_ready_to_accept : DeliveryStatus → Bool
is_ready_to_accept delivery_ready_to_accept = true
is_ready_to_accept _ = false

-- What the route finds: the row, or the refusal that it answers with.
unfoldable pub find_row :
    World → OrderKey → DeliveryDb → (DeliveryOrder → DeliveryDb × Reply) → DeliveryDb × Reply
find_row w k db f = elim (module_refusal (get_business k.business w.businesses)) [
  | some refusal ↦ (db, refusal)
  | none ↦ elim (load_locked_row k db) [ none ↦ (db, reply_not_found) | some row ↦ f row ]
]

abbrev put_row : OrderKey → DeliveryOrder → DeliveryDb → DeliveryDb
put_row k row db = record db { rows = write_row k row db.rows }

-- `has_pool` and `enqueues`: whether there is a queue, and whether it takes the job. A job that it
-- refuses leaves the row RECEIVED.
unfoldable pub accept_order : World → Bool → Bool → OrderKey → DeliveryDb → DeliveryDb × Reply
accept_order w has_pool enqueues k db = find_row w k db (λ row.
    if not (awaits_staff row.status)
    then (db, reply_not_acceptable)
    else if not has_pool
    then (db, reply_unavailable)
    else (
      put_row k (record row { status = delivery_received }) db,
      (if enqueues then reply_queued (is_ready_to_accept row.status) else reply_unavailable),
    ))

-- _OPEN_ORDER_STATUSES, and the statuses that the watchdog looks for.
abbrev pub is_open : DeliveryStatus → Bool
is_open delivery_received = true
is_open delivery_fetching = true
is_open delivery_needs_mapping = true
is_open delivery_ready_to_accept = true
is_open _ = false

unfoldable pub deny_order : World → DenyReason → OrderKey → DeliveryDb → DeliveryDb × Reply
deny_order w reason k db = find_row w k db (λ row.
    if not (is_open row.status) then (db, reply_not_deniable) else elim (issue_deny w reason row) [
      | none ↦ (db, reply_server_error)
      | some new ↦ (put_row k new db, reply_denied)
    ])

abbrev pub new_row : World → ℕ → OrderKey → ℕ → ℕ → DeliveryOrder
new_row w accept_seconds k connection event = record {
  business_id = k.business;
  provider = k.platform;
  external_order_id = k.external_id;
  delivery_connection_id = some connection;
  raw_event_id = some event;
  status = delivery_received;
  order_id = none;
  accept_deadline_at = some (w.now + accept_seconds);
  accepted_at = none;
  denied_at = none;
  cancelled_at = none;
  deny_reason_code = none;
  failure_reason = none;
  placed_at = none;
  gross_cents = none;
  fee_cents = none;
  unresolved_items = [];
}

-- _insert_delivery_order_idempotent: ON CONFLICT DO NOTHING.
unfoldable pub insert_delivery_order : World → ℕ → OrderKey → ℕ → ℕ → DeliveryDb → DeliveryDb
insert_delivery_order w accept_seconds k connection event db = elim (load_locked_row k db) [
  | some row ↦ db
  | none ↦ record db { rows = db.rows ++ new_row w accept_seconds k connection event ∷ [] }
]
