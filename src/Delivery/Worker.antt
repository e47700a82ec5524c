-- ===== src/Delivery/Worker.antt =====
-- What the worker does with a platform order that it has just received (backend/app/delivery/order_service.py) and the checks
-- of backend/app/delivery/entitlements.py. An error that nothing catches is `none`: the
-- transaction rolls back.
use nextgen_backend.Prelude.{
  ℕ, Bool, true, false, not, ◌&&◌, Option, none, some, List, [], ◌∷◌, ◌==◌, if◌then◌else◌, find,
}
use nextgen_backend.Prelude.Int.{pos, leb_ℤ}
use nextgen_backend.Prelude.OptionMonad.{◌>>=◌}
use nextgen_backend.Delivery.Types.{
  Provider, uber_eats, mr_d, generic, DeliveryOrder, delivery_received, delivery_fetching,
  delivery_needs_mapping, delivery_ready_to_accept, delivery_accepted, delivery_denied,
  delivery_failed, connected, Misconfiguration, connection_missing, env_mismatch, tenant_inactive,
  entitlement_off, connection_not_live, DenyReason, store_closed, pos_not_ready, pricing,
  misconfigured, fetch_failed, unpriceable, accept_call_failed, Connection, Business, WebhookEvent,
  CanonicalOrder, Call, answered, timed_out, provider_error, crashed, World, DeliveryDb,
}
use nextgen_backend.Delivery.Lines.{
  is_provider, resolve_delivery_lines, blocks_import, unresolved_names,
}
use nextgen_backend.Delivery.NewSale.{Booking, or_zero, create_order_from_canonical}

-- The unique key of a row.
pub record OrderKey : Type 0 where
  pub business : ℕ
  pub platform : Provider
  pub external_id : ℕ

abbrev pub is_row : OrderKey → DeliveryOrder → Bool
is_row k r =
    r.business_id == k.business
    && is_provider r.provider k.platform
    && r.external_order_id == k.external_id

unfoldable pub load_locked_row : OrderKey → DeliveryDb → Option DeliveryOrder
load_locked_row k db = find (is_row k) db.rows

-- The changed row is written back.
unfoldable pub write_row : OrderKey → DeliveryOrder → List DeliveryOrder → List DeliveryOrder
write_row k new [] = []
write_row k new (r ∷ rs) =
    let rest = write_row k new rs in if is_row k r then new ∷ rs else r ∷ rest

-- `db.get(Model, key) if key else None`
abbrev pub get_connection : Option ℕ → List Connection → Option Connection
get_connection none cs = none
get_connection (some k) cs = find (λ c. c.id == k) cs

abbrev pub get_event : Option ℕ → List WebhookEvent → Option WebhookEvent
get_event none es = none
get_event (some k) es = find (λ e. e.id == k) es

abbrev pub get_business : ℕ → List Business → Option Business
get_business k = find (λ b. b.id == k)

unfoldable pub is_provider_entitled : Business → Provider → Bool
is_provider_entitled business uber_eats =
    business.delivery_platforms_enabled && business.uber_eats_enabled
is_provider_entitled business mr_d = business.delivery_platforms_enabled && business.mrd_enabled
is_provider_entitled business generic = false

unfoldable pub is_connection_live : Connection → Bool
is_connection_live connection = elim connection.status [ connected ↦ true | _ ↦ false ]

-- `webhook_event and webhook_event.environment and webhook_event.environment != environment`
abbrev environment_differs : Option WebhookEvent → ℕ → Bool
environment_differs none environment = false
environment_differs (some event) environment = elim event.environment [
  | none ↦ false
  | some e ↦ not (e == environment)
]

abbrev tenant_problem : Connection → Business → Provider → Option Misconfiguration
tenant_problem connection business provider =
    if not business.is_active
    then some tenant_inactive
    else if not (is_provider_entitled business provider)
    then some entitlement_off
    else if not (is_connection_live connection)
    then some connection_not_live
    else none

unfoldable pub find_misconfiguration :
    Option Connection → Option Business → Option WebhookEvent → Provider → Option Misconfiguration
find_misconfiguration none business event provider = some connection_missing
find_misconfiguration (some connection) business event provider =
    if environment_differs event connection.environment then some env_mismatch else elim business [
      | none ↦ some tenant_inactive
      | some b ↦ tenant_problem connection b provider
    ]

-- registry.get_provider, which knows two platforms.
abbrev has_adapter : Provider → Bool
has_adapter generic = false
has_adapter _ = true

-- An answer of the platform, or an error that the caller logs: both let the deny stand.
abbrev deny_returns : Call (Unit {0}) → Bool
deny_returns crashed = false
deny_returns _ = true

unfoldable pub issue_deny : World → DenyReason → DeliveryOrder → Option DeliveryOrder
issue_deny w reason row =
    if has_adapter row.provider && deny_returns w.deny
    then some (record row {
      status = delivery_denied;
      denied_at = some w.now;
      deny_reason_code = some reason;
    })
    else none

-- What one run leaves: the row, the sale that it made, and whether it raised a timeout.
pub record Processed : Type 0 where
  pub row : DeliveryOrder
  pub booking : Option Booking
  pub retried : Bool

abbrev pub kept : DeliveryOrder → Processed
kept row = record { row = row; booking = none; retried = false }

abbrev pub denied : World → DenyReason → DeliveryOrder → Option Processed
denied w reason row = issue_deny w reason row >>= λ r. some (kept r)

-- After the sale is made the platform is told; where that call fails the sale stands.
unfoldable pub tell_platform : World → DeliveryOrder → Booking → Option Processed
tell_platform w row booking =
    let booked : DeliveryOrder = record row { order_id = some booking.sale.id } in
    elim w.accept [
      | answered _ ↦ some (record {
        row = record booked { status = delivery_accepted; accepted_at = some w.now };
        booking = some booking;
        retried = false;
      })
      | timed_out ↦ some (record {
        row = record booked { failure_reason = some accept_call_failed };
        booking = some booking;
        retried = false;
      })
      | provider_error ↦ some (record {
        row = record booked { failure_reason = some accept_call_failed };
        booking = some booking;
        retried = false;
      })
      | crashed ↦ none
    ]

-- The part of _handle_order after the price check: `row` is FETCHING.
unfoldable pub map_and_book :
    World → Connection → Business → Bool → CanonicalOrder → DeliveryOrder → Option Processed
map_and_book w connection business force_accept canonical row =
    let lines = resolve_delivery_lines w row.business_id row.provider canonical.lines in
    let booked =
      create_order_from_canonical w business row.provider canonical lines >>= tell_platform w row in
    if blocks_import lines
    then some (
        kept (record row {
          status = delivery_needs_mapping;
          unresolved_items = unresolved_names lines;
        }))
    else if not force_accept && not connection.auto_accept_enabled
    then some (kept (record row { status = delivery_ready_to_accept }))
    else booked

abbrev pub with_details : CanonicalOrder → DeliveryOrder → DeliveryOrder
with_details canonical row = record row {
  placed_at = canonical.placed_at;
  gross_cents = canonical.total_cents;
  fee_cents = canonical.fee_cents;
}

unfoldable pub after_fetch :
    World → Connection → Business → Bool → DeliveryOrder → CanonicalOrder → Option Processed
after_fetch w connection business force_accept row canonical =
    let known = with_details canonical row in
    let priced = map_and_book w connection business force_accept canonical known in
    if leb_ℤ (or_zero canonical.total_cents) (pos 0)
    then denied w pricing (record known { failure_reason = some unpriceable })
    else priced

unfoldable pub fetch_and_book :
    World → Connection → Business → Bool → DeliveryOrder → Option Processed
fetch_and_book w connection business force_accept row =
    let fetching : DeliveryOrder = record row { status = delivery_fetching } in
    elim w.fetch [
      | timed_out ↦ some (record {
        row = record fetching { status = delivery_received };
        booking = none;
        retried = true;
      })
      | provider_error ↦
          denied w pos_not_ready (record fetching { failure_reason = some fetch_failed })
      | crashed ↦ none
      | answered canonical ↦ after_fetch w connection business force_accept fetching canonical
    ]

-- _handle_order from the status check on; a connection and a business are there once no
-- misconfiguration is found.
unfoldable pub handle_row : World → Bool → DeliveryOrder → Option Processed
handle_row w force_accept row =
    let connection = get_connection row.delivery_connection_id w.connections in
    let business = get_business row.business_id w.businesses in
    let event = get_event row.raw_event_id w.webhook_events in
    elim (find_misconfiguration connection business event row.provider) [
      | some reason ↦
          denied w store_closed
            (record row { status = delivery_failed; failure_reason = some (misconfigured reason) })
      | none ↦ elim connection [
        | none ↦ none
        | some c ↦ elim business [ none ↦ none | some b ↦ fetch_and_book w c b force_accept row ]
      ]
    ]
