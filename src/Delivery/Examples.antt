-- ===== src/Delivery/Examples.antt =====
-- Runs on order 900 of one platform, whose single line is mapped to the menu item 10 of business 1.
use nextgen_backend.Prelude.{ℕ, ◌≡◌, refl, true, false, none, some, List, [], ◌∷◌, arith}
use nextgen_backend.Prelude.Int.{pos, ◌*ℤ◌}
use nextgen_backend.Orders.{status_accepted}
use nextgen_backend.Delivery.{
  Connection, Business, uber_eats, item_mapping, Casing, connected, CanonicalLine, CanonicalOrder,
  Call, answered, provider_error, World, DeliveryOrder, accept_call_failed, other_reason,
  delivery_denied, delivery_accepted, OrderKey, other_event, is_provider_entitled,
  is_connection_live, find_misconfiguration, issue_deny, mapping_of, entry_by_id, entry_by_name,
  resolve_modifiers, item_of, resolve_line, resolve_delivery_lines, blocks_import, sale_of,
  sale_items, consume, create_order_from_canonical, Booking, Processed, tell_platform, map_and_book,
  after_fetch, fetch_and_book, handle_row, load_locked_row, write_row, save, process_delivery_order,
  handle_cancellation, cancel_order, insert_delivery_order, watchdog, is_due, first_deadline,
  deny_one, deny_earliest, deny_batch, new_row, ResolvedLine, get_connection, get_business,
  get_event,
}
use nextgen_backend.Delivery.Sale.{Earned, handle_row-Earned}
use nextgen_backend.Delivery.History.{
  Event, webhook_order, order_job, cancellation_job, watchdog_tick, act, history, no_orders,
}
use nextgen_backend.Delivery.Soundness.{IsSound}
use nextgen_backend.Delivery.EveryHistory.{history-IsSound}
use nextgen_backend.Delivery.Deadline.{overdue, watchdog_settles}
use nextgen_backend.Delivery.Denials.{Rows, Settled, watchdog_ticks}

abbrev plain : Casing
plain = record { lower = λ t. t; is_space = λ c. false }

abbrev line : CanonicalLine
line = record {
  external_item_id = some 7;
  title = [];
  quantity = pos 2;
  unit_price_cents = some (pos 5_000);
  modifiers = [];
}

abbrev fetched_order : CanonicalOrder
fetched_order = record {
  external_order_id = 900;
  lines = line ∷ [];
  placed_at = none;
  fee_cents = none;
  total_cents = some (pos 10_000);
}

abbrev cafe : Business
cafe = record {
  id = 1;
  is_active = true;
  delivery_platforms_enabled = true;
  uber_eats_enabled = true;
  mrd_enabled = false;
  vat_registered = false;
  vat_rate_basis_points = pos 0;
  inventory_enabled = false;
}

abbrev world : ℕ → Call (Unit {0}) → World
world now accept = record {
  now = now;
  casing = plain;
  connections =
      record { id = 4; status = connected; environment = 1; auto_accept_enabled = true } ∷ [];
  businesses = cafe ∷ [];
  webhook_events = [];
  mappings =
      record {
        business_id = 1;
        platform = uber_eats;
        kind = item_mapping;
        external_id = some 7;
        is_ignored = false;
        menu_item_id = some 10;
        menu_add_on_id = none;
      }
      ∷ [];
  menu_items = record { id = 10; business_id = 1; name = []; is_deleted = false } ∷ [];
  add_ons = [];
  recipes = [];
  ingredients = [];
  fetch = answered fetched_order;
  accept = accept;
  deny = answered tt;
  new_order_id = 500;
  insert_fails = false;
}

abbrev key : OrderKey
key = record { business = 1; platform = uber_eats; external_id = 900 }

abbrev received : DeliveryOrder
received = new_row (world 1_000 (answered tt)) 600 key 4 0

abbrev resolved : ResolvedLine
resolved = record {
  canonical = line;
  menu_item_id = some 10;
  menu_item_name = [];
  add_on_ids = [];
  unresolved = [];
  is_ignored = false;
}

abbrev booking : Booking
booking = record {
  sale = sale_of (world 1_000 (answered tt)) cafe uber_eats fetched_order;
  items = sale_items 500 1 (resolved ∷ []);
  event = record {
    order_id = 500;
    business_id = 1;
    old_status = none;
    new_status = status_accepted;
  };
  movements = [];
}

abbrev accepted : Processed
accepted = record {
  row = record received {
    gross_cents = some (pos 10_000);
    status = delivery_accepted;
    accepted_at = some 1_000;
    order_id = some 500;
  };
  booking = some booking;
  retried = false;
}

lines_found :
    resolve_delivery_lines (world 1_000 (answered tt)) 1 uber_eats (line ∷ []) ≡ resolved ∷ []
unfolding resolve_delivery_lines resolve_line item_of resolve_modifiers mapping_of entry_by_id
    entry_by_name
lines_found = refl

run : handle_row (world 1_000 (answered tt)) false received ≡ some accepted
unfolding handle_row fetch_and_book after_fetch map_and_book tell_platform issue_deny
    create_order_from_canonical consume sale_of sale_items resolve_delivery_lines resolve_line
    item_of resolve_modifiers mapping_of entry_by_id entry_by_name blocks_import
    find_misconfiguration is_provider_entitled is_connection_live ◌*ℤ◌
run = refl

handle_row-Earned_example :
    (connection : Connection) × (business : Business) × (get_connection
        received.delivery_connection_id
        (world 1_000 (answered tt)).connections
      ≡ some connection)
    × (get_business 1 (world 1_000 (answered tt)).businesses ≡ some business)
    × Earned (world 1_000 (answered tt)) connection business false 1 uber_eats booking
    × (find_misconfiguration
          (get_connection received.delivery_connection_id (world 1_000 (answered tt)).connections)
          (get_business 1 (world 1_000 (answered tt)).businesses)
          (get_event received.raw_event_id (world 1_000 (answered tt)).webhook_events)
          uber_eats
        ≡ none)
handle_row-Earned_example =
    handle_row-Earned (world 1_000 (answered tt)) false received booking run refl

-- The platform is not told, the watchdog denies the row, and a cancellation finds it settled.
abbrev unlucky : List Event
unlucky =
    webhook_order (world 1_000 provider_error) 600 key 4 0
    ∷ order_job (world 1_000 provider_error) key other_event false
    ∷ watchdog_tick (world 2_000 provider_error) 0
    ∷ cancellation_job (world 3_000 provider_error) key
    ∷ []

history-IsSound_example : IsSound (history unlucky no_orders)
history-IsSound_example = history-IsSound unlucky

watchdog_settles_example :
    let after =
      watchdog_ticks 1 (world 2_000 provider_error) 0 (record no_orders { rows = received ∷ [] }) in
    (overdue 2_000 0 after.rows ≡ 0) × Rows (Settled 2_000 0) (received ∷ []) after.rows
unfolding is_due
watchdog_settles_example =
    watchdog_settles 1 (world 2_000 provider_error) 0 (record no_orders { rows = received ∷ [] })
      (omega arith)

abbrev left_row : DeliveryOrder
left_row = record received {
  gross_cents = some (pos 10_000);
  status = delivery_denied;
  order_id = some 500;
  failure_reason = some accept_call_failed;
  denied_at = some 2_000;
  deny_reason_code = some other_reason;
}

sale_outlives_denial : history unlucky no_orders ≡ record {
  rows = left_row ∷ [];
  sales = booking.sale ∷ [];
  items = booking.items;
  events = booking.event ∷ [];
  movements = [];
}
unfolding history act insert_delivery_order process_delivery_order load_locked_row write_row save
    watchdog deny_batch deny_earliest first_deadline deny_one is_due handle_cancellation
    cancel_order handle_row fetch_and_book after_fetch map_and_book tell_platform issue_deny
    create_order_from_canonical consume sale_of sale_items resolve_delivery_lines resolve_line
    item_of resolve_modifiers mapping_of entry_by_id entry_by_name blocks_import
    find_misconfiguration is_provider_entitled is_connection_live ◌*ℤ◌
sale_outlives_denial = refl
