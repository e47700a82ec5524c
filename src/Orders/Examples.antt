-- ===== src/Orders/Examples.antt =====
-- Runs of the order routes on order 500 of business 1, whose sale took nothing from an empty
-- stock ledger.
use nextgen_backend.Prelude.{
  ℕ, ◌+◌, ◌≤◌, ◌≡◌, refl, String, Text, Bool, true, false, Option, none, some, List, [], ◌∷◌, ◌++◌,
}
use nextgen_backend.Prelude.Int.{ℤ, pos, ◌*ℤ◌, ◌+ℤ◌, ◌-ℤ◌, ◌≤ℤ◌}
use nextgen_backend.Prelude.Result.{done, raised}
use nextgen_backend.Inventory.Consumption.{
  ConsumptionResult, LineItemSpec, Recipes, resolve_order, resolve_items, resolve_line_item,
  resolve_base, resolve_add_ons, resolve_lines, get_recipe, merge, scale, add, applies,
}
use nextgen_backend.Inventory.Ledger.{
  Movement, sale_consumption, post_sale_consumption, sale_movements, stock_on_hand,
}
use nextgen_backend.Orders.{
  OrderStatus, status_new, status_accepted, status_in_progress, status_ready, status_collected,
  status_cancelled, order_status_transitions, status_in, is_status, payment_unpaid, payment_pending,
  payment_paid, payment_failed, owner, AuthUser, Order, Tables, invalid_transition,
  StatusUpdateRequest, get_order, write_order, is_paid, change, reverse_consumption_on_cancel,
  milestones, await_payment, update_order_status, payment_partially_refunded,
  manual_refund_confirmed, status_pending_delivery_fee, status_fee_sent,
}
use nextgen_backend.Orders.Lifecycle.{Moves, stay, move, lifecycle_finite, served_through_kitchen}
use nextgen_backend.Orders.DeliveryFee.{
  VatSettings, or_zero, with_fee, set_delivery_fee, delivery_fee_set_once,
}
use nextgen_backend.Orders.Rows.{Replaced}
use nextgen_backend.Orders.StatusUpdate.{update_order_status-effect}
use nextgen_backend.Orders.Cancellation.{cancel_restores_stock}
use nextgen_backend.Orders.OnlinePayment.{accepting_awaits_payment}
use nextgen_backend.Orders.Payments.{
  zar, amount_currency_ok, mark_order_paid, RefundRequest, refund_amount, refunded,
  refund_order_payment, timed_out, cancel_unpaid_order, audit, confirm_manual_refund,
}
use nextgen_backend.Orders.Payments.Confirmation.{Awarded, payment_confirmed_once}
use nextgen_backend.Orders.Payments.Refund.{RefundRow, refund_bounded}
use nextgen_backend.Orders.Payments.Timeout.{timeout_cancels_once}
use nextgen_backend.Inventory.Totals.{bump}
use nextgen_backend.Prelude.Decimal.{quantize}

to_collection : Moves 4 status_new status_collected
unfolding order_status_transitions
to_collection = move {t = status_accepted} refl (
    move {t = status_in_progress} refl
      (move {t = status_ready} refl (move {t = status_collected} refl stay)))

lifecycle_finite_example : (4 ≤ 6) × (status_new ≡ status_collected → ◌≡◌ {A = ℕ} 4 0)
lifecycle_finite_example = lifecycle_finite 4 status_new status_collected to_collection

served_through_kitchen_example :
    (i j : ℕ) × Moves i status_new status_in_progress
    × Moves j status_in_progress status_collected
    × (i + j ≡ 4)
served_through_kitchen_example =
    served_through_kitchen 4 status_new status_collected to_collection refl refl

abbrev lunch : Order
lunch = record {
  id = 500;
  business_id = 1;
  customer_id = none;
  status = status_new;
  created_at = 1_000;
  subtotal_cents = pos 12_000;
  discount_cents = pos 0;
  loyalty_discount_cents = none;
  delivery_fee_cents = pos 0;
  total_cents = pos 12_000;
  currency = zar;
  tax_cents = pos 0;
  payment_required = true;
  payment_status = payment_unpaid;
  payment_method = none;
  payment_reference = none;
  payment_link_url = none;
  paid_at = none;
  refund_amount_cents = none;
  refund_reference = none;
  refunded_at = none;
  accepted_at = none;
  estimated_ready_at = none;
  ready_at = none;
  completed_at = none;
  cancelled_reason = none;
  cancelled_by_user_id = none;
}

abbrev holding : Order → List Movement → Tables
holding o movements = record {
  orders = o ∷ [];
  events = [];
  audits = [];
  movements = movements;
  loyalty = record { customers = []; transactions = []; programs = [] };
}

abbrev anna : AuthUser
anna = record { user_id = 3; business_id = 1; role = owner }

abbrev to_status : OrderStatus → StatusUpdateRequest
to_status s = record { status = s; reason = none; estimated_ready_minutes = none }

abbrev accepted_lunch : Tables
accepted_lunch = record (holding lunch []) {
  orders =
      record lunch {
        status = status_accepted;
        accepted_at = some 2_000;
        payment_status = payment_pending;
      }
      ∷ [];
  events = change 1 lunch status_new status_accepted (some 3) ∷ [];
}

accepts :
    update_order_status 2_000 anna true none 500 (to_status status_accepted) (holding lunch [])
    ≡ done accepted_lunch
unfolding update_order_status get_order write_order order_status_transitions milestones
    await_payment
accepts = refl

found : get_order 1 500 (holding lunch []) ≡ done lunch
unfolding get_order
found = refl

update_order_status-effect_example :
    (o new : Order) × (get_order 1 500 (holding lunch []) ≡ done o)
    × (status_in status_accepted (order_status_transitions o.status) ≡ true)
    × (is_status status_accepted status_in_progress ≡ true
        → o.payment_required ≡ true
        → is_paid o.payment_status ≡ true)
    × Replaced 1 500 new (holding lunch []) accepted_lunch
    × (new.status ≡ status_accepted)
    × (accepted_lunch.events ≡ [] ++ change 1 o o.status status_accepted (some 3) ∷ [])
update_order_status-effect_example =
    update_order_status-effect 2_000 anna true none 500 (to_status status_accepted)
      (holding lunch []) accepted_lunch accepts

accepting_awaits_payment_example :
    (new : Order) × (get_order 1 500 accepted_lunch ≡ done new)
    × (new.payment_status ≡ payment_pending)
    × ((later : ℕ) (inventory' : Bool) (link' : Option String) (request : StatusUpdateRequest)
        → request.status ≡ status_in_progress
        → update_order_status later anna inventory' link' 500 request accepted_lunch
          ≡ raised (invalid_transition status_accepted status_in_progress))
accepting_awaits_payment_example =
    accepting_awaits_payment 2_000 anna true none 500 (to_status status_accepted) (holding lunch [])
      accepted_lunch lunch found refl refl accepts

-- A portion of ingredient 100 for each menu item 10.
abbrev recipes : Recipes
recipes =
    (
      10,
      record {
        lines =
            record {
              ingredient_id = 100;
              quantity_milli = pos 2_000;
              option_id = none;
              removable_ref_id = none;
            }
            ∷ [];
        yield_qty = pos 1;
      },
    )
    ∷ []

abbrev one_plate : List LineItemSpec
one_plate =
    record {
      menu_item_id = 10;
      quantity = pos 1;
      selected_option_ids = [];
      add_on_selections = [];
      removed_ref_ids = [];
    }
    ∷ []

abbrev plate_used : ConsumptionResult
plate_used = record { lines = (100, pos 2_000) ∷ []; menu_items_without_recipe = [] }

abbrev sold : List Movement
sold = sale_movements 1_000 1 500 none none sale_consumption [] plate_used.lines

plate_sold :
    post_sale_consumption 1_000 1 500 one_plate none none sale_consumption recipes [] [] []
    ≡ some (plate_used, sold)
unfolding post_sale_consumption resolve_order resolve_items resolve_line_item resolve_base
    resolve_add_ons resolve_lines get_recipe merge bump scale add applies quantize ◌*ℤ◌ ◌+ℤ◌
plate_sold = refl

abbrev cancelled : Order → Tables
cancelled o =
    record (reverse_consumption_on_cancel 2_000 1 true 500 o.status (some 3) (holding o sold)) {
      orders = record o { status = status_cancelled; cancelled_by_user_id = some 3 } ∷ [];
      events = change 1 o o.status status_cancelled (some 3) ∷ [];
    }

cancels_new :
    update_order_status 2_000 anna true none 500 (to_status status_cancelled) (holding lunch sold)
    ≡ done (cancelled lunch)
unfolding update_order_status get_order write_order order_status_transitions milestones
    await_payment
cancels_new = refl

found_sold : get_order 1 500 (holding lunch sold) ≡ done lunch
unfolding get_order
found_sold = refl

cancel_restores_stock_example :
    stock_on_hand 1 none (cancelled lunch).movements 100 ≡ stock_on_hand 1 none [] 100
cancel_restores_stock_example =
    cancel_restores_stock 1_000 2_000 anna none 500 (to_status status_cancelled)
      (holding lunch sold) (cancelled lunch) lunch one_plate none none sale_consumption recipes []
      [] [] plate_used 100 plate_sold refl refl found_sold refl refl cancels_new

abbrev cooked : Order
cooked = record lunch { status = status_ready; payment_status = payment_paid }

cancels_ready :
    update_order_status 2_000 anna true none 500 (to_status status_cancelled) (holding cooked sold)
    ≡ done (cancelled cooked)
unfolding update_order_status get_order write_order order_status_transitions milestones
    await_payment
cancels_ready = refl

found_cooked : get_order 1 500 (holding cooked sold) ≡ done cooked
unfolding get_order
found_cooked = refl

right_amount : amount_currency_ok (λ t. t) lunch (some (pos 12_000)) (some zar) ≡ true
unfolding amount_currency_ok
right_amount = refl

payment_confirmed_once_example :
    let after =
      mark_order_paid
        (λ t. t)
        2_000
        1
        500
        (some "chr_1")
        (some (pos 12_000))
        (some zar)
        (holding lunch []) in
    (new : Order) × Replaced 1 500 new (holding lunch []) after
    × (is_paid new.payment_status ≡ true)
    × Awarded 2_000 1 lunch (holding lunch []) after
    × ((later : ℕ) (reference' : Option String) (amount' : Option ℤ) (currency' : Option Text)
        → mark_order_paid (λ t. t) later 1 500 reference' amount' currency' after ≡ after)
payment_confirmed_once_example =
    payment_confirmed_once (λ t. t) 2_000 1 500 (some "chr_1") (some (pos 12_000)) (some zar)
      (holding lunch []) lunch found right_amount

abbrev paid_lunch : Order
paid_lunch = record lunch { payment_status = payment_paid }

abbrev ask : RefundRequest
ask = record { amount_cents = some (pos 5_000); confirm_manual = true; reference = some "EFT 1" }

abbrev refunded_lunch : Tables
refunded_lunch = record (holding paid_lunch []) {
  orders = refunded 3_000 payment_partially_refunded (pos 5_000) (some "EFT 1") paid_lunch ∷ [];
  events = change 1 paid_lunch status_new status_new (some 3) ∷ [];
  audits = audit manual_refund_confirmed anna paid_lunch ∷ [];
}

refunds : refund_order_payment none 3_000 anna 500 ask (holding paid_lunch []) ≡ done refunded_lunch
unfolding refund_order_payment confirm_manual_refund get_order write_order refund_amount
refunds = refl

refund_bounded_example :
    (o new : Order) × (get_order 1 500 (holding paid_lunch []) ≡ done o)
    × (is_paid o.payment_status ≡ true)
    × Replaced 1 500 new (holding paid_lunch []) refunded_lunch
    × RefundRow none ask o new
refund_bounded_example =
    refund_bounded none 3_000 anna 500 ask (holding paid_lunch []) refunded_lunch refunds

timeout_cancels_once_example :
    (new : Order) × Replaced 1 500 new
      (holding lunch [])
      (cancel_unpaid_order 9_000 true "late" lunch (holding lunch []))
    × (new.status ≡ status_cancelled)
    × (new.payment_status ≡ payment_failed)
    × ((later timeout : ℕ) → timed_out later timeout new ≡ false)
timeout_cancels_once_example =
    timeout_cancels_once 9_000 true "late" 1 500 lunch (holding lunch []) found

abbrev waiting : Order
waiting = record lunch { status = status_pending_delivery_fee }

abbrev vat_at_15 : VatSettings
vat_at_15 = record {
  vat_registered = true;
  vat_rate_basis_points = pos 1_500;
  vat_inclusive_pricing = false;
}

abbrev fee_set : Tables
fee_set = record (holding waiting []) {
  orders = with_fee vat_at_15 (pos 3_000) waiting ∷ [];
  events = change 1 waiting status_pending_delivery_fee status_fee_sent (some 3) ∷ [];
}

sets_fee : set_delivery_fee vat_at_15 anna 500 (pos 3_000) (holding waiting []) ≡ done fee_set
unfolding set_delivery_fee get_order write_order
sets_fee = refl

delivery_fee_set_once_example :
    (o new : Order) × (get_order 1 500 (holding waiting []) ≡ done o)
    × (is_status o.status status_pending_delivery_fee ≡ true)
    × Replaced 1 500 new (holding waiting []) fee_set
    × (new.status ≡ status_fee_sent)
    × (new.delivery_fee_cents ≡ pos 3_000)
    × ((fee' : ℤ)
        → set_delivery_fee vat_at_15 anna 500 fee' fee_set
          ≡ raised (invalid_transition status_fee_sent status_fee_sent))
    × (pos 0 ≤ℤ o.subtotal_cents -ℤ o.discount_cents -ℤ or_zero o.loyalty_discount_cents
        → (pos 0 ≤ℤ new.total_cents) × (pos 3_000 ≤ℤ new.total_cents))
delivery_fee_set_once_example =
    delivery_fee_set_once vat_at_15 anna 500 (pos 3_000) (holding waiting []) fee_set sets_fee
