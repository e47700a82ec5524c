-- ===== src/Pos/Examples.antt =====
-- A sale at the till of 90.00, half in cash and half by card, in business 1, and its partial refund.
use nextgen_backend.Prelude.{◌≡◌, refl, inl, true, false, none, some, [], ◌∷◌, arith, find}
use nextgen_backend.Prelude.Int.{ℤ, pos, negsuc, ◌≤ℤ◌, ◌+ℤ◌, ◌-ℤ◌}
use nextgen_backend.Prelude.Result.{done, raised}
use nextgen_backend.Orders.{status_collected, payment_paid}
use nextgen_backend.Pos.{
  TillSession, PosOrder, PosDb, RefundBody, tender_cash, tender_card, tender_split, is_split,
  is_cash, pos_order_not_paid, allocated, is_pos_order, load_pos_order_for_reversal,
  require_open_till_for_cash_reversal, split_cash_portion, refund_cash_portion,
  compute_cash_portion, compute_expected_cash_cents, compute_variance_cents, flag_pay_by_link,
  restore, refunded_order, cash_portion_required, refund_pos_order, void_pos_order,
}
use nextgen_backend.Pos.Once.{reversed_once}
use nextgen_backend.Pos.Cash.{refund_cash_bounded}
use nextgen_backend.Pos.CashUp.{reversal_reaches_cash_up}
use nextgen_backend.Pos.Till.{total, expected_cash, closed_session, close_till}
use nextgen_backend.Prelude.{replace_first}

abbrev sold : PosOrder
sold = record {
  id = 7;
  business_id = 1;
  is_pos = true;
  status = status_collected;
  payment_status = payment_paid;
  payment_method = tender_split;
  total_cents = pos 9000;
  loyalty_reward_id = none;
  refund_amount_cents = none;
  refund_cash_cents = none;
  refunded_at = none;
  cancelled_by_user_id = none;
  till_session_id = some 3;
}

abbrev drawer : TillSession
drawer = record {
  id = 3;
  business_id = 1;
  opened_by_user_id = 9;
  opened_at = 20;
  opening_float_cents = pos 50000;
  till_open = true;
  closed_by_user_id = none;
  closed_at = none;
  expected_cash_cents = none;
  counted_cash_cents = none;
  variance_cents = none;
}

abbrev shop : PosDb
shop = record {
  orders = sold ∷ [];
  allocations =
      record {
        order_id = 7;
        payment_method = tender_cash;
        amount_cents = pos 4500;
        provider_refund_status = none;
        till_session_id = some 3;
      }
      ∷ record {
        order_id = 7;
        payment_method = tender_card;
        amount_cents = pos 4500;
        provider_refund_status = none;
        till_session_id = some 3;
      }
      ∷ [];
  tills = drawer ∷ [];
  movements = [];
  loyalty = record { customers = []; transactions = []; programs = [] };
}

abbrev some_back : RefundBody
some_back = record {
  amount_cents = some (pos 3000);
  restore_stock = false;
  restore_loyalty_points = true;
  cash_refund_cents = some (pos 1000);
}

abbrev undecided : RefundBody
undecided = record some_back { cash_refund_cents = none }

abbrev after_refund : PosDb
after_refund = record shop { orders = refunded_order 50 (pos 3000) (pos 1000) sold ∷ [] }

refund_run : refund_pos_order 50 1 9 true 7 some_back shop ≡ done after_refund
unfolding refund_pos_order load_pos_order_for_reversal require_open_till_for_cash_reversal allocated
    split_cash_portion refund_cash_portion compute_cash_portion flag_pay_by_link restore
    replace_first ◌+ℤ◌ ◌-ℤ◌
refund_run = refl

refund_undecided_run : refund_pos_order 50 1 9 true 7 undecided shop ≡ raised cash_portion_required
unfolding refund_pos_order load_pos_order_for_reversal require_open_till_for_cash_reversal allocated
    split_cash_portion refund_cash_portion compute_cash_portion flag_pay_by_link restore
    replace_first ◌+ℤ◌ ◌-ℤ◌
refund_undecided_run = refl

card_overpaid_run :
    refund_pos_order 50 1 9 true 7
      (record some_back { amount_cents = some (pos 8000); cash_refund_cents = some (pos 0) })
      shop
    ≡ done (record shop { orders = refunded_order 50 (pos 8000) (pos 0) sold ∷ [] })
unfolding refund_pos_order load_pos_order_for_reversal require_open_till_for_cash_reversal allocated
    split_cash_portion refund_cash_portion compute_cash_portion flag_pay_by_link restore
    replace_first ◌+ℤ◌ ◌-ℤ◌
card_overpaid_run = refl

cash_up_run :
    (compute_expected_cash_cents (pos 50000) (pos 4500) (pos 1000) ≡ pos 53500)
    × (compute_variance_cents (pos 53500) (pos 53400) ≡ negsuc 99)
unfolding compute_expected_cash_cents compute_variance_cents ◌+ℤ◌ ◌-ℤ◌
cash_up_run = (refl, refl)

-- The till has closed in between.
abbrev evening : PosDb
evening = record after_refund { tills = closed_session 80 9 (pos 53500) (pos 53400) drawer ∷ [] }

reversed_once_example :
    (void_pos_order 90 1 9 true 7 evening ≡ raised pos_order_not_paid)
    × (refund_pos_order 90 1 9 true 7 undecided evening ≡ raised pos_order_not_paid)
reversed_once_example =
    reversed_once 50 1 9 true 7 some_back shop after_refund 90 9 true undecided evening
      (inl refund_run) refl refl

refund_cash_bounded_example :
    (o : PosOrder) × (amount : ℤ) × (cash : ℤ) × (find (is_pos_order 1 7) after_refund.orders
      ≡ some o)
    × (o.refund_amount_cents ≡ some amount)
    × (o.refund_cash_cents ≡ some cash)
    × (pos 0 ≤ℤ amount)
    × (amount ≤ℤ o.total_cents)
    × (pos 0 ≤ℤ cash)
    × (cash ≤ℤ amount)
    × (is_split o.payment_method ≡ true → cash ≤ℤ allocated is_cash o.id shop.allocations)
refund_cash_bounded_example =
    refund_cash_bounded 50 1 9 true 7 some_back shop after_refund (omega arith, tt)
      (omega arith, (omega arith, tt)) refund_run

close_run :
    close_till 80 1 9 3 (pos 53400) after_refund
    ≡ done (record after_refund { tills = closed_session 80 9 (pos 53500) (pos 53400) drawer ∷ [] })
unfolding close_till expected_cash total replace_first compute_expected_cash_cents
    compute_variance_cents ◌+ℤ◌ ◌-ℤ◌
close_run = refl

reversal_reaches_cash_up_example :
    (o : PosOrder) × (cash : ℤ) × (find (is_pos_order 1 7) after_refund.orders ≡ some o)
    × (o.refund_cash_cents ≡ some cash)
    × (expected_cash 1 drawer after_refund ≡ expected_cash 1 drawer shop -ℤ cash)
reversal_reaches_cash_up_example =
    reversal_reaches_cash_up 50 1 9 true 7 some_back shop after_refund drawer (inl refund_run) refl
