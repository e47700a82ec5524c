-- ===== src/Pos.antt =====
-- Refunds and voids at the till: backend/app/api/v1/routes_pos.py (refund_pos_order, void_pos_order
-- and what they call) and backend/app/pos/till.py. `now` is the clock; reasons and audit rows are
-- left out, and the role that a route asks for is checked before.
mod Reversal
mod Once
mod Cash
mod Till
mod Totals
mod CashUp
mod Examples
use nextgen_backend.Prelude.{
  ℕ, Bool, true, false, not, ◌&&◌, ◌||◌, Option, none, some, List, [], ◌∷◌, ◌++◌, map, ◌==◌,
  if◌then◌else◌, find, exists, replace_first, is_some,
}
use nextgen_backend.Prelude.Int.{ℤ, pos, ◌+ℤ◌, ◌-ℤ◌, eqb_ℤ, ltb_ℤ, leb_ℤ, min_ℤ}
use nextgen_backend.Prelude.Result.{Outcome, done, raised, ◌>>=◌, ◌>>◌, raise_when}
use nextgen_backend.Orders.{
  OrderStatus, status_cancelled, PaymentStatus, payment_paid, payment_refunded,
  payment_partially_refunded, payment_voided,
}
use nextgen_backend.Inventory.Ledger.{Movement, reverse_sale_consumption}
use nextgen_backend.Loyalty.{LoyaltyDb, reverse_redemption}

pub data Tender : Type 0 where
  tender_cash tender_card tender_pay_by_link tender_split tender_other : Tender

pub data ProviderRefund : Type 0 where
  refund_pending_manual refund_confirmed : ProviderRefund

pub record Allocation : Type 0 where
  pub order_id : ℕ
  pub payment_method : Tender
  pub amount_cents : ℤ
  pub provider_refund_status : Option ProviderRefund
  pub till_session_id : Option ℕ

pub record TillSession : Type 0 where
  pub id : ℕ
  pub business_id : ℕ
  pub opened_by_user_id : ℕ
  pub opened_at : ℕ
  pub opening_float_cents : ℤ
  pub till_open : Bool
  pub closed_by_user_id : Option ℕ
  pub closed_at : Option ℕ
  pub expected_cash_cents : Option ℤ
  pub counted_cash_cents : Option ℤ
  pub variance_cents : Option ℤ

-- The columns of an Order that these routes read or write.
pub record PosOrder : Type 0 where
  pub id : ℕ
  pub business_id : ℕ
  pub is_pos : Bool
  pub status : OrderStatus
  pub payment_status : PaymentStatus
  pub payment_method : Tender
  pub total_cents : ℤ
  pub loyalty_reward_id : Option ℕ
  pub refund_amount_cents : Option ℤ
  pub refund_cash_cents : Option ℤ
  pub refunded_at : Option ℕ
  pub cancelled_by_user_id : Option ℕ
  pub till_session_id : Option ℕ

pub record PosDb : Type 0 where
  pub orders : List PosOrder
  pub allocations : List Allocation
  pub tills : List TillSession
  pub movements : List Movement
  pub loyalty : LoyaltyDb

pub record RefundBody : Type 0 where
  pub amount_cents : Option ℤ
  pub restore_stock : Bool
  pub restore_loyalty_points : Bool
  pub cash_refund_cents : Option ℤ

pub data PosError : Type 0 where
  invalid_request pos_order_not_found not_a_pos_order pos_order_not_paid till_not_open
        refund_exceeds_order cash_portion_required cash_portion_invalid loyalty_failed
        till_session_not_found till_already_open till_already_closed no_pending_provider_refund :
      PosError

-- backend/app/pos/till.py
unfoldable pub compute_expected_cash_cents : ℤ → ℤ → ℤ → ℤ
compute_expected_cash_cents opening_float cash_sales cash_refunds =
    opening_float +ℤ cash_sales -ℤ cash_refunds

unfoldable pub compute_variance_cents : ℤ → ℤ → ℤ
compute_variance_cents expected counted = counted -ℤ expected

abbrev pub is_cash : Tender → Bool
is_cash tender_cash = true
is_cash _ = false

abbrev pub is_split : Tender → Bool
is_split tender_split = true
is_split _ = false

abbrev pub is_pay_by_link : Tender → Bool
is_pay_by_link tender_pay_by_link = true
is_pay_by_link _ = false

abbrev pub is_payment_paid : PaymentStatus → Bool
is_payment_paid payment_paid = true
is_payment_paid _ = false

-- The sum of an order's allocations whose method passes a test.
unfoldable pub allocated : (Tender → Bool) → ℕ → List Allocation → ℤ
allocated test k [] = pos 0
allocated test k (a ∷ rest) =
    (if a.order_id == k && test a.payment_method then a.amount_cents else pos 0)
    +ℤ allocated test k rest

unfoldable pub compute_cash_portion : PosOrder → ℤ → List Allocation → ℤ
compute_cash_portion order requested allocations =
    if is_cash order.payment_method
    then requested
    else if is_split order.payment_method
    then min_ℤ (allocated is_cash order.id allocations) requested
    else pos 0

abbrev pub is_pos_order : ℕ → ℕ → PosOrder → Bool
is_pos_order business k o = o.id == k && o.business_id == business

unfoldable pub load_pos_order_for_reversal : ℕ → ℕ → PosDb → Outcome PosError PosOrder
load_pos_order_for_reversal business k db = elim (find (is_pos_order business k) db.orders) [
  | none ↦ raised pos_order_not_found
  | some o ↦
      if not o.is_pos
      then raised not_a_pos_order
      else if not (is_payment_paid o.payment_status)
      then raised pos_order_not_paid
      else done o
]

abbrev takes_cash : PosOrder → List Allocation → Bool
takes_cash order allocations =
    is_cash order.payment_method
    || (is_split order.payment_method
        && exists (λ a. a.order_id == order.id && is_cash a.payment_method) allocations)

unfoldable pub require_open_till_for_cash_reversal :
    ℕ → PosOrder → PosDb → Outcome PosError (Unit {0})
require_open_till_for_cash_reversal business order db =
    raise_when
      (takes_cash order db.allocations
        && not (exists (λ t. t.business_id == business && t.till_open) db.tills))
      till_not_open

-- The cash in a partial refund of an order paid in several ways.
unfoldable pub split_cash_portion : PosOrder → ℤ → Option ℤ → List Allocation → Outcome PosError ℤ
split_cash_portion order amount asked allocations =
    let cash = allocated is_cash order.id allocations in
    let other = allocated (λ t. not (is_cash t)) order.id allocations in
    if ltb_ℤ (pos 0) cash && ltb_ℤ (pos 0) other
    then (elim asked [
      | none ↦ raised cash_portion_required
      | some c ↦ if ltb_ℤ amount c || ltb_ℤ cash c then raised cash_portion_invalid else done c
    ])
    else done (min_ℤ cash amount)

unfoldable pub refund_cash_portion : PosOrder → ℤ → Option ℤ → List Allocation → Outcome PosError ℤ
refund_cash_portion order amount asked allocations =
    if not (eqb_ℤ amount order.total_cents) && is_split order.payment_method
    then split_cash_portion order amount asked allocations
    else done (compute_cash_portion order amount allocations)

-- _flag_pay_by_link_provider_refund_pending
unfoldable pub flag_pay_by_link : ℕ → ℤ → ℤ → List Allocation → List Allocation
flag_pay_by_link k amount cash allocations =
    if leb_ℤ (amount -ℤ cash) (pos 0)
    then allocations
    else map
        (λ a.
          if a.order_id == k
            && is_pay_by_link a.payment_method
            && not (is_some a.provider_refund_status)
          then record a { provider_refund_status = some refund_pending_manual }
          else a)
        allocations

-- `body.amount_cents or order.total_cents`
abbrev pub amount_or : Option ℤ → ℤ → ℤ
amount_or none total = total
amount_or (some a) total = if eqb_ℤ a (pos 0) then total else a

abbrev pub below : ℤ → Option ℤ → Bool
below low none = false
below low (some a) = ltb_ℤ a low

abbrev pub refunded_order : ℕ → ℤ → ℤ → PosOrder → PosOrder
refunded_order now amount cash order = record order {
  payment_status =
      if eqb_ℤ amount order.total_cents then payment_refunded else payment_partially_refunded;
  refund_amount_cents = some amount;
  refund_cash_cents = some cash;
  refunded_at = some now;
}

abbrev pub voided_order : ℕ → ℕ → ℤ → PosOrder → PosOrder
voided_order now by cash order = record order {
  payment_status = payment_voided;
  refund_amount_cents = some order.total_cents;
  refund_cash_cents = some cash;
  refunded_at = some now;
  status = status_cancelled;
  cancelled_by_user_id = some by;
}

-- The stock and the points that go back with the money.
unfoldable pub restore :
    (now business k by : ℕ) (stock points : Bool) (db : PosDb) → Outcome PosError PosDb
restore now business k by stock points db =
    let movements =
      if stock
      then (reverse_sale_consumption now business k (some by) none db.movements).1
      else db.movements in
    if not points
    then done (record db { movements = movements })
    else elim (reverse_redemption business k db.loyalty) [
      | raised e ↦ raised loyalty_failed
      | done (given, loyalty) ↦ done (record db { movements = movements; loyalty = loyalty })
    ]

abbrev pub written_back : (business k : ℕ) (new : PosOrder) (amount cash : ℤ) (db : PosDb) → PosDb
written_back business k new amount cash db = record db {
  orders = replace_first (is_pos_order business k) new db.orders;
  allocations = flag_pay_by_link k amount cash db.allocations;
}

-- `inventory` is whether the business keeps stock.
unfoldable pub refund_pos_order :
    (now business by : ℕ) (inventory : Bool) (k : ℕ) (body : RefundBody) (db : PosDb)
    → Outcome PosError PosDb
refund_pos_order now business by inventory k body db = do
  raise_when (below (pos 1) body.amount_cents || below (pos 0) body.cash_refund_cents)
      invalid_request
  order ← load_pos_order_for_reversal business k db
  require_open_till_for_cash_reversal business order db
  let amount = amount_or body.amount_cents order.total_cents
  raise_when (ltb_ℤ order.total_cents amount) refund_exceeds_order
  cash ← refund_cash_portion order amount body.cash_refund_cents db.allocations
  let full = eqb_ℤ amount order.total_cents
  restore now business k by (body.restore_stock && inventory)
      (full && body.restore_loyalty_points && is_some order.loyalty_reward_id)
      (written_back business k (refunded_order now amount cash order) amount cash db)

unfoldable pub void_pos_order :
    (now business by : ℕ) (inventory : Bool) (k : ℕ) (db : PosDb) → Outcome PosError PosDb
void_pos_order now business by inventory k db = do
  order ← load_pos_order_for_reversal business k db
  require_open_till_for_cash_reversal business order db
  let cash = compute_cash_portion order order.total_cents db.allocations
  restore now business k by inventory (is_some order.loyalty_reward_id)
      (written_back business k (voided_order now by cash order) order.total_cents cash db)
