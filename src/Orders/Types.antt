-- ===== src/Orders/Types.antt =====
-- shared/enums.py (OrderStatus, ORDER_STATUS_TRANSITIONS, PaymentStatus) and the rows of
-- shared/models/order.py that the routes read and write.
use nextgen_backend.Prelude.{Text, ℕ, String, Bool, false, ◌||◌, Option, List, [], ◌∷◌, ◌==◌}
use nextgen_backend.Prelude.Int.{ℤ}
use nextgen_backend.Inventory.Ledger.{Movement}
use nextgen_backend.Loyalty.{LoyaltyDb}

pub data OrderStatus : Type 0 where
  status_pending_delivery_fee status_fee_sent status_new status_accepted status_in_progress
        status_ready status_collected status_delivered status_completed status_cancelled :
      OrderStatus

-- The position in the enum, by which two statuses are compared.
abbrev status_code : OrderStatus → ℕ
status_code status_pending_delivery_fee = 0
status_code status_fee_sent = 1
status_code status_new = 2
status_code status_accepted = 3
status_code status_in_progress = 4
status_code status_ready = 5
status_code status_collected = 6
status_code status_delivered = 7
status_code status_completed = 8
status_code status_cancelled = 9

abbrev pub is_status : OrderStatus → OrderStatus → Bool
is_status a b = status_code a == status_code b

unfoldable pub order_status_transitions : OrderStatus → List OrderStatus
order_status_transitions status_pending_delivery_fee = status_fee_sent ∷ status_cancelled ∷ []
order_status_transitions status_fee_sent = status_new ∷ status_cancelled ∷ []
order_status_transitions status_new = status_accepted ∷ status_cancelled ∷ []
order_status_transitions status_accepted = status_in_progress ∷ status_cancelled ∷ []
order_status_transitions status_in_progress = status_ready ∷ status_cancelled ∷ []
order_status_transitions status_ready =
    status_collected ∷ status_delivered ∷ status_completed ∷ status_cancelled ∷ []
order_status_transitions status_collected = []
order_status_transitions status_delivered = []
order_status_transitions status_completed = []
order_status_transitions status_cancelled = []

abbrev pub status_in : OrderStatus → List OrderStatus → Bool
status_in s [] = false
status_in s (x ∷ xs) = is_status s x || status_in s xs

pub data PaymentStatus : Type 0 where
  payment_unpaid payment_pending payment_paid payment_partially_refunded payment_refunded
        payment_failed payment_voided payment_cash_on_collection :
      PaymentStatus

pub data PaymentMethod : Type 0 where
  method_cash method_card method_pay_on_collection method_direct_eft method_payshap method_yoco
        method_payfast method_stitch method_manual :
      PaymentMethod

pub data Role : Type 0 where
  owner manager staff : Role

pub record AuthUser : Type 0 where
  pub user_id : ℕ
  pub business_id : ℕ
  pub role : Role

pub record Order : Type 0 where
  pub id : ℕ
  pub business_id : ℕ
  pub customer_id : Option ℕ
  pub status : OrderStatus
  pub created_at : ℕ
  pub subtotal_cents : ℤ
  pub discount_cents : ℤ
  pub loyalty_discount_cents : Option ℤ
  pub delivery_fee_cents : ℤ
  pub total_cents : ℤ
  pub currency : Text
  pub tax_cents : ℤ
  pub payment_required : Bool
  pub payment_status : PaymentStatus
  pub payment_method : Option PaymentMethod
  pub payment_reference : Option String
  pub payment_link_url : Option String
  pub paid_at : Option ℕ
  pub refund_amount_cents : Option ℤ
  pub refund_reference : Option String
  pub refunded_at : Option ℕ
  pub accepted_at : Option ℕ
  pub estimated_ready_at : Option ℕ
  pub ready_at : Option ℕ
  pub completed_at : Option ℕ
  pub cancelled_reason : Option String
  pub cancelled_by_user_id : Option ℕ

pub record OrderEvent : Type 0 where
  pub order_id : ℕ
  pub business_id : ℕ
  pub old_status : OrderStatus
  pub new_status : OrderStatus
  pub changed_by_user_id : Option ℕ

pub data AuditAction : Type 0 where
  stock_kept_consumed reverted_from_paid manual_refund_confirmed refund_attempted : AuditAction

pub record AuditEvent : Type 0 where
  pub action : AuditAction
  pub business_id : ℕ
  pub actor_user_id : Option ℕ
  pub target_id : ℕ

-- The tables; rows are added at the end, and only orders are changed in place.
pub record Tables : Type 0 where
  pub orders : List Order
  pub events : List OrderEvent
  pub audits : List AuditEvent
  pub movements : List Movement
  pub loyalty : LoyaltyDb

pub data OrderError : Type 0 where
  not_found use_refund_endpoint owner_or_manager_required refund_already_recorded order_not_paid
        refund_exceeds_total no_payment_provider :
      OrderError
  invalid_transition : OrderStatus → OrderStatus → OrderError
