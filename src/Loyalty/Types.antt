-- ===== src/Loyalty/Types.antt =====
-- The rows of shared/models/loyalty.py and shared/models/customer.py, and the errors that
-- backend/app/loyalty/engine.py raises.
use nextgen_backend.Prelude.{ℕ, String, Bool, Option, List}
use nextgen_backend.Prelude.Int.{ℤ}
use nextgen_backend.Prelude.Result.{Outcome}

pub data Tier : Type 0 where
  bronze silver gold : Tier

pub record LoyaltyProgram : Type 0 where
  pub business_id : ℕ
  pub is_enabled : Bool
  pub points_per_rand : ℤ
  pub points_per_order : ℤ
  pub points_expiry_days : Option ℕ
  pub min_redemption_points : ℤ
  pub silver_tier_points : ℤ
  pub gold_tier_points : ℤ
  pub double_points_promo_active : Bool
  pub double_points_promo_starts_at : Option ℕ
  pub double_points_promo_ends_at : Option ℕ

pub record LoyaltyReward : Type 0 where
  pub name : String
  pub points_cost : ℤ
  pub is_active : Bool
  pub value_cents : Option ℤ

pub record Customer : Type 0 where
  pub id : ℕ
  pub business_id : ℕ
  pub loyalty_points_balance : ℤ
  pub loyalty_tier : Tier
  pub loyalty_points_expire_at : Option ℕ

pub data TransactionType : Type 0 where
  earn redeem adjust : TransactionType

-- The prefixes REDEEM:, REDEEM_REVERSAL: and ADJUST: keep the three kinds apart.
pub data IdempotencyKey : Type 0 where
  redeem_key redeem_reversal_key : ℕ → IdempotencyKey
  manual_adjustment_key : String → IdempotencyKey

pub record LoyaltyTransaction : Type 0 where
  pub business_id : ℕ
  pub customer_id : ℕ
  pub order_id : Option ℕ
  pub transaction_type : TransactionType
  pub points_delta : ℤ
  pub balance_after : ℤ
  pub idempotency_key : Option IdempotencyKey

-- The tables that the engine reads and writes; rows are added at the end.
pub record LoyaltyDb : Type 0 where
  pub customers : List Customer
  pub transactions : List LoyaltyTransaction
  pub programs : List LoyaltyProgram

-- What the engine needs of an order.
pub record OrderRef : Type 0 where
  pub id : Option ℕ
  pub customer_id : Option ℕ
  pub total_cents : ℤ

pub data LoyaltyError : Type 0 where
  loyalty_disabled reward_inactive customer_not_found below_min_redemption insufficient_points
        reward_not_redeemable_at_till zero_adjustment insufficient_points_for_adjustment
        multiple_results :
      LoyaltyError

-- What an operation comes to.
abbrev pub Result {ℓ} : Type ℓ → Type ℓ
Result A = Outcome LoyaltyError A
