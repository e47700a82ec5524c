-- ===== src/Loyalty.antt =====
-- backend/app/loyalty/engine.py: points earned, redeemed, given back and corrected. An operation
-- maps the tables to new tables, or raises and leaves them alone; `now` is the clock, in
-- microseconds. SELECT ... FOR UPDATE makes the operations on one customer take turns, so each is
-- one step here.
mod Types
pub mod Audit
pub mod Redemption
pub mod GivingBack
pub mod Soundness
pub mod Preservation
pub mod Invariant
mod Examples
pub use Types.*
use nextgen_backend.Prelude.{
  ℕ, ◌+◌, ◌*◌, ◌/◌, String, Bool, true, false, not, ◌&&◌, ◌||◌, Option, none, some, List, [], ◌∷◌,
  ◌++◌, ltb, ◌==◌, if◌then◌else◌, opt_eq, find, is_some, keep,
}
use nextgen_backend.Prelude.Int.{
  ℤ, pos, negsuc, ◌+ℤ◌, ◌-ℤ◌, ◌*ℤ◌, neg, leb_ℤ, ltb_ℤ, eqb_ℤ, max_ℤ, min_ℤ,
}
use nextgen_backend.Prelude.Result.{Outcome, done, raised, ◌>>=◌, ◌>>◌, raise_when, >>=-eq-done}

unfoldable pub compute_tier : ℤ → LoyaltyProgram → Tier
compute_tier points program =
    if leb_ℤ program.gold_tier_points points
    then gold
    else if leb_ℤ program.silver_tier_points points
    then silver
    else bronze

abbrev pub is_customer : ℕ → ℕ → Customer → Bool
is_customer business k c = c.id == k && c.business_id == business

-- _lock_customer_for_balance_update
unfoldable pub lock_customer : ℕ → ℕ → LoyaltyDb → Result Customer
lock_customer business k db = elim (find (is_customer business k) db.customers) [
  | none ↦ raised customer_not_found
  | some c ↦ done c
]

-- The row of the locked customer is written back.
pub write_customer : ℕ → ℕ → Customer → List Customer → List Customer
write_customer business k new [] = []
write_customer business k new (c ∷ cs) =
    if is_customer business k c then new ∷ cs else c ∷ write_customer business k new cs

unfoldable pub is_double_points_active : LoyaltyProgram → ℕ → Bool
is_double_points_active program now =
    program.double_points_promo_active
    && not (elim program.double_points_promo_starts_at [ none ↦ false | some t ↦ ltb now t ])
    && not (elim program.double_points_promo_ends_at [ none ↦ false | some t ↦ ltb t now ])

-- `cents // 100`, which rounds down.
abbrev pub whole_rands : ℤ → ℤ
whole_rands (pos n) = pos (n / 100)
whole_rands (negsuc n) = negsuc (n / 100)

abbrev pub microseconds_per_day : ℕ
microseconds_per_day = 86_400_000_000

abbrev pub expiry : Option ℕ → ℕ → Option ℕ → Option ℕ
expiry none now old = old
expiry (some days) now old = if days == 0 then old else some (now + days * microseconds_per_day)

unfoldable pub earned_points : ℕ → LoyaltyProgram → ℤ → ℤ
earned_points now program total_cents =
    (whole_rands total_cents *ℤ program.points_per_rand +ℤ program.points_per_order)
    *ℤ (if is_double_points_active program now then pos 2 else pos 1)

abbrev pub entry :
    ℕ → ℕ → Option ℕ → TransactionType → ℤ → ℤ → Option IdempotencyKey → LoyaltyTransaction
entry business k order kind delta after key = record {
  business_id = business;
  customer_id = k;
  order_id = order;
  transaction_type = kind;
  points_delta = delta;
  balance_after = after;
  idempotency_key = key;
}

-- A customer's balance is moved and a ledger row is added.
unfoldable pub post_points :
    ℕ
    → ℕ
    → Customer
    → ℤ
    → Tier
    → Option ℕ
    → Option ℕ
    → TransactionType
    → Option IdempotencyKey
    → LoyaltyDb
    → LoyaltyDb
post_points business k c delta tier expire order kind key db =
    let balance = c.loyalty_points_balance +ℤ delta in
    record db {
      customers =
          write_customer business k
            (record c {
              loyalty_points_balance = balance;
              loyalty_tier = tier;
              loyalty_points_expire_at = expire;
            })
            db.customers;
      transactions = db.transactions ++ entry business k order kind delta balance key ∷ [];
    }

unfoldable pub award_points_for_paid_order :
    ℕ → ℕ → ℕ → OrderRef → LoyaltyProgram → LoyaltyDb → Result (ℤ × LoyaltyDb)
award_points_for_paid_order now business k order program db =
    let points = earned_points now program order.total_cents in
    if not program.is_enabled || leb_ℤ points (pos 0) then done (pos 0, db) else (do
      c ← lock_customer business k db
      done (
        points,
        post_points business k c points (compute_tier (c.loyalty_points_balance +ℤ points) program)
            (expiry program.points_expiry_days now c.loyalty_points_expire_at) order.id earn none
            db,
      ))

abbrev pub program_of : ℕ → LoyaltyDb → Option LoyaltyProgram
program_of business db = find (λ p. p.business_id == business) db.programs

-- Whatever goes wrong, a payment confirmation is never blocked: the tables stay as they were.
abbrev pub keep_on_error : LoyaltyDb → Result (ℤ × LoyaltyDb) → LoyaltyDb
keep_on_error db (done (points, new)) = new
keep_on_error db (raised e) = db

-- What is awarded for the order's customer under the business's programme, where there are any.
abbrev pub award_under : ℕ → ℕ → OrderRef → LoyaltyDb → Option ℕ → Option LoyaltyProgram → LoyaltyDb
award_under now business order db none _ = db
award_under now business order db (some k) none = db
award_under now business order db (some k) (some program) =
    if not program.is_enabled || not (is_some (find (λ c. c.id == k) db.customers))
    then db
    else keep_on_error db (award_points_for_paid_order now business k order program db)

unfoldable pub award_loyalty_points_if_enabled : ℕ → ℕ → OrderRef → LoyaltyDb → LoyaltyDb
award_loyalty_points_if_enabled now business order db =
    award_under now business order db order.customer_id (program_of business db)

-- The redeemed balance and the transaction are in the tables that come back.
unfoldable pub redeem_reward :
    ℕ → ℕ → LoyaltyReward → LoyaltyProgram → Option ℕ → LoyaltyDb → Result LoyaltyDb
redeem_reward business k reward program order db = do
  raise_when (not program.is_enabled) loyalty_disabled
  raise_when (not reward.is_active) reward_inactive
  c ← lock_customer business k db
  raise_when (ltb_ℤ c.loyalty_points_balance program.min_redemption_points) below_min_redemption
  raise_when (ltb_ℤ c.loyalty_points_balance reward.points_cost) insufficient_points
  done (
      post_points business k c (neg reward.points_cost)
        (compute_tier (c.loyalty_points_balance +ℤ neg reward.points_cost) program)
        c.loyalty_points_expire_at order redeem
        (elim order [ none ↦ none | some o ↦ some (redeem_key o) ]) db)

pub record CheckoutRedemption : Type 0 where
  pub discount_cents : ℤ
  pub points_cost : ℤ
  pub shortfall_cents : ℤ
  pub reward_name : String

-- redeem_reward_for_checkout past its guard, for a reward worth `value`.
unfoldable pub redeem_for_value :
    ℕ
    → ℕ
    → LoyaltyReward
    → LoyaltyProgram
    → ℕ
    → ℤ
    → ℤ
    → LoyaltyDb
    → Result (CheckoutRedemption × LoyaltyDb)
redeem_for_value business k reward program order max_discountable value db = do
  new ← redeem_reward business k reward program (some order) db
  let discount = min_ℤ value (max_ℤ (pos 0) max_discountable)
  done (
    record {
      discount_cents = discount;
      points_cost = reward.points_cost;
      shortfall_cents = value -ℤ discount;
      reward_name = reward.name;
    },
    new,
  )

unfoldable pub redeem_reward_for_checkout :
    ℕ
    → ℕ
    → LoyaltyReward
    → LoyaltyProgram
    → ℕ
    → ℤ
    → LoyaltyDb
    → Result (CheckoutRedemption × LoyaltyDb)
redeem_reward_for_checkout business k reward program order max_discountable db =
    elim reward.value_cents [
      | none ↦ raised reward_not_redeemable_at_till
      | some value ↦ redeem_for_value business k reward program order max_discountable value db
    ]

abbrev pub is_redeem : TransactionType → Bool
is_redeem redeem = true
is_redeem _ = false

abbrev pub redeem_of : ℕ → ℕ → LoyaltyTransaction → Bool
redeem_of business order t =
    t.business_id == business && opt_eq t.order_id (some order) && is_redeem t.transaction_type

abbrev is_reversal_key : ℕ → Option IdempotencyKey → Bool
is_reversal_key order (some (redeem_reversal_key o)) = o == order
is_reversal_key order _ = false

abbrev pub reversal_of : ℕ → ℕ → LoyaltyTransaction → Bool
reversal_of business order t = t.business_id == business && is_reversal_key order t.idempotency_key

-- `scalar_one_or_none`, which raises on more than one row.
abbrev pub one_or_none {ℓ} : {A : Type ℓ} → List A → Result (Option A)
one_or_none [] = done none
one_or_none (x ∷ []) = done (some x)
one_or_none (x ∷ y ∷ rest) = raised multiple_results

-- The tier stays as it is where the business has no programme.
abbrev pub tier_under : Option LoyaltyProgram → ℤ → Tier → Tier
tier_under none balance old = old
tier_under (some program) balance old = compute_tier balance program

-- The half of reverse_redemption that writes.
unfoldable pub give_back : ℕ → ℕ → LoyaltyTransaction → LoyaltyDb → Result (ℤ × LoyaltyDb)
give_back business order t db = do
  c ← lock_customer business t.customer_id db
  let points = neg t.points_delta
  done (
    points,
    post_points business t.customer_id c points
        (tier_under (program_of business db) (c.loyalty_points_balance +ℤ points) c.loyalty_tier)
        c.loyalty_points_expire_at (some order) adjust (some (redeem_reversal_key order)) db,
  )

-- The points given back, and the tables.
unfoldable pub reverse_redemption : ℕ → ℕ → LoyaltyDb → Result (ℤ × LoyaltyDb)
reverse_redemption business order db = do
  original ← one_or_none (keep (redeem_of business order) db.transactions)
  elim original [
    | none ↦ done (pos 0, db)
    | some t ↦ do
      already ← one_or_none (keep (reversal_of business order) db.transactions)
      elim already [ some _ ↦ done (pos 0, db) | none ↦ give_back business order t db ]
  ]

unfoldable pub adjust_points :
    ℕ → ℕ → Option LoyaltyProgram → ℤ → Option IdempotencyKey → LoyaltyDb → Result LoyaltyDb
adjust_points business k program delta key db = do
  raise_when (eqb_ℤ delta (pos 0)) zero_adjustment
  c ← lock_customer business k db
  raise_when (ltb_ℤ (c.loyalty_points_balance +ℤ delta) (pos 0)) insufficient_points_for_adjustment
  done (
      post_points business k c delta
        (tier_under program (c.loyalty_points_balance +ℤ delta) c.loyalty_tier)
        c.loyalty_points_expire_at none adjust key db)
