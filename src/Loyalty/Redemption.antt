-- ===== src/Loyalty/Redemption.antt =====
-- Redeeming a reward (backend/app/loyalty/engine.py, redeem_reward and
-- redeem_reward_for_checkout).
use nextgen_backend.Prelude.{
  ℕ, ◌≡◌, refl, ap, ◌∙◌, Bool, true, false, not, ◌&&◌, Option, none, some, arith, ◌==◌,
  if◌then◌else◌,
}
use nextgen_backend.Prelude.Int.{ℤ, pos, ◌+ℤ◌, ◌-ℤ◌, ◌≤ℤ◌, neg, ltb_ℤ, min_ℤ, max_ℤ, int_laws}
use nextgen_backend.Loyalty.{
  Customer, redeem, LoyaltyDb, LoyaltyProgram, LoyaltyReward, CheckoutRedemption, post_points,
  lock_customer, compute_tier, redeem_reward, redeem_reward_for_checkout, redeem_for_value,
  redeem_key,
}
use nextgen_backend.Loyalty.Audit.{balance_at, post_points-moves, lock_customer_found}
use nextgen_backend.Prelude.Result.{done, raise_when, >>=-eq-done}

-- What an accepted redemption has checked, and what it has done.
abbrev pub Accepted :
    ℕ → ℕ → LoyaltyReward → LoyaltyProgram → Option ℕ → LoyaltyDb → LoyaltyDb → Type 0
Accepted business k reward program order db new =
    (c : Customer) × (lock_customer business k db ≡ done c)
    × (program.is_enabled ≡ true)
    × (reward.is_active ≡ true)
    × (program.min_redemption_points ≤ℤ c.loyalty_points_balance)
    × (reward.points_cost ≤ℤ c.loyalty_points_balance)
    × (new
        ≡ post_points business k c (neg reward.points_cost)
            (compute_tier (c.loyalty_points_balance +ℤ neg reward.points_cost) program)
            c.loyalty_points_expire_at order redeem
            (elim order [ none ↦ none | some o ↦ some (redeem_key o) ]) db)

pub redeem_reward-Accepted :
    (business k : ℕ) (reward : LoyaltyReward) (program : LoyaltyProgram) (order : Option ℕ)
    (db new : LoyaltyDb)
    → redeem_reward business k reward program order db ≡ done new
    → Accepted business k reward program order db new
unfolding redeem_reward
redeem_reward-Accepted business k reward program order db new e =
    let (_, enabled, e1) = >>=-eq-done (raise_when (not program.is_enabled) _) _ e in
    let (_, active, e2) = >>=-eq-done (raise_when (not reward.is_active) _) _ e1 in
    let (c, locked, e3) = >>=-eq-done (lock_customer business k db) _ e2 in
    let (_, above_min, e4) =
      >>=-eq-done (raise_when (ltb_ℤ c.loyalty_points_balance program.min_redemption_points) _) _
        e3 in
    let (_, enough, e5) =
      >>=-eq-done (raise_when (ltb_ℤ c.loyalty_points_balance reward.points_cost) _) _ e4 in
    (c, locked, ground arith, ground arith, ground arith, ground arith, cc)

pub balance_locked :
    (business k : ℕ) (c : Customer) (db : LoyaltyDb)
    → lock_customer business k db ≡ done c
    → balance_at business k db ≡ c.loyalty_points_balance
balance_locked business k c db e = rw (lock_customer_found business k c db e) refl

minus_if :
    (mine : Bool) (balance cost : ℤ)
    → balance +ℤ (if mine then neg cost else pos 0) ≡ balance -ℤ (if mine then cost else pos 0)
minus_if true balance cost = grind int_laws
minus_if false balance cost = grind int_laws

-- A redemption goes through only for an enabled programme, an active reward and a known customer
-- whose balance reaches both the minimum and the cost; it then takes exactly the cost from that
-- customer's balance, and nothing from any other customer's.
pub redeem_reward-takes_cost :
    (business k : ℕ) (reward : LoyaltyReward) (program : LoyaltyProgram) (order : Option ℕ)
    (db new : LoyaltyDb) (b' k' : ℕ)
    → redeem_reward business k reward program order db ≡ done new
    → (program.is_enabled ≡ true)
      × (reward.is_active ≡ true)
      × (program.min_redemption_points ≤ℤ balance_at business k db)
      × (reward.points_cost ≤ℤ balance_at business k db)
      × (balance_at b' k' new
          ≡ balance_at b' k' db
            -ℤ (if business == b' && k == k' then reward.points_cost else pos 0))
redeem_reward-takes_cost business k reward program order db new b' k' e =
    let (c, locked, enabled, active, above_min, enough, posted) =
      redeem_reward-Accepted business k reward program order db new e in
    let moves =
      post_points-moves business k c (neg reward.points_cost)
        (compute_tier (c.loyalty_points_balance +ℤ neg reward.points_cost) program)
        c.loyalty_points_expire_at order redeem
        (elim order [ none ↦ none | some o ↦ some (redeem_key o) ]) db b' k' locked in
    (
      enabled,
      active,
      rw (balance_locked business k c db locked) above_min,
      rw (balance_locked business k c db locked) enough,
      rw posted
          (moves.0 ∙ minus_if (business == b' && k == k') (balance_at b' k' db) reward.points_cost),
    )

clamp_bounds :
    (value most : ℤ)
    → pos 0 ≤ℤ value
    → let discount = min_ℤ value (max_ℤ (pos 0) most) in
      (pos 0 ≤ℤ discount) × (discount ≤ℤ value) × (discount ≤ℤ max_ℤ (pos 0) most)
clamp_bounds value most h = ground arith

-- At the till, for a reward whose value is not negative, the discount and the shortfall add up to
-- the value, neither is below zero, and the discount is at most what may be discounted; the full
-- cost is charged, as by a plain redemption for this order.
pub checkout_clamped :
    (business k : ℕ) (reward : LoyaltyReward) (program : LoyaltyProgram) (order : ℕ)
    (max_discountable value : ℤ) (db new : LoyaltyDb) (r : CheckoutRedemption)
    → redeem_reward_for_checkout business k reward program order max_discountable db ≡ done (r, new)
    → reward.value_cents ≡ some value
    → pos 0 ≤ℤ value
    → (r.discount_cents +ℤ r.shortfall_cents ≡ value)
      × (pos 0 ≤ℤ r.discount_cents)
      × (pos 0 ≤ℤ r.shortfall_cents)
      × (r.discount_cents ≤ℤ max_ℤ (pos 0) max_discountable)
      × (r.points_cost ≡ reward.points_cost)
      × (redeem_reward business k reward program (some order) db ≡ done new)
unfolding redeem_reward_for_checkout redeem_for_value
checkout_clamped business k reward program order most value db new r e v h =
    let past : redeem_for_value business k reward program order most value db ≡ done (r, new) =
      ground (arith, v) in
    let (after, redeemed, made) =
      >>=-eq-done (redeem_reward business k reward program (some order) db) _ past in
    let same : after ≡ new = cc in
    let discount : r.discount_cents ≡ min_ℤ value (max_ℤ (pos 0) most) = cc in
    let shortfall : r.shortfall_cents ≡ value -ℤ min_ℤ value (max_ℤ (pos 0) most) = cc in
    let bounds = clamp_bounds value most h in
    (
      rw (discount, shortfall) (omega int_laws),
      rw discount bounds.0,
      rw shortfall (omega (int_laws, bounds.1)),
      rw discount bounds.2,
      cc,
      redeemed ∙ ap done same,
    )
