-- ===== src/Loyalty/Examples.antt =====
-- Runs of the loyalty engine (backend/app/loyalty/engine.py): customer 7 of business 1.
use nextgen_backend.Prelude.{
  ℕ, ◌≡◌, refl, true, false, none, some, [], ◌∷◌, arith, ◌==◌, ◌&&◌, if◌then◌else◌,
}
use nextgen_backend.Prelude.Int.{pos, negsuc, ◌+ℤ◌, ◌-ℤ◌, ◌*ℤ◌, ◌≤ℤ◌, max_ℤ}
use nextgen_backend.Loyalty.{
  Customer, bronze, LoyaltyProgram, LoyaltyReward, LoyaltyDb, OrderRef, CheckoutRedemption,
  award_loyalty_points_if_enabled, award_points_for_paid_order, redeem_reward,
  redeem_reward_for_checkout, redeem_for_value, reverse_redemption, post_points, lock_customer,
  write_customer, compute_tier, earned_points, is_double_points_active, entry, give_back, earn,
  redeem, adjust, redeem_key, redeem_reversal_key,
}
use nextgen_backend.Loyalty.Audit.{balance_at}
use nextgen_backend.Loyalty.Redemption.{redeem_reward-takes_cost, checkout_clamped}
use nextgen_backend.Loyalty.GivingBack.{redeem_then_reverse, reverse_redemption-idempotent}
use nextgen_backend.Loyalty.Invariant.{here, next, awarded, Reach-IsSound}
use nextgen_backend.Loyalty.Soundness.{IsSound}
use nextgen_backend.Prelude.Result.{done}

abbrev program : LoyaltyProgram
program = record {
  business_id = 1;
  is_enabled = true;
  points_per_rand = pos 1;
  points_per_order = pos 5;
  points_expiry_days = none;
  min_redemption_points = pos 10;
  silver_tier_points = pos 500;
  gold_tier_points = pos 1_000;
  double_points_promo_active = false;
  double_points_promo_starts_at = none;
  double_points_promo_ends_at = none;
}

abbrev coffee : LoyaltyReward
coffee = record {
  name = "Coffee";
  points_cost = pos 50;
  is_active = true;
  value_cents = some (pos 3_500);
}

abbrev empty_account : LoyaltyDb
empty_account = record {
  customers =
      record {
        id = 7;
        business_id = 1;
        loyalty_points_balance = pos 0;
        loyalty_tier = bronze;
        loyalty_points_expire_at = none;
      }
      ∷ [];
  transactions = [];
  programs = program ∷ [];
}

abbrev lunch : OrderRef
lunch = record { id = some 500; customer_id = some 7; total_cents = pos 12_000 }

abbrev after_lunch : LoyaltyDb
after_lunch = award_loyalty_points_if_enabled 1_000 1 lunch empty_account

lunch_points : balance_at 1 7 after_lunch ≡ pos 125
unfolding award_loyalty_points_if_enabled award_points_for_paid_order earned_points ◌*ℤ◌ ◌+ℤ◌
    is_double_points_active lock_customer post_points write_customer
lunch_points = refl

IsSound-empty_account : IsSound empty_account
IsSound-empty_account = (λ business k. ground arith, λ business k. ground arith, tt)

Reach-IsSound_example : IsSound after_lunch
Reach-IsSound_example =
    Reach-IsSound empty_account after_lunch (next here (awarded 1_000 1 lunch))
      IsSound-empty_account

-- The same customer with points in hand.
abbrev jane : Customer
jane = record {
  id = 7;
  business_id = 1;
  loyalty_points_balance = pos 125;
  loyalty_tier = bronze;
  loyalty_points_expire_at = none;
}

abbrev member : LoyaltyDb
member = record {
  customers = jane ∷ [];
  transactions = entry 1 7 (some 400) earn (pos 125) (pos 125) none ∷ [];
  programs = program ∷ [];
}

abbrev after_coffee : LoyaltyDb
after_coffee =
    post_points 1 7 jane (negsuc 49) bronze none (some 500) redeem (some (redeem_key 500)) member

coffee_redeemed : redeem_reward 1 7 coffee program (some 500) member ≡ done after_coffee
unfolding redeem_reward lock_customer compute_tier ◌+ℤ◌
coffee_redeemed = refl

redeem_reward-takes_cost_example :
    (program.is_enabled ≡ true)
    × (coffee.is_active ≡ true)
    × (program.min_redemption_points ≤ℤ balance_at 1 7 member)
    × (coffee.points_cost ≤ℤ balance_at 1 7 member)
    × (balance_at 1 7 after_coffee
        ≡ balance_at 1 7 member -ℤ (if 1 == 1 && 7 == 7 then coffee.points_cost else pos 0))
redeem_reward-takes_cost_example =
    redeem_reward-takes_cost 1 7 coffee program (some 500) member after_coffee 1 7 coffee_redeemed

redeem_then_reverse_example :
    (restored : LoyaltyDb) × (reverse_redemption 1 500 after_coffee
      ≡ done (coffee.points_cost, restored))
    × ((b' k' : ℕ) → balance_at b' k' restored ≡ balance_at b' k' member)
redeem_then_reverse_example =
    redeem_then_reverse 1 7 coffee program 500 member after_coffee refl refl coffee_redeemed

abbrev given_back : LoyaltyDb
given_back =
    post_points 1 7 (record jane { loyalty_points_balance = pos 75 }) (pos 50) bronze none
      (some 500) adjust (some (redeem_reversal_key 500)) after_coffee

coffee_given_back : reverse_redemption 1 500 after_coffee ≡ done (pos 50, given_back)
unfolding reverse_redemption give_back post_points write_customer lock_customer compute_tier ◌+ℤ◌
coffee_given_back = refl

reverse_redemption-idempotent_example :
    reverse_redemption 1 500 given_back ≡ done (pos 0, given_back)
reverse_redemption-idempotent_example =
    reverse_redemption-idempotent 1 500 after_coffee given_back (pos 50) coffee_given_back

abbrev at_till : CheckoutRedemption
at_till = record {
  discount_cents = pos 2_000;
  points_cost = pos 50;
  shortfall_cents = pos 1_500;
  reward_name = "Coffee";
}

till_redemption :
    redeem_reward_for_checkout 1 7 coffee program 500 (pos 2_000) member
    ≡ done (at_till, after_coffee)
unfolding redeem_reward_for_checkout redeem_for_value ◌-ℤ◌ ◌+ℤ◌
till_redemption = rw coffee_redeemed refl

checkout_clamped_example :
    (at_till.discount_cents +ℤ at_till.shortfall_cents ≡ pos 3_500)
    × (pos 0 ≤ℤ at_till.discount_cents)
    × (pos 0 ≤ℤ at_till.shortfall_cents)
    × (at_till.discount_cents ≤ℤ max_ℤ (pos 0) (pos 2_000))
    × (at_till.points_cost ≡ coffee.points_cost)
    × (redeem_reward 1 7 coffee program (some 500) member ≡ done after_coffee)
checkout_clamped_example =
    checkout_clamped 1 7 coffee program 500 (pos 2_000) (pos 3_500) member after_coffee at_till
      till_redemption refl (omega arith)
