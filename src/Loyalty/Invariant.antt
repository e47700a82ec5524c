-- ===== src/Loyalty/Invariant.antt =====
-- Histories of loyalty operations (backend/app/loyalty/engine.py): the step relation and what
-- every reachable state of the tables satisfies.
use nextgen_backend.Prelude.{ℕ, ◌≡◌, Option}
use nextgen_backend.Prelude.Int.{ℤ, pos, ◌≤ℤ◌}
use nextgen_backend.Loyalty.{
  IdempotencyKey, LoyaltyDb, LoyaltyProgram, LoyaltyReward, OrderRef, redeem_reward,
  reverse_redemption, adjust_points, award_loyalty_points_if_enabled,
}
use nextgen_backend.Loyalty.Soundness.{IsSound}
use nextgen_backend.Loyalty.Preservation.{
  redeem_reward-IsSound, adjust_points-IsSound, reverse_redemption-IsSound, award-IsSound,
}
use nextgen_backend.Prelude.Result.{done}

-- One operation of the engine on the tables. A reward costs no negative number of points.
pub data Step (db : LoyaltyDb) : LoyaltyDb → Type 0 where
  awarded :
      (now business : ℕ) (order : OrderRef)
      → Step db (award_loyalty_points_if_enabled now business order db)
  redeemed :
      (business k : ℕ) (reward : LoyaltyReward) (program : LoyaltyProgram) (order : Option ℕ)
      {new : LoyaltyDb}
      → pos 0 ≤ℤ reward.points_cost
      → redeem_reward business k reward program order db ≡ done new
      → Step db new
  given_back :
      (business order : ℕ) {points : ℤ} {new : LoyaltyDb}
      → reverse_redemption business order db ≡ done (points, new)
      → Step db new
  adjusted :
      (business k : ℕ) (program : Option LoyaltyProgram) (delta : ℤ) (key : Option IdempotencyKey)
      {new : LoyaltyDb}
      → adjust_points business k program delta key db ≡ done new
      → Step db new

pub data Reach (db : LoyaltyDb) : LoyaltyDb → Type 0 where
  here : Reach db db
  next : {mid new : LoyaltyDb} → Reach db mid → Step mid new → Reach db new

-- Every operation of the engine keeps the tables sound.
pub Step-IsSound : (db new : LoyaltyDb) → Step db new → IsSound db → IsSound new
Step-IsSound db new (awarded now business order) h = award-IsSound now business order db h
Step-IsSound db new (redeemed business k reward program order cost e) h =
    redeem_reward-IsSound business k reward program order db new cost e h
Step-IsSound db new (given_back business order {points = points} e) h =
    reverse_redemption-IsSound business order db new points e h
Step-IsSound db new (adjusted business k program delta key e) h =
    adjust_points-IsSound business k program delta key db new e h

-- From sound tables, every history of awards, redemptions, reversals and corrections leads to
-- tables whose ledger explains every balance and where no balance is negative.
pub Reach-IsSound : (db new : LoyaltyDb) → Reach db new → IsSound db → IsSound new
Reach-IsSound db _ here h = h
Reach-IsSound db new (next {mid = mid} past last) h =
    Step-IsSound mid new last (Reach-IsSound db mid past h)
