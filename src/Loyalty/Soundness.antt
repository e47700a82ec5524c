-- ===== src/Loyalty/Soundness.antt =====
-- Sound loyalty tables, and one posting on them (backend/app/loyalty/engine.py).
use nextgen_backend.Prelude.{
  ℕ, ◌≡◌, refl, Bool, true, false, ◌&&◌, Option, List, [], ◌∷◌, ◌++◌, arith, ◌==◌, if◌then◌else◌,
  All,
}
use nextgen_backend.Prelude.Int.{ℤ, pos, ◌+ℤ◌, ◌≤ℤ◌, neg, int_laws}
use nextgen_backend.Loyalty.{
  Customer, Tier, TransactionType, IdempotencyKey, LoyaltyTransaction, LoyaltyDb, post_points,
  lock_customer, is_redeem,
}
use nextgen_backend.Loyalty.Audit.{balance_at, Explained, post_points-moves, post_points-Explained}
use nextgen_backend.Loyalty.Redemption.{balance_locked}
use nextgen_backend.Prelude.Result.{done}

-- A redemption row takes points.
abbrev pub Spends : LoyaltyTransaction → Type 0
Spends t = is_redeem t.transaction_type ≡ true → t.points_delta ≤ℤ pos 0

-- Every balance is explained by the ledger and is not negative, and no redemption row adds points.
abbrev pub IsSound : LoyaltyDb → Type 0
IsSound db =
    Explained db
    × ((business k : ℕ) → pos 0 ≤ℤ balance_at business k db)
    × All Spends db.transactions

pub All-append {ℓ κ} :
    {A : Type ℓ} (P : A → Type κ) (xs ys : List A) → All P xs → All P ys → All P (xs ++ ys)
All-append P [] ys h k = k
All-append P (x ∷ xs) ys (h, hs) k = (h, All-append P xs ys hs k)

moved_nonneg :
    (mine : Bool) (balance delta : ℤ)
    → pos 0 ≤ℤ balance
    → (mine ≡ true → pos 0 ≤ℤ balance +ℤ delta)
    → pos 0 ≤ℤ balance +ℤ (if mine then delta else pos 0)
moved_nonneg true balance delta h k = k refl
moved_nonneg false balance delta h k = omega (int_laws, h)

covered :
    (business k : ℕ) (c : Customer) (delta : ℤ) (db : LoyaltyDb) (b' k' : ℕ)
    → lock_customer business k db ≡ done c
    → pos 0 ≤ℤ c.loyalty_points_balance +ℤ delta
    → (business == b' && k == k') ≡ true
    → pos 0 ≤ℤ balance_at b' k' db +ℤ delta
covered business k c delta db b' k' locked enough same =
    let ids : (business ≡ b') × (k ≡ k') = ground arith in
    rw (← ids.0, ← ids.1, balance_locked business k c db locked) enough

pub post_points-IsSound :
    (business k : ℕ) (c : Customer) (delta : ℤ) (tier : Tier) (expire order : Option ℕ)
    (kind : TransactionType) (key : Option IdempotencyKey) (db : LoyaltyDb)
    → lock_customer business k db ≡ done c
    → pos 0 ≤ℤ c.loyalty_points_balance +ℤ delta
    → (is_redeem kind ≡ true → delta ≤ℤ pos 0)
    → IsSound db
    → IsSound (post_points business k c delta tier expire order kind key db)
unfolding post_points
post_points-IsSound business k c delta tier expire order kind key db locked enough spends
      (explained, nonneg, rows) =
    (
      post_points-Explained business k c delta tier expire order kind key db locked explained,
      λ b' k'.
          rw (post_points-moves business k c delta tier expire order kind key db b' k' locked).0 (
            moved_nonneg (business == b' && k == k') (balance_at b' k' db) delta (nonneg b' k')
              (covered business k c delta db b' k' locked enough)),
      All-append Spends db.transactions _ rows (spends, tt),
    )

pub covers_cost : (balance cost : ℤ) → cost ≤ℤ balance → pos 0 ≤ℤ balance +ℤ neg cost
covers_cost balance cost h = grind (int_laws, h)

pub neg_nonpos : (cost : ℤ) → pos 0 ≤ℤ cost → neg cost ≤ℤ pos 0
neg_nonpos cost h = ground arith

pub neg_nonneg : (cost : ℤ) → cost ≤ℤ pos 0 → pos 0 ≤ℤ neg cost
neg_nonneg cost h = ground arith

pub sum_nonneg : (a b : ℤ) → pos 0 ≤ℤ a → pos 0 ≤ℤ b → pos 0 ≤ℤ a +ℤ b
sum_nonneg a b h k = omega (int_laws, h, k)

pub not_redeem : {P : Type 0} → false ≡ true → P
not_redeem = λ e. cc

pub locked_nonneg :
    (business k : ℕ) (c : Customer) (db : LoyaltyDb)
    → lock_customer business k db ≡ done c
    → IsSound db
    → pos 0 ≤ℤ c.loyalty_points_balance
locked_nonneg business k c db locked (_, nonneg, _) =
    rw (← balance_locked business k c db locked) (nonneg business k)
