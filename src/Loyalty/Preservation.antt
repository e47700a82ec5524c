-- ===== src/Loyalty/Preservation.antt =====
-- The engine's operations on sound tables (backend/app/loyalty/engine.py).
use nextgen_backend.Prelude.{
  ℕ, ◌≡◌, refl, inl, inr, Bool, true, not, ◌||◌, Option, none, some, List, [], ◌∷◌, arith, ◌==◌,
  find, Bool-cases, keep, All, Option-cases, is_some,
}
use nextgen_backend.Prelude.Int.{ℤ, pos, ◌+ℤ◌, ◌≤ℤ◌, neg, leb_ℤ, ltb_ℤ, eqb_ℤ}
use nextgen_backend.Loyalty.{
  earn, redeem, adjust, IdempotencyKey, LoyaltyTransaction, LoyaltyDb, LoyaltyProgram,
  LoyaltyReward, Result, OrderRef, post_points, lock_customer, compute_tier, redeem_reward,
  reverse_redemption, give_back, adjust_points, award_loyalty_points_if_enabled,
  award_points_for_paid_order, redeem_of, reversal_of, one_or_none, earned_points, expiry,
  program_of, tier_under, keep_on_error, insufficient_points_for_adjustment, award_under,
  redeem_key, redeem_reversal_key,
}
use nextgen_backend.Loyalty.Redemption.{redeem_reward-Accepted}
use mathlib.Core.Path.{subst}
use nextgen_backend.Loyalty.Soundness.{
  Spends, post_points-IsSound, covers_cost, neg_nonpos, neg_nonneg, sum_nonneg, not_redeem,
  locked_nonneg, IsSound,
}
use nextgen_backend.Prelude.Result.{done, raised, raise_when, >>=-eq-done}

pub redeem_reward-IsSound :
    (business k : ℕ) (reward : LoyaltyReward) (program : LoyaltyProgram) (order : Option ℕ)
    (db new : LoyaltyDb)
    → pos 0 ≤ℤ reward.points_cost
    → redeem_reward business k reward program order db ≡ done new
    → IsSound db
    → IsSound new
redeem_reward-IsSound business k reward program order db new cost e h =
    let (c, locked, _, _, _, enough, posted) =
      redeem_reward-Accepted business k reward program order db new e in
    rw posted (
      post_points-IsSound business k c (neg reward.points_cost)
        (compute_tier (c.loyalty_points_balance +ℤ neg reward.points_cost) program)
        c.loyalty_points_expire_at order redeem
        (elim order [ none ↦ none | some o ↦ some (redeem_key o) ]) db locked
        (covers_cost c.loyalty_points_balance reward.points_cost enough)
        (λ _. neg_nonpos reward.points_cost cost) h)

not_below :
    (balance : ℤ)
    → raise_when (ltb_ℤ balance (pos 0)) insufficient_points_for_adjustment ≡ done tt
    → pos 0 ≤ℤ balance
not_below balance e = ground arith

pub adjust_points-IsSound :
    (business k : ℕ) (program : Option LoyaltyProgram) (delta : ℤ) (key : Option IdempotencyKey)
    (db new : LoyaltyDb)
    → adjust_points business k program delta key db ≡ done new
    → IsSound db
    → IsSound new
unfolding adjust_points
adjust_points-IsSound business k program delta key db new e h =
    let (_, _, e1) = >>=-eq-done (raise_when (eqb_ℤ delta (pos 0)) _) _ e in
    let (c, locked, e2) = >>=-eq-done (lock_customer business k db) _ e1 in
    let (_, enough, e3) =
      >>=-eq-done (raise_when (ltb_ℤ (c.loyalty_points_balance +ℤ delta) (pos 0)) _) _ e2 in
    let tier = tier_under program (c.loyalty_points_balance +ℤ delta) c.loyalty_tier in
    let after = post_points business k c delta tier c.loyalty_points_expire_at none adjust key db in
    let same : after ≡ new = cc in
    rw (← same) (
      post_points-IsSound business k c delta tier c.loyalty_points_expire_at none adjust key db
        locked (not_below (c.loyalty_points_balance +ℤ delta) enough) not_redeem h)

kept {ℓ κ} :
    {A : Type ℓ} (P : A → Type κ) (p : A → Bool) (xs : List A)
    → All P xs
    → All (λ x. P x × (p x ≡ true)) (keep p xs)
kept P p [] h = tt
kept P p (x ∷ xs) (h, hs) = elim (Bool-cases (p x)) [
  | inl e ↦ rw e ((h, e), kept P p xs hs)
  | inr e ↦ rw e (kept P p xs hs)
]

one_row {ℓ} :
    {A : Type ℓ} (rows : List A) {t : A} → one_or_none rows ≡ done (some t) → rows ≡ t ∷ []
one_row [] e = cc
one_row (x ∷ []) e = cc
one_row (x ∷ y ∷ rest) e = cc

redeemed_spends :
    (business order : ℕ) (t : LoyaltyTransaction) (ts : List LoyaltyTransaction)
    → one_or_none (keep (redeem_of business order) ts) ≡ done (some t)
    → All Spends ts
    → t.points_delta ≤ℤ pos 0
redeemed_spends business order t ts e h =
    let rows : All (λ x. Spends x × (redeem_of business order x ≡ true)) (t ∷ []) =
      subst (λ rows. All (λ x. Spends x × (redeem_of business order x ≡ true)) rows)
        (one_row (keep (redeem_of business order) ts) e)
        (kept Spends (redeem_of business order) ts h) in
    let (spends, mine) = rows.0 in spends (ground arith)

give_back-IsSound :
    (business order : ℕ) (t : LoyaltyTransaction) (db new : LoyaltyDb) (points : ℤ)
    → t.points_delta ≤ℤ pos 0
    → give_back business order t db ≡ done (points, new)
    → IsSound db
    → IsSound new
unfolding give_back
give_back-IsSound business order t db new points spent e h =
    let (c, locked, made) = >>=-eq-done (lock_customer business t.customer_id db) _ e in
    let back = neg t.points_delta in
    let tier =
      tier_under (program_of business db) (c.loyalty_points_balance +ℤ back) c.loyalty_tier in
    let key = some (redeem_reversal_key order) in
    let after =
      post_points business t.customer_id c back tier c.loyalty_points_expire_at (some order) adjust
        key db in
    let same : after ≡ new = cc in
    rw (← same) (
      post_points-IsSound business t.customer_id c back tier c.loyalty_points_expire_at (some order)
        adjust key db locked
        (sum_nonneg c.loyalty_points_balance back
          (locked_nonneg business t.customer_id c db locked h) (neg_nonneg t.points_delta spent))
        not_redeem h)

unchanged :
    (db new : LoyaltyDb) (points : ℤ)
    → ◌≡◌ {A = Result (ℤ × LoyaltyDb)} (done (pos 0, db)) (done (points, new))
    → IsSound db
    → IsSound new
unchanged db new points e h = let same : db ≡ new = cc in rw (← same) h

pub reverse_redemption-IsSound :
    (business order : ℕ) (db new : LoyaltyDb) (points : ℤ)
    → reverse_redemption business order db ≡ done (points, new)
    → IsSound db
    → IsSound new
unfolding reverse_redemption
reverse_redemption-IsSound business order db new points e h =
    let (original, found, e1) =
      >>=-eq-done (one_or_none (keep (redeem_of business order) db.transactions)) _ e in
    elim (Option-cases original) [
      | inl missing ↦ unchanged db new points (rw missing at e1) h
      | inr (t, is_t) ↦
          let (already, looked, e2) =
            >>=-eq-done (one_or_none (keep (reversal_of business order) db.transactions)) _
              (rw is_t at e1) in
          elim (Option-cases already) [
            | inl fresh ↦
                give_back-IsSound business order t db new points
                  (redeemed_spends business order t db.transactions (rw is_t at found) h.2)
                  (rw fresh at e2) h
            | inr (u, is_u) ↦ unchanged db new points (rw is_u at e2) h
          ]
    ]

earned-IsSound :
    (now business k : ℕ) (order : OrderRef) (program : LoyaltyProgram) (db new : LoyaltyDb)
    (points : ℤ)
    → award_points_for_paid_order now business k order program db ≡ done (points, new)
    → IsSound db
    → IsSound new
unfolding award_points_for_paid_order
earned-IsSound now business k order program db new points e h =
    let earned = earned_points now program order.total_cents in
    elim (Bool-cases (not program.is_enabled || leb_ℤ earned (pos 0))) [
      | inl idle ↦ unchanged db new points (rw idle at e) h
      | inr active ↦
          let (c, locked, made) = >>=-eq-done (lock_customer business k db) _ (rw active at e) in
          let tier = compute_tier (c.loyalty_points_balance +ℤ earned) program in
          let expire = expiry program.points_expiry_days now c.loyalty_points_expire_at in
          let after = post_points business k c earned tier expire order.id earn none db in
          let same : after ≡ new = cc in
          rw (← same) (
            post_points-IsSound business k c earned tier expire order.id earn none db locked
              (sum_nonneg c.loyalty_points_balance earned (locked_nonneg business k c db locked h)
                (ground arith))
              not_redeem h)
    ]

kept_on_error-IsSound :
    (db : LoyaltyDb) (r : Result (ℤ × LoyaltyDb))
    → IsSound db
    → ((points : ℤ) (new : LoyaltyDb) → r ≡ done (points, new) → IsSound new)
    → IsSound (keep_on_error db r)
kept_on_error-IsSound db (done (points, new)) h k = k points new refl
kept_on_error-IsSound db (raised x) h k = h

award_under-IsSound :
    (now business : ℕ) (order : OrderRef) (db : LoyaltyDb) (customer : Option ℕ)
    (found : Option LoyaltyProgram)
    → IsSound db
    → IsSound (award_under now business order db customer found)
award_under-IsSound now business order db none found h = h
award_under-IsSound now business order db (some k) none h = h
award_under-IsSound now business order db (some k) (some program) h =
    let idle = not program.is_enabled || not (is_some (find (λ c. c.id == k) db.customers)) in
    elim (Bool-cases idle) [
      | inl e ↦ rw e h
      | inr e ↦ rw e (
          kept_on_error-IsSound db (award_points_for_paid_order now business k order program db) h
            (λ points new made. earned-IsSound now business k order program db new points made h))
    ]

pub award-IsSound :
    (now business : ℕ) (order : OrderRef) (db : LoyaltyDb)
    → IsSound db
    → IsSound (award_loyalty_points_if_enabled now business order db)
unfolding award_loyalty_points_if_enabled
award-IsSound now business order db h =
    award_under-IsSound now business order db order.customer_id (program_of business db) h
