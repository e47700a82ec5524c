-- ===== src/Loyalty/GivingBack.antt =====
-- A redemption given back (backend/app/loyalty/engine.py, reverse_redemption).
use nextgen_backend.Prelude.{
  ℕ, ◌≡◌, refl, sym, ap, ◌∙◌, inl, inr, Bool, true, false, ◌&&◌, Option, some, List, [], ◌∷◌, ◌++◌,
  arith, ◌==◌, if◌then◌else◌, find, Bool-cases, keep, keep-append, exists, ◌≢◌,
}
use nextgen_backend.Prelude.Int.{ℤ, pos, ◌+ℤ◌, neg, neg-neg, int_laws}
use nextgen_backend.Loyalty.{
  Customer, Tier, TransactionType, redeem, adjust, IdempotencyKey, LoyaltyTransaction, LoyaltyDb,
  LoyaltyProgram, LoyaltyReward, post_points, lock_customer, compute_tier, redeem_reward,
  reverse_redemption, give_back, redeem_of, reversal_of, entry, is_customer, program_of, tier_under,
  LoyaltyError, redeem_key, redeem_reversal_key,
}
use nextgen_backend.Loyalty.Audit.{
  balance_at, post_points-moves, lock_customer_found, find-write_self, find_sound,
}
use nextgen_backend.Loyalty.Redemption.{redeem_reward-Accepted}
use mathlib.Core.Bool.{false≢true}
use nextgen_backend.Prelude.Result.{done, raised, >>=-eq-done}

keep_none {ℓ} : {A : Type ℓ} (p : A → Bool) (xs : List A) → exists p xs ≡ false → keep p xs ≡ []
keep_none p [] h = refl
keep_none p (x ∷ xs) h = elim (Bool-cases (p x)) [
  | inl e ↦ absurd (false≢true (sym (rw e at h)))
  | inr e ↦ rw e (keep_none p xs (rw e at h))
]

keep_skip {ℓ} :
    {A : Type ℓ} (p : A → Bool) (xs : List A) {x : A}
    → p x ≡ false
    → keep p (xs ++ x ∷ []) ≡ keep p xs
keep_skip p [] h = rw h refl
keep_skip p (y ∷ ys) {x} h = rw (keep_skip p ys {x = x} h) refl

abbrev redeem_row : ℕ → ℕ → Customer → ℤ → ℕ → LoyaltyTransaction
redeem_row business k c delta order =
    entry business k (some order) redeem delta (c.loyalty_points_balance +ℤ delta)
      (some (redeem_key order))

rows_after :
    (business k : ℕ) (c : Customer) (delta : ℤ) (tier : Tier) (expire : Option ℕ) (order : ℕ)
    (db : LoyaltyDb)
    → exists (redeem_of business order) db.transactions ≡ false
    → exists (reversal_of business order) db.transactions ≡ false
    → let new =
        post_points business k c delta tier expire
          (some order)
          redeem
          (some (redeem_key order))
          db in
      (keep (redeem_of business order) new.transactions ≡ redeem_row business k c delta order ∷ [])
      × (keep (reversal_of business order) new.transactions ≡ [])
unfolding post_points
rows_after business k c delta tier expire order db no_redeem no_reversal = (
  keep-append (redeem_of business order) db.transactions _
      ∙ rw (keep_none (redeem_of business order) db.transactions no_redeem) (ground arith),
  keep-append (reversal_of business order) db.transactions _
      ∙ rw (keep_none (reversal_of business order) db.transactions no_reversal) (ground arith),
)

lock_found :
    (business k : ℕ) (c : Customer) (db : LoyaltyDb)
    → find (is_customer business k) db.customers ≡ some c
    → lock_customer business k db ≡ done c
unfolding lock_customer
lock_found business k c db e = ground arith

lock_after :
    (business k : ℕ) (c : Customer) (delta : ℤ) (tier : Tier) (expire order : Option ℕ)
    (kind : TransactionType) (key : Option IdempotencyKey) (db : LoyaltyDb)
    → lock_customer business k db ≡ done c
    → (c' : Customer) × (lock_customer business k
          (post_points business k c delta tier expire order kind key db)
        ≡ done c')
unfolding post_points
lock_after business k c delta tier expire order kind key db locked =
    let found = lock_customer_found business k c db locked in
    let mine = find_sound (is_customer business k) db.customers found in
    let new : Customer = record c {
      loyalty_points_balance = c.loyalty_points_balance +ℤ delta;
      loyalty_tier = tier;
      loyalty_points_expire_at = expire;
    } in
    (
      new,
      lock_found business k new (post_points business k c delta tier expire order kind key db)
          (find-write_self business k new db.customers found mine),
    )

-- A redemption row with no reversal is given back in full.
given_back :
    (business order : ℕ) (t : LoyaltyTransaction) (c : Customer) (db : LoyaltyDb)
    → keep (redeem_of business order) db.transactions ≡ t ∷ []
    → keep (reversal_of business order) db.transactions ≡ []
    → lock_customer business t.customer_id db ≡ done c
    → (restored : LoyaltyDb) × (reverse_redemption business order db
        ≡ done (neg t.points_delta, restored))
      × ((b' k' : ℕ)
          → balance_at b' k' restored
            ≡ balance_at b' k' db
              +ℤ (if business == b' && t.customer_id == k' then neg t.points_delta else pos 0))
unfolding reverse_redemption give_back
given_back business order t c db redeemed fresh locked =
    let points = neg t.points_delta in
    let tier =
      tier_under (program_of business db) (c.loyalty_points_balance +ℤ points) c.loyalty_tier in
    let key = some (redeem_reversal_key order) in
    (
      post_points business t.customer_id c points tier c.loyalty_points_expire_at (some order)
          adjust key db,
      rw (redeemed, fresh, locked) refl,
      λ b' k'.
          (post_points-moves business t.customer_id c points tier c.loyalty_points_expire_at
            (some order) adjust key db b' k' locked).0,
    )

back_if :
    (mine : Bool) (balance cost : ℤ)
    → (balance +ℤ (if mine then neg cost else pos 0)) +ℤ (if mine then neg (neg cost) else pos 0)
      ≡ balance
back_if true balance cost = rw (neg-neg cost) (grind int_laws)
back_if false balance cost = grind int_laws

-- An accepted redemption for an order that has neither a redemption nor a reversal yet can be
-- given back: exactly the points of the reward return, and every customer of every business then
-- has the balance from before the redemption.
pub redeem_then_reverse :
    (business k : ℕ) (reward : LoyaltyReward) (program : LoyaltyProgram) (order : ℕ)
    (db new : LoyaltyDb)
    → exists (redeem_of business order) db.transactions ≡ false
    → exists (reversal_of business order) db.transactions ≡ false
    → redeem_reward business k reward program (some order) db ≡ done new
    → (restored : LoyaltyDb) × (reverse_redemption business order new
        ≡ done (reward.points_cost, restored))
      × ((b' k' : ℕ) → balance_at b' k' restored ≡ balance_at b' k' db)
redeem_then_reverse business k reward program order db new no_redeem no_reversal redeemed =
    let cost = reward.points_cost in
    let (c, locked, _, _, _, _, posted) =
      redeem_reward-Accepted business k reward program (some order) db new redeemed in
    let tier = compute_tier (c.loyalty_points_balance +ℤ neg cost) program in
    let expire = c.loyalty_points_expire_at in
    let key = some (redeem_key order) in
    let after = post_points business k c (neg cost) tier expire (some order) redeem key db in
    let rows = rows_after business k c (neg cost) tier expire order db no_redeem no_reversal in
    let (c', relocked) =
      lock_after business k c (neg cost) tier expire (some order) redeem key db locked in
    let moves = λ (b' : ℕ) (k' : ℕ).
      (post_points-moves business k c (neg cost) tier expire (some order) redeem key db b' k'
        locked).0 in
    let (restored, reversed, back) =
      given_back business order (redeem_row business k c (neg cost) order) c' after rows.0 rows.1
        relocked in
    (
      restored,
      ap (reverse_redemption business order) posted
          ∙ reversed
          ∙ ap (λ points. done (points, restored)) (neg-neg cost),
      λ b' k'.
          back b' k'
          ∙ ap (λ x. x +ℤ (if business == b' && k == k' then neg (neg cost) else pos 0))
              (moves b' k')
          ∙ back_if (business == b' && k == k') (balance_at b' k' db) cost,
    )

rows_after_reversal :
    (business order k : ℕ) (c : Customer) (points : ℤ) (tier : Tier) (expire : Option ℕ)
    (db : LoyaltyDb)
    → keep (reversal_of business order) db.transactions ≡ []
    → let new =
        post_points business k c points tier expire
          (some order)
          adjust
          (some (redeem_reversal_key order))
          db in
      (keep (redeem_of business order) new.transactions
        ≡ keep (redeem_of business order) db.transactions)
      × ((t : LoyaltyTransaction) × (keep (reversal_of business order) new.transactions ≡ t ∷ []))
unfolding post_points
rows_after_reversal business order k c points tier expire db fresh = (
  keep_skip (redeem_of business order) db.transactions (ground arith),
  (
    entry business k (some order) adjust points (c.loyalty_points_balance +ℤ points)
        (some (redeem_reversal_key order)),
    keep-append (reversal_of business order) db.transactions _ ∙ rw fresh (ground arith),
  ),
)

already_given_back :
    (business order : ℕ) (t u : LoyaltyTransaction) (db : LoyaltyDb)
    → keep (redeem_of business order) db.transactions ≡ t ∷ []
    → keep (reversal_of business order) db.transactions ≡ u ∷ []
    → reverse_redemption business order db ≡ done (pos 0, db)
unfolding reverse_redemption
already_given_back business order t u db e h = rw (e, h) refl

give_back_again :
    (business order : ℕ) (t : LoyaltyTransaction) (db new : LoyaltyDb) (points : ℤ)
    → keep (redeem_of business order) db.transactions ≡ t ∷ []
    → keep (reversal_of business order) db.transactions ≡ []
    → give_back business order t db ≡ done (points, new)
    → reverse_redemption business order new ≡ done (pos 0, new)
unfolding give_back
give_back_again business order t db new points redeemed fresh e =
    let (c, locked, made) = >>=-eq-done (lock_customer business t.customer_id db) _ e in
    let back = neg t.points_delta in
    let tier =
      tier_under (program_of business db) (c.loyalty_points_balance +ℤ back) c.loyalty_tier in
    let expire = c.loyalty_points_expire_at in
    let after =
      post_points business t.customer_id c back tier expire (some order) adjust
        (some (redeem_reversal_key order)) db in
    let same : after ≡ new = cc in
    let rows = rows_after_reversal business order t.customer_id c back tier expire db fresh in
    rw (← same) (already_given_back business order t rows.1.0 after (rows.0 ∙ redeemed) rows.1.1)

idle_again :
    (business order : ℕ) (db new : LoyaltyDb) (points : ℤ)
    → reverse_redemption business order db ≡ done (pos 0, db)
    → reverse_redemption business order db ≡ done (points, new)
    → reverse_redemption business order new ≡ done (pos 0, new)
idle_again business order db new points idle e = let same : db ≡ new = cc in rw (← same) idle

raised≢done {ℓ} : {A : Type ℓ} {e : LoyaltyError} {a : A} → raised e ≢ done a
raised≢done = λ h. cc

reverse_again :
    (business order : ℕ) (rows reversals : List LoyaltyTransaction) (db new : LoyaltyDb)
    (points : ℤ)
    → keep (redeem_of business order) db.transactions ≡ rows
    → keep (reversal_of business order) db.transactions ≡ reversals
    → reverse_redemption business order db ≡ done (points, new)
    → reverse_redemption business order new ≡ done (pos 0, new)
unfolding reverse_redemption
reverse_again business order [] us db new points r u e =
    idle_again business order db new points (rw r refl) e
reverse_again business order (t ∷ []) [] db new points r u e =
    give_back_again business order t db new points r u (rw (r, u) at e)
reverse_again business order (t ∷ []) (v ∷ []) db new points r u e =
    idle_again business order db new points (rw (r, u) refl) e
reverse_again business order (t ∷ []) (v ∷ w ∷ us) db new points r u e =
    absurd (raised≢done (rw (r, u) at e))
reverse_again business order (t ∷ s ∷ ts) us db new points r u e = absurd (raised≢done (rw r at e))

-- Giving back a second time gives nothing: after a reversal that succeeded, another one returns 0
-- points and leaves every table as it is.
pub reverse_redemption-idempotent :
    (business order : ℕ) (db new : LoyaltyDb) (points : ℤ)
    → reverse_redemption business order db ≡ done (points, new)
    → reverse_redemption business order new ≡ done (pos 0, new)
reverse_redemption-idempotent business order db new points =
    reverse_again business order _ _ db new points refl refl
