-- ===== src/Loyalty/Audit.antt =====
-- The balance of a customer and the ledger of points (backend/app/loyalty/engine.py).
use nextgen_backend.Prelude.{
  ℕ, ◌≡◌, refl, ap, ◌∙◌, inl, inr, Bool, true, false, ◌&&◌, Option, none, some, List, [], ◌∷◌, ◌++◌,
  arith, ◌==◌, if◌then◌else◌, find, Bool-cases,
}
use nextgen_backend.Prelude.Int.{ℤ, pos, ◌+ℤ◌, int_laws}
use nextgen_backend.Loyalty.{
  Customer, Tier, TransactionType, IdempotencyKey, LoyaltyTransaction, LoyaltyDb, is_customer,
  write_customer, post_points, lock_customer,
}
use mathlib.Core.Option.{some-injective}
use nextgen_backend.Prelude.Result.{done}

-- The balance of a customer of a business; 0 for an unknown one.
abbrev balance_of : Option Customer → ℤ
balance_of none = pos 0
balance_of (some c) = c.loyalty_points_balance

abbrev pub balance_at : ℕ → ℕ → LoyaltyDb → ℤ
balance_at business k db = balance_of (find (is_customer business k) db.customers)

-- The sum of the ledger's deltas for that customer.
abbrev pub deltas : ℕ → ℕ → List LoyaltyTransaction → ℤ
deltas business k [] = pos 0
deltas business k (t ∷ ts) =
    (if t.business_id == business && t.customer_id == k then t.points_delta else pos 0)
    +ℤ deltas business k ts

-- The ledger explains the balance of every customer of every business.
abbrev pub Explained : LoyaltyDb → Type 0
Explained db = (business k : ℕ) → balance_at business k db ≡ deltas business k db.transactions

deltas-append :
    (business k : ℕ) (ts us : List LoyaltyTransaction)
    → deltas business k (ts ++ us) ≡ deltas business k ts +ℤ deltas business k us
deltas-append business k [] us = grind int_laws
deltas-append business k (t ∷ ts) us = grind (int_laws, deltas-append business k ts us)

pub find_sound {ℓ} :
    {A : Type ℓ} (p : A → Bool) (xs : List A) {a : A} → find p xs ≡ some a → p a ≡ true
find_sound p [] e = cc
find_sound p (x ∷ xs) {a} e = elim (Bool-cases (p x)) [
  | inl h ↦ rw (← some-injective _ _ (rw h at e)) h
  | inr h ↦ find_sound p xs (rw h at e)
]

pub find-write_self :
    (b k : ℕ) (new : Customer) (cs : List Customer) {c : Customer}
    → find (is_customer b k) cs ≡ some c
    → is_customer b k new ≡ true
    → find (is_customer b k) (write_customer b k new cs) ≡ some new
unfolding write_customer
find-write_self b k new [] e h = cc
find-write_self b k new (x ∷ cs) {c} e h = ground (arith, find-write_self b k new cs {c = c})

find-write_other :
    (b k b' k' : ℕ) (new : Customer) (cs : List Customer)
    → is_customer b k new ≡ true
    → (b == b' && k == k') ≡ false
    → find (is_customer b' k') (write_customer b k new cs) ≡ find (is_customer b' k') cs
unfolding write_customer
find-write_other b k b' k' new [] h d = refl
find-write_other b k b' k' new (x ∷ cs) h d = ground (arith, find-write_other b k b' k' new cs h d)

write-balance :
    (b k b' k' : ℕ) (delta : ℤ) (new : Customer) (cs : List Customer) {c : Customer}
    → find (is_customer b k) cs ≡ some c
    → is_customer b k new ≡ true
    → new.loyalty_points_balance ≡ c.loyalty_points_balance +ℤ delta
    → balance_of (find (is_customer b' k') (write_customer b k new cs))
      ≡ balance_of (find (is_customer b' k') cs) +ℤ (if b == b' && k == k' then delta else pos 0)
write-balance b k b' k' delta new cs found mine moved = elim (Bool-cases (b == b' && k == k')) [
  | inl same ↦
      let ids : (b ≡ b') × (k ≡ k') = ground arith in
      rw same (rw (← ids.0, ← ids.1) (rw (find-write_self b k new cs found mine, found) moved))
  | inr other ↦ rw (other, find-write_other b k b' k' new cs mine other) (grind int_laws)
]

pub lock_customer_found :
    (business k : ℕ) (c : Customer) (db : LoyaltyDb)
    → lock_customer business k db ≡ done c
    → find (is_customer business k) db.customers ≡ some c
unfolding lock_customer
lock_customer_found business k c db e = ground arith

-- One posting moves the balance and the ledger of its customer by the same points, and leaves
-- every other customer's alone.
pub post_points-moves :
    (business k : ℕ) (c : Customer) (delta : ℤ) (tier : Tier) (expire order : Option ℕ)
    (kind : TransactionType) (key : Option IdempotencyKey) (db : LoyaltyDb) (b' k' : ℕ)
    → lock_customer business k db ≡ done c
    → let new = post_points business k c delta tier expire order kind key db in
      let moved = if business == b' && k == k' then delta else pos 0 in
      (balance_at b' k' new ≡ balance_at b' k' db +ℤ moved)
      × (deltas b' k' new.transactions ≡ deltas b' k' db.transactions +ℤ moved)
unfolding post_points
post_points-moves business k c delta tier expire order kind key db b' k' locked =
    let found = lock_customer_found business k c db locked in
    let new : Customer = record c {
      loyalty_points_balance = c.loyalty_points_balance +ℤ delta;
      loyalty_tier = tier;
      loyalty_points_expire_at = expire;
    } in
    let mine = find_sound (is_customer business k) db.customers found in
    (
      write-balance business k b' k' delta new db.customers found mine refl,
      deltas-append b' k' db.transactions _ ∙ grind int_laws,
    )

-- A posting keeps the ledger an explanation of every balance.
pub post_points-Explained :
    (business k : ℕ) (c : Customer) (delta : ℤ) (tier : Tier) (expire order : Option ℕ)
    (kind : TransactionType) (key : Option IdempotencyKey) (db : LoyaltyDb)
    → lock_customer business k db ≡ done c
    → Explained db
    → Explained (post_points business k c delta tier expire order kind key db)
post_points-Explained business k c delta tier expire order kind key db locked h b' k' =
    let moves = post_points-moves business k c delta tier expire order kind key db b' k' locked in
    rw (moves.0, moves.1)
      (ap (λ t. t +ℤ (if business == b' && k == k' then delta else pos 0)) (h b' k'))
