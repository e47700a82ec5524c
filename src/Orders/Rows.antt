-- ===== src/Orders/Rows.antt =====
-- The orders table as a keyed table: what a written row leaves to be found.
use nextgen_backend.Prelude.{
  ℕ, ◌≡◌, refl, true, false, ◌&&◌, some, List, [], ◌∷◌, arith, ◌==◌, find,
}
use nextgen_backend.Prelude.Result.{done}
use nextgen_backend.Loyalty.Audit.{find_sound}
use nextgen_backend.Orders.{Order, Tables, is_order_of, get_order, write_order}

pub get_order_found :
    (business k : ℕ) (o : Order) (db : Tables)
    → get_order business k db ≡ done o
    → find (is_order_of business k) db.orders ≡ some o
unfolding get_order
get_order_found business k o db e = ground arith

pub get_order_mine :
    (business k : ℕ) (o : Order) (db : Tables)
    → get_order business k db ≡ done o
    → (o.id ≡ k) × (o.business_id ≡ business)
get_order_mine business k o db e =
    let mine = find_sound (is_order_of business k) db.orders (get_order_found business k o db e) in
    (ground arith, ground arith)

find-write_order_self :
    (b k : ℕ) (new : Order) (os : List Order) {o : Order}
    → find (is_order_of b k) os ≡ some o
    → is_order_of b k new ≡ true
    → find (is_order_of b k) (write_order b k new os) ≡ some new
unfolding write_order
find-write_order_self b k new [] e h = cc
find-write_order_self b k new (x ∷ os) {o} e h =
    ground (arith, find-write_order_self b k new os {o = o})

find-write_order_other :
    (b k b' k' : ℕ) (new : Order) (os : List Order)
    → is_order_of b k new ≡ true
    → (b == b' && k == k') ≡ false
    → find (is_order_of b' k') (write_order b k new os) ≡ find (is_order_of b' k') os
unfolding write_order
find-write_order_other b k b' k' new [] h d = refl
find-write_order_other b k b' k' new (x ∷ os) h d =
    ground (arith, find-write_order_other b k b' k' new os h d)

-- The row `new` took the place of the order k of a business, and no other order changed.
abbrev pub Replaced : ℕ → ℕ → Order → Tables → Tables → Type 0
Replaced business k new db after =
    (get_order business k after ≡ done new)
    × ((b' k' : ℕ)
        → (business == b' && k == k') ≡ false
        → get_order b' k' after ≡ get_order b' k' db)

get_order-eq :
    (b k : ℕ) (db after : Tables)
    → find (is_order_of b k) after.orders ≡ find (is_order_of b k) db.orders
    → get_order b k after ≡ get_order b k db
unfolding get_order
get_order-eq b k db after e = ground arith

get_order_of :
    (b k : ℕ) (o : Order) (db : Tables)
    → find (is_order_of b k) db.orders ≡ some o
    → get_order b k db ≡ done o
unfolding get_order
get_order_of b k o db e = ground arith

pub write_order-Replaced :
    (business k : ℕ) (o new : Order) (db after : Tables)
    → get_order business k db ≡ done o
    → (new.id ≡ o.id) × (new.business_id ≡ o.business_id)
    → after.orders ≡ write_order business k new db.orders
    → Replaced business k new db after
write_order-Replaced business k o new db after found same written =
    let ids = get_order_mine business k o db found in
    let mine : is_order_of business k new ≡ true = ground (arith, ids, same) in
    (
      get_order_of business k new after (
          rw written (
            find-write_order_self business k new db.orders (get_order_found business k o db found)
              mine)),
      λ b' k' other.
          get_order-eq b' k' db after
            (rw written (find-write_order_other business k b' k' new db.orders mine other)),
    )
