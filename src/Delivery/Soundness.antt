-- ===== src/Delivery/Soundness.antt =====
-- The platform orders' rows against the sales: an invariant of every history of
-- backend/app/delivery (order_service.py and intake.py) and of the staff's routes.
use nextgen_backend.Prelude.{
  ℕ, ◌+◌, ◌≤◌, ◌≡◌, refl, ap, ◌∙◌, inl, inr, Bool, true, false, Option, none, some, List, [], ◌∷◌,
  arith, ◌==◌, find, opt_eq, is_some, All, Bool-cases, Option-cases,
}
use nextgen_backend.Orders.{status_cancelled, is_status}
use nextgen_backend.Delivery.{
  World, DeliveryDb, DeliveryOrder, SaleOrder, Booking, OrderKey, is_row, load_locked_row,
  write_row, Processed, handle_row, save, is_received, is_settled, delivery_cancelled, cancel_sale,
  cancel_order, handle_cancellation, EventType, is_cancel_event, process_delivery_order,
}
use nextgen_backend.Delivery.Shape.{is_before_sale, sold_as, handle_row-Shape}
use nextgen_backend.Delivery.Counts.{
  bit, count, count-append, count-write_row, All-write_row, load_locked_row-All,
}

abbrev pub is_sale : ℕ → SaleOrder → Bool
is_sale n s = s.id == n

abbrev pub holds_sale : ℕ → DeliveryOrder → Bool
holds_sale n r = opt_eq r.order_id (some n)

abbrev pub Unsold : DeliveryOrder → Type 0
Unsold r = is_before_sale r.status ≡ true → r.order_id ≡ none

-- A platform order has one row; a row before its sale has no order id; and an order id stands on
-- as many rows as there are sales with it.
pub record IsSound (db : DeliveryDb) : Type 0 where
  pub one_row : (k : OrderKey) → count (is_row k) db.rows ≤ 1
  pub unsold : All Unsold db.rows
  pub balanced : (n : ℕ) → count (is_sale n) db.sales ≡ count (holds_sale n) db.rows

abbrev booked_as : ℕ → Option Booking → Bool
booked_as n none = false
booked_as n (some b) = b.sale.id == n

abbrev SameKey : DeliveryOrder → DeliveryOrder → Type 0
SameKey new old =
    (new.business_id ≡ old.business_id)
    × (new.provider ≡ old.provider)
    × (new.external_order_id ≡ old.external_order_id)

is_row-SameKey :
    (k : OrderKey) (new old : DeliveryOrder) → SameKey new old → is_row k new ≡ is_row k old
is_row-SameKey k new old h = rw (h.0, h.1, h.2) refl

holds_sale-sold_as :
    (n : ℕ) (old new : DeliveryOrder) (b : Option Booking)
    → new.order_id ≡ sold_as b old.order_id
    → (is_some b ≡ true → old.order_id ≡ none)
    → bit (holds_sale n new) ≡ bit (holds_sale n old) + bit (booked_as n b)
holds_sale-sold_as n old new none sold fresh = rw sold (omega arith)
holds_sale-sold_as n old new (some b) sold fresh = rw (sold, fresh refl) (omega arith)

-- One row is rewritten, and at most one sale is added, which the row takes up.
pub replaced-IsSound :
    (k : OrderKey) (old new : DeliveryOrder) (b : Option Booking) (db after : DeliveryDb)
    → IsSound db
    → find (is_row k) db.rows ≡ some old
    → SameKey new old
    → new.order_id ≡ sold_as b old.order_id
    → (is_some b ≡ true → old.order_id ≡ none)
    → Unsold new
    → after.rows ≡ write_row k new db.rows
    → ((n : ℕ) → count (is_sale n) after.sales ≡ count (is_sale n) db.sales + bit (booked_as n b))
    → IsSound after
replaced-IsSound k old new b db after sound found same sold fresh unsold rows sales = record {
  one_row = λ j.
      let counted = count-write_row (is_row j) k new old db.rows found in
      rw rows (omega (arith, counted, sound.one_row j, ap bit (is_row-SameKey j new old same)));
  unsold = rw rows (All-write_row Unsold k new db.rows unsold sound.unsold);
  balanced = λ n.
      let counted = count-write_row (holds_sale n) k new old db.rows found in
      let moved = holds_sale-sold_as n old new b sold fresh in
      rw rows (omega (arith, counted, sales n, sound.balanced n, moved));
}

-- A change that only moves a row between statuses.
pub moved-IsSound :
    (k : OrderKey) (old new : DeliveryOrder) (db : DeliveryDb)
    → IsSound db
    → find (is_row k) db.rows ≡ some old
    → SameKey new old
    → new.order_id ≡ old.order_id
    → Unsold new
    → IsSound (record db { rows = write_row k new db.rows })
moved-IsSound k old new db sound found same kept unsold =
    let after = record db { rows = write_row k new db.rows } in
    replaced-IsSound k old new none db after sound found same kept (λ h. cc) unsold refl
      (λ n. omega arith)

save-sales :
    (k : OrderKey) (p : Processed) (db : DeliveryDb) (n : ℕ)
    → count (is_sale n) (save k p db).sales
      ≡ count (is_sale n) db.sales + bit (booked_as n p.booking)
unfolding save
save-sales k p db n = elim (Option-cases p.booking) [
  | inl nothing ↦ rw nothing (omega arith)
  | inr (b, made) ↦ rw made (omega (arith, count-append (is_sale n) db.sales (b.sale ∷ [])))
]

save-rows :
    (k : OrderKey) (p : Processed) (db : DeliveryDb)
    → (save k p db).rows ≡ write_row k p.row db.rows
unfolding save
save-rows k p db = elim (Option-cases p.booking) [
  | inl nothing ↦ rw nothing refl
  | inr (b, made) ↦ rw made refl
]

job-IsSound :
    (w : World) (force : Bool) (k : OrderKey) (old : DeliveryOrder) (p : Processed)
    (db : DeliveryDb)
    → IsSound db
    → find (is_row k) db.rows ≡ some old
    → is_received old.status ≡ true
    → handle_row w force old ≡ some p
    → IsSound (save k p db)
job-IsSound w force k old p db sound found received run =
    let shape = handle_row-Shape w force old run in
    let (_, before) = load_locked_row-All Unsold k db.rows found sound.unsold in
    let unsold : old.order_id ≡ none = before (ground arith) in
    replaced-IsSound k old p.row p.booking db (save k p db) sound found (shape.0, shape.1, shape.2)
      shape.3 (λ _. unsold) (λ h. shape.3 ∙ rw (shape.4 h) unsold) (save-rows k p db)
      (save-sales k p db)

count-cancel_sale :
    (n k : ℕ) (sales : List SaleOrder)
    → count (is_sale n) (cancel_sale k sales) ≡ count (is_sale n) sales
unfolding cancel_sale
count-cancel_sale n k [] = refl
count-cancel_sale n k (s ∷ ss) = elim (Bool-cases (s.id == k)) [
  | inl here ↦ rw here refl
  | inr there ↦ rw (there, count-cancel_sale n k ss) refl
]

cancel_order-IsSound :
    (business : ℕ) (k : Option ℕ) (db : DeliveryDb)
    → IsSound db
    → IsSound (cancel_order business k db)
unfolding cancel_order
cancel_order-IsSound business none db sound = sound
cancel_order-IsSound business (some k) db sound =
    elim (Option-cases (find (λ s. s.id == k) db.sales)) [
      | inl missing ↦ rw (cancel_order, missing) sound
      | inr (sale, found) ↦ elim (Bool-cases (is_status sale.status status_cancelled)) [
        | inl already ↦ rw (cancel_order, found, already) sound
        | inr live ↦
            rw (cancel_order, found, live)
              (record {
                one_row = sound.one_row;
                unsold = sound.unsold;
                balanced = λ n. count-cancel_sale n k db.sales ∙ sound.balanced n;
              })
      ]
    ]

pub handle_cancellation-IsSound :
    (w : World) (k : OrderKey) (db : DeliveryDb) → IsSound db → IsSound (handle_cancellation w k db)
unfolding handle_cancellation load_locked_row
handle_cancellation-IsSound w k db sound = elim (Option-cases (find (is_row k) db.rows)) [
  | inl missing ↦ rw (handle_cancellation, missing) sound
  | inr (old, found) ↦ elim (Bool-cases (is_settled old.status)) [
    | inl settled ↦ rw (handle_cancellation, found, settled) sound
    | inr live ↦
        let new = record old { status = delivery_cancelled; cancelled_at = some w.now } in
        rw (handle_cancellation, found, live)
          (cancel_order-IsSound k.business old.order_id
            (record db { rows = write_row k new db.rows })
            (moved-IsSound k old new db sound found (refl, refl, refl) refl (λ h. cc)))
  ]
]

pub process_delivery_order-IsSound :
    (w : World) (k : OrderKey) (event : EventType) (force : Bool) (db : DeliveryDb)
    → IsSound db
    → IsSound (process_delivery_order w k event force db).0
unfolding process_delivery_order load_locked_row
process_delivery_order-IsSound w k event force db sound =
    elim (Bool-cases (is_cancel_event event)) [
      | inl cancels ↦ rw cancels (handle_cancellation-IsSound w k db sound)
      | inr order ↦ elim (Option-cases (find (is_row k) db.rows)) [
        | inl missing ↦ rw (order, missing) sound
        | inr (old, found) ↦ elim (Bool-cases (is_received old.status)) [
          | inr past ↦ rw (order, found, past) sound
          | inl fresh ↦ elim (Option-cases (handle_row w force old)) [
            | inl crash ↦ rw (order, found, fresh, crash) sound
            | inr (p, run) ↦
                rw (order, found, fresh, run) (job-IsSound w force k old p db sound found fresh run)
          ]
        ]
      ]
    ]
