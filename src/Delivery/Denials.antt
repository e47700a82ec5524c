-- ===== src/Delivery/Denials.antt =====
-- What the watchdog may do to the rows (backend/app/delivery/order_service.py,
-- delivery_accept_deadline_watchdog).
use nextgen_backend.Prelude.{
  ℕ, zero, suc, ◌+◌, ◌≤◌, ◌≡◌, refl, ap, ◌∙◌, ◌⊎◌, inl, inr, Bool, true, false, ◌&&◌, some, List,
  [], ◌∷◌, arith, Bool-cases, Option-cases,
}
use nextgen_backend.Delivery.{
  World, DeliveryDb, DeliveryOrder, DeliveryStatus, delivery_received, delivery_fetching,
  delivery_needs_mapping, delivery_ready_to_accept, delivery_denied, other_reason, is_open, is_due,
  first_deadline, has_deadline, auto_denied, deny_one, deny_earliest, deny_batch, watchdog,
}
use nextgen_backend.Delivery.Counts.{bit, count}

-- Row by row, in the same order.
pub data Rows (R : DeliveryOrder → DeliveryOrder → Type 0)
    : List DeliveryOrder → List DeliveryOrder → Type 0 where
  no_rows : Rows R [] []
  row_and :
      {x y : DeliveryOrder} {xs ys : List DeliveryOrder}
      → R x y
      → Rows R xs ys
      → Rows R (x ∷ xs) (y ∷ ys)

-- A row is left alone, or it was due and is denied.
pub Denial : ℕ → ℕ → DeliveryOrder → DeliveryOrder → Type 0
Denial now grace old new =
    (new ≡ old) ⊎ ((is_due now grace old ≡ true) × (new ≡ auto_denied now old))

Rows-same : (now grace : ℕ) (rows : List DeliveryOrder) → Rows (Denial now grace) rows rows
unfolding Denial
Rows-same now grace [] = no_rows
Rows-same now grace (row ∷ rows) = row_and (inl refl) (Rows-same now grace rows)

denied_for_good :
    (now grace : ℕ) (row : DeliveryOrder) → is_due now grace (auto_denied now row) ≡ false
unfolding is_due
denied_for_good now grace row = refl

Denial-trans :
    (now grace : ℕ) (x y z : DeliveryOrder)
    → Denial now grace x y
    → Denial now grace y z
    → Denial now grace x z
unfolding Denial
Denial-trans now grace x y z (inl same) (inl same') = inl (same' ∙ same)
Denial-trans now grace x y z (inl same) (inr (due, made)) =
    inr (rw (← same) due, made ∙ ap (auto_denied now) same)
Denial-trans now grace x y z (inr (due, made)) (inl same') = inr (due, same' ∙ made)
Denial-trans now grace x y z (inr (due, made)) (inr (due', made')) =
    let stays : is_due now grace y ≡ false = rw made (denied_for_good now grace x) in cc

Rows-trans :
    (now grace : ℕ) {xs ys zs : List DeliveryOrder}
    → Rows (Denial now grace) xs ys
    → Rows (Denial now grace) ys zs
    → Rows (Denial now grace) xs zs
Rows-trans now grace no_rows no_rows = no_rows
Rows-trans now grace (row_and {x = x} {y = y} h hs) (row_and {y = z} g gs) =
    row_and (Denial-trans now grace x y z h g) (Rows-trans now grace hs gs)

deny_one-Denial :
    (now grace d : ℕ) (rows : List DeliveryOrder)
    → Rows (Denial now grace) rows (deny_one now grace d rows)
unfolding deny_one Denial
deny_one-Denial now grace d [] = no_rows
deny_one-Denial now grace d (row ∷ rows) =
    elim (Bool-cases (is_due now grace row && has_deadline d row.accept_deadline_at)) [
      | inl here ↦ rw here (row_and (inr (ground arith, refl)) (Rows-same now grace rows))
      | inr there ↦ rw there (row_and (inl refl) (deny_one-Denial now grace d rows))
    ]

deny_earliest-Denial :
    (now grace : ℕ) (rows : List DeliveryOrder)
    → Rows (Denial now grace) rows (deny_earliest now grace rows)
unfolding deny_earliest
deny_earliest-Denial now grace rows = elim (Option-cases (first_deadline now grace rows)) [
  | inl nothing ↦ rw (deny_earliest, nothing) (Rows-same now grace rows)
  | inr (d, found) ↦ rw (deny_earliest, found) (deny_one-Denial now grace d rows)
]

pub deny_batch-Denial :
    (n now grace : ℕ) (rows : List DeliveryOrder)
    → Rows (Denial now grace) rows (deny_batch n now grace rows)
unfolding deny_batch
deny_batch-Denial zero now grace rows = Rows-same now grace rows
deny_batch-Denial (suc n) now grace rows =
    Rows-trans now grace (deny_earliest-Denial now grace rows)
      (deny_batch-Denial n now grace (deny_earliest now grace rows))

abbrev pub watchdog_ticks : ℕ → World → ℕ → DeliveryDb → DeliveryDb
watchdog_ticks zero w grace db = db
watchdog_ticks (suc n) w grace db = watchdog_ticks n w grace (watchdog w grace db)

pub ticks-Denial :
    (n : ℕ) (w : World) (grace : ℕ) (db : DeliveryDb)
    → Rows (Denial w.now grace) db.rows (watchdog_ticks n w grace db).rows
unfolding watchdog
ticks-Denial zero w grace db = Rows-same w.now grace db.rows
ticks-Denial (suc n) w grace db =
    Rows-trans w.now grace (deny_batch-Denial 100 w.now grace db.rows)
      (ticks-Denial n w grace (watchdog w grace db))

abbrev pub Waits : DeliveryStatus → Type 0
Waits s =
    (s ≡ delivery_received)
    ⊎ ((s ≡ delivery_fetching) ⊎ ((s ≡ delivery_needs_mapping) ⊎ (s ≡ delivery_ready_to_accept)))

open-Waits : (s : DeliveryStatus) → is_open s ≡ true → Waits s
open-Waits delivery_received e = inl refl
open-Waits delivery_fetching e = inr (inl refl)
open-Waits delivery_needs_mapping e = inr (inr (inl refl))
open-Waits delivery_ready_to_accept e = inr (inr (inr refl))
open-Waits _ e = cc

Waits-open : (s : DeliveryStatus) → Waits s → is_open s ≡ true
Waits-open s (inl e) = rw e refl
Waits-open s (inr (inl e)) = rw e refl
Waits-open s (inr (inr (inl e))) = rw e refl
Waits-open s (inr (inr (inr e))) = rw e refl

-- The row still waits for an answer, and its deadline and the grace after it have passed.
abbrev pub Late : ℕ → ℕ → DeliveryOrder → Type 0
Late now grace row =
    Waits row.status × ((d : ℕ) × (row.accept_deadline_at ≡ some d) × (d + grace ≤ now))

-- A late row is denied, and any other is as it was.
abbrev pub Settled : ℕ → ℕ → DeliveryOrder → DeliveryOrder → Type 0
Settled now grace old new =
    (Late now grace old
      × (new ≡ record old {
        status = delivery_denied;
        denied_at = some now;
        deny_reason_code = some other_reason;
      }))
    ⊎ (¬ Late now grace old × (new ≡ old))

due-Late : (now grace : ℕ) (row : DeliveryOrder) → is_due now grace row ≡ true → Late now grace row
unfolding is_due
due-Late now grace row e = elim (Option-cases row.accept_deadline_at) [
  | inl missing ↦ ground arith
  | inr (d, at_d) ↦ (open-Waits row.status (ground arith), (d, at_d, ground arith))
]

Late-due : (now grace : ℕ) (row : DeliveryOrder) → Late now grace row → is_due now grace row ≡ true
unfolding is_due
Late-due now grace row (waits, (d, at_d, passed)) =
    let there = Waits-open row.status waits in ground arith

none_counted : (b : Bool) (n : ℕ) → bit b + n ≡ 0 → (b ≡ false) × (n ≡ 0)
none_counted true n h = absurd (omega arith)
none_counted false n h = (refl, omega arith)

not-Late :
    (now grace : ℕ) (row : DeliveryOrder) → is_due now grace row ≡ false → ¬ Late now grace row
not-Late now grace row e late = let due = Late-due now grace row late in cc

pub Denial-Settled :
    (now grace : ℕ) {xs ys : List DeliveryOrder}
    → Rows (Denial now grace) xs ys
    → count (is_due now grace) ys ≡ 0
    → Rows (Settled now grace) xs ys
unfolding Denial
Denial-Settled now grace no_rows none_due = no_rows
Denial-Settled now grace (row_and {x = x} {y = y} (inr (due, made)) hs) none_due =
    row_and (inl (due-Late now grace x due, made))
      (Denial-Settled now grace hs (none_counted _ _ none_due).1)
Denial-Settled now grace (row_and {x = x} {y = y} (inl same) hs) none_due =
    let (idle, rest) = none_counted _ _ none_due in
    row_and (inr (not-Late now grace x (rw (← same) idle), same)) (Denial-Settled now grace hs rest)
