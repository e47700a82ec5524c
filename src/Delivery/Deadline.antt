-- ===== src/Delivery/Deadline.antt =====
-- What the watchdog does with the rows past their deadline (backend/app/delivery/order_service.py,
-- delivery_accept_deadline_watchdog).
use nextgen_backend.Prelude.{
  ℕ, zero, suc, ◌+◌, ◌-◌, ◌*◌, ◌≤◌, ◌≡◌, refl, ◌∙◌, inl, inr, Bool, true, ◌&&◌, none, some, List,
  [], ◌∷◌, arith, exists, All, Bool-cases, Option-cases,
}
use nextgen_backend.Delivery.{
  World, DeliveryDb, DeliveryOrder, is_due, first_deadline, has_deadline, auto_denied, deny_one,
  deny_earliest, deny_batch, watchdog,
}
use nextgen_backend.Delivery.Counts.{count}
use nextgen_backend.Delivery.Denials.{Rows, Settled, watchdog_ticks, ticks-Denial, Denial-Settled}

-- How many rows the watchdog has to settle.
abbrev pub overdue : ℕ → ℕ → List DeliveryOrder → ℕ
overdue now grace rows = count (is_due now grace) rows

abbrev is_target : ℕ → ℕ → ℕ → DeliveryOrder → Bool
is_target now grace d row = is_due now grace row && has_deadline d row.accept_deadline_at

no_deadline :
    (now grace : ℕ) (rows : List DeliveryOrder)
    → first_deadline now grace rows ≡ none
    → overdue now grace rows ≡ 0
unfolding first_deadline is_due
no_deadline now grace [] e = refl
no_deadline now grace (row ∷ rows) e = ground (arith, no_deadline now grace rows)

first_deadline-target :
    (now grace : ℕ) (rows : List DeliveryOrder) {d : ℕ}
    → first_deadline now grace rows ≡ some d
    → exists (is_target now grace d) rows ≡ true
unfolding first_deadline is_due
first_deadline-target now grace [] e = cc
first_deadline-target now grace (row ∷ rows) {d} e =
    elim (Option-cases (first_deadline now grace rows)) [
      | inl last ↦ ground arith
      | inr (c, later) ↦ let there = first_deadline-target now grace rows later in ground arith
    ]

deny_one-overdue :
    (now grace d : ℕ) (rows : List DeliveryOrder)
    → exists (is_target now grace d) rows ≡ true
    → overdue now grace (deny_one now grace d rows) + 1 ≡ overdue now grace rows
unfolding deny_one is_due
deny_one-overdue now grace d [] e = cc
deny_one-overdue now grace d (row ∷ rows) e = elim (Bool-cases (is_target now grace d row)) [
  | inl here ↦ let due : is_due now grace row ≡ true = ground arith in rw (here, due) (omega arith)
  | inr there ↦
      let rest = deny_one-overdue now grace d rows (ground arith) in rw there (omega (arith, rest))
]

deny_earliest-overdue :
    (now grace : ℕ) (rows : List DeliveryOrder)
    → overdue now grace (deny_earliest now grace rows) ≡ overdue now grace rows - 1
unfolding deny_earliest
deny_earliest-overdue now grace rows = elim (Option-cases (first_deadline now grace rows)) [
  | inl nothing ↦ rw (deny_earliest, nothing) (omega (arith, no_deadline now grace rows nothing))
  | inr (d, found) ↦
      rw (deny_earliest, found)
        (omega
          (arith, deny_one-overdue now grace d rows (first_deadline-target now grace rows found)))
]

pub deny_batch-overdue :
    (n now grace : ℕ) (rows : List DeliveryOrder)
    → overdue now grace (deny_batch n now grace rows) ≡ overdue now grace rows - n
unfolding deny_batch
deny_batch-overdue zero now grace rows = omega arith
deny_batch-overdue (suc n) now grace rows = omega (
  arith,
  deny_batch-overdue n now grace (deny_earliest now grace rows),
  deny_earliest-overdue now grace rows,
)

ticks-overdue :
    (n : ℕ) (w : World) (grace : ℕ) (db : DeliveryDb)
    → overdue w.now grace (watchdog_ticks n w grace db).rows ≡ overdue w.now grace db.rows - n * 100
unfolding watchdog
ticks-overdue zero w grace db = omega arith
ticks-overdue (suc n) w grace db = omega (
  arith,
  ticks-overdue n w grace (watchdog w grace db),
  deny_batch-overdue 100 w.now grace db.rows,
)

-- However many rows lie past their deadline, enough runs of the watchdog at one time of the clock
-- settle them all, one run for each hundred rows or part of a hundred: every row that still waited
-- for an answer with its deadline and the grace period gone is then DENIED, and every other row is
-- as it was. No row is left for the watchdog.
pub watchdog_settles :
    (n : ℕ) (w : World) (grace : ℕ) (db : DeliveryDb)
    → overdue w.now grace db.rows ≤ n * 100
    → (overdue w.now grace (watchdog_ticks n w grace db).rows ≡ 0)
      × Rows (Settled w.now grace) db.rows (watchdog_ticks n w grace db).rows
watchdog_settles n w grace db h =
    let all_settled : overdue w.now grace (watchdog_ticks n w grace db).rows ≡ 0 =
      omega (arith, ticks-overdue n w grace db) in
    (all_settled, Denial-Settled w.now grace (ticks-Denial n w grace db) all_settled)

-- A property that a denial keeps holds of the whole table after the watchdog, and a test that a
-- denial does not change passes on as many rows.
module _ {κ} (P : DeliveryOrder → Type κ) (now : ℕ)
    (keeps : (row : DeliveryOrder) → P row → P (auto_denied now row)) where
  deny_one-All :
      (grace d : ℕ) (rows : List DeliveryOrder) → All P rows → All P (deny_one now grace d rows)
  unfolding deny_one
  deny_one-All grace d [] h = tt
  deny_one-All grace d (row ∷ rows) h = elim (Bool-cases (is_target now grace d row)) [
    | inl here ↦ rw here (keeps row h.0, h.1)
    | inr there ↦ rw there (h.0, deny_one-All grace d rows h.1)
  ]

  pub deny_batch-All :
      (n grace : ℕ) (rows : List DeliveryOrder) → All P rows → All P (deny_batch n now grace rows)
  unfolding deny_batch deny_earliest
  deny_batch-All zero grace rows h = h
  deny_batch-All (suc n) grace rows h = elim (Option-cases (first_deadline now grace rows)) [
    | inl nothing ↦ rw (deny_earliest, nothing) (deny_batch-All n grace rows h)
    | inr (d, found) ↦
        rw (deny_earliest, found)
          (deny_batch-All n grace (deny_one now grace d rows) (deny_one-All grace d rows h))
  ]

module _ (p : DeliveryOrder → Bool) (now : ℕ)
    (same : (row : DeliveryOrder) → p (auto_denied now row) ≡ p row) where
  deny_one-count :
      (grace d : ℕ) (rows : List DeliveryOrder) → count p (deny_one now grace d rows) ≡ count p rows
  unfolding deny_one
  deny_one-count grace d [] = refl
  deny_one-count grace d (row ∷ rows) = elim (Bool-cases (is_target now grace d row)) [
    | inl here ↦ rw (here, same row) refl
    | inr there ↦ rw (there, deny_one-count grace d rows) refl
  ]

  pub deny_batch-count :
      (n grace : ℕ) (rows : List DeliveryOrder)
      → count p (deny_batch n now grace rows) ≡ count p rows
  unfolding deny_batch deny_earliest
  deny_batch-count zero grace rows = refl
  deny_batch-count (suc n) grace rows = elim (Option-cases (first_deadline now grace rows)) [
    | inl nothing ↦ rw (deny_earliest, nothing) (deny_batch-count n grace rows)
    | inr (d, found) ↦
        rw (deny_earliest, found)
          (deny_batch-count n grace (deny_one now grace d rows) ∙ deny_one-count grace d rows)
  ]
