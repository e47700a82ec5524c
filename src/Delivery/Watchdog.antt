-- ===== src/Delivery/Watchdog.antt =====
-- delivery_accept_deadline_watchdog (backend/app/delivery/order_service.py): its first phase, which
-- commits. The calls of the second phase change no row, and no other worker holds a lock.
use nextgen_backend.Prelude.{
  ℕ, suc, zero, ◌+◌, Bool, false, ◌&&◌, Option, none, some, List, [], ◌∷◌, leb, ltb, ◌==◌,
  if◌then◌else◌,
}
use nextgen_backend.Delivery.Types.{DeliveryOrder, delivery_denied, other_reason, World, DeliveryDb}
use nextgen_backend.Delivery.Staff.{is_open}

-- _WATCHDOG_BATCH_LIMIT
abbrev pub watchdog_batch_limit : ℕ
watchdog_batch_limit = 100

abbrev deadline_passed : ℕ → ℕ → Option ℕ → Bool
deadline_passed now grace none = false
deadline_passed now grace (some deadline) = leb (deadline + grace) now

-- Open, with a deadline that lies at least `grace` back, a duration in the clock's unit.
unfoldable pub is_due : ℕ → ℕ → DeliveryOrder → Bool
is_due now grace row = is_open row.status && deadline_passed now grace row.accept_deadline_at

abbrev earlier : Option ℕ → Option ℕ → Option ℕ
earlier none b = b
earlier (some a) none = some a
earlier (some a) (some b) = some (if ltb b a then b else a)

-- The first deadline of the rows that are due.
unfoldable pub first_deadline : ℕ → ℕ → List DeliveryOrder → Option ℕ
first_deadline now grace [] = none
first_deadline now grace (row ∷ rows) =
    let rest = first_deadline now grace rows in
    if is_due now grace row then earlier row.accept_deadline_at rest else rest

abbrev pub has_deadline : ℕ → Option ℕ → Bool
has_deadline d none = false
has_deadline d (some e) = e == d

abbrev pub auto_denied : ℕ → DeliveryOrder → DeliveryOrder
auto_denied now row = record row {
  status = delivery_denied;
  denied_at = some now;
  deny_reason_code = some other_reason;
}

-- The first row that is due and has the given deadline is denied.
unfoldable pub deny_one : ℕ → ℕ → ℕ → List DeliveryOrder → List DeliveryOrder
deny_one now grace d [] = []
deny_one now grace d (row ∷ rows) =
    let rest = deny_one now grace d rows in
    if is_due now grace row && has_deadline d row.accept_deadline_at
    then auto_denied now row ∷ rows
    else row ∷ rest

unfoldable pub deny_earliest : ℕ → ℕ → List DeliveryOrder → List DeliveryOrder
deny_earliest now grace rows = elim (first_deadline now grace rows) [
  | none ↦ rows
  | some d ↦ deny_one now grace d rows
]

-- The query's ORDER BY deadline and LIMIT take the earliest row so many times.
unfoldable pub deny_batch : ℕ → ℕ → ℕ → List DeliveryOrder → List DeliveryOrder
deny_batch zero now grace rows = rows
deny_batch (suc n) now grace rows = deny_batch n now grace (deny_earliest now grace rows)

unfoldable pub watchdog : World → ℕ → DeliveryDb → DeliveryDb
watchdog w grace db = record db { rows = deny_batch watchdog_batch_limit w.now grace db.rows }
