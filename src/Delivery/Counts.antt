-- ===== src/Delivery/Counts.antt =====
-- How many rows of a table pass a test, and what a written row does to that number.
use nextgen_backend.Prelude.{
  ℕ, ◌+◌, ◌≡◌, sym, inl, inr, Bool, true, false, some, List, [], ◌∷◌, ◌++◌, arith, find, All,
  Bool-cases,
}
use nextgen_backend.Delivery.{DeliveryOrder, OrderKey, is_row, write_row}

abbrev pub bit : Bool → ℕ
bit true = 1
bit false = 0

abbrev pub count {ℓ} : {A : Type ℓ} → (A → Bool) → List A → ℕ
count p [] = 0
count p (x ∷ xs) = bit (p x) + count p xs

pub count-append {ℓ} :
    {A : Type ℓ} (p : A → Bool) (xs ys : List A) → count p (xs ++ ys) ≡ count p xs + count p ys
count-append p [] ys = omega arith
count-append p (x ∷ xs) ys = omega (arith, count-append p xs ys)

-- The row found leaves the table, and the new one enters it.
pub count-write_row :
    (p : DeliveryOrder → Bool) (k : OrderKey) (new old : DeliveryOrder) (rows : List DeliveryOrder)
    → find (is_row k) rows ≡ some old
    → count p (write_row k new rows) + bit (p old) ≡ count p rows + bit (p new)
unfolding write_row
count-write_row p k new old [] e = cc
count-write_row p k new old (r ∷ rs) e = elim (Bool-cases (is_row k r)) [
  | inl here ↦ ground arith
  | inr there ↦
      let found : find (is_row k) rs ≡ some old = ground arith in
      let rest = count-write_row p k new old rs found in rw there (omega (arith, rest))
]

pub All-write_row {κ} :
    (P : DeliveryOrder → Type κ) (k : OrderKey) (new : DeliveryOrder) (rows : List DeliveryOrder)
    → P new
    → All P rows
    → All P (write_row k new rows)
unfolding write_row
All-write_row P k new [] h all = tt
All-write_row P k new (r ∷ rs) h all = elim (Bool-cases (is_row k r)) [
  | inl here ↦ rw here (h, all.1)
  | inr there ↦ rw there (all.0, All-write_row P k new rs h all.1)
]

-- A row that is found has the key and whatever holds of all rows.
pub load_locked_row-All {κ} :
    (P : DeliveryOrder → Type κ) (k : OrderKey) (rows : List DeliveryOrder) {row : DeliveryOrder}
    → find (is_row k) rows ≡ some row
    → All P rows
    → (is_row k row ≡ true) × P row
load_locked_row-All P k [] e all = cc
load_locked_row-All P k (r ∷ rs) {row} e all = elim (Bool-cases (is_row k r)) [
  | inl here ↦ let same : r ≡ row = ground arith in (rw (sym same) here, rw (sym same) all.0)
  | inr there ↦ load_locked_row-All P k rs {row = row} (ground arith) all.1
]
