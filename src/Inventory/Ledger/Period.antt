-- ===== src/Inventory/Ledger/Period.antt =====
-- Consecutive periods (backend/app/inventory/ledger.py, movement_totals_by_type and stock_on_hand).
use nextgen_backend.Prelude.{
  ℕ, ◌≤◌, ◌≡◌, refl, Option, none, some, List, [], ◌∷◌, ◌++◌, Bool, true, false, ◌&&◌, arith, ap,
  if◌then◌else◌,
}
use nextgen_backend.Prelude.Int.{ℤ, pos, ◌+ℤ◌, int_laws, pos_part, neg_part}
use nextgen_backend.Inventory.Ledger.{
  Movement, MovementType, movement_total, stock_on_hand, since_ok, until_ok, in_group,
}

-- The start of a period lies before its end, where it has one.
abbrev pub Precedes : Option ℕ → ℕ → Type 0
Precedes none b = Unit
Precedes (some a) b = a ≤ b

abbrev pub Follows : Option ℕ → ℕ → Type 0
Follows none b = Unit
Follows (some c) b = b ≤ c

-- One row is counted on one side of the boundary only.
row_tiles :
    (counted : Bool) (a c : Option ℕ) (b t : ℕ) (q : ℤ)
    → Precedes a b
    → Follows c b
    → (if counted && since_ok a t && until_ok (some b) t then q else pos 0)
        +ℤ (if counted && since_ok (some b) t && until_ok c t then q else pos 0)
      ≡ (if counted && since_ok a t && until_ok c t then q else pos 0)
unfolding ◌+ℤ◌
row_tiles false a c b t q h g = refl
row_tiles true none none b t q h g = ground arith
row_tiles true none (some c) b t q h g = ground arith
row_tiles true (some a) none b t q h g = ground arith
row_tiles true (some a) (some c) b t q h g = ground arith

-- Two periods that meet at `b` tile, for each ingredient and movement type: their totals add up
-- to the total from the start of the first to the end of the second, where the first may have no
-- start and the second no end.
pub periods_tile :
    (business : ℕ) (a c : Option ℕ) (b : ℕ) (ledger : List Movement) (k : ℕ) (kind : MovementType)
    → Precedes a b
    → Follows c b
    → movement_total business a (some b) ledger k kind
        +ℤ movement_total business (some b) c ledger k kind
      ≡ movement_total business a c ledger k kind
unfolding movement_total
periods_tile business a c b [] k kind h g = grind int_laws
periods_tile business a c b (m ∷ ms) k kind h g = omega (
  int_laws,
  ap pos_part (row_tiles (in_group business k kind m) a c b m.occurred_at m.quantity_milli h g),
  ap neg_part (row_tiles (in_group business k kind m) a c b m.occurred_at m.quantity_milli h g),
  ap pos_part (periods_tile business a c b ms k kind h g),
  ap neg_part (periods_tile business a c b ms k kind h g),
)

pub stock_on_hand-append :
    (business : ℕ) (as_of : Option ℕ) (xs ys : List Movement) (k : ℕ)
    → stock_on_hand business as_of (xs ++ ys) k
      ≡ stock_on_hand business as_of xs k +ℤ stock_on_hand business as_of ys k
unfolding stock_on_hand
stock_on_hand-append business as_of [] ys k = grind int_laws
stock_on_hand-append business as_of (m ∷ xs) ys k =
    grind (int_laws, stock_on_hand-append business as_of xs ys k)
