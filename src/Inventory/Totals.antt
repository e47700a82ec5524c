-- ===== src/Inventory/Totals.antt =====
-- The pair `totals: dict` and `order: list` of resolve_line_item and resolve_order
-- (backend/app/inventory/consumption.py): a table of amounts by identifier, in the order in which
-- the identifiers were first added.
use nextgen_backend.Prelude.{
  ℕ, ◌≡◌, refl, Bool, false, List, [], ◌∷◌, ◌||◌, arith, ◌==◌, if◌then◌else◌,
}
use nextgen_backend.Prelude.Int.{ℤ, pos, ◌+ℤ◌, int_laws}

abbrev pub Totals : Type 0
Totals = List (ℕ × ℤ)

-- `if k not in totals: totals[k] = 0; order.append(k)`, then `totals[k] += amount`
unfoldable pub bump : ℕ → ℤ → Totals → Totals
bump k amount [] = (k, pos 0 +ℤ amount) ∷ []
bump k amount ((j, v) ∷ t) = if k == j then (j, v +ℤ amount) ∷ t else (j, v) ∷ bump k amount t

-- What the table holds for an identifier, all its entries counted.
abbrev pub total_of : ℕ → Totals → ℤ
total_of k [] = pos 0
total_of k ((j, v) ∷ t) = (if j == k then v else pos 0) +ℤ total_of k t

abbrev pub has_key : ℕ → Totals → Bool
has_key k [] = false
has_key k ((j, v) ∷ t) = k == j || has_key k t

-- No identifier has two entries.
abbrev pub DistinctKeys : Totals → Type 0
DistinctKeys [] = Unit
DistinctKeys ((j, v) ∷ t) = (has_key j t ≡ false) × DistinctKeys t

pub total_of-bump :
    (k j : ℕ) (a : ℤ) (t : Totals)
    → total_of k (bump j a t) ≡ (if j == k then a else pos 0) +ℤ total_of k t
unfolding bump
total_of-bump k j a [] = grind int_laws
total_of-bump k j a ((i, v) ∷ t) = grind (int_laws, total_of-bump k j a t)

pub has_key-bump : (k j : ℕ) (a : ℤ) (t : Totals) → has_key k (bump j a t) ≡ (k == j || has_key k t)
unfolding bump
has_key-bump k j a [] = ground arith
has_key-bump k j a ((i, v) ∷ t) = ground (arith, has_key-bump k j a t)

pub bump-DistinctKeys : (j : ℕ) (a : ℤ) (t : Totals) → DistinctKeys t → DistinctKeys (bump j a t)
unfolding bump
bump-DistinctKeys j a [] h = ground arith
bump-DistinctKeys j a ((i, v) ∷ t) h =
    ground (arith, bump-DistinctKeys j a t h.1, has_key-bump i j a t)

pub total_of_absent : (k : ℕ) (t : Totals) → has_key k t ≡ false → total_of k t ≡ pos 0
total_of_absent k [] h = refl
total_of_absent k ((i, v) ∷ t) h = grind (int_laws, total_of_absent k t)
