-- ===== src/Inventory/Ledger/Reversal.antt =====
-- reverse_sale_consumption (backend/app/inventory/ledger.py).
use nextgen_backend.Prelude.{
  ℕ, String, ◌≡◌, refl, inl, inr, true, false, ◌&&◌, ◌||◌, Option, none, List, [], ◌∷◌, ◌++◌, arith,
  ◌==◌, if◌then◌else◌, contains, Bool-cases, ap, ◌∙◌, ==_iff, keep-append, contains-append,
}
use nextgen_backend.Prelude.Int.{ℤ, pos, ◌+ℤ◌, neg, int_laws, pos_part, neg_part}
use nextgen_backend.Inventory.Ledger.{
  Movement, build_movement, originals, reversed_already, reversal, reversals, ingredients_of,
  reverse_sale_consumption, stock_on_hand, of_order, is_reversal, in_stock,
}
use nextgen_backend.Inventory.Ledger.Period.{stock_on_hand-append}
use mathlib.Core.List.{append-nil, map-append}

-- The quantities of a list of movements at one ingredient.
abbrev pub sum_at : ℕ → List Movement → ℤ
sum_at k [] = pos 0
sum_at k (m ∷ ms) = (if m.ingredient_id == k then m.quantity_milli else pos 0) +ℤ sum_at k ms

-- One row for each ingredient: what the unique index on the sale keys of an order makes sure of.
abbrev pub DistinctIngredients : List Movement → Type 0
DistinctIngredients [] = Unit
DistinctIngredients (m ∷ ms) =
    (contains m.ingredient_id (ingredients_of ms) ≡ false) × DistinctIngredients ms

-- No row's ingredient is in the set.
abbrev Fresh : List ℕ → List Movement → Type 0
Fresh already [] = Unit
Fresh already (m ∷ ms) = (contains m.ingredient_id already ≡ false) × Fresh already ms

-- Every row's ingredient is in the set.
abbrev Covered : List ℕ → List Movement → Type 0
Covered already [] = Unit
Covered already (m ∷ ms) = (contains m.ingredient_id already ≡ true) × Covered already ms

Fresh-nil : (ms : List Movement) → Fresh [] ms
Fresh-nil [] = tt
Fresh-nil (m ∷ ms) = (refl, Fresh-nil ms)

Fresh-cons :
    (j : ℕ) (already : List ℕ) (ms : List Movement)
    → contains j (ingredients_of ms) ≡ false
    → Fresh already ms
    → Fresh (j ∷ already) ms
Fresh-cons j already [] h f = tt
Fresh-cons j already (m ∷ ms) h f = ground (arith, Fresh-cons j already ms)

module _ (now business order : ℕ) (by : Option ℕ) (notes : Option String) where
  abbrev written : List Movement → List ℕ → List Movement
  written = reversals now business order by notes

  -- A reversal row counts at its ingredient, and is not itself an original.
  in_stock-reversal :
      (k : ℕ) (m : Movement)
      → in_stock business none k (reversal now business order by notes m) ≡ (m.ingredient_id == k)
  unfolding in_stock reversal build_movement
  in_stock-reversal k m = ground arith

  quantity-reversal :
      (m : Movement)
      → (reversal now business order by notes m).quantity_milli ≡ neg m.quantity_milli
  unfolding reversal build_movement
  quantity-reversal m = refl

  ingredient-reversal :
      (m : Movement) → (reversal now business order by notes m).ingredient_id ≡ m.ingredient_id
  unfolding reversal build_movement
  ingredient-reversal m = refl

  reversed_already-reversal_cons :
      (m : Movement) (ms : List Movement)
      → reversed_already business order (reversal now business order by notes m ∷ ms)
        ≡ (reversal now business order by notes m).ingredient_id
          ∷ reversed_already business order ms
  unfolding reversed_already reversal build_movement
  reversed_already-reversal_cons m ms = ground arith

  originals-reversal_cons :
      (m : Movement) (ms : List Movement)
      → originals business order (reversal now business order by notes m ∷ ms)
        ≡ originals business order ms
  unfolding originals reversal build_movement
  originals-reversal_cons m ms = ground arith

  -- One row and what it reverses cancel at every ingredient.
  row_cancels :
      (k : ℕ) (m : Movement)
      → (if m.ingredient_id == k then neg m.quantity_milli else pos 0)
          +ℤ (if m.ingredient_id == k then m.quantity_milli else pos 0)
        ≡ pos 0
  unfolding ◌+ℤ◌
  row_cancels k m = ground arith

  -- The rows written for fresh, distinct originals carry the opposite of each.
  stock-reversals :
      (k : ℕ) (ms : List Movement) (already : List ℕ)
      → DistinctIngredients ms
      → Fresh already ms
      → stock_on_hand business none (written ms already) k +ℤ sum_at k ms ≡ pos 0
  unfolding reversals stock_on_hand
  stock-reversals k [] already d f = grind int_laws
  stock-reversals k (m ∷ ms) already d f =
      let more =
        stock-reversals k ms (m.ingredient_id ∷ already) d.1
          (Fresh-cons m.ingredient_id already ms d.0 f.1) in
      rw (f.0, in_stock-reversal k m, quantity-reversal m)
        (omega (
          int_laws,
          ap pos_part (row_cancels k m),
          ap neg_part (row_cancels k m),
          ap pos_part more,
          ap neg_part more,
        ))

  -- No row that is written is itself an original.
  originals-reversals :
      (ms : List Movement) (already : List ℕ) → originals business order (written ms already) ≡ []
  unfolding reversals
  originals-reversals [] already = unfold originals in refl
  originals-reversals (m ∷ ms) already = elim (Bool-cases (contains m.ingredient_id already)) [
    | inl old ↦ rw old (originals-reversals ms already)
    | inr new ↦ rw new (
        originals-reversal_cons m (written ms (m.ingredient_id ∷ already))
        ∙ originals-reversals ms (m.ingredient_id ∷ already))
  ]

  -- A covered original is skipped.
  reversals-Covered :
      (ms : List Movement) (already : List ℕ) → Covered already ms → written ms already ≡ []
  unfolding reversals
  reversals-Covered [] already c = refl
  reversals-Covered (m ∷ ms) already c = rw c.0 (reversals-Covered ms already c.1)

  -- Every original ends up in the set or among the rows that are written.
  written-covers :
      (j : ℕ) (ms : List Movement) (already : List ℕ)
      → contains j (ingredients_of ms) ≡ true
      → (contains j already || contains j (ingredients_of (written ms already))) ≡ true
  unfolding reversals
  written-covers j [] already h = cc
  written-covers j (m ∷ ms) already h = elim (Bool-cases (contains m.ingredient_id already)) [
    | inl old ↦ rw old (ground (arith, written-covers j ms already, ==_iff j m.ingredient_id))
    | inr new ↦
        rw (new, ingredient-reversal m)
          (ground (arith, written-covers j ms (m.ingredient_id ∷ already)))
  ]

  -- The rows that are written count as reversals of this order.
  reversed_already-written :
      (ms : List Movement) (already : List ℕ)
      → reversed_already business order (written ms already) ≡ ingredients_of (written ms already)
  unfolding reversals
  reversed_already-written [] already = unfold reversed_already in refl
  reversed_already-written (m ∷ ms) already = elim (Bool-cases (contains m.ingredient_id already)) [
    | inl old ↦ rw old (reversed_already-written ms already)
    | inr new ↦ rw new (
        reversed_already-reversal_cons m (written ms (m.ingredient_id ∷ already))
        ∙ ap (λ t. (reversal now business order by notes m).ingredient_id ∷ t)
            (reversed_already-written ms (m.ingredient_id ∷ already)))
  ]

Covered-of :
    (target : List ℕ) (ms : List Movement)
    → ((j : ℕ) → contains j (ingredients_of ms) ≡ true → contains j target ≡ true)
    → Covered target ms
Covered-of target [] h = tt
Covered-of target (m ∷ ms) h =
    (h m.ingredient_id (ground arith), Covered-of target ms (λ j e. h j (ground arith)))

pub originals-append :
    (business order : ℕ) (xs ys : List Movement)
    → originals business order (xs ++ ys)
      ≡ originals business order xs ++ originals business order ys
unfolding originals
originals-append business order xs ys = keep-append _ xs ys

pub reversed_already-append :
    (business order : ℕ) (xs ys : List Movement)
    → reversed_already business order (xs ++ ys)
      ≡ reversed_already business order xs ++ reversed_already business order ys
unfolding reversed_already
reversed_already-append business order xs ys =
    rw (keep-append (λ m. of_order business order m && is_reversal m.movement_type) xs ys)
      (map-append _ _ _)

-- A void of an order whose sale rows name each ingredient once, and that was not reversed before,
-- raises the stock of every ingredient by exactly what the order's rows took out.
pub reversal_restores :
    (now business order : ℕ) (by : Option ℕ) (notes : Option String) (ledger : List Movement)
    (k : ℕ)
    → DistinctIngredients (originals business order ledger)
    → reversed_already business order ledger ≡ []
    → stock_on_hand business none (reverse_sale_consumption now business order by notes ledger).1 k
        +ℤ sum_at k (originals business order ledger)
      ≡ stock_on_hand business none ledger k
unfolding reverse_sale_consumption
reversal_restores now business order by notes ledger k d none_yet =
    let rows = originals business order ledger in
    rw none_yet (
      omega (
        int_laws,
        ap pos_part (
            stock_on_hand-append business none ledger
              (reversals now business order by notes rows []) k),
        ap neg_part (
            stock_on_hand-append business none ledger
              (reversals now business order by notes rows []) k),
        ap pos_part (stock-reversals now business order by notes k rows [] d (Fresh-nil rows)),
        ap neg_part (stock-reversals now business order by notes k rows [] d (Fresh-nil rows)),
      ))

-- A second void of the same order, by anybody and at any time, writes nothing and returns 0,
-- whatever the ledger held before the first.
pub reversal_idempotent :
    (now later business order : ℕ) (by by' : Option ℕ) (notes notes' : Option String)
    (ledger : List Movement)
    → let after = (reverse_sale_consumption now business order by notes ledger).1 in
      reverse_sale_consumption later business order by' notes' after ≡ (0, after)
unfolding reverse_sale_consumption
reversal_idempotent now later business order by by' notes notes' ledger =
    let rows = originals business order ledger in
    let already = reversed_already business order ledger in
    let new = reversals now business order by notes rows already in
    let same : originals business order (ledger ++ new) ≡ rows =
      originals-append business order ledger new
      ∙ rw (originals-reversals now business order by notes rows already) (append-nil _) in
    let covered : Covered (reversed_already business order (ledger ++ new)) rows =
      rw
        (
          reversed_already-append business order ledger new,
          reversed_already-written now business order by notes rows already,
        )
        (Covered-of _ rows (λ j e.
          contains-append j already (ingredients_of new)
          ∙ written-covers now business order by notes j rows already e)) in
    rw (same, reversals-Covered later business order by' notes' rows _ covered)
      (ap (λ (t : List Movement). (0, t)) (append-nil (ledger ++ new)))
