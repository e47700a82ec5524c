-- ===== src/Inventory/Consumption/Lines.antt =====
-- The loop over one recipe's lines (backend/app/inventory/consumption.py, resolve_line_item)
-- against an independent sum over the lines.
use nextgen_backend.Prelude.{
  ℕ, ◌≡◌, refl, inl, inr, false, Option, some, List, [], ◌∷◌, arith, ◌==◌, if◌then◌else◌,
  Bool-cases, not, ◌&&◌, contains, true, Bool, none,
}
use nextgen_backend.Prelude.Int.{ℤ, pos, pos_part, ◌+ℤ◌, ◌*ℤ◌, leb_ℤ, int_laws}
use nextgen_backend.Prelude.Decimal.{quantize}
use nextgen_backend.Prelude.OptionMonad.{◌>>=◌, >>=-eq-some}
use nextgen_backend.Inventory.Totals.{
  Totals, total_of, DistinctKeys, total_of-bump, bump-DistinctKeys,
}
use nextgen_backend.Inventory.Consumption.{RecipeLineSpec, scale, add, applies, resolve_lines}

-- The two rules, case by case: a line bound to an option wants it selected, and a line that may be
-- removed is left out when the customer removed it.
abbrev pub consumed : Option ℕ → Option ℕ → List ℕ → List ℕ → Bool
consumed none none selected removed = true
consumed none (some ref) selected removed = not (contains ref removed)
consumed (some option) none selected removed = contains option selected
consumed (some option) (some ref) selected removed =
    contains option selected && not (contains ref removed)

-- What one line asks of an ingredient: nothing when a rule leaves it out, and otherwise its quantity times the factor over the yield, rounded half up.
unfoldable pub line_demand : ℕ → List ℕ → List ℕ → ℤ → ℤ → RecipeLineSpec → ℤ
line_demand k selected removed factor yield_qty line =
    if consumed line.option_id line.removable_ref_id selected removed
    then (if line.ingredient_id == k
        then quantize (line.quantity_milli *ℤ factor) (pos_part yield_qty)
        else pos 0)
    else pos 0

unfoldable pub lines_demand : ℕ → List ℕ → List ℕ → ℤ → ℤ → List RecipeLineSpec → ℤ
lines_demand k selected removed factor yield_qty [] = pos 0
lines_demand k selected removed factor yield_qty (line ∷ lines) =
    line_demand k selected removed factor yield_qty line
    +ℤ lines_demand k selected removed factor yield_qty lines

pub total_of-add :
    (k i : ℕ) (a : ℤ) (t : Totals)
    → total_of k (add i a t) ≡ (if i == k then a else pos 0) +ℤ total_of k t
unfolding add
total_of-add k i a t = grind (int_laws, total_of-bump k i a t)

pub add-DistinctKeys : (i : ℕ) (a : ℤ) (t : Totals) → DistinctKeys t → DistinctKeys (add i a t)
unfolding add
add-DistinctKeys i a t h = ground (arith, bump-DistinctKeys i a t h)

module _ (selected removed : List ℕ) (factor yield_qty : ℤ) where
  -- One line's step of the loop.
  abbrev pub line_step : RecipeLineSpec → Totals → Option Totals
  line_step line totals =
      if applies selected removed line
      then (do
        amount ← scale line.quantity_milli factor yield_qty
        some (add line.ingredient_id amount totals))
      else some totals

  line_step-total :
      (k : ℕ) (line : RecipeLineSpec) (t u : Totals)
      → line_step line t ≡ some u
      → total_of k u ≡ line_demand k selected removed factor yield_qty line +ℤ total_of k t
  unfolding line_demand scale applies
  line_step-total k line t u e = grind (
    int_laws,
    total_of-add k line.ingredient_id
        (quantize (line.quantity_milli *ℤ factor) (pos_part yield_qty)) t,
  )

  line_step-DistinctKeys :
      (line : RecipeLineSpec) (t u : Totals)
      → line_step line t ≡ some u
      → DistinctKeys t
      → DistinctKeys u
  unfolding scale
  line_step-DistinctKeys line t u e h = ground (
    arith,
    add-DistinctKeys line.ingredient_id
        (quantize (line.quantity_milli *ℤ factor) (pos_part yield_qty)) t h,
  )

  line_step-some :
      (line : RecipeLineSpec) (t : Totals)
      → leb_ℤ yield_qty (pos 0) ≡ false
      → (u : Totals) × (line_step line t ≡ some u)
  unfolding scale
  line_step-some line t h = elim (Bool-cases (applies selected removed line)) [
    | inl e ↦ (
      add line.ingredient_id (quantize (line.quantity_milli *ℤ factor) (pos_part yield_qty)) t,
      rw (e, h),
    )
    | inr e ↦ (t, rw e)
  ]

  pub resolve_lines-total :
      (k : ℕ) (lines : List RecipeLineSpec) (t u : Totals)
      → resolve_lines selected removed factor yield_qty lines t ≡ some u
      → total_of k u ≡ lines_demand k selected removed factor yield_qty lines +ℤ total_of k t
  unfolding resolve_lines lines_demand
  resolve_lines-total k [] t u e = grind int_laws
  resolve_lines-total k (line ∷ lines) t u e =
      let (v, first, rest) = >>=-eq-some (line_step line t) _ e in
      grind (int_laws, line_step-total k line t v first, resolve_lines-total k lines v u rest)

  pub resolve_lines-DistinctKeys :
      (lines : List RecipeLineSpec) (t u : Totals)
      → resolve_lines selected removed factor yield_qty lines t ≡ some u
      → DistinctKeys t
      → DistinctKeys u
  unfolding resolve_lines
  resolve_lines-DistinctKeys [] t u e h = ground arith
  resolve_lines-DistinctKeys (line ∷ lines) t u e h =
      let (v, first, rest) = >>=-eq-some (line_step line t) _ e in
      resolve_lines-DistinctKeys lines v u rest (line_step-DistinctKeys line t v first h)

  pub resolve_lines-some :
      (lines : List RecipeLineSpec) (t : Totals)
      → leb_ℤ yield_qty (pos 0) ≡ false
      → (u : Totals) × (resolve_lines selected removed factor yield_qty lines t ≡ some u)
  unfolding resolve_lines
  resolve_lines-some [] t h = (t, refl)
  resolve_lines-some (line ∷ lines) t h =
      let (v, e) = line_step-some line t h in
      let (u, f) = resolve_lines-some lines v h in (u, rw e f)
