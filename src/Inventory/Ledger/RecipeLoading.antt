-- ===== src/Inventory/Ledger/RecipeLoading.antt =====
-- load_recipe_specs (backend/app/inventory/ledger.py) over the recipe rows of
-- shared/models/recipe.py.
use mathlib.Core.List.{Memᴰ}
use nextgen_backend.Prelude.{
  ℕ, ◌≡◌, refl, inl, inr, Bool, true, false, ◌&&◌, ◌||◌, Option, none, some, List, [], ◌∷◌, arith,
  ◌==◌, if◌then◌else◌, contains, map, Bool-cases, ap, ◌∙◌, sym, ==_iff,
}
use nextgen_backend.Prelude.Int.{ℤ, pos, leb_ℤ, eqb_ℤ}
use nextgen_backend.Inventory.Consumption.{RecipeLineSpec, RecipeSpec, Recipes, get_recipe}
use mathlib.Core.Option.{some-injective}

pub record RecipeItem : Type 0 where
  pub ingredient_id : ℕ
  pub quantity_milli : ℤ
  pub option_id : Option ℕ
  pub removable_ref_id : Option ℕ
  pub sort_order : Option ℤ

pub record Recipe : Type 0 where
  pub business_id : ℕ
  pub is_active : Bool
  pub menu_item_id : Option ℕ
  pub menu_add_on_id : Option ℕ
  pub yield_qty : ℤ
  pub items : List RecipeItem

-- `n or d` on an integer that may be missing.
abbrev or_default : Option ℤ → ℤ → ℤ
or_default none d = d
or_default (some n) d = if eqb_ℤ n (pos 0) then d else n

-- `sorted(items, key=lambda x: x.sort_order or 0)`, which is stable.
pub insert_line : RecipeItem → List RecipeItem → List RecipeItem
insert_line x [] = x ∷ []
insert_line x (y ∷ ys) =
    if leb_ℤ (or_default x.sort_order (pos 0)) (or_default y.sort_order (pos 0))
    then x ∷ y ∷ ys
    else y ∷ insert_line x ys

pub sort_lines : List RecipeItem → List RecipeItem
sort_lines [] = []
sort_lines (x ∷ xs) = insert_line x (sort_lines xs)

abbrev line_spec : RecipeItem → RecipeLineSpec
line_spec line = record {
  ingredient_id = line.ingredient_id;
  quantity_milli = line.quantity_milli;
  option_id = line.option_id;
  removable_ref_id = line.removable_ref_id;
}

unfoldable pub recipe_spec : Recipe → RecipeSpec
recipe_spec recipe = record {
  lines = map line_spec (sort_lines recipe.items);
  yield_qty = or_default (some recipe.yield_qty) (pos 1);
}

abbrev asked : Option ℕ → List ℕ → Bool
asked none ids = false
asked (some k) ids = contains k ids

-- The `where` of the query.
unfoldable pub selected : ℕ → List ℕ → List ℕ → Recipe → Bool
selected business menu_item_ids add_on_ids r =
    r.business_id == business
    && r.is_active
    && (asked r.menu_item_id menu_item_ids || asked r.menu_add_on_id add_on_ids)

-- `specs[k] = spec`
pub put : ℕ → RecipeSpec → Recipes → Recipes
put k spec [] = (k, spec) ∷ []
put k spec ((j, r) ∷ rest) = if j == k then (j, spec) ∷ rest else (j, r) ∷ put k spec rest

abbrev file_spec : Recipe → Recipes × Recipes → Recipes × Recipes
file_spec recipe (items, add_ons) = elim recipe.menu_item_id [
  | some k ↦ (put k (recipe_spec recipe) items, add_ons)
  | none ↦ elim recipe.menu_add_on_id [
    | some k ↦ (items, put k (recipe_spec recipe) add_ons)
    | none ↦ (items, add_ons)
  ]
]

pub file_specs : ℕ → List ℕ → List ℕ → List Recipe → Recipes × Recipes → Recipes × Recipes
file_specs business menu_item_ids add_on_ids [] specs = specs
file_specs business menu_item_ids add_on_ids (r ∷ rs) specs =
    file_specs business menu_item_ids add_on_ids rs
      (if selected business menu_item_ids add_on_ids r then file_spec r specs else specs)

-- With nothing to ask for the query is not made; it would select no row.
unfoldable pub load_recipe_specs : ℕ → List ℕ → List ℕ → List Recipe → Recipes × Recipes
load_recipe_specs business menu_item_ids add_on_ids recipes =
    file_specs business menu_item_ids add_on_ids recipes ([], [])

get_recipe-put :
    (k j : ℕ) (spec : RecipeSpec) (rs : Recipes)
    → get_recipe k (put j spec rs) ≡ (if j == k then some spec else get_recipe k rs)
unfolding get_recipe put
get_recipe-put k j spec [] = ground arith
get_recipe-put k j spec ((i, r) ∷ rs) = ground (arith, get_recipe-put k j spec rs)

selected_row :
    (business : ℕ) (items add_ons : List ℕ) (r : Recipe)
    → selected business items add_ons r ≡ true
    → (r.business_id ≡ business) × (r.is_active ≡ true)
unfolding selected
selected_row business items add_ons r h = ground arith

none_found : (k : ℕ) (spec : RecipeSpec) → get_recipe k [] ≡ some spec → ⊥
unfolding get_recipe
none_found k spec e = cc

module _ (business : ℕ) (recipes : List Recipe) where
  -- A specification filed under `k` is that of an active row of this business that names `k`.
  abbrev pub FiledFrom : (Recipe → Option ℕ) → ℕ → RecipeSpec → Type 0
  FiledFrom column k spec =
      (row : Recipe) × Memᴰ row recipes
      × (row.business_id ≡ business)
      × (row.is_active ≡ true)
      × (column row ≡ some k)
      × (spec ≡ recipe_spec row)

  abbrev AllFiled : (Recipe → Option ℕ) → Recipes → Type 0
  AllFiled column rs =
      (k : ℕ) (spec : RecipeSpec) → get_recipe k rs ≡ some spec → FiledFrom column k spec

  put-AllFiled :
      (column : Recipe → Option ℕ) (row : Recipe) (j : ℕ) (rs : Recipes)
      → Memᴰ row recipes
      → row.business_id ≡ business
      → row.is_active ≡ true
      → column row ≡ some j
      → AllFiled column rs
      → AllFiled column (put j (recipe_spec row) rs)
  put-AllFiled column row j rs m b a c h k spec e = elim (Bool-cases (j == k)) [
    | inl same ↦ (
      row,
      m,
      b,
      a,
      c ∙ ap some ((==_iff j k).0 same),
      sym (some-injective _ _ (rw (get_recipe-put k j (recipe_spec row) rs, same) at e)),
    )
    | inr other ↦ h k spec (rw (get_recipe-put k j (recipe_spec row) rs, other) at e)
  ]

  AllSpecs : Recipes × Recipes → Type 0
  AllSpecs specs = AllFiled (λ r. r.menu_item_id) specs.0 × AllFiled (λ r. r.menu_add_on_id) specs.1

  file_spec-AllSpecs :
      (row : Recipe) (item add_on : Option ℕ) (specs : Recipes × Recipes)
      → Memᴰ row recipes
      → row.business_id ≡ business
      → row.is_active ≡ true
      → row.menu_item_id ≡ item
      → row.menu_add_on_id ≡ add_on
      → AllSpecs specs
      → AllSpecs (file_spec row specs)
  unfolding AllSpecs recipe_spec
  file_spec-AllSpecs row (some k) add_on specs m b a e f h =
      rw e (put-AllFiled (λ r. r.menu_item_id) row k specs.0 m b a e h.0, h.1)
  file_spec-AllSpecs row none (some k) specs m b a e f h =
      rw (e, f) (h.0, put-AllFiled (λ r. r.menu_add_on_id) row k specs.1 m b a f h.1)
  file_spec-AllSpecs row none none specs m b a e f h = rw (e, f) h

  file_specs-AllSpecs :
      (menu_item_ids add_on_ids : List ℕ) (rows : List Recipe) (specs : Recipes × Recipes)
      → ((r : Recipe) → Memᴰ r rows → Memᴰ r recipes)
      → AllSpecs specs
      → AllSpecs (file_specs business menu_item_ids add_on_ids rows specs)
  unfolding file_specs
  file_specs-AllSpecs items add_ons [] specs into h = h
  file_specs-AllSpecs items add_ons (r ∷ rs) specs into h =
      elim (Bool-cases (selected business items add_ons r)) [
        | inl in_query ↦
            let (b, a) = selected_row business items add_ons r in_query in
            rw in_query (
              file_specs-AllSpecs items add_ons rs (file_spec r specs) (λ x m. into x (Memᴰ.tail m))
                (file_spec-AllSpecs r r.menu_item_id r.menu_add_on_id specs
                  (into r (Memᴰ.head refl)) b a refl refl h))
        | inr out ↦
            rw out (file_specs-AllSpecs items add_ons rs specs (λ x m. into x (Memᴰ.tail m)) h)
      ]

  -- A loaded recipe, of a menu item or of an add-on, is always that of an active row of the
  -- caller's own business which names that menu item or add-on: no other tenant's recipe is ever
  -- resolved.
  pub load_recipe_specs-own_rows :
      (menu_item_ids add_on_ids : List ℕ) (k : ℕ) (spec : RecipeSpec)
      → let (items, add_ons) = load_recipe_specs business menu_item_ids add_on_ids recipes in
        (get_recipe k items ≡ some spec → FiledFrom (λ r. r.menu_item_id) k spec)
        × (get_recipe k add_ons ≡ some spec → FiledFrom (λ r. r.menu_add_on_id) k spec)
  unfolding load_recipe_specs AllSpecs
  load_recipe_specs-own_rows items add_ons k spec =
      let all =
        file_specs-AllSpecs items add_ons recipes ([], []) (λ r m. m)
          (λ j s e. absurd (none_found j s e), λ j s e. absurd (none_found j s e)) in
      (all.0 k spec, all.1 k spec)
