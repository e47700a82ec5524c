-- ===== src/Prelude/Lists.antt =====
-- Lists over the native numbers: membership tests, filters and keyed tables.
use Prim.Native.Nat.{ℕ}
use mathlib.Core.Path.{◌≡◌, refl}
use mathlib.Core.Logic.{inl, inr}
use mathlib.Core.Bool.{Bool, true, false, ◌&&◌, ◌||◌}
use mathlib.Core.Option.{Option, none, some}
use mathlib.Core.List.{List, [], ◌∷◌, ◌++◌}
use mathlib.Core.Option.{some-injective}
use native.Mathlib.Omega.{arith}
use nextgen_backend.Prelude.Tests.{◌==◌, if◌then◌else◌, Bool-cases}

module _ {ℓ} {A : Type ℓ} where
  -- Every element satisfies the predicate.
  abbrev pub All {κ} : (A → Type κ) → List A → Type κ
  All P [] = Unit
  All P (x ∷ xs) = P x × All P xs

  -- The elements that pass a test, in order.
  abbrev pub keep : (A → Bool) → List A → List A
  keep p [] = []
  keep p (x ∷ xs) = let rest = keep p xs in if p x then x ∷ rest else rest

  -- Some element passes a test.
  abbrev pub exists : (A → Bool) → List A → Bool
  exists p [] = false
  exists p (x ∷ xs) = p x || exists p xs

  -- The first element that passes a test.
  abbrev pub find : (A → Bool) → List A → Option A
  find p [] = none
  find p (x ∷ xs) = let rest = find p xs in if p x then some x else rest

-- A string that the code looks into, by its code points.
abbrev pub Text : Type 0
Text = List ℕ

abbrev pub same_text : Text → Text → Bool
same_text [] [] = true
same_text (x ∷ xs) (y ∷ ys) = x == y && same_text xs ys
same_text _ _ = false

-- `x in xs` for identifiers.
abbrev pub contains : ℕ → List ℕ → Bool
contains k [] = false
contains k (x ∷ xs) = k == x || contains k xs

pub contains-append :
    (k : ℕ) (xs ys : List ℕ) → contains k (xs ++ ys) ≡ (contains k xs || contains k ys)
contains-append k [] ys = refl
contains-append k (x ∷ xs) ys = ground (arith, contains-append k xs ys)

pub keep-append {ℓ} :
    {A : Type ℓ} (p : A → Bool) (xs ys : List A) → keep p (xs ++ ys) ≡ keep p xs ++ keep p ys
keep-append p [] ys = refl
keep-append p (x ∷ xs) ys = elim (Bool-cases (p x)) [
  | inl e ↦ rw (e, keep-append p xs ys)
  | inr e ↦ rw (e, keep-append p xs ys)
]

-- A changed row is written back over the first that passes a test.
unfoldable pub replace_first {ℓ} : {A : Type ℓ} → (A → Bool) → A → List A → List A
replace_first p new [] = []
replace_first p new (x ∷ xs) =
    let rest = replace_first p new xs in if p x then new ∷ xs else x ∷ rest

pub find-replace_first {ℓ} :
    {A : Type ℓ} (p : A → Bool) (new old : A) (xs : List A)
    → find p xs ≡ some old
    → p new ≡ true
    → find p (replace_first p new xs) ≡ some new
unfolding replace_first
find-replace_first p new old [] e h = cc
find-replace_first p new old (x ∷ xs) e h = elim (Bool-cases (p x)) [
  | inl here ↦ rw (here, h) refl
  | inr there ↦ rw (there, find-replace_first p new old xs (rw there at e) h, there) refl
]

pub All-replace_first {ℓ κ} :
    {A : Type ℓ} (P : A → Type κ) (p : A → Bool) (new : A) (xs : List A)
    → P new
    → All P xs
    → All P (replace_first p new xs)
unfolding replace_first
All-replace_first P p new [] h all = tt
All-replace_first P p new (x ∷ xs) h all = elim (Bool-cases (p x)) [
  | inl here ↦ rw here (h, all.1)
  | inr there ↦ rw there (all.0, All-replace_first P p new xs h all.1)
]

pub All-append {ℓ κ} :
    {A : Type ℓ} (P : A → Type κ) (xs ys : List A) → All P xs → All P ys → All P (xs ++ ys)
All-append P [] ys h g = g
All-append P (x ∷ xs) ys h g = (h.0, All-append P xs ys h.1 g)

-- What is found has whatever holds of all.
pub find-All {ℓ κ} :
    {A : Type ℓ} (P : A → Type κ) (p : A → Bool) (xs : List A) {a : A}
    → find p xs ≡ some a
    → All P xs
    → P a
find-All P p [] e all = cc
find-All P p (x ∷ xs) {a} e all = elim (Bool-cases (p x)) [
  | inl here ↦ rw (← some-injective _ _ (rw here at e)) all.0
  | inr there ↦ find-All P p xs (rw there at e) all.1
]

-- A row added behind rows that fail the test is the one found.
pub find-append_last {ℓ} :
    {A : Type ℓ} (p : A → Bool) (xs : List A) (y : A)
    → All (λ x. p x ≡ false) xs
    → p y ≡ true
    → find p (xs ++ y ∷ []) ≡ some y
find-append_last p [] y h mine = rw mine refl
find-append_last p (x ∷ xs) y h mine = rw (h.0, find-append_last p xs y h.1 mine) refl
