-- ===== src/Pos/Totals.antt =====
-- Sums over the rows that a reversal writes (backend/app/api/v1/routes_pos.py).
use nextgen_backend.Prelude.{
  ℕ, ◌≡◌, refl, inl, inr, Bool, not, ◌&&◌, some, List, [], ◌∷◌, map, ◌==◌, find, exists,
  replace_first, is_some, Bool-cases,
}
use mathlib.Core.Option.{some-injective}
use nextgen_backend.Prelude.Int.{ℤ, pos, ◌+ℤ◌, ◌-ℤ◌, int_laws, leb_ℤ}
use nextgen_backend.Pos.{Allocation, flag_pay_by_link, is_pay_by_link}
use nextgen_backend.Pos.Till.{total, cash_taken, has_allocation}

swap_first : (a b c : ℤ) → c +ℤ b ≡ a +ℤ b -ℤ a +ℤ c
swap_first a b c = grind int_laws

swap_later : (a b c d : ℤ) → a +ℤ (b -ℤ c +ℤ d) ≡ a +ℤ b -ℤ c +ℤ d
swap_later a b c d = grind int_laws

pub total-replace_first {ℓ} :
    {A : Type ℓ} (f : A → ℤ) (p : A → Bool) (new old : A) (xs : List A)
    → find p xs ≡ some old
    → total f (replace_first p new xs) ≡ total f xs -ℤ f old +ℤ f new
unfolding total replace_first
total-replace_first f p new old [] e = cc
total-replace_first f p new old (x ∷ xs) e = elim (Bool-cases (p x)) [
  | inl here ↦
      rw (here, ← some-injective _ _ (rw here at e)) (swap_first (f x) (total f xs) (f new))
  | inr there ↦
      rw (there, total-replace_first f p new old xs (rw there at e))
        (swap_later (f x) (total f xs) (f old) (f new))
]

pub total_same {ℓ} :
    {A : Type ℓ} (f g : A → ℤ) (xs : List A) → ((x : A) → f x ≡ g x) → total f xs ≡ total g xs
unfolding total
total_same f g [] same = refl
total_same f g (x ∷ xs) same = rw (same x, total_same f g xs same) refl

total-map {ℓ} :
    {A : Type ℓ} (f : A → ℤ) (g : A → A) (xs : List A)
    → ((x : A) → f (g x) ≡ f x)
    → total f (map g xs) ≡ total f xs
unfolding total
total-map f g [] same = refl
total-map f g (x ∷ xs) same = rw (same x, total-map f g xs same) refl

exists-map {ℓ} :
    {A : Type ℓ} (p : A → Bool) (g : A → A) (xs : List A)
    → ((x : A) → p (g x) ≡ p x)
    → exists p (map g xs) ≡ exists p xs
exists-map p g [] same = refl
exists-map p g (x ∷ xs) same = rw (same x, exists-map p g xs same) refl

-- Flagging the payment links changes neither the cash taken nor who has allocations.
pub flagged_cash :
    (s k : ℕ) (amount cash : ℤ) (xs : List Allocation)
    → total (cash_taken s) (flag_pay_by_link k amount cash xs) ≡ total (cash_taken s) xs
unfolding flag_pay_by_link
flagged_cash s k amount cash xs = elim (Bool-cases (leb_ℤ (amount -ℤ cash) (pos 0))) [
  | inl h ↦ rw h refl
  | inr h ↦ rw h (
      total-map (cash_taken s) _ xs (λ a.
        elim (Bool-cases (
          a.order_id == k
          && is_pay_by_link a.payment_method
          && not (is_some a.provider_refund_status))) [ inl q ↦ rw q refl | inr q ↦ rw q refl ]))
]

pub flagged_owners :
    (i k : ℕ) (amount cash : ℤ) (xs : List Allocation)
    → has_allocation i (flag_pay_by_link k amount cash xs) ≡ has_allocation i xs
unfolding flag_pay_by_link
flagged_owners i k amount cash xs = elim (Bool-cases (leb_ℤ (amount -ℤ cash) (pos 0))) [
  | inl h ↦ rw h refl
  | inr h ↦ rw h (
      exists-map _ _ xs (λ a.
        elim (Bool-cases (
          a.order_id == k
          && is_pay_by_link a.payment_method
          && not (is_some a.provider_refund_status))) [ inl q ↦ rw q refl | inr q ↦ rw q refl ]))
]
