-- ===== src/Orders/Lifecycle.antt =====
-- The state machine of an order: shared/enums.py (ORDER_STATUS_TRANSITIONS) and
-- update_order_status of backend/app/api/v1/routes_orders.py.
use nextgen_backend.Prelude.{ℕ, suc, ◌+◌, ◌≤◌, ◌<◌, ◌≡◌, ◌⊎◌, inl, inr, Bool, true, false, arith}
use nextgen_backend.Orders.{
  OrderStatus, status_pending_delivery_fee, status_fee_sent, status_new, status_accepted,
  status_in_progress, status_ready, status_collected, status_delivered, status_completed,
  status_cancelled, order_status_transitions, status_in, pre_preparation,
}
use mathlib.Core.Path.{subst}
use mathlib.Core.Bool.{false≢true}

-- A path of allowed transitions, with its length.
pub data Moves : ℕ → OrderStatus → OrderStatus → Type 0 where
  stay : {s : OrderStatus} → Moves 0 s s
  move :
      {n : ℕ} {s t u : OrderStatus}
      → status_in t (order_status_transitions s) ≡ true
      → Moves n t u
      → Moves (suc n) s u

-- How many transitions are left at most.
abbrev left : OrderStatus → ℕ
left status_pending_delivery_fee = 6
left status_fee_sent = 5
left status_new = 4
left status_accepted = 3
left status_in_progress = 2
left status_ready = 1
left status_collected = 0
left status_delivered = 0
left status_completed = 0
left status_cancelled = 0

transition-left :
    (s t : OrderStatus) → status_in t (order_status_transitions s) ≡ true → left t < left s
unfolding order_status_transitions
transition-left s t h = ground arith

Moves-left : (n : ℕ) (s t : OrderStatus) → Moves n s t → n + left t ≤ left s
Moves-left _ s _ stay = omega arith
Moves-left _ s t (move {n = n} {t = mid} h rest) =
    omega (arith, transition-left s mid h, Moves-left n mid t rest)

left_most : (s : OrderStatus) → left s ≤ 6
left_most s = ground arith

-- No order goes round in circles: a path of allowed transitions has at most 6 steps, and only the
-- empty path comes back to where it began.
pub lifecycle_finite : (n : ℕ) (s t : OrderStatus) → Moves n s t → (n ≤ 6) × (s ≡ t → n ≡ 0)
lifecycle_finite n s t m =
    let bound = Moves-left n s t m in
    (
      omega (arith, bound, left_most s),
      λ same. let closed : n + left t ≤ left t = rw same at bound in omega (arith, closed),
    )

abbrev pub is_served : OrderStatus → Bool
is_served status_collected = true
is_served status_delivered = true
is_served status_completed = true
is_served _ = false

next_before_kitchen :
    (s t : OrderStatus)
    → pre_preparation s ≡ true
    → status_in t (order_status_transitions s) ≡ true
    → (pre_preparation t ≡ true) ⊎ ((t ≡ status_in_progress) ⊎ (t ≡ status_cancelled))
unfolding order_status_transitions
next_before_kitchen s t h k = ground arith

served_is_after : {P : Type 0} (s : OrderStatus) → pre_preparation s ≡ true → is_served s ≡ true → P
served_is_after s h k = absurd (false≢true (ground arith))

cancelled_is_final :
    {P : Type 0} (n : ℕ) (t : OrderStatus) → Moves n status_cancelled t → is_served t ≡ true → P
unfolding order_status_transitions
cancelled_is_final _ _ stay h = cc
cancelled_is_final _ t (move step rest) h = cc

-- An order that has not reached the kitchen is collected, delivered or completed only by way of
-- IN_PROGRESS.
pub served_through_kitchen :
    (n : ℕ) (s t : OrderStatus)
    → Moves n s t
    → pre_preparation s ≡ true
    → is_served t ≡ true
    → (i j : ℕ) × Moves i s status_in_progress × Moves j status_in_progress t × (i + j ≡ n)
served_through_kitchen _ s _ stay h k = served_is_after s h k
served_through_kitchen _ s t (move {n = n} {t = mid} step rest) h k =
    elim (next_before_kitchen s mid h step) [
      | inl early ↦
          let (i, j, before, after, total) = served_through_kitchen n mid t rest early k in
          (suc i, j, move step before, after, omega (arith, total))
      | inr (inl cooking) ↦ (
        1,
        n,
        subst (λ x. Moves 1 s x) cooking (move step stay),
        subst (λ x. Moves n x t) cooking rest,
        omega arith,
      )
      | inr (inr cancelled) ↦ cancelled_is_final n t (subst (λ x. Moves n x t) cancelled rest) k
    ]
