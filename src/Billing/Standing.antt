-- ===== src/Billing/Standing.antt =====
-- Payments and suspension (backend/app/billing/lifecycle.py, account_status.py, trials.py and the
-- hourly sweep of backend/app/worker.py).
use nextgen_backend.Prelude.{
  ℕ, ◌+◌, ◌≤◌, ◌<◌, ◌≡◌, refl, Bool, true, false, ◌&&◌, Option, none, some, List, [], ◌∷◌, arith,
  ltb,
}
use nextgen_backend.Prelude.Int.{ℤ, pos, pos_part, leb_ℤ}
use nextgen_backend.Prelude.Result.{done, raise_when, >>=-eq-done, done_inj}
use nextgen_backend.Billing.{
  Zone, Business, billing_trial, overdue_payment, status_suspended, status_active,
  unsuspend_if_trial_expired, start_trial, extend_trial, mark_invoice_paid, mark_payment_failed,
  is_past_grace_period, grace_period, suspend_for_nonpayment, suspend_past_due, invoice_status,
  compute_account_status, end_of_local_day_utc, compute_trial_end, end_or, extension_cap_exceeded,
  onboarder_max_trial_extension_days, trial_default_days,
}

-- The account was suspended for non-payment.
abbrev Unpaid : Business → Type 0
Unpaid b = (b.is_active ≡ false) × (b.suspended_reason ≡ some overdue_payment)

-- What the routes and the jobs do to a business's billing, except a payment.
pub data Step (zone : Zone) (b : Business) : Business → Type 0 where
  trial_started : (now : ℕ) → Step zone b (start_trial zone now b)
  trial_extended :
      (now : ℕ) (is_onboarder : Bool) (days : ℤ) {new : Business}
      → extend_trial zone now is_onboarder days b ≡ done new
      → Step zone b new
  payment_failed : (event_time : Option ℕ) → Step zone b (mark_payment_failed event_time b)
  swept : (now : ℕ) → Step zone b (suspend_past_due now b)

pub data Steps (zone : Zone) (b : Business) : Business → Type 0 where
  start : Steps zone b b
  next : {mid new : Business} → Steps zone b mid → Step zone mid new → Steps zone b new

unsuspend-Unpaid : (b : Business) → Unpaid b → Unpaid (unsuspend_if_trial_expired b)
unfolding unsuspend_if_trial_expired
unsuspend-Unpaid b (off, why) = ground arith

extend-Unpaid :
    (zone : Zone) (now : ℕ) (is_onboarder : Bool) (days : ℤ) (b new : Business)
    → extend_trial zone now is_onboarder days b ≡ done new
    → Unpaid b
    → Unpaid new
unfolding extend_trial
extend-Unpaid zone now is_onboarder days b new e h =
    let (_, _, e1) = >>=-eq-done (raise_when (leb_ℤ days (pos 0)) _) _ e in
    let more = pos_part days in
    let (_, _, e2) =
      >>=-eq-done
        (raise_when
          (is_onboarder
            && ltb onboarder_max_trial_extension_days (b.trial_extension_days_total + more))
          extension_cap_exceeded)
        _ e1 in
    let set : Business = record b {
      billing_status = billing_trial;
      trial_ends_at =
          some (end_of_local_day_utc zone (zone.date_of (end_or now b.trial_ends_at) + more));
      trial_extension_days_total = b.trial_extension_days_total + more;
    } in
    let made : unsuspend_if_trial_expired set ≡ new = done_inj e2 in
    rw (← made) (unsuspend-Unpaid set h)

Step-Unpaid : (zone : Zone) (b new : Business) → Step zone b new → Unpaid b → Unpaid new
unfolding start_trial mark_payment_failed suspend_past_due suspend_for_nonpayment
Step-Unpaid zone b _ (trial_started now) h =
    let set : Business = record b {
      billing_status = billing_trial;
      trial_started_at = some now;
      trial_extension_days_total = 0;
      trial_ends_at = some (compute_trial_end zone trial_default_days now);
    } in
    unsuspend-Unpaid set h
Step-Unpaid zone b new (trial_extended now is_onboarder days e) h =
    extend-Unpaid zone now is_onboarder days b new e h
Step-Unpaid zone b _ (payment_failed none) h = h
Step-Unpaid zone b _ (payment_failed (some t)) h = ground arith
Step-Unpaid zone b _ (swept now) h = ground arith

Steps-Unpaid : (zone : Zone) (b new : Business) → Steps zone b new → Unpaid b → Unpaid new
Steps-Unpaid zone b _ start h = h
Steps-Unpaid zone b new (next {mid = mid} past last) h =
    Step-Unpaid zone mid new last (Steps-Unpaid zone b mid past h)

-- A suspension for non-payment outlasts every trial that is started or extended, failed payment
-- and sweep after it: the account reads as suspended until an invoice is paid.
pub nonpayment_lasts :
    (zone : Zone) (b new : Business) (now : ℕ) (invoices : List (Option ℕ))
    → Steps zone (suspend_for_nonpayment b) new
    → ((compute_account_status zone now new invoices).status ≡ status_suspended)
      × ((paid_at : ℕ)
          → (compute_account_status zone now (mark_invoice_paid paid_at new) []).status
            ≡ status_active)
unfolding suspend_for_nonpayment compute_account_status mark_invoice_paid invoice_status
nonpayment_lasts zone b new now invoices steps =
    let h = Steps-Unpaid zone (suspend_for_nonpayment b) new steps (refl, refl) in
    (rw h.0 refl, λ paid_at. refl)

-- Failed payments reported one after another, each with the time that Stripe gives or without.
abbrev pub payments_failed : List (Option ℕ) → Business → Business
payments_failed [] b = b
payments_failed (event_time ∷ later) b = payments_failed later (mark_payment_failed event_time b)

abbrev PaidUp : ℕ → Business → Type 0
PaidUp paid_at b =
    (b.is_active ≡ true) × (b.suspended_reason ≡ none) × (b.billing_period_started_at ≡ paid_at)

failed-PaidUp :
    (paid_at : ℕ) (event_time : Option ℕ) (b : Business)
    → PaidUp paid_at b
    → PaidUp paid_at (mark_payment_failed event_time b)
unfolding mark_payment_failed
failed-PaidUp paid_at none b h = h
failed-PaidUp paid_at (some t) b h = ground arith

payments_failed-PaidUp :
    (paid_at : ℕ) (failures : List (Option ℕ)) (b : Business)
    → PaidUp paid_at b
    → PaidUp paid_at (payments_failed failures b)
payments_failed-PaidUp paid_at [] b h = h
payments_failed-PaidUp paid_at (t ∷ later) b h =
    payments_failed-PaidUp paid_at later (mark_payment_failed t b) (failed-PaidUp paid_at t b h)

-- The sweep never suspends a business before its grace period has passed since the last paid
-- invoice, however many failed payments are reported in between and in whatever order, and the
-- business stays active.
pub paid_is_safe :
    (paid_at now : ℕ) (failures : List (Option ℕ)) (b : Business)
    → now ≤ paid_at + grace_period
    → let failed = payments_failed failures (mark_invoice_paid paid_at b) in
      (suspend_past_due now failed ≡ failed)
      × (failed.is_active ≡ true)
      × (failed.suspended_reason ≡ none)
unfolding mark_invoice_paid suspend_past_due is_past_grace_period
paid_is_safe paid_at now failures b h =
    let failed = payments_failed failures (mark_invoice_paid paid_at b) in
    let (active, why, since) =
      payments_failed-PaidUp paid_at failures (mark_invoice_paid paid_at b) (refl, refl, refl) in
    (ground arith, active, why)

-- A failure that happened before the last payment, reported after it, changes nothing, and the
-- account without open invoices still reads as active.
pub stale_failure_ignored :
    (zone : Zone) (paid_at event_time now : ℕ) (b : Business)
    → event_time < paid_at
    → let paid = mark_invoice_paid paid_at b in
      (mark_payment_failed (some event_time) paid ≡ paid)
      × ((compute_account_status zone now (mark_payment_failed (some event_time) paid) []).status
          ≡ status_active)
unfolding mark_invoice_paid mark_payment_failed compute_account_status invoice_status
stale_failure_ignored zone paid_at event_time now b h = ground arith
