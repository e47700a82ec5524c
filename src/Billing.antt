-- ===== src/Billing.antt =====
-- The commercial life of a business: backend/app/billing/trials.py, lifecycle.py and
-- account_status.py, and the grace-period sweep of backend/app/worker.py. Instants are
-- microseconds and local dates are day numbers; what zoneinfo says of a business's time zone is
-- the parameter `zone`. A database and its log are not modelled here.
pub mod Zones
pub mod Trials
pub mod Standing
pub mod Invoices
mod Examples
use nextgen_backend.Prelude.{
  ℕ, suc, ◌+◌, ◌-◌, ◌*◌, String, Bool, true, false, not, ◌&&◌, ◌||◌, Option, none, some, List, [],
  ◌∷◌, ltb, leb, ◌==◌, if◌then◌else◌, exists,
}
use nextgen_backend.Prelude.Int.{ℤ, pos, pos_part, leb_ℤ}
use nextgen_backend.Prelude.Result.{Outcome, done, raised, ◌>>=◌, ◌>>◌, raise_when}

pub data BillingStatus : Type 0 where
  billing_trial billing_active billing_past_due billing_suspended billing_cancelled : BillingStatus

-- The reason that the trial sweep writes, the one of the grace-period sweep, and any other.
pub data SuspendedReason : Type 0 where
  trial_expired overdue_payment other_reason : SuspendedReason

pub record Business : Type 0 where
  pub is_active : Bool
  pub suspended_reason : Option SuspendedReason
  pub billing_status : BillingStatus
  pub billing_period_started_at : ℕ
  pub trial_started_at : Option ℕ
  pub trial_ends_at : Option ℕ
  pub trial_extension_days_total : ℕ
  pub converted_at : Option ℕ

-- The calendar of a time zone: the local date of an instant, and the instant at which a local
-- date begins.
pub record Zone : Type 0 where
  pub date_of : ℕ → ℕ
  pub midnight : ℕ → ℕ

abbrev pub trial_default_days : ℕ
trial_default_days = 14

abbrev pub onboarder_max_trial_extension_days : ℕ
onboarder_max_trial_extension_days = 14

-- shared/utils/time.py, end_of_local_day_utc
unfoldable pub end_of_local_day_utc : Zone → ℕ → ℕ
end_of_local_day_utc zone local_date = zone.midnight (local_date + 1) - 1

unfoldable pub compute_trial_end : Zone → ℕ → ℕ → ℕ
compute_trial_end zone days from_now = end_of_local_day_utc zone (zone.date_of from_now + days)

abbrev is_trial_expired : Option SuspendedReason → Bool
is_trial_expired (some trial_expired) = true
is_trial_expired _ = false

unfoldable pub unsuspend_if_trial_expired : Business → Business
unsuspend_if_trial_expired b =
    if not b.is_active && is_trial_expired b.suspended_reason
    then record b { is_active = true; suspended_reason = none }
    else b

unfoldable pub start_trial : Zone → ℕ → Business → Business
start_trial zone now b = unsuspend_if_trial_expired (record b {
  billing_status = billing_trial;
  trial_started_at = some now;
  trial_extension_days_total = 0;
  trial_ends_at = some (compute_trial_end zone trial_default_days now);
})

pub data TrialError : Type 0 where
  invalid_extension extension_cap_exceeded : TrialError

-- `business.trial_ends_at`, or now where there is none.
abbrev pub end_or : ℕ → Option ℕ → ℕ
end_or now none = now
end_or now (some t) = t

unfoldable pub extend_trial : Zone → ℕ → Bool → ℤ → Business → Outcome TrialError Business
extend_trial zone now is_onboarder days b = do
  raise_when (leb_ℤ days (pos 0)) invalid_extension
  let more = pos_part days
  raise_when
      (is_onboarder && ltb onboarder_max_trial_extension_days (b.trial_extension_days_total + more))
      extension_cap_exceeded
  let new_end_date = zone.date_of (end_or now b.trial_ends_at) + more
  done (
      unsuspend_if_trial_expired (record b {
        billing_status = billing_trial;
        trial_ends_at = some (end_of_local_day_utc zone new_end_date);
        trial_extension_days_total = b.trial_extension_days_total + more;
      }))

unfoldable pub mark_invoice_paid : ℕ → Business → Business
mark_invoice_paid now b = record b {
  billing_status = billing_active;
  is_active = true;
  suspended_reason = none;
  billing_period_started_at = now;
}

unfoldable pub mark_payment_failed : Option ℕ → Business → Business
mark_payment_failed none b = record b { billing_status = billing_past_due }
mark_payment_failed (some event_time) b =
    if ltb event_time b.billing_period_started_at
    then b
    else record b { billing_status = billing_past_due }

abbrev microseconds_per_day : ℕ
microseconds_per_day = 86_400_000_000

abbrev pub grace_period : ℕ
grace_period = 7 * microseconds_per_day

abbrev pub is_past_due : BillingStatus → Bool
is_past_due billing_past_due = true
is_past_due _ = false

unfoldable pub is_past_grace_period : ℕ → Business → Bool
is_past_grace_period now b =
    is_past_due b.billing_status && ltb (b.billing_period_started_at + grace_period) now

unfoldable pub suspend_for_nonpayment : Business → Business
suspend_for_nonpayment b = record b {
  billing_status = billing_suspended;
  is_active = false;
  suspended_reason = some overdue_payment;
}

-- worker.py, suspend_past_due_businesses, for one business.
unfoldable pub suspend_past_due : ℕ → Business → Business
suspend_past_due now b =
    if is_past_due b.billing_status && b.is_active && is_past_grace_period now b
    then suspend_for_nonpayment b
    else b

pub data Status : Type 0 where
  status_trial status_active status_payment_due status_overdue status_expired status_suspended
        status_cancelled :
      Status

pub data Alert : Type 0 where
  alert_trial_ends_7_d alert_trial_ends_3_d alert_trial_ends_1_d alert_trial_expired
        alert_invoice_overdue alert_payment_awaiting alert_suspended :
      Alert

pub record AccountStatus : Type 0 where
  pub status : Status
  pub trial_days_remaining : Option ℕ
  pub alerts : List Alert

abbrev account : Status → Option ℕ → List Alert → AccountStatus
account s days alerts = record { status = s; trial_days_remaining = days; alerts = alerts }

abbrev trial_alerts : ℕ → List Alert
trial_alerts days =
    if leb days 1
    then alert_trial_ends_1_d ∷ []
    else if leb days 3
    then alert_trial_ends_3_d ∷ []
    else if leb days 7
    then alert_trial_ends_7_d ∷ []
    else []

-- _trial_status
unfoldable pub trial_status : Zone → ℕ → Option ℕ → AccountStatus
trial_status zone now none = account status_expired (some 0) (alert_trial_expired ∷ [])
trial_status zone now (some trial_ends_at) =
    if leb trial_ends_at now
    then account status_expired (some 0) (alert_trial_expired ∷ [])
    else let days = zone.date_of trial_ends_at - zone.date_of now in
      account status_trial (some days) (trial_alerts days)

-- The due dates of the open invoices, those that have one.
abbrev due_dates : List (Option ℕ) → List ℕ
due_dates [] = []
due_dates (none ∷ rest) = due_dates rest
due_dates (some d ∷ rest) = d ∷ due_dates rest

abbrev is_empty : List ℕ → Bool
is_empty [] = true
is_empty (_ ∷ _) = false

-- The end of compute_account_status, for a business that is billed.
unfoldable pub invoice_status : ℕ → Bool → List ℕ → AccountStatus
invoice_status today past_due due =
    if past_due || exists (λ d. ltb d today) due
    then account status_overdue none (alert_invoice_overdue ∷ [])
    else if not (is_empty due)
    then account status_payment_due none (alert_payment_awaiting ∷ [])
    else account status_active none []

abbrev status_of : Zone → ℕ → BillingStatus → Option ℕ → List (Option ℕ) → AccountStatus
status_of zone now billing_cancelled trial_ends_at invoices = account status_cancelled none []
status_of zone now billing_trial trial_ends_at invoices = trial_status zone now trial_ends_at
status_of zone now billing trial_ends_at invoices =
    invoice_status (zone.date_of now) (is_past_due billing) (due_dates invoices)

unfoldable pub compute_account_status : Zone → ℕ → Business → List (Option ℕ) → AccountStatus
compute_account_status zone now b open_invoices =
    if not b.is_active
    then account status_suspended none (alert_suspended ∷ [])
    else status_of zone now b.billing_status b.trial_ends_at open_invoices
