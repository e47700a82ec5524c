-- ===== src/Billing/Trials.antt =====
-- Trials (backend/app/billing/trials.py and account_status.py, _trial_status).
use nextgen_backend.Prelude.{
  ℕ, ◌+◌, ◌-◌, ◌≤◌, ◌<◌, ◌≡◌, ◌≢◌, refl, ap, ◌∙◌, Bool, true, false, ◌&&◌, Option, some, List,
  arith, ltb, leb, sym,
}
use nextgen_backend.Prelude.Int.{ℤ, pos, pos_part, leb_ℤ, negsuc}
use nextgen_backend.Prelude.Result.{Outcome, done, raise_when, >>=-eq-done, done_inj}
use nextgen_backend.Billing.{
  Zone, Business, billing_trial, status_trial, status_expired, TrialError, invalid_extension,
  extension_cap_exceeded, compute_trial_end, end_of_local_day_utc, unsuspend_if_trial_expired,
  start_trial, extend_trial, trial_default_days, onboarder_max_trial_extension_days, trial_status,
  compute_account_status,
}
use nextgen_backend.Billing.Zones.{ZoneLaws, after_end, within_end, end_date}
use mathlib.Core.Path.{subst}

kept_trial :
    (b : Business)
    → let new = unsuspend_if_trial_expired b in
      (new.billing_status ≡ b.billing_status)
      × (new.trial_ends_at ≡ b.trial_ends_at)
      × (new.trial_extension_days_total ≡ b.trial_extension_days_total)
      × (b.is_active ≡ true → new.is_active ≡ true)
unfolding unsuspend_if_trial_expired
kept_trial b = ground arith

on_trial :
    (zone : Zone) (t ends : ℕ) (b : Business) (invoices : List (Option ℕ))
    → b.is_active ≡ true
    → b.billing_status ≡ billing_trial
    → b.trial_ends_at ≡ some ends
    → compute_account_status zone t b invoices ≡ trial_status zone t (some ends)
unfolding compute_account_status
on_trial zone t ends b invoices a s e = rw (a, s, e) refl

started :
    (zone : Zone) (now t : ℕ) (b : Business) (invoices : List (Option ℕ))
    → b.is_active ≡ true
    → compute_account_status zone t (start_trial zone now b) invoices
      ≡ trial_status zone t (some (end_of_local_day_utc zone (zone.date_of now + 14)))
unfolding start_trial compute_trial_end
started zone now t b invoices active =
    let set : Business = record b {
      billing_status = billing_trial;
      trial_started_at = some now;
      trial_extension_days_total = 0;
      trial_ends_at = some (compute_trial_end zone trial_default_days now);
    } in
    let kept = kept_trial set in
    on_trial zone t (compute_trial_end zone trial_default_days now) (unsuspend_if_trial_expired set)
      invoices (kept.3 active) kept.0 kept.1

trial_open :
    (zone : Zone) (t ends : ℕ)
    → t < ends
    → let seen = trial_status zone t (some ends) in
      (seen.status ≡ status_trial)
      × (seen.trial_days_remaining ≡ some (zone.date_of ends - zone.date_of t))
unfolding trial_status
trial_open zone t ends h =
    let running : leb ends t ≡ false = ground arith in (rw running refl, rw running refl)

trial_over :
    (zone : Zone) (t ends : ℕ)
    → ends ≤ t
    → (trial_status zone t (some ends)).status ≡ status_expired
unfolding trial_status
trial_over zone t ends h = let over : leb ends t ≡ true = ground arith in rw over refl

before : (t ends : ℕ) → t ≤ ends → t ≢ ends → t < ends
before t ends h other = ground arith

positive_days :
    (days : ℤ)
    → ◌≡◌ {A = Outcome TrialError Unit}
        (raise_when (leb_ℤ days (pos 0)) invalid_extension)
        (done tt)
    → (days ≡ pos (pos_part days)) × (1 ≤ pos_part days)
positive_days (pos n) e = (refl, ground arith)
positive_days (negsuc n) e = ground arith

under_cap :
    (is_onboarder : Bool) (total : ℕ)
    → ◌≡◌ {A = Outcome TrialError Unit}
        (raise_when (is_onboarder && ltb 14 total) extension_cap_exceeded)
        (done tt)
    → is_onboarder ≡ true
    → total ≤ 14
under_cap is_onboarder total e mine = ground arith

-- A trial that starts on a local date runs through the fourteenth local date after it: at every
-- instant up to then but its last microsecond, an active business reads as on trial with the dates
-- left counted, and on any later date it reads as expired, whatever invoices are open.
pub trial_runs_its_days :
    (zone : Zone) (laws : ZoneLaws zone) (now t : ℕ) (b : Business) (invoices : List (Option ℕ))
    → b.is_active ≡ true
    → let after = start_trial zone now b in
      let last = zone.date_of now + 14 in
      let seen = compute_account_status zone t after invoices in
      (zone.date_of t ≤ last
        → t ≢ end_of_local_day_utc zone last
        → (seen.status ≡ status_trial) × (seen.trial_days_remaining ≡ some (last - zone.date_of t)))
      × (last < zone.date_of t → seen.status ≡ status_expired)
trial_runs_its_days zone laws now t b invoices active =
    let last = zone.date_of now + 14 in
    let ends = end_of_local_day_utc zone last in
    let seen = started zone now t b invoices active in
    (
      λ h other.
          let reads =
            trial_open zone t ends (before t ends (within_end zone laws last t h) other) in
          (
            ap (λ s. s.status) seen ∙ reads.0,
            ap (λ s. s.trial_days_remaining) seen
                ∙ reads.1
                ∙ ap (λ d. some (d - zone.date_of t)) (end_date zone laws last),
          ),
      λ h. ap (λ s. s.status) seen ∙ trial_over zone t ends (after_end zone laws last t h),
    )

-- An accepted extension moves the trial's last local date by exactly the days asked for, which are
-- more than none, and counts them; one that an onboarder makes never takes the count past 14.
pub extension_moves_end :
    (zone : Zone) (laws : ZoneLaws zone) (now ends : ℕ) (is_onboarder : Bool) (days : ℤ)
    (b new : Business)
    → b.trial_ends_at ≡ some ends
    → extend_trial zone now is_onboarder days b ≡ done new
    → (more new_end : ℕ) × (days ≡ pos more)
      × (1 ≤ more)
      × (new.trial_ends_at ≡ some new_end)
      × (zone.date_of new_end ≡ zone.date_of ends + more)
      × (new.trial_extension_days_total ≡ b.trial_extension_days_total + more)
      × (is_onboarder ≡ true → new.trial_extension_days_total ≤ 14)
unfolding extend_trial
extension_moves_end zone laws now ends is_onboarder days b new had e =
    let more = pos_part days in
    let (_, positive, e1) = >>=-eq-done (raise_when (leb_ℤ days (pos 0)) _) _ e in
    let (_, capped, e2) =
      >>=-eq-done
        (raise_when
          (is_onboarder
            && ltb onboarder_max_trial_extension_days (b.trial_extension_days_total + more))
          _)
        _ e1 in
    let new_end_date = zone.date_of ends + more in
    let set : Business = record b {
      billing_status = billing_trial;
      trial_ends_at = some (end_of_local_day_utc zone new_end_date);
      trial_extension_days_total = b.trial_extension_days_total + more;
    } in
    let made : unsuspend_if_trial_expired set ≡ new = done_inj (rw had at e2) in
    let kept = kept_trial set in
    (
      more,
      end_of_local_day_utc zone new_end_date,
      (positive_days days positive).0,
      (positive_days days positive).1,
      ap (λ x. x.trial_ends_at) (sym made) ∙ kept.1,
      end_date zone laws new_end_date,
      ap (λ x. x.trial_extension_days_total) (sym made) ∙ kept.2,
      λ mine.
          subst (λ total. total ≤ 14)
            (sym (ap (λ x. x.trial_extension_days_total) (sym made) ∙ kept.2))
            (under_cap is_onboarder (b.trial_extension_days_total + more) capped mine),
    )
