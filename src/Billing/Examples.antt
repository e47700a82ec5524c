-- ===== src/Billing/Examples.antt =====
-- Runs of the billing rules in the time zone UTC, whose days are 86 400 seconds.
use nextgen_backend.Prelude.{
  ℕ, ◌+◌, ◌-◌, ◌*◌, ◌/◌, ◌≤◌, ◌<◌, ◌≡◌, ◌≢◌, refl, true, false, ◌∷◌, none, some, [], arith,
}
use nextgen_backend.Prelude.Int.{pos, ◌+ℤ◌}
use nextgen_backend.Prelude.Result.{done}
use nextgen_backend.Billing.{
  Zone, Business, billing_trial, billing_active, status_trial, status_expired, status_suspended,
  status_active, end_of_local_day_utc, unsuspend_if_trial_expired, start_trial, extend_trial,
  mark_invoice_paid, suspend_for_nonpayment, suspend_past_due, compute_account_status,
}
use nextgen_backend.Billing.Zones.{ZoneLaws}
use nextgen_backend.Billing.Trials.{trial_runs_its_days}
use nextgen_backend.Billing.Invoices.{
  invoice_draft, invoice_paid, cash, Invoice, InvoicingSettings, get_missing_invoicing_config,
  issue_invoice, mark_paid, paid_invoice,
}
use nextgen_backend.Billing.Invoices.Settling.{draft_can_be_paid}
use nextgen_backend.Billing.Standing.{
  start, next, trial_started, nonpayment_lasts, payments_failed, paid_is_safe,
}

abbrev utc : Zone
utc = record { date_of = λ t. t / 86_400_000_000; midnight = λ d. d * 86_400_000_000 }

utc_laws : ZoneLaws utc
utc_laws = record {
  begun = λ d t h. omega arith;
  begins = λ d t h. omega arith;
  midnight_date = λ d. omega arith;
  first = omega arith;
}

abbrev cafe : Business
cafe = record {
  is_active = true;
  suspended_reason = none;
  billing_status = billing_active;
  billing_period_started_at = 0;
  trial_started_at = none;
  trial_ends_at = none;
  trial_extension_days_total = 0;
  converted_at = none;
}

trial_runs_its_days_example :
    let after = start_trial utc 1_000 cafe in
    let last = utc.date_of 1_000 + 14 in
    let seen = compute_account_status utc 90_000_000_000 after [] in
    (utc.date_of 90_000_000_000 ≤ last
      → 90_000_000_000 ≢ end_of_local_day_utc utc last
      → (seen.status ≡ status_trial)
        × (seen.trial_days_remaining ≡ some (last - utc.date_of 90_000_000_000)))
    × (last < utc.date_of 90_000_000_000 → seen.status ≡ status_expired)
trial_runs_its_days_example = trial_runs_its_days utc utc_laws 1_000 90_000_000_000 cafe [] refl

abbrev trialling : Business
trialling = record cafe { billing_status = billing_trial; trial_ends_at = some 90_000_000_000 }

abbrev extended : Business
extended = unsuspend_if_trial_expired (record trialling {
  trial_ends_at = some (end_of_local_day_utc utc (1 + 7));
  trial_extension_days_total = 7;
})

extends : extend_trial utc 1_000 true (pos 7) trialling ≡ done extended
unfolding extend_trial
extends = refl

abbrev retried : Business
retried = start_trial utc 1_000 (suspend_for_nonpayment cafe)

nonpayment_lasts_example :
    ((compute_account_status utc 2_000 retried []).status ≡ status_suspended)
    × ((paid_at : ℕ)
        → (compute_account_status utc 2_000 (mark_invoice_paid paid_at retried) []).status
          ≡ status_active)
nonpayment_lasts_example =
    nonpayment_lasts utc cafe retried 2_000 [] (next start (trial_started 1_000))

paid_is_safe_example :
    let failed = payments_failed (some 4_000 ∷ none ∷ []) (mark_invoice_paid 3_000 cafe) in
    (suspend_past_due 5_000 failed ≡ failed)
    × (failed.is_active ≡ true)
    × (failed.suspended_reason ≡ none)
paid_is_safe_example = paid_is_safe 3_000 5_000 (some 4_000 ∷ none ∷ []) cafe (omega arith)

abbrev draft : Invoice
draft = record {
  id = 1;
  status = invoice_draft;
  line_totals = pos 50_000 ∷ [];
  subtotal_cents = pos 0;
  vat_cents = pos 0;
  vat_rate_basis_points = pos 0;
  total_cents = pos 0;
  invoice_number = none;
  invoice_date = none;
  due_date = none;
  issued_at = none;
  sent_at = none;
  paid_at = none;
  payment_method = none;
  payment_reference = none;
  paid_recorded_by_admin_id = none;
  cancelled_at = none;
}

abbrev invoicing : InvoicingSettings
invoicing = record {
  legal_name = some "NextGen";
  address = some "1 Main Road";
  contact_email = some "billing@example.org";
  bank_name = some "Bank";
  bank_account_name = some "NextGen";
  bank_account_number = some "123";
  bank_branch_code = some "456";
  vat_registered = false;
  vat_number = none;
  vat_rate_bps = pos 1_500;
  payment_terms_days = 7;
}

draft_can_be_paid_example :
    (issued : Invoice) × (paid : Invoice) × (after : Business) × (issue_invoice invoicing 1_000 42
        draft
      ≡ done issued)
    × (mark_paid 2_000 9 cash none issued cafe ≡ done (paid, after))
    × (paid.status ≡ invoice_paid)
    × (paid.total_cents ≡ paid.subtotal_cents +ℤ paid.vat_cents)
    × (after.billing_status ≡ billing_active)
    × (after.is_active ≡ true)
unfolding get_missing_invoicing_config
draft_can_be_paid_example =
    draft_can_be_paid invoicing 1_000 42 2_000 9 draft cafe (pos 50_000) [] refl refl refl

abbrev settled : Invoice
settled = paid_invoice 2_000 9 cash none draft
