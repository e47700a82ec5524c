-- ===== src/Billing/Invoices.antt =====
-- backend/app/billing/commercial_invoices.py: the platform's own invoices to a business. A date is a
-- number of days and an instant one of microseconds, both in UTC; the snapshots of names and
-- addresses that an issued invoice keeps, and the history row of a payment, are left out.
pub mod Settling
use nextgen_backend.Prelude.{
  ℕ, ◌+◌, ◌*◌, ◌/◌, String, Bool, true, false, not, ◌&&◌, ◌||◌, Option, none, some, List, [], ◌∷◌,
  ◌++◌, map, ltb, ◌==◌, if◌then◌else◌, is_some,
}
use nextgen_backend.Prelude.Int.{ℤ, pos, ◌+ℤ◌, ltb_ℤ}
use nextgen_backend.Prelude.Result.{Outcome, done, raised, ◌>>=◌, ◌>>◌, raise_when}
use nextgen_backend.Pricing.{calculate_vat_cents}
use nextgen_backend.Billing.{Business, mark_invoice_paid}

pub data InvoiceStatus : Type 0 where
  invoice_draft invoice_awaiting_payment invoice_sent invoice_overdue invoice_paid
        invoice_cancelled :
      InvoiceStatus

pub data PaymentMethod : Type 0 where
  eft cash other_method : PaymentMethod

pub record Invoice : Type 0 where
  pub id : ℕ
  pub status : InvoiceStatus
  pub line_totals : List ℤ
  pub subtotal_cents : ℤ
  pub vat_cents : ℤ
  pub vat_rate_basis_points : ℤ
  pub total_cents : ℤ
  pub invoice_number : Option ℕ
  pub invoice_date : Option ℕ
  pub due_date : Option ℕ
  pub issued_at : Option ℕ
  pub sent_at : Option ℕ
  pub paid_at : Option ℕ
  pub payment_method : Option PaymentMethod
  pub payment_reference : Option String
  pub paid_recorded_by_admin_id : Option ℕ
  pub cancelled_at : Option ℕ

-- A text that is not set, or is empty, is `none`.
pub record InvoicingSettings : Type 0 where
  pub legal_name : Option String
  pub address : Option String
  pub contact_email : Option String
  pub bank_name : Option String
  pub bank_account_name : Option String
  pub bank_account_number : Option String
  pub bank_branch_code : Option String
  pub vat_registered : Bool
  pub vat_number : Option String
  pub vat_rate_bps : ℤ
  pub payment_terms_days : ℕ

pub data ConfigField : Type 0 where
  field_legal_name field_address field_contact_email field_bank_name field_bank_account_name
        field_bank_account_number field_bank_branch_code field_vat_number :
      ConfigField

pub data InvoiceError : Type 0 where
  invalid_state no_lines not_configured already_paid invalid_payment_method reference_required
        cannot_cancel_paid already_cancelled super_admin_required :
      InvoiceError

abbrev unset : ConfigField → Option String → List ConfigField
unset field none = field ∷ []
unset field (some text) = []

unfoldable pub get_missing_invoicing_config : InvoicingSettings → List ConfigField
get_missing_invoicing_config s =
    unset field_legal_name s.legal_name
    ++ unset field_address s.address
    ++ unset field_contact_email s.contact_email
    ++ unset field_bank_name s.bank_name
    ++ unset field_bank_account_name s.bank_account_name
    ++ unset field_bank_account_number s.bank_account_number
    ++ unset field_bank_branch_code s.bank_branch_code
    ++ (if s.vat_registered then unset field_vat_number s.vat_number else [])

abbrev pub sum_lines : List ℤ → ℤ
sum_lines [] = pos 0
sum_lines (t ∷ ts) = t +ℤ sum_lines ts

unfoldable pub recompute_invoice_totals : InvoicingSettings → Invoice → Invoice
recompute_invoice_totals s i =
    let subtotal = sum_lines i.line_totals in
    let charges_vat = s.vat_registered && ltb_ℤ (pos 0) s.vat_rate_bps in
    let vat = if charges_vat then calculate_vat_cents subtotal s.vat_rate_bps false else pos 0 in
    record i {
      vat_rate_basis_points = if charges_vat then s.vat_rate_bps else pos 0;
      subtotal_cents = subtotal;
      vat_cents = vat;
      total_cents = subtotal +ℤ vat;
    }

abbrev microseconds_per_day : ℕ
microseconds_per_day = 86_400_000_000

abbrev is_empty {ℓ} : {A : Type ℓ} → List A → Bool
is_empty [] = true
is_empty (_ ∷ _) = false

abbrev pub is_draft : InvoiceStatus → Bool
is_draft invoice_draft = true
is_draft _ = false

abbrev pub is_paid : InvoiceStatus → Bool
is_paid invoice_paid = true
is_paid _ = false

abbrev pub is_cancelled : InvoiceStatus → Bool
is_cancelled invoice_cancelled = true
is_cancelled _ = false

-- UNPAID_ISSUED_STATUSES, which are also those that may be sent.
abbrev pub is_unpaid_issued : InvoiceStatus → Bool
is_unpaid_issued invoice_awaiting_payment = true
is_unpaid_issued invoice_sent = true
is_unpaid_issued invoice_overdue = true
is_unpaid_issued _ = false

-- `sequence` is the database's next number.
abbrev pub issued_invoice : InvoicingSettings → ℕ → ℕ → Invoice → Invoice
issued_invoice s now sequence i = record (recompute_invoice_totals s i) {
  invoice_number = some sequence;
  invoice_date = some (now / microseconds_per_day);
  due_date = some ((now + s.payment_terms_days * microseconds_per_day) / microseconds_per_day);
  issued_at = some now;
  status = invoice_awaiting_payment;
}

unfoldable pub issue_invoice : InvoicingSettings → ℕ → ℕ → Invoice → Outcome InvoiceError Invoice
issue_invoice s now sequence i = do
  raise_when (not (is_draft i.status)) invalid_state
  raise_when (is_empty i.line_totals) no_lines
  raise_when (not (is_empty (get_missing_invoicing_config s))) not_configured
  done (issued_invoice s now sequence i)

unfoldable pub mark_sent : ℕ → Invoice → Outcome InvoiceError Invoice
mark_sent now i = do
  raise_when (not (is_unpaid_issued i.status)) invalid_state
  done (record i { status = invoice_sent; sent_at = some now })

abbrev is_manual_method : PaymentMethod → Bool
is_manual_method other_method = false
is_manual_method _ = true

abbrev is_eft : PaymentMethod → Bool
is_eft eft = true
is_eft _ = false

abbrev pub paid_invoice : ℕ → ℕ → PaymentMethod → Option String → Invoice → Invoice
paid_invoice now admin method reference i = record i {
  status = invoice_paid;
  paid_at = some now;
  payment_method = some method;
  payment_reference = reference;
  paid_recorded_by_admin_id = some admin;
}

-- `if business.converted_at is None: business.converted_at = now`
abbrev pub mark_converted : ℕ → Business → Business
mark_converted now b = record b {
  converted_at = elim b.converted_at [ none ↦ some now | some t ↦ some t ];
}

-- The invoice and the business that it pays for.
unfoldable pub mark_paid :
    (now admin : ℕ) (method : PaymentMethod) (reference : Option String) (i : Invoice)
    (b : Business)
    → Outcome InvoiceError (Invoice × Business)
mark_paid now admin method reference i b = do
  raise_when (is_paid i.status) already_paid
  raise_when (not (is_unpaid_issued i.status)) invalid_state
  raise_when (not (is_manual_method method)) invalid_payment_method
  raise_when (is_eft method && not (is_some reference)) reference_required
  done (paid_invoice now admin method reference i, mark_converted now (mark_invoice_paid now b))

unfoldable pub cancel_invoice : ℕ → Bool → Invoice → Outcome InvoiceError Invoice
cancel_invoice now is_super_admin i = do
  raise_when (is_paid i.status) cannot_cancel_paid
  raise_when (is_cancelled i.status) already_cancelled
  raise_when (not (is_draft i.status) && not is_super_admin) super_admin_required
  done (record i { status = invoice_cancelled; cancelled_at = some now })

abbrev awaits_due_date : InvoiceStatus → Bool
awaits_due_date invoice_awaiting_payment = true
awaits_due_date invoice_sent = true
awaits_due_date _ = false

abbrev due_before : Option ℕ → ℕ → Bool
due_before none today = false
due_before (some due) today = ltb due today

abbrev pub is_newly_overdue : ℕ → Invoice → Bool
is_newly_overdue today i = awaits_due_date i.status && due_before i.due_date today

unfoldable pub sweep_overdue_invoices : ℕ → List Invoice → List Invoice
sweep_overdue_invoices today =
    map (λ i. if is_newly_overdue today i then record i { status = invoice_overdue } else i)
