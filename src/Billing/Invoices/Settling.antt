-- ===== src/Billing/Invoices/Settling.antt =====
-- How an invoice ends (backend/app/billing/commercial_invoices.py).
use nextgen_backend.Prelude.{
  ℕ, String, ◌≡◌, refl, Bool, true, false, ◌||◌, ◌⊎◌, Option, none, List, [], ◌∷◌, arith, inl, inr,
}
use nextgen_backend.Prelude.Int.{ℤ, ◌+ℤ◌}
use nextgen_backend.Prelude.Result.{Outcome, done, raised}
use nextgen_backend.Billing.{Business, billing_active, mark_invoice_paid}
use nextgen_backend.Billing.Invoices.{
  InvoiceStatus, invoice_paid, invoice_cancelled, issued_invoice, paid_invoice, invalid_state,
  already_paid, cannot_cancel_paid, already_cancelled, Invoice, InvoicingSettings, InvoiceError,
  PaymentMethod, cash, get_missing_invoicing_config, recompute_invoice_totals, is_draft, is_paid,
  is_cancelled, issue_invoice, mark_sent, mark_paid, mark_converted, cancel_invoice,
  is_newly_overdue,
}

-- What can be done to an invoice, the sweep's step for one row among them.
pub data InvoiceAction : Type 0 where
  issue : InvoicingSettings → ℕ → ℕ → InvoiceAction
  send : ℕ → InvoiceAction
  pay : ℕ → ℕ → PaymentMethod → Option String → Business → InvoiceAction
  cancel : ℕ → Bool → InvoiceAction

abbrev first_of {ℓ κ μ} : {E : Type ℓ} {A : Type κ} {B : Type μ} → Outcome E (A × B) → Outcome E A
first_of (done (a, b)) = done a
first_of (raised e) = raised e

unfoldable pub carry_out : InvoiceAction → Invoice → Outcome InvoiceError Invoice
carry_out (issue s now sequence) i = issue_invoice s now sequence i
carry_out (send now) i = mark_sent now i
carry_out (pay now admin method reference b) i = first_of (mark_paid now admin method reference i b)
carry_out (cancel now is_super_admin) i = cancel_invoice now is_super_admin i

abbrev pub is_final : InvoiceStatus → Bool
is_final status = is_paid status || is_cancelled status

final-cases :
    (status : InvoiceStatus)
    → is_final status ≡ true
    → (status ≡ invoice_paid) ⊎ (status ≡ invoice_cancelled)
final-cases status h = ground arith

-- A paid or a cancelled invoice stays as it is: every action on it raises, and the sweep passes
-- over it.
pub final_invoice_refuses :
    (action : InvoiceAction) (i : Invoice) (today : ℕ)
    → is_final i.status ≡ true
    → ((e : InvoiceError) × (carry_out action i ≡ raised e)) × (is_newly_overdue today i ≡ false)
unfolding carry_out issue_invoice mark_sent mark_paid cancel_invoice
final_invoice_refuses (issue s now sequence) i today h = elim (final-cases i.status h) [
  | inl paid ↦ ((invalid_state, rw paid refl), rw paid refl)
  | inr cancelled ↦ ((invalid_state, rw cancelled refl), rw cancelled refl)
]
final_invoice_refuses (send now) i today h = elim (final-cases i.status h) [
  | inl paid ↦ ((invalid_state, rw paid refl), rw paid refl)
  | inr cancelled ↦ ((invalid_state, rw cancelled refl), rw cancelled refl)
]
final_invoice_refuses (pay now admin method reference b) i today h = elim (final-cases i.status h) [
  | inl paid ↦ ((already_paid, rw paid refl), rw paid refl)
  | inr cancelled ↦ ((invalid_state, rw cancelled refl), rw cancelled refl)
]
final_invoice_refuses (cancel now is_super_admin) i today h = elim (final-cases i.status h) [
  | inl paid ↦ ((cannot_cancel_paid, rw paid refl), rw paid refl)
  | inr cancelled ↦ ((already_cancelled, rw cancelled refl), rw cancelled refl)
]

-- Every draft with a line can be settled once invoicing is configured: it can be issued, and then
-- be paid in cash, which makes the business active again.
pub draft_can_be_paid :
    (s : InvoicingSettings) (now sequence later admin : ℕ) (i : Invoice) (b : Business) (t : ℤ)
    (ts : List ℤ)
    → is_draft i.status ≡ true
    → i.line_totals ≡ t ∷ ts
    → get_missing_invoicing_config s ≡ []
    → (issued : Invoice) × (paid : Invoice) × (after : Business) × (issue_invoice s now sequence i
        ≡ done issued)
      × (mark_paid later admin cash none issued b ≡ done (paid, after))
      × (paid.status ≡ invoice_paid)
      × (paid.total_cents ≡ paid.subtotal_cents +ℤ paid.vat_cents)
      × (after.billing_status ≡ billing_active)
      × (after.is_active ≡ true)
unfolding issue_invoice mark_paid mark_invoice_paid recompute_invoice_totals
draft_can_be_paid s now sequence later admin i b t ts draft lines configured =
    let issued = issued_invoice s now sequence i in
    (
      issued,
      paid_invoice later admin cash none issued,
      mark_converted later (mark_invoice_paid later b),
      rw (draft, lines, configured) refl,
      refl,
      refl,
      refl,
      refl,
      refl,
    )
