-- ===== src/Orders/DeliveryFee.antt =====
-- The fee that staff set on a delivery order (backend/app/api/v1/routes_orders.py,
-- set_delivery_fee).
use nextgen_backend.Prelude.{
  ℕ, ◌≡◌, refl, ap, sym, Bool, true, not, Option, none, some, [], ◌∷◌, ◌++◌, arith, if◌then◌else◌,
  Bool-cases, inl, inr,
}
use nextgen_backend.Prelude.Int.{ℤ, pos, ◌+ℤ◌, ◌-ℤ◌, ◌≤ℤ◌, max_ℤ, int_laws}
use nextgen_backend.Prelude.Result.{
  Outcome, done, raised, ◌>>=◌, ◌>>◌, raise_when, >>=-eq-done, done_inj,
}
use nextgen_backend.Pricing.{apply_vat_to_total}
use nextgen_backend.Pricing.Vat.{apply_vat_to_total-covers}
use nextgen_backend.Orders.{
  status_pending_delivery_fee, status_fee_sent, is_status, AuthUser, Order, Tables, OrderError,
  invalid_transition, get_order, write_order, change,
}
use nextgen_backend.Orders.Rows.{Replaced, write_order-Replaced}

-- The VAT settings of a business.
pub record VatSettings : Type 0 where
  pub vat_registered : Bool
  pub vat_rate_basis_points : ℤ
  pub vat_inclusive_pricing : Bool

-- `order.loyalty_discount_cents or 0`
abbrev pub or_zero : Option ℤ → ℤ
or_zero none = pos 0
or_zero (some cents) = cents

unfoldable pub net_with_fee : ℤ → Order → ℤ
net_with_fee fee o =
    max_ℤ (pos 0) (o.subtotal_cents -ℤ o.discount_cents -ℤ or_zero o.loyalty_discount_cents +ℤ fee)

unfoldable pub total_and_tax : VatSettings → ℤ → ℤ × ℤ
total_and_tax vat net =
    if vat.vat_registered
    then apply_vat_to_total net vat.vat_rate_basis_points vat.vat_inclusive_pricing
    else (net, pos 0)

unfoldable pub with_fee : VatSettings → ℤ → Order → Order
with_fee vat fee o = record o {
  delivery_fee_cents = fee;
  total_cents = (total_and_tax vat (net_with_fee fee o)).0;
  tax_cents = (total_and_tax vat (net_with_fee fee o)).1;
  status = status_fee_sent;
}

-- The business of the signed-in user is found, with its VAT settings.
unfoldable pub set_delivery_fee :
    VatSettings → AuthUser → ℕ → ℤ → Tables → Outcome OrderError Tables
set_delivery_fee vat user k fee db = do
  o ← get_order user.business_id k db
  raise_when (not (is_status o.status status_pending_delivery_fee))
      (invalid_transition o.status status_fee_sent)
  done (record db {
    orders = write_order user.business_id k (with_fee vat fee o) db.orders;
    events =
        db.events
        ++ change user.business_id o status_pending_delivery_fee status_fee_sent (some user.user_id)
          ∷ [];
  })

total_covers : (vat : VatSettings) (net : ℤ) → net ≤ℤ (total_and_tax vat net).0
unfolding total_and_tax
total_covers vat net = elim (Bool-cases vat.vat_registered) [
  | inl e ↦ rw e (apply_vat_to_total-covers net vat.vat_rate_basis_points vat.vat_inclusive_pricing)
  | inr e ↦ rw e (omega arith)
]

net_covers :
    (fee : ℤ) (o : Order)
    → pos 0 ≤ℤ o.subtotal_cents -ℤ o.discount_cents -ℤ or_zero o.loyalty_discount_cents
    → (pos 0 ≤ℤ net_with_fee fee o) × (fee ≤ℤ net_with_fee fee o)
unfolding net_with_fee
net_covers fee o h = (ground arith, grind (int_laws, h))

again_refused :
    (vat : VatSettings) (user : AuthUser) (k : ℕ) (fee : ℤ) (db : Tables) (o : Order)
    → get_order user.business_id k db ≡ done o
    → o.status ≡ status_fee_sent
    → set_delivery_fee vat user k fee db
      ≡ raised (invalid_transition status_fee_sent status_fee_sent)
unfolding set_delivery_fee
again_refused vat user k fee db o found sent = rw (found, sent) refl

-- A fee is accepted only for an order that waits for one; the order then waits for the customer
-- with that fee, every other order is as it was, a second fee is refused, and, where the discounts
-- do not exceed the subtotal, the new total is not negative and covers at least the fee.
pub delivery_fee_set_once :
    (vat : VatSettings) (user : AuthUser) (k : ℕ) (fee : ℤ) (db after : Tables)
    → set_delivery_fee vat user k fee db ≡ done after
    → (o new : Order) × (get_order user.business_id k db ≡ done o)
      × (is_status o.status status_pending_delivery_fee ≡ true)
      × Replaced user.business_id k new db after
      × (new.status ≡ status_fee_sent)
      × (new.delivery_fee_cents ≡ fee)
      × ((fee' : ℤ)
          → set_delivery_fee vat user k fee' after
            ≡ raised (invalid_transition status_fee_sent status_fee_sent))
      × (pos 0 ≤ℤ o.subtotal_cents -ℤ o.discount_cents -ℤ or_zero o.loyalty_discount_cents
          → (pos 0 ≤ℤ new.total_cents) × (fee ≤ℤ new.total_cents))
unfolding set_delivery_fee with_fee
delivery_fee_set_once vat user k fee db after e =
    let (o, found, e1) = >>=-eq-done (get_order user.business_id k db) _ e in
    let (_, waits, e2) =
      >>=-eq-done
        (raise_when (not (is_status o.status status_pending_delivery_fee))
          (invalid_transition o.status status_fee_sent))
        _ e1 in
    let new = with_fee vat fee o in
    let kept =
      write_order-Replaced user.business_id k o new db after found (refl, refl)
        (ap (λ t. t.orders) (sym (done_inj e2))) in
    let covers = total_covers vat (net_with_fee fee o) in
    (
      o,
      new,
      found,
      ground arith,
      kept,
      refl,
      refl,
      λ fee'. again_refused vat user k fee' after new kept.0 refl,
      λ h.
          let net = net_covers fee o h in
          (omega (arith, covers, net.0), omega (arith, covers, net.1)),
    )
