-- ===== src/Delivery/Shape.antt =====
-- What a run of _handle_order changes of its row (backend/app/delivery/order_service.py).
use nextgen_backend.Prelude.{
  ℕ, ◌≡◌, refl, Bool, true, false, not, ◌&&◌, Option, none, some, inl, inr, arith, Bool-cases,
  Option-cases,
}
use nextgen_backend.Prelude.Int.{pos, leb_ℤ}
use nextgen_backend.Prelude.OptionMonad.{◌>>=◌, >>=-eq-some}
use nextgen_backend.Delivery.{
  DeliveryStatus, delivery_received, delivery_needs_mapping, delivery_ready_to_accept, DenyReason,
  Connection, Business, CanonicalOrder, World, DeliveryOrder, Booking, or_zero,
  create_order_from_canonical, resolve_delivery_lines, blocks_import, get_connection, get_business,
  get_event, find_misconfiguration, issue_deny, Processed, kept, denied, with_details,
  tell_platform, map_and_book, after_fetch, fetch_and_book, handle_row, delivery_fetching,
  delivery_failed, misconfigured, fetch_failed, unpriceable, pricing, pos_not_ready, store_closed,
}
use nextgen_backend.Delivery.Sale.{Call-cases}

-- A row that no sale has been made of yet.
abbrev pub is_before_sale : DeliveryStatus → Bool
is_before_sale delivery_received = true
is_before_sale delivery_needs_mapping = true
is_before_sale delivery_ready_to_accept = true
is_before_sale _ = false

abbrev pub sold_as : Option Booking → Option ℕ → Option ℕ
sold_as none old = old
sold_as (some b) old = some b.sale.id

-- The key stays, the order id is that of the sale made, and a row with a sale is not before it.
abbrev pub Shape : DeliveryOrder → Processed → Type 0
Shape row p =
    (p.row.business_id ≡ row.business_id)
    × (p.row.provider ≡ row.provider)
    × (p.row.external_order_id ≡ row.external_order_id)
    × (p.row.order_id ≡ sold_as p.booking row.order_id)
    × (is_before_sale p.row.status ≡ true → p.booking ≡ none)

pub issue_deny-Shape :
    (w : World) (reason : DenyReason) (row : DeliveryOrder) {new : DeliveryOrder}
    → issue_deny w reason row ≡ some new
    → Shape row (kept new) × (is_before_sale new.status ≡ false)
unfolding issue_deny
issue_deny-Shape w reason row e = ground arith

denied-Shape :
    (w : World) (reason : DenyReason) (row : DeliveryOrder) {p : Processed}
    → denied w reason row ≡ some p
    → Shape row p
denied-Shape w reason row e =
    let (r, made, same) = >>=-eq-some (issue_deny w reason row) (λ r. some (kept r)) e in
    let shape = issue_deny-Shape w reason row made in ground arith

tell_platform-Shape :
    (w : World) (row : DeliveryOrder) (b : Booking) {p : Processed}
    → is_before_sale row.status ≡ false
    → tell_platform w row b ≡ some p
    → Shape row p
unfolding tell_platform
tell_platform-Shape w row b h e = ground arith

map_and_book-Shape :
    (w : World) (c : Connection) (business : Business) (force : Bool) (canonical : CanonicalOrder)
    (row : DeliveryOrder) {p : Processed}
    → is_before_sale row.status ≡ false
    → map_and_book w c business force canonical row ≡ some p
    → Shape row p
unfolding map_and_book
map_and_book-Shape w c business force canonical row {p} h e =
    let lines = resolve_delivery_lines w row.business_id row.provider canonical.lines in
    let made = create_order_from_canonical w business row.provider canonical lines in
    elim (Bool-cases (blocks_import lines)) [
      | inl blocked ↦ ground arith
      | inr clear ↦ elim (Bool-cases (not force && not c.auto_accept_enabled)) [
        | inl waits ↦ ground arith
        | inr agreed ↦
            let told : (made >>= tell_platform w row) ≡ some p = ground arith in
            let (b, _, told') = >>=-eq-some made (tell_platform w row) told in
            tell_platform-Shape w row b h told'
      ]
    ]

after_fetch-Shape :
    (w : World) (c : Connection) (business : Business) (force : Bool) (row : DeliveryOrder)
    (canonical : CanonicalOrder) {p : Processed}
    → is_before_sale row.status ≡ false
    → after_fetch w c business force row canonical ≡ some p
    → Shape row p
unfolding after_fetch
after_fetch-Shape w c business force row canonical {p} h e =
    let known = with_details canonical row in
    elim (Bool-cases (leb_ℤ (or_zero canonical.total_cents) (pos 0))) [
      | inl free ↦
          denied-Shape w pricing (record known { failure_reason = some unpriceable }) {p = p}
            (ground arith)
      | inr priced ↦ map_and_book-Shape w c business force canonical known {p = p} h (ground arith)
    ]

fetch_and_book-Shape :
    (w : World) (c : Connection) (business : Business) (force : Bool) (row : DeliveryOrder)
    {p : Processed}
    → fetch_and_book w c business force row ≡ some p
    → Shape row p
unfolding fetch_and_book
fetch_and_book-Shape w c business force row {p} e =
    let fetching = record row { status = delivery_fetching } in
    elim (Call-cases w.fetch) [
      | inl (canonical, fetched) ↦
          after_fetch-Shape w c business force fetching canonical {p = p} refl (ground arith)
      | inr (inl late) ↦ ground arith
      | inr (inr (inl bad)) ↦
          denied-Shape w pos_not_ready (record fetching { failure_reason = some fetch_failed })
            {p = p} (ground arith)
      | inr (inr (inr worse)) ↦ ground arith
    ]

pub handle_row-Shape :
    (w : World) (force : Bool) (row : DeliveryOrder) {p : Processed}
    → handle_row w force row ≡ some p
    → Shape row p
unfolding handle_row
handle_row-Shape w force row {p} e =
    let connection = get_connection row.delivery_connection_id w.connections in
    let business = get_business row.business_id w.businesses in
    elim (Option-cases (
      find_misconfiguration connection business (get_event row.raw_event_id w.webhook_events)
        row.provider)) [
          | inr (reason, found) ↦
              denied-Shape w store_closed
                (record row {
                  status = delivery_failed;
                  failure_reason = some (misconfigured reason);
                })
                {p = p} (ground arith)
          | inl fine ↦ elim (Option-cases connection) [
            | inl missing ↦ ground arith
            | inr (c, at_c) ↦ elim (Option-cases business) [
              | inl missing ↦ ground arith
              | inr (t, at_t) ↦ fetch_and_book-Shape w c t force row {p = p} (ground arith)
            ]
          ]
        ]
