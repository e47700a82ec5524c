-- ===== src/Delivery/Sale.antt =====
-- When a platform order becomes a sale (backend/app/delivery/order_service.py, _handle_order).
use nextgen_backend.Prelude.{
  ℕ, ◌≡◌, refl, ◌⊎◌, inl, inr, Bool, true, false, not, ◌&&◌, ◌||◌, none, some, arith, Bool-cases,
  Option-cases,
}
use nextgen_backend.Prelude.Int.{pos, ◌<ℤ◌, leb_ℤ}
use nextgen_backend.Prelude.OptionMonad.{◌>>=◌, >>=-eq-some}
use nextgen_backend.Delivery.{
  Provider, store_closed, delivery_failed, misconfigured, Call, unpriceable, fetch_failed, pricing,
  pos_not_ready, delivery_fetching, with_details, Connection, Business, CanonicalOrder, answered,
  timed_out, provider_error, crashed, World, DeliveryOrder, DenyReason, Booking, or_zero,
  create_order_from_canonical, resolve_delivery_lines, blocks_import, get_connection, get_business,
  get_event, find_misconfiguration, issue_deny, Processed, kept, denied, tell_platform,
  map_and_book, after_fetch, fetch_and_book, handle_row,
}

-- What made the sale `b` of a connection and a business: a fetched order with a price, every line
-- of it on the menu, and the word of the staff or of that connection's setting.
pub record Earned (w : World) (connection : Connection) (business : Business) (force : Bool)
    (tenant : ℕ) (provider : Provider) (b : Booking) : Type 0 where
  pub canonical : CanonicalOrder
  pub fetched : w.fetch ≡ answered canonical
  pub priced : pos 0 <ℤ or_zero canonical.total_cents
  pub on_the_menu : blocks_import (resolve_delivery_lines w tenant provider canonical.lines) ≡ false
  pub agreed : (force || connection.auto_accept_enabled) ≡ true
  pub created :
      create_order_from_canonical w business provider canonical
        (resolve_delivery_lines w tenant provider canonical.lines)
      ≡ some b

pub Call-cases {ℓ} :
    {A : Type ℓ} (c : Call A)
    → ((a : A) × (c ≡ answered a)) ⊎ ((c ≡ timed_out) ⊎ ((c ≡ provider_error) ⊎ (c ≡ crashed)))
Call-cases (answered a) = inl (a, refl)
Call-cases timed_out = inr (inl refl)
Call-cases provider_error = inr (inr (inl refl))
Call-cases crashed = inr (inr (inr refl))

denied_no_booking :
    (w : World) (reason : DenyReason) (row : DeliveryOrder) {p : Processed}
    → denied w reason row ≡ some p
    → p.booking ≡ none
denied_no_booking w reason row e =
    let (r, _, made) = >>=-eq-some (issue_deny w reason row) (λ r. some (kept r)) e in ground arith

tell_platform-booking :
    (w : World) (row : DeliveryOrder) (b : Booking) {p : Processed}
    → tell_platform w row b ≡ some p
    → p.booking ≡ some b
unfolding tell_platform
tell_platform-booking w row b e = ground arith

-- What map_and_book had found of an order that it booked.
abbrev Mapped :
    World → Connection → Business → Bool → CanonicalOrder → DeliveryOrder → Booking → Type 0
Mapped w c business force canonical row b =
    let lines = resolve_delivery_lines w row.business_id row.provider canonical.lines in
    (blocks_import lines ≡ false)
    × ((force || c.auto_accept_enabled) ≡ true)
    × (create_order_from_canonical w business row.provider canonical lines ≡ some b)

map_and_book-Mapped :
    (w : World) (c : Connection) (business : Business) (force : Bool) (canonical : CanonicalOrder)
    (row : DeliveryOrder) (b : Booking) {p : Processed}
    → map_and_book w c business force canonical row ≡ some p
    → p.booking ≡ some b
    → Mapped w c business force canonical row b
unfolding map_and_book
map_and_book-Mapped w c business force canonical row b {p} e k =
    let lines = resolve_delivery_lines w row.business_id row.provider canonical.lines in
    let made = create_order_from_canonical w business row.provider canonical lines in
    elim (Bool-cases (blocks_import lines)) [
      | inl blocked ↦ ground arith
      | inr clear ↦ elim (Bool-cases (not force && not c.auto_accept_enabled)) [
        | inl waits ↦ ground arith
        | inr agreed ↦
            let told : (made >>= tell_platform w row) ≡ some p = ground arith in
            let (b', made', told') = >>=-eq-some made (tell_platform w row) told in
            let same = tell_platform-booking w row b' told' in (clear, ground arith, ground arith)
      ]
    ]

after_fetch-Earned :
    (w : World) (c : Connection) (business : Business) (force : Bool) (row : DeliveryOrder)
    (canonical : CanonicalOrder) (b : Booking) {p : Processed}
    → w.fetch ≡ answered canonical
    → after_fetch w c business force row canonical ≡ some p
    → p.booking ≡ some b
    → Earned w c business force row.business_id row.provider b
unfolding after_fetch
after_fetch-Earned w c business force row canonical b {p} fetched e k =
    let known = with_details canonical row in
    elim (Bool-cases (leb_ℤ (or_zero canonical.total_cents) (pos 0))) [
      | inl free ↦
          let refused = record known { failure_reason = some unpriceable } in
          let made : denied w pricing refused ≡ some p = ground arith in
          let nothing = denied_no_booking w pricing refused made in ground arith
      | inr priced ↦
          let made : map_and_book w c business force canonical known ≡ some p = ground arith in
          let (clear, agreed, created) =
            map_and_book-Mapped w c business force canonical known b made k in
          record {
            canonical = canonical;
            fetched = fetched;
            priced = ground arith;
            on_the_menu = clear;
            agreed = agreed;
            created = created;
          }
    ]

fetch_and_book-Earned :
    (w : World) (c : Connection) (business : Business) (force : Bool) (row : DeliveryOrder)
    (b : Booking) {p : Processed}
    → fetch_and_book w c business force row ≡ some p
    → p.booking ≡ some b
    → Earned w c business force row.business_id row.provider b
unfolding fetch_and_book
fetch_and_book-Earned w c business force row b {p} e k =
    let fetching = record row { status = delivery_fetching } in
    elim (Call-cases w.fetch) [
      | inl (canonical, fetched) ↦
          let made : after_fetch w c business force fetching canonical ≡ some p = ground arith in
          after_fetch-Earned w c business force fetching canonical b fetched made k
      | inr (inl late) ↦ ground arith
      | inr (inr (inl bad)) ↦
          let failed = record fetching { failure_reason = some fetch_failed } in
          let made : denied w pos_not_ready failed ≡ some p = ground arith in
          let nothing = denied_no_booking w pos_not_ready failed made in ground arith
      | inr (inr (inr worse)) ↦ ground arith
    ]

-- A run makes a sale only where the row's connection and business exist and no misconfiguration was
-- found, of an order that it fetched, whose total is more than zero, of which every line and
-- modifier is on the menu or ignored, and to which the staff or the setting of that very connection
-- has agreed.
pub handle_row-Earned :
    (w : World) (force : Bool) (row : DeliveryOrder) (b : Booking) {p : Processed}
    → handle_row w force row ≡ some p
    → p.booking ≡ some b
    → (connection : Connection) × (business : Business) × (get_connection row.delivery_connection_id
          w.connections
        ≡ some connection)
      × (get_business row.business_id w.businesses ≡ some business)
      × Earned w connection business force row.business_id row.provider b
      × (find_misconfiguration
            (get_connection row.delivery_connection_id w.connections)
            (get_business row.business_id w.businesses)
            (get_event row.raw_event_id w.webhook_events)
            row.provider
          ≡ none)
unfolding handle_row
handle_row-Earned w force row b {p} e k =
    let connection = get_connection row.delivery_connection_id w.connections in
    let business = get_business row.business_id w.businesses in
    let problem =
      find_misconfiguration connection business (get_event row.raw_event_id w.webhook_events)
        row.provider in
    elim (Option-cases problem) [
      | inr (reason, found) ↦
          let failed = record row {
            status = delivery_failed;
            failure_reason = some (misconfigured reason);
          } in
          let made : denied w store_closed failed ≡ some p = ground arith in
          let nothing = denied_no_booking w store_closed failed made in ground arith
      | inl fine ↦ elim (Option-cases connection) [
        | inl missing ↦ ground arith
        | inr (c, at_c) ↦ elim (Option-cases business) [
          | inl missing ↦ ground arith
          | inr (t, at_t) ↦
              let made : fetch_and_book w c t force row ≡ some p = ground arith in
              (c, t, at_c, at_t, fetch_and_book-Earned w c t force row b made k, fine)
        ]
      ]
    ]
