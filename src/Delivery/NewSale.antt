-- ===== src/Delivery/NewSale.antt =====
-- _create_order_from_canonical (backend/app/delivery/order_service.py): the sale that an accepted
-- platform order becomes. What the inserts raise is `none`.
use nextgen_backend.Prelude.{
  Text, ℕ, Bool, true, false, ◌&&◌, Option, none, some, List, [], ◌∷◌, ◌++◌, map, if◌then◌else◌,
}
use nextgen_backend.Prelude.Int.{ℤ, pos, ◌*ℤ◌}
use nextgen_backend.Prelude.OptionMonad.{◌>>=◌}
use nextgen_backend.Pricing.{calculate_vat_cents}
use nextgen_backend.Inventory.Consumption.{LineItemSpec, AddOnSelectionSpec}
use nextgen_backend.Inventory.Ledger.{Movement, sale_consumption, post_sale_consumption}
use nextgen_backend.Inventory.Ledger.RecipeLoading.{load_recipe_specs}
use nextgen_backend.Orders.{status_accepted, payment_paid}
use nextgen_backend.Delivery.Types.{
  Provider, Business, CanonicalOrder, SaleOrder, SaleItem, SaleEvent, World,
}
use nextgen_backend.Delivery.Lines.{ResolvedLine}

pub record Booking : Type 0 where
  pub sale : SaleOrder
  pub items : List SaleItem
  pub event : SaleEvent
  pub movements : List Movement

-- `n or 0`, and `placed_at or now`.
abbrev pub or_zero : Option ℤ → ℤ
or_zero none = pos 0
or_zero (some n) = n

abbrev placed_or : ℕ → Option ℕ → ℕ
placed_or now none = now
placed_or now (some t) = t

unfoldable pub sale_of : World → Business → Provider → CanonicalOrder → SaleOrder
sale_of w business provider canonical =
    let gross = or_zero canonical.total_cents in
    let vat =
      if business.vat_registered
      then calculate_vat_cents gross business.vat_rate_basis_points true
      else pos 0 in
    record {
      id = w.new_order_id;
      business_id = business.id;
      source = provider;
      status = status_accepted;
      payment_status = payment_paid;
      payment_required = false;
      paid_at = placed_or w.now canonical.placed_at;
      subtotal_cents = gross;
      delivery_fee_cents = pos 0;
      discount_cents = pos 0;
      tax_cents = vat;
      total_cents = gross;
      external_order_id = canonical.external_order_id;
      external_placed_at = canonical.placed_at;
      external_imported_at = w.now;
      confirmed_at = placed_or w.now canonical.placed_at;
      accepted_at = w.now;
    }

abbrev name_or : Text → Text → Text
name_or [] title = title
name_or (c ∷ cs) title = c ∷ cs

abbrev item_row : ℕ → ℕ → ℕ → ResolvedLine → SaleItem
item_row order business item line = record {
  order_id = order;
  business_id = business;
  menu_item_id = item;
  name_snapshot = name_or line.menu_item_name line.canonical.title;
  unit_price_cents = or_zero line.canonical.unit_price_cents;
  quantity = line.canonical.quantity;
  line_total_cents = or_zero line.canonical.unit_price_cents *ℤ line.canonical.quantity;
  add_on_ids = line.add_on_ids;
}

-- The menu item that a line sells, where it is not skipped.
abbrev pub sold_item : ResolvedLine → Option ℕ
sold_item line = if line.is_ignored then none else line.menu_item_id

unfoldable pub sale_items : ℕ → ℕ → List ResolvedLine → List SaleItem
sale_items order business [] = []
sale_items order business (line ∷ lines) =
    let rest = sale_items order business lines in
    elim (sold_item line) [ none ↦ rest | some item ↦ item_row order business item line ∷ rest ]

-- `resolved_items` as the line specifications that build_line_specs makes of them.
abbrev one_add_on : ℕ → AddOnSelectionSpec
one_add_on k = record { add_on_id = k; quantity = pos 1 }

unfoldable pub sale_specs : List SaleItem → List LineItemSpec
sale_specs = map (λ item. record {
  menu_item_id = item.menu_item_id;
  quantity = item.quantity;
  selected_option_ids = [];
  add_on_selections = map one_add_on item.add_on_ids;
  removed_ref_ids = [];
})

abbrev asked_add_ons : List LineItemSpec → List ℕ
asked_add_ons [] = []
asked_add_ons (spec ∷ specs) = map (λ s. s.add_on_id) spec.add_on_selections ++ asked_add_ons specs

abbrev has_items : List SaleItem → Bool
has_items [] = false
has_items (_ ∷ _) = true

-- The movements that the sale adds.
unfoldable pub consume : World → Business → CanonicalOrder → List SaleItem → Option (List Movement)
consume w business canonical items =
    if has_items items && business.inventory_enabled
    then (do
      let specs = sale_specs items
      let (item_recipes, add_on_recipes) =
          load_recipe_specs business.id (map (λ s. s.menu_item_id) specs) (asked_add_ons specs)
            w.recipes
      (_, written) ←
          post_sale_consumption w.now business.id w.new_order_id specs none
            (some (placed_or w.now canonical.placed_at)) sale_consumption item_recipes
            add_on_recipes w.ingredients []
      some written)
    else some []

unfoldable pub create_order_from_canonical :
    World → Business → Provider → CanonicalOrder → List ResolvedLine → Option Booking
create_order_from_canonical w business provider canonical lines =
    let items = sale_items w.new_order_id business.id lines in
    if w.insert_fails then none else do
      written ← consume w business canonical items
      some (record {
        sale = sale_of w business provider canonical;
        items = items;
        event = record {
          order_id = w.new_order_id;
          business_id = business.id;
          old_status = none;
          new_status = status_accepted;
        };
        movements = written;
      })
