-- ===== src/Pricing.antt =====
-- shared/pricing/engine.py: the price of one cart line, and the VAT in or on an amount.
-- A list entry is a typed dataclass or a plain dict; a dict's key may be missing.
pub mod LineItem
pub mod Vat
pub mod RoundTrip
mod Examples
use nextgen_backend.Prelude.{
  ℕ, ◌+◌, ◌*◌, String, Bool, true, false, ◌||◌, Option, none, some, List, [], ◌∷◌, if◌then◌else◌,
}
use nextgen_backend.Prelude.Int.{ℤ, pos, pos_part, ◌+ℤ◌, ◌*ℤ◌, leb_ℤ, max_ℤ}
use nextgen_backend.Prelude.Decimal.{half_up}

pub record SelectedOption : Type 0 where
  pub group_id : ℕ
  pub group_name : String
  pub option_id : ℕ
  pub option_name : String
  pub price_delta_cents : ℤ

pub record SelectedAddOn : Type 0 where
  pub add_on_id : ℕ
  pub name : String
  pub price_cents : ℤ
  pub quantity : ℤ

pub data OptionEntry : Type 0 where
  typed : SelectedOption → OptionEntry
  plain : Option ℤ → OptionEntry

-- A plain add-on carries its `price_cents` and its `quantity`.
pub data AddOnEntry : Type 0 where
  typed : SelectedAddOn → AddOnEntry
  plain : Option ℤ → Option ℤ → AddOnEntry

pub record LineItemBreakdown : Type 0 where
  pub base_price_cents : ℤ
  pub option_adjustment_cents : ℤ
  pub add_on_total_cents : ℤ
  pub unit_price_cents : ℤ
  pub quantity : ℤ
  pub line_total_cents : ℤ

-- `d.get(key, default)`
abbrev pub get_default : Option ℤ → ℤ → ℤ
get_default none d = d
get_default (some v) d = v

unfoldable pub option_delta : OptionEntry → ℤ
option_delta (OptionEntry.typed o) = o.price_delta_cents
option_delta (OptionEntry.plain delta) = get_default delta (pos 0)

unfoldable pub add_on_cost : AddOnEntry → ℤ
add_on_cost (AddOnEntry.typed a) = a.price_cents *ℤ a.quantity
add_on_cost (AddOnEntry.plain price quantity) =
    get_default price (pos 0) *ℤ get_default quantity (pos 1)

-- The generator sums of the two functions below.
unfoldable pub sum_deltas : List OptionEntry → ℤ
sum_deltas [] = pos 0
sum_deltas (o ∷ os) = option_delta o +ℤ sum_deltas os

unfoldable pub sum_costs : List AddOnEntry → ℤ
sum_costs [] = pos 0
sum_costs (a ∷ es) = add_on_cost a +ℤ sum_costs es

unfoldable pub calculate_unit_price : ℤ → List OptionEntry → List AddOnEntry → ℤ
calculate_unit_price base options add_ons =
    max_ℤ (pos 0) (base +ℤ sum_deltas options +ℤ sum_costs add_ons)

unfoldable pub calculate_line_item : ℤ → List OptionEntry → List AddOnEntry → ℤ → LineItemBreakdown
calculate_line_item base options add_ons quantity =
    let unit_price = max_ℤ (pos 0) (base +ℤ sum_deltas options +ℤ sum_costs add_ons) in
    record {
      base_price_cents = base;
      option_adjustment_cents = sum_deltas options;
      add_on_total_cents = sum_costs add_ons;
      unit_price_cents = unit_price;
      quantity = quantity;
      line_total_cents = unit_price *ℤ quantity;
    }

-- The two quotients are taken of positive numbers only.
unfoldable pub calculate_vat_cents : ℤ → ℤ → Bool → ℤ
calculate_vat_cents amount rate inclusive =
    if leb_ℤ rate (pos 0) || leb_ℤ amount (pos 0)
    then pos 0
    else if inclusive
    then pos (half_up (pos_part amount * pos_part rate) (10_000 + pos_part rate))
    else pos (half_up (pos_part amount * pos_part rate) 10_000)

-- The total and the VAT in it.
unfoldable pub apply_vat_to_total : ℤ → ℤ → Bool → ℤ × ℤ
apply_vat_to_total net rate inclusive =
    let vat = calculate_vat_cents net rate inclusive in
    if inclusive then (net, vat) else (net +ℤ vat, vat)
