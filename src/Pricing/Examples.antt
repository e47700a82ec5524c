-- ===== src/Pricing/Examples.antt =====
-- Runs of the pricing engine (shared/pricing/engine.py) on concrete carts.
use nextgen_backend.Prelude.{
  ℕ, ◌*◌, ◌+◌, ◌≤◌, ◌<◌, ◌≡◌, refl, true, false, none, some, List, [], ◌∷◌, arith,
}
use nextgen_backend.Prelude.Int.{pos, negsuc, ◌+ℤ◌, ◌*ℤ◌, ◌≤ℤ◌, max_ℤ}
use nextgen_backend.Pricing.{
  SelectedOption, SelectedAddOn, OptionEntry, AddOnEntry, calculate_line_item, calculate_unit_price,
  calculate_vat_cents, apply_vat_to_total, sum_deltas, option_delta, sum_costs, add_on_cost,
}
use nextgen_backend.Pricing.LineItem.{line_total, line_item_consistent}
use nextgen_backend.Pricing.Vat.{inclusive_vat_nearest}
use nextgen_backend.Pricing.RoundTrip.{exclusive_inclusive_round_trip}

abbrev large : List OptionEntry
large = OptionEntry.plain (some (pos 1_500)) ∷ []

abbrev two_cheese : List AddOnEntry
two_cheese = AddOnEntry.plain (some (pos 900)) (some (pos 2)) ∷ []

burger_total :
    (calculate_line_item (pos 8_000) large two_cheese (pos 3)).line_total_cents ≡ pos 33_900
unfolding calculate_line_item ◌+ℤ◌ ◌*ℤ◌ sum_deltas option_delta sum_costs add_on_cost
burger_total = refl

abbrev bacon : SelectedAddOn
bacon = record { add_on_id = 4; name = "bacon"; price_cents = pos 1_200; quantity = pos 1 }

abbrev brioche : SelectedOption
brioche = record {
  group_id = 1;
  group_name = "bun";
  option_id = 2;
  option_name = "brioche";
  price_delta_cents = pos 300;
}

line_item_consistent_example :
    let unit = calculate_unit_price in
    let b = calculate_line_item (pos 8_000) large two_cheese (pos 3) in
    (unit (pos 8_000) [] [] ≡ max_ℤ (pos 0) (pos 8_000))
    × (unit (pos 8_000) (OptionEntry.typed brioche ∷ large) two_cheese
        ≡ unit (pos 8_000 +ℤ pos 300) large two_cheese)
    × (unit (pos 8_000) (OptionEntry.plain (some (negsuc 99)) ∷ large) two_cheese
        ≡ unit (pos 8_000 +ℤ negsuc 99) large two_cheese)
    × (unit (pos 8_000) large (AddOnEntry.typed bacon ∷ two_cheese)
        ≡ unit (pos 8_000 +ℤ pos 1_200 *ℤ pos 1) large two_cheese)
    × (unit (pos 8_000) large (AddOnEntry.plain (some (pos 500)) (some (pos 1)) ∷ two_cheese)
        ≡ unit (pos 8_000 +ℤ pos 500 *ℤ pos 1) large two_cheese)
    × (unit (pos 8_000) large (AddOnEntry.plain (some (pos 500)) none ∷ two_cheese)
        ≡ unit (pos 8_000 +ℤ pos 500) large two_cheese)
    × (pos 0 ≤ℤ unit (pos 8_000) large two_cheese)
    × (b.unit_price_cents ≡ unit (pos 8_000) large two_cheese)
    × (b.line_total_cents ≡ unit (pos 8_000) large two_cheese *ℤ pos 3)
    × (line_total (pos 8_000) large two_cheese (pos 3 +ℤ pos 4)
        ≡ line_total (pos 8_000) large two_cheese (pos 3)
          +ℤ line_total (pos 8_000) large two_cheese (pos 4))
    × (line_total
          (pos 8_000)
          large
          (AddOnEntry.typed (record bacon { quantity = pos 2 +ℤ pos 1 }) ∷ two_cheese)
          (pos 3)
        ≡ line_total
            (pos 8_000)
            large
            (AddOnEntry.typed (record bacon { quantity = pos 2 })
              ∷ AddOnEntry.plain (some (pos 1_200)) (some (pos 1))
              ∷ two_cheese)
            (pos 3))
line_item_consistent_example =
    line_item_consistent (pos 8_000) large two_cheese brioche bacon (negsuc 99) (pos 500) (pos 2)
      (pos 1) (pos 3) (pos 4)

inclusive_vat_nearest_example :
    (vat : ℕ) × (calculate_vat_cents (pos 11_500) (pos 1_500) true ≡ pos vat)
    × (2 * ((10_000 + 1_500) * vat) ≤ 2 * (11_500 * 1_500) + (10_000 + 1_500))
    × (2 * (11_500 * 1_500) < 2 * ((10_000 + 1_500) * vat) + (10_000 + 1_500))
    × (vat ≤ 11_500)
inclusive_vat_nearest_example = inclusive_vat_nearest 11_500 1_500 (omega arith) (omega arith)

exclusive_inclusive_round_trip_example :
    let (total, vat) = apply_vat_to_total (pos 9_999) (pos 1_500) false in
    apply_vat_to_total total (pos 1_500) true ≡ (total, vat)
exclusive_inclusive_round_trip_example = exclusive_inclusive_round_trip (pos 9_999) (pos 1_500)
