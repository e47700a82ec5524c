-- ===== src/Pricing/LineItem.antt =====
-- The price of one cart line (shared/pricing/engine.py, calculate_unit_price and
-- calculate_line_item).
use nextgen_backend.Prelude.{◌≡◌, refl, List, [], ◌∷◌, some, none, ◌∙◌, arith}
use nextgen_backend.Prelude.Int.{ℤ, pos, ◌+ℤ◌, ◌*ℤ◌, ◌≤ℤ◌, max_ℤ, *ℤ-+ℤ, int_laws}
use nextgen_backend.Pricing.{
  SelectedOption, SelectedAddOn, OptionEntry, AddOnEntry, option_delta, add_on_cost, sum_deltas,
  sum_costs, calculate_unit_price, calculate_line_item,
}

abbrev pub line_total : ℤ → List OptionEntry → List AddOnEntry → ℤ → ℤ
line_total base options add_ons quantity =
    (calculate_line_item base options add_ons quantity).line_total_cents

add_assoc : (a b c : ℤ) → (a +ℤ b) +ℤ c ≡ a +ℤ (b +ℤ c)
add_assoc a b c = grind int_laws

-- Splitting a line's quantity over two lines of the same choices never changes what is charged.
pub line_total-split :
    (base : ℤ) (options : List OptionEntry) (add_ons : List AddOnEntry) (p q : ℤ)
    → (calculate_line_item base options add_ons (p +ℤ q)).line_total_cents
      ≡ (calculate_line_item base options add_ons p).line_total_cents
        +ℤ (calculate_line_item base options add_ons q).line_total_cents
unfolding calculate_line_item
line_total-split base options add_ons p q = *ℤ-+ℤ _ p q

move_left : (base s c e : ℤ) → base +ℤ s +ℤ (c +ℤ e) ≡ base +ℤ c +ℤ s +ℤ e
move_left base s c e = grind int_laws

no_choices : (a : ℤ) → a +ℤ pos 0 +ℤ pos 0 ≡ a
no_choices a = grind int_laws

times_one : (c : ℤ) → c *ℤ pos 1 ≡ c
unfolding ◌*ℤ◌
times_one c = ground arith

-- What a choice adds may as well stand in the base price.
option_in_base :
    (base d s c : ℤ) → max_ℤ (pos 0) (base +ℤ (d +ℤ s) +ℤ c) ≡ max_ℤ (pos 0) (base +ℤ d +ℤ s +ℤ c)
option_in_base base d s c = rw (add_assoc base d s) refl

add_on_in_base :
    (base s c e : ℤ) → max_ℤ (pos 0) (base +ℤ s +ℤ (c +ℤ e)) ≡ max_ℤ (pos 0) (base +ℤ c +ℤ s +ℤ e)
add_on_in_base base s c e = let moved = move_left base s c e in rw moved refl

-- The unit price without choices is the base price, or 0 for a negative one; each choice counts as a
-- part of the base price: an option, typed or plain, adds its price difference, an add-on, typed or plain, its price as often as it is asked for, and a plain
-- add-on without a quantity its price once. The unit price is never negative, a line's breakdown
-- shows it, the line's total is the unit price times the quantity, so that a line of p + q portions
-- costs what lines of p and of q portions cost, and asking for an add-on m + n times costs what
-- asking for it m times and, in another entry, n times does.
pub line_item_consistent :
    (base : ℤ) (options : List OptionEntry) (add_ons : List AddOnEntry) (o : SelectedOption)
    (a : SelectedAddOn) (d c m n p q : ℤ)
    → let unit = calculate_unit_price in
      let b = calculate_line_item base options add_ons p in
      (unit base [] [] ≡ max_ℤ (pos 0) base)
      × (unit base (OptionEntry.typed o ∷ options) add_ons
          ≡ unit (base +ℤ o.price_delta_cents) options add_ons)
      × (unit base (OptionEntry.plain (some d) ∷ options) add_ons
          ≡ unit (base +ℤ d) options add_ons)
      × (unit base options (AddOnEntry.typed a ∷ add_ons)
          ≡ unit (base +ℤ a.price_cents *ℤ a.quantity) options add_ons)
      × (unit base options (AddOnEntry.plain (some c) (some n) ∷ add_ons)
          ≡ unit (base +ℤ c *ℤ n) options add_ons)
      × (unit base options (AddOnEntry.plain (some c) none ∷ add_ons)
          ≡ unit (base +ℤ c) options add_ons)
      × (pos 0 ≤ℤ unit base options add_ons)
      × (b.unit_price_cents ≡ unit base options add_ons)
      × (b.line_total_cents ≡ unit base options add_ons *ℤ p)
      × (line_total base options add_ons (p +ℤ q)
          ≡ line_total base options add_ons p +ℤ line_total base options add_ons q)
      × (line_total base options (AddOnEntry.typed (record a { quantity = m +ℤ n }) ∷ add_ons) p
          ≡ line_total base options
              (AddOnEntry.typed (record a { quantity = m })
                ∷ AddOnEntry.plain (some a.price_cents) (some n)
                ∷ add_ons)
              p)
unfolding calculate_line_item calculate_unit_price sum_costs sum_deltas option_delta add_on_cost
line_item_consistent base options add_ons o a d c m n p q =
    let deltas = sum_deltas options in
    let costs = sum_costs add_ons in
    (
      rw (no_choices base) refl,
      option_in_base base o.price_delta_cents deltas costs,
      option_in_base base d deltas costs,
      add_on_in_base base deltas (a.price_cents *ℤ a.quantity) costs,
      add_on_in_base base deltas (c *ℤ n) costs,
      add_on_in_base base deltas (c *ℤ pos 1) costs ∙ rw (times_one c) refl,
      ground arith,
      refl,
      refl,
      line_total-split base options add_ons p q,
      rw (*ℤ-+ℤ a.price_cents m n, add_assoc (a.price_cents *ℤ m) (a.price_cents *ℤ n) costs) refl,
    )
