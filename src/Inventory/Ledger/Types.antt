-- ===== src/Inventory/Ledger/Types.antt =====
-- shared/enums.py StockMovementType and StockSourceType, the rows of shared/models/inventory.py,
-- and the idempotency keys of backend/app/inventory/ledger.py.
use nextgen_backend.Prelude.{ℕ, String, Bool, true, false, Option, none, some, ltb, leb, ◌==◌}
use nextgen_backend.Prelude.Int.{ℤ}

pub data MovementType : Type 0 where
  opening_balance goods_received sale_consumption sale_reversal remake_consumption wastage
        staff_meal complimentary manual_adjustment stocktake_adjustment supplier_return
        wastage_reversal :
      MovementType

pub data SourceType : Type 0 where
  source_order source_goods_receipt source_wastage_entry source_stocktake source_manual
        source_opening_stock :
      SourceType

-- The prefixes differ, so two keys of different kinds are never the same text.
pub data Key : Type 0 where
  sale_key reversal_key stocktake_adjustment_key wastage_key wastage_reversal_key : ℕ → ℕ → Key
  opening_balance_key : ℕ → Key

pub record Movement : Type 0 where
  pub business_id : ℕ
  pub ingredient_id : ℕ
  pub quantity_milli : ℤ
  pub movement_type : MovementType
  pub source_type : Option SourceType
  pub source_id : Option ℕ
  pub unit_cost_micro_cents : ℤ
  pub value_cents : ℤ
  pub created_by_user_id : Option ℕ
  pub idempotency_key : Option Key
  pub notes : Option String
  pub occurred_at : ℕ
  pub created_at : ℕ

pub record Ingredient : Type 0 where
  pub id : ℕ
  pub business_id : ℕ
  pub cost_per_canonical_micro_cents : ℤ

abbrev pub is_order : Option SourceType → Bool
is_order (some source_order) = true
is_order _ = false

abbrev pub is_consumption : MovementType → Bool
is_consumption sale_consumption = true
is_consumption remake_consumption = true
is_consumption _ = false

abbrev pub is_reversal : MovementType → Bool
is_reversal sale_reversal = true
is_reversal _ = false

abbrev type_code : MovementType → ℕ
type_code opening_balance = 0
type_code goods_received = 1
type_code sale_consumption = 2
type_code sale_reversal = 3
type_code remake_consumption = 4
type_code wastage = 5
type_code staff_meal = 6
type_code complimentary = 7
type_code manual_adjustment = 8
type_code stocktake_adjustment = 9
type_code supplier_return = 10
type_code wastage_reversal = 11

abbrev pub same_type : MovementType → MovementType → Bool
same_type a b = type_code a == type_code b

-- `occurred_at > since` and `occurred_at <= until`, where they are given.
abbrev pub since_ok : Option ℕ → ℕ → Bool
since_ok none t = true
since_ok (some since) t = ltb since t

abbrev pub until_ok : Option ℕ → ℕ → Bool
until_ok none t = true
until_ok (some until) t = leb t until
