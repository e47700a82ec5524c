-- ===== src/Inventory/Stocktake/Types.antt =====
-- The rows of shared/models/stocktake.py and the columns of shared/models/inventory.py that the
-- stocktake routes read, and the errors that they raise.
use nextgen_backend.Prelude.{ℕ, Bool, Option, List}
use nextgen_backend.Prelude.Int.{ℤ}
use nextgen_backend.Inventory.Ledger.{Movement}
use nextgen_backend.Inventory.Units.{CanonicalUnit, UnitKey, Fraction}

pub data StocktakeStatus : Type 0 where
  stocktake_draft stocktake_completed stocktake_approved stocktake_cancelled : StocktakeStatus

-- An Ingredient.
pub record StockItem : Type 0 where
  pub id : ℕ
  pub business_id : ℕ
  pub cost_per_canonical_micro_cents : ℤ
  pub canonical_unit : CanonicalUnit
  pub is_active : Bool
  pub is_deleted : Bool

pub record StocktakeLine : Type 0 where
  pub ingredient_id : ℕ
  pub counted_quantity_milli : Option ℤ
  pub opening_quantity_milli : ℤ
  pub received_quantity_milli : ℤ
  pub theoretical_consumption_milli : ℤ
  pub wastage_quantity_milli : ℤ
  pub adjustment_quantity_milli : ℤ
  pub expected_quantity_milli : ℤ
  pub variance_quantity_milli : ℤ
  pub variance_value_cents : ℤ
  pub variance_basis_points : Option ℤ
  pub unit_cost_micro_cents : ℤ

pub record StocktakeSession : Type 0 where
  pub id : ℕ
  pub business_id : ℕ
  pub status : StocktakeStatus
  pub cutoff_at : ℕ
  pub period_start_at : Option ℕ
  pub opened_by_user_id : Option ℕ
  pub opened_at : ℕ
  pub completed_by_user_id : Option ℕ
  pub completed_at : Option ℕ
  pub approved_by_user_id : Option ℕ
  pub approved_at : Option ℕ
  pub total_variance_value_cents : ℤ
  pub total_theoretical_value_cents : ℤ
  pub lines : List StocktakeLine

pub record CountLine : Type 0 where
  pub ingredient_id : ℕ
  pub quantity : Option Fraction
  pub unit : Option UnitKey

-- `approvals` are the audit events of approved counts: who, and which.
pub record StocktakeDb : Type 0 where
  pub items : List StockItem
  pub sessions : List StocktakeSession
  pub movements : List Movement
  pub approvals : List (ℕ × ℕ)

pub data StocktakeError : Type 0 where
  inventory_not_enabled not_found locked cancelled already_open pending_approval no_ingredients
        already_completed ingredient_not_on_count invalid_unit invalid_quantity not_draft
        incomplete_count not_completed :
      StocktakeError
