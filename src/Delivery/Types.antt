-- ===== src/Delivery/Types.antt =====
-- The rows of shared/models/delivery.py and external_orders.py that the worker reads and writes,
-- backend/app/delivery/canonical.py, and the platforms of shared/enums.py.
use nextgen_backend.Prelude.{Text, ℕ, Bool, Option, List}
use nextgen_backend.Prelude.Int.{ℤ}
use nextgen_backend.Orders.{OrderStatus, PaymentStatus}
use nextgen_backend.Inventory.Ledger.{Movement, Ingredient}
use nextgen_backend.Inventory.Ledger.RecipeLoading.{Recipe}

pub data Provider : Type 0 where
  uber_eats mr_d generic : Provider

pub data DeliveryStatus : Type 0 where
  delivery_received delivery_fetching delivery_needs_mapping delivery_ready_to_accept
        delivery_accepted delivery_denied delivery_fulfilled delivery_cancelled delivery_failed
        delivery_unknown :
      DeliveryStatus

pub data ConnectionStatus : Type 0 where
  not_connected sandbox awaiting_approval connected attention_required disabled : ConnectionStatus

pub data Misconfiguration : Type 0 where
  connection_missing env_mismatch tenant_inactive entitlement_off connection_not_live :
      Misconfiguration

pub data DenyReason : Type 0 where
  store_closed pos_not_ready pricing other_reason : DenyReason

pub data FailureReason : Type 0 where
  misconfigured : Misconfiguration → FailureReason
  fetch_failed unpriceable accept_call_failed : FailureReason

pub record Connection : Type 0 where
  pub id : ℕ
  pub status : ConnectionStatus
  pub environment : ℕ
  pub auto_accept_enabled : Bool

pub record Business : Type 0 where
  pub id : ℕ
  pub is_active : Bool
  pub delivery_platforms_enabled : Bool
  pub uber_eats_enabled : Bool
  pub mrd_enabled : Bool
  pub vat_registered : Bool
  pub vat_rate_basis_points : ℤ
  pub inventory_enabled : Bool

pub record WebhookEvent : Type 0 where
  pub id : ℕ
  pub environment : Option ℕ

pub record DeliveryOrder : Type 0 where
  pub business_id : ℕ
  pub provider : Provider
  pub external_order_id : ℕ
  pub delivery_connection_id : Option ℕ
  pub raw_event_id : Option ℕ
  pub status : DeliveryStatus
  pub order_id : Option ℕ
  pub accept_deadline_at : Option ℕ
  pub accepted_at : Option ℕ
  pub denied_at : Option ℕ
  pub cancelled_at : Option ℕ
  pub deny_reason_code : Option DenyReason
  pub failure_reason : Option FailureReason
  pub placed_at : Option ℕ
  pub gross_cents : Option ℤ
  pub fee_cents : Option ℤ
  pub unresolved_items : List Text

-- The platform's order, once it has been fetched.
pub record CanonicalModifier : Type 0 where
  pub external_id : Option ℕ
  pub title : Text

pub record CanonicalLine : Type 0 where
  pub external_item_id : Option ℕ
  pub title : Text
  pub quantity : ℤ
  pub unit_price_cents : Option ℤ
  pub modifiers : List CanonicalModifier

pub record CanonicalOrder : Type 0 where
  pub external_order_id : ℕ
  pub lines : List CanonicalLine
  pub placed_at : Option ℕ
  pub fee_cents : Option ℤ
  pub total_cents : Option ℤ

pub data MappingKind : Type 0 where
  item_mapping modifier_mapping option_mapping : MappingKind

pub record ProductMapping : Type 0 where
  pub business_id : ℕ
  pub platform : Provider
  pub kind : MappingKind
  pub external_id : Option ℕ
  pub is_ignored : Bool
  pub menu_item_id : Option ℕ
  pub menu_add_on_id : Option ℕ

-- A MenuItem or a MenuAddOn.
pub record MenuEntry : Type 0 where
  pub id : ℕ
  pub business_id : ℕ
  pub name : Text
  pub is_deleted : Bool

-- The sale: an Order, its OrderItems and its OrderEvents.
pub record SaleOrder : Type 0 where
  pub id : ℕ
  pub business_id : ℕ
  pub source : Provider
  pub status : OrderStatus
  pub payment_status : PaymentStatus
  pub payment_required : Bool
  pub paid_at : ℕ
  pub subtotal_cents : ℤ
  pub delivery_fee_cents : ℤ
  pub discount_cents : ℤ
  pub tax_cents : ℤ
  pub total_cents : ℤ
  pub external_order_id : ℕ
  pub external_placed_at : Option ℕ
  pub external_imported_at : ℕ
  pub confirmed_at : ℕ
  pub accepted_at : ℕ

pub record SaleItem : Type 0 where
  pub order_id : ℕ
  pub business_id : ℕ
  pub menu_item_id : ℕ
  pub name_snapshot : Text
  pub unit_price_cents : ℤ
  pub quantity : ℤ
  pub line_total_cents : ℤ
  pub add_on_ids : List ℕ

pub record SaleEvent : Type 0 where
  pub order_id : ℕ
  pub business_id : ℕ
  pub old_status : Option OrderStatus
  pub new_status : OrderStatus

-- What a call of the platform's API does: `crashed` is any error that the caller does not name.
pub data Call {ℓ} (A : Type ℓ) : Type ℓ where
  answered : A → Call A
  timed_out : Call A
  provider_error : Call A
  crashed : Call A

-- Python's `str.lower` and the white space of `str.strip` and of `\s`.
pub record Casing : Type 0 where
  pub lower : Text → Text
  pub is_space : ℕ → Bool

-- The clock, the rows that are only read, and what the calls and the inserts of one run do.
pub record World : Type 0 where
  pub now : ℕ
  pub casing : Casing
  pub connections : List Connection
  pub businesses : List Business
  pub webhook_events : List WebhookEvent
  pub mappings : List ProductMapping
  pub menu_items : List MenuEntry
  pub add_ons : List MenuEntry
  pub recipes : List Recipe
  pub ingredients : List Ingredient
  pub fetch : Call CanonicalOrder
  pub accept : Call (Unit {0})
  pub deny : Call (Unit {0})
  pub new_order_id : ℕ
  pub insert_fails : Bool

-- The tables that the operations write; a row is added at the end.
pub record DeliveryDb : Type 0 where
  pub rows : List DeliveryOrder
  pub sales : List SaleOrder
  pub items : List SaleItem
  pub events : List SaleEvent
  pub movements : List Movement
