-- ===== src/Domain/Supplies.antt =====
-- Supplies, stock movements and the mappings from services to supplies
-- (internal/domain/inventory.go). A column `NUMERIC(12,2)` is an integer of hundredths; a Go
-- `float64` is its bit pattern, a number.
use service_api.Base.{ℕ, Bool, Option, String}
use service_api.Base.{ℤ}

pub data MovementType : Type 0 where
  stock_in stock_out adjustment : MovementType

pub record Supply : Type 0 where
  pub id : ℕ
  pub tenant_id : ℕ
  pub name : String
  pub current_stock : ℤ
  pub min_stock : ℤ
  pub cost_per_unit : ℤ
  pub is_active : Bool

pub record StockMovement : Type 0 where
  pub tenant_id : ℕ
  pub supply_id : ℕ
  pub movement_type : MovementType
  pub quantity : ℤ
  pub notes : Option String
  pub created_by : ℕ

pub record ServiceSupplyMapping : Type 0 where
  pub id : ℕ
  pub tenant_id : ℕ
  pub service_template_id : ℕ
  pub supply_id : ℕ
  pub quantity_per_unit : ℕ

pub record StockMovementRequest : Type 0 where
  pub supply_id : String
  pub movement_type : MovementType
  pub quantity : ℕ
  pub notes : String
