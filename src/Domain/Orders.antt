-- ===== src/Domain/Orders.antt =====
-- `Order`, `OrderStatusLog` and their requests (internal/domain/models.go, requests.go).
use service_api.Base.{ℕ, Option, String}
use service_api.Base.{ℤ}

-- The texts that the service compares a status with; any other text is `other`.
pub data Status : Type 0 where
  received washing drying ironing done picked_up cancelled : Status
  pickup_requested : Status
  other : String → Status

pub data DeliveryType : Type 0 where
  pickup delivery : DeliveryType

pub record Order : Type 0 where
  pub id : ℕ
  pub transaction_id : Option ℕ
  pub tenant_id : ℕ
  pub outlet_id : ℕ
  pub status : Status
  pub estimated_completion_at : Option ℕ
  pub completed_at : Option ℕ
  pub picked_up_at : Option ℕ
  pub notes : Option String
  pub customer_phone : Option String
  pub tracking_token : Option String
  pub delivery_type : DeliveryType
  pub delivery_address : Option String
  pub delivery_fee : ℤ
  pub scheduled_pickup_at : Option ℕ
  pub created_by : ℕ
  pub updated_by : ℕ
  pub created_at : ℕ
  pub updated_at : ℕ

pub record OrderStatusLog : Type 0 where
  pub id : ℕ
  pub order_id : ℕ
  pub from_status : Option Status
  pub to_status : Status
  pub changed_by : ℕ
  pub notes : Option String
  pub created_at : ℕ

pub record CreateOrderRequest : Type 0 where
  pub transaction_id : Option String
  pub outlet_id : String
  pub estimated_duration_hours : ℤ
  pub notes : String
  pub customer_phone : String
  pub delivery_type : String
  pub delivery_address : String
  pub delivery_fee : ℤ
  pub scheduled_pickup_at : String

pub record UpdateOrderStatusRequest : Type 0 where
  pub status : Status
  pub notes : String
