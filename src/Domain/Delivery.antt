-- ===== src/Domain/Delivery.antt =====
-- internal/domain/delivery.go: zones with their fees, and requests for a pickup.
use service_api.Base.{ℕ, Bool, Option, String, ℤ}

pub record DeliveryZone : Type 0 where
  pub id : ℕ
  pub tenant_id : ℕ
  pub outlet_id : ℕ
  pub name : String
  pub district : Option String
  pub fee : ℤ
  pub estimated_minutes : ℤ
  pub is_active : Bool
  pub created_at : ℕ
  pub updated_at : ℕ

pub record CreateDeliveryZoneRequest : Type 0 where
  pub outlet_id : String
  pub name : String
  pub district : Option String
  pub fee : ℤ
  pub estimated_minutes : ℤ

pub record UpdateDeliveryZoneRequest : Type 0 where
  pub name : Option String
  pub district : Option String
  pub fee : Option ℤ
  pub estimated_minutes : Option ℤ
  pub is_active : Option Bool

-- The default of the column (migrations/00029_delivery_zones.sql), and the texts that the validation
-- of `UpdatePickupRequestStatus` admits.
pub data PickupStatus : Type 0 where
  pending assigned in_transit completed cancelled : PickupStatus

pub record PickupRequest : Type 0 where
  pub id : ℕ
  pub tenant_id : ℕ
  pub outlet_id : ℕ
  pub zone_id : Option ℕ
  pub customer_name : String
  pub customer_phone : String
  pub address : String
  pub pickup_type : String
  pub status : PickupStatus
  pub scheduled_at : Option ℕ
  pub completed_at : Option ℕ
  pub notes : Option String
  pub delivery_fee : ℤ
  pub created_at : ℕ
  pub updated_at : ℕ

pub record CreatePickupRequestPayload : Type 0 where
  pub outlet_id : String
  pub zone_id : Option String
  pub customer_name : String
  pub customer_phone : String
  pub address : String
  pub pickup_type : String
  pub scheduled_at : Option String
  pub notes : String
