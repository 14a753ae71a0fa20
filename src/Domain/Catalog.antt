-- ===== src/Domain/Catalog.antt =====
-- The catalogue of services and the feature flags (internal/domain/models.go, responses.go), with
-- their requests (requests.go).
use service_api.Base.{ℕ, Bool, Option, String, ℤ}

pub record ServiceCategory : Type 0 where
  pub id : ℕ
  pub name : String
  pub icon : String
  pub sort_order : ℤ
  pub is_active : Bool
  pub created_at : ℕ

pub record ServiceTemplate : Type 0 where
  pub id : ℕ
  pub category_id : ℕ
  pub name : String
  pub pricing_unit : String
  pub base_price : ℤ
  pub estimated_duration_hours : ℤ
  pub is_active : Bool
  pub sort_order : ℤ
  pub created_at : ℕ

-- With the column that migrations/00016_quick_add_services.sql adds.
pub record TenantServicePrice : Type 0 where
  pub id : ℕ
  pub tenant_id : ℕ
  pub service_template_id : ℕ
  pub price : ℤ
  pub is_active : Bool
  pub is_quick_add : Bool

pub record ServiceWithPrice : Type 0 where
  pub template : ServiceTemplate
  pub tenant_price : Option ℤ
  pub is_quick_add : Bool

pub record FeatureFlag : Type 0 where
  pub id : ℕ
  pub key : String
  pub description : String
  pub default_enabled : Bool

pub record TenantFeatureFlag : Type 0 where
  pub id : ℕ
  pub tenant_id : ℕ
  pub feature_flag_id : ℕ
  pub enabled : Bool

pub record CreateServiceCategoryRequest : Type 0 where
  pub name : String
  pub icon : String
  pub sort_order : ℤ

pub record UpdateServiceCategoryRequest : Type 0 where
  pub name : String
  pub icon : String
  pub sort_order : Option ℤ
  pub is_active : Option Bool

pub record CreateServiceTemplateRequest : Type 0 where
  pub category_id : String
  pub name : String
  pub pricing_unit : String
  pub base_price : ℤ
  pub estimated_duration_hours : ℤ
  pub sort_order : ℤ

pub record UpdateServiceTemplateRequest : Type 0 where
  pub name : String
  pub pricing_unit : String
  pub base_price : Option ℤ
  pub estimated_duration_hours : Option ℤ
  pub sort_order : Option ℤ
  pub is_active : Option Bool

pub record SetTenantServicePriceRequest : Type 0 where
  pub service_template_id : String
  pub price : ℤ

pub record CreateFeatureFlagRequest : Type 0 where
  pub key : String
  pub description : String
  pub default_enabled : Bool

pub record UpdateFeatureFlagRequest : Type 0 where
  pub description : Option String
  pub default_enabled : Option Bool
