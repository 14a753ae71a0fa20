-- ===== src/Domain/Users.antt =====
-- `User`, `Tenant` (internal/domain/models.go), the tokens of a password reset, and what the user
-- service takes and answers.
use service_api.Base.{ℕ, Bool, Option, String}

-- internal/domain/roles.go; any other text is `other`.
pub data Role : Type 0 where
  superadmin tenant_owner cashier : Role
  other : String → Role

pub record User : Type 0 where
  pub id : ℕ
  pub email : String
  pub name : String
  pub password_hash : String
  pub role : Role
  pub tenant_id : Option ℕ
  pub is_active : Bool
  pub created_at : ℕ
  pub updated_at : ℕ

pub record Tenant : Type 0 where
  pub id : ℕ
  pub name : String
  pub slug : String
  pub is_active : Bool
  pub created_at : ℕ
  pub updated_at : ℕ

-- internal/domain/requests.go
pub record CreateTenantRequest : Type 0 where
  pub name : String
  pub slug : String

pub record UpdateTenantRequest : Type 0 where
  pub name : String
  pub is_active : Option Bool

pub record ResetToken : Type 0 where
  pub id : ℕ
  pub user_id : ℕ
  pub token : String
  pub expires_at : ℕ
  pub used_at : Option ℕ
  pub created_at : ℕ

-- internal/domain/responses.go
pub record UserResponse : Type 0 where
  pub id : ℕ
  pub email : String
  pub name : String
  pub role : Role
  pub tenant_id : Option ℕ
  pub is_active : Bool
  pub created_at : ℕ
  pub updated_at : ℕ

-- internal/domain/requests.go; the role is read as `Role`.
pub record CreateUserRequest : Type 0 where
  pub email : String
  pub password : String
  pub name : String
  pub role : Role
  pub tenant_id : String
