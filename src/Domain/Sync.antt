-- ===== src/Domain/Sync.antt =====
-- `SyncSession` (internal/domain/models.go), `SyncUploadResult` (responses.go), and a version of a
-- tenant's configuration, `ConfigVersion`. The JSON of a configuration is opaque.
use service_api.Base.{ℕ, Bool, String, List}

pub record SyncSession : Type 0 where
  pub id : ℕ
  pub tenant_id : ℕ
  pub outlet_id : ℕ
  pub transaction_count : ℕ
  pub started_at : ℕ
  pub completed_at : ℕ

pub record SyncUploadResult : Type 0 where
  pub received : ℕ
  pub inserted : ℕ
  pub skipped : ℕ

pub record ConfigVersion : Type 0 where
  pub id : ℕ
  pub tenant_id : ℕ
  pub version : ℕ
  pub content : String
  pub created_by : ℕ
  pub created_at : ℕ

-- internal/domain/requests.go
pub record PushConfigRequest : Type 0 where
  pub tenant_ids : List ℕ
  pub broadcast : Bool
