-- ===== src/Tenants/Calls.antt =====
-- `GetByID`, `Create`, `Update` and `Delete` of internal/service/tenant_service.go.
use service_api.Base.{text_or, value_or, ℕ, Bool, true, false, ◌==◌, find_where, update_where}
use service_api.Apperror.{not_found, conflict, internal}
use service_api.Domain.Users.{Tenant, CreateTenantRequest, UpdateTenantRequest}
use service_api.Store.{
  Db, attempt, select, exec, query_row, pure, raise, or_raise, case_option, ◌>>=◌, ◌>>◌,
}
use service_api.Auth.{with_slug, insert_tenant}

abbrev pub tenant_id_is : ℕ → Tenant → Bool
tenant_id_is id t = t.id == id

-- `GetByID`
unfoldable pub get_tenant : ℕ → Db Tenant
get_tenant id =
    query_row (λ t. find_where (tenant_id_is id) t.tenants) (not_found "tenant not found")
      (internal "failed to get tenant")

-- The clock is read twice, at `created` and at `updated`.
abbrev pub created_tenant : ℕ → ℕ → ℕ → CreateTenantRequest → Tenant
created_tenant new_id created updated req = record {
  id = new_id;
  name = req.name;
  slug = req.slug;
  is_active = true;
  created_at = created;
  updated_at = updated;
}

-- `Create`
unfoldable pub create_tenant : ℕ → ℕ → ℕ → CreateTenantRequest → Db Tenant
create_tenant new_id created updated req = do
  taken ← select (λ t. find_where (with_slug req.slug) t.tenants) (internal "failed to check slug")
  case_option taken (pure tt) (λ x. raise (conflict "tenant with this slug already exists"))
  attempt (insert_tenant (created_tenant new_id created updated req))
      >>= or_raise (internal "failed to create tenant")
  pure (created_tenant new_id created updated req)

abbrev pub deactivate_tenant : ℕ → Tenant → Tenant
deactivate_tenant now t = record t { is_active = false; updated_at = now }

-- `Delete`: the row stays, and is inactive.
unfoldable pub delete_tenant : ℕ → ℕ → Db (Unit {0})
delete_tenant now id = do
  t ← get_tenant id
  exec
      (λ t. record t { tenants = update_where (tenant_id_is id) (deactivate_tenant now) t.tenants })
      (internal "failed to delete tenant")

-- What the request leaves out stays.
abbrev pub merge_tenant : ℕ → UpdateTenantRequest → Tenant → Tenant
merge_tenant now req t = record t {
  name = text_or req.name t.name;
  is_active = value_or req.is_active t.is_active;
  updated_at = now;
}

-- The columns of the UPDATE.
abbrev pub with_tenant : Tenant → Tenant → Tenant
with_tenant new t = record t {
  name = new.name;
  is_active = new.is_active;
  updated_at = new.updated_at;
}

-- `Update`
unfoldable pub update_tenant : ℕ → ℕ → UpdateTenantRequest → Db Tenant
update_tenant now id req = do
  t ← get_tenant id
  exec
      (λ ts. record ts {
        tenants =
            update_where (tenant_id_is t.id) (with_tenant (merge_tenant now req t)) ts.tenants;
      })
      (internal "failed to update tenant")
  pure (merge_tenant now req t)
