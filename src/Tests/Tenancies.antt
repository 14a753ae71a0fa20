-- ===== src/Tests/Tenancies.antt =====
-- A tenant that is deleted before a broadcast.
use service_api.Base.{ℕ, ◌≡◌, refl, true, [], ◌∷◌, find_where, update_where}
use service_api.Domain.Users.{Tenant}
use service_api.Domain.Sync.{PushConfigRequest}
use service_api.Pagination.{defaults}
use service_api.Store.{World, calm, fails, rest}
use service_api.Config.{latest, broadcast_config}
use service_api.Tenants.{get_tenant, delete_tenant}
use service_api.Tenants.Broadcasts.{delete_tenant-broadcast_config}
use service_api.Tests.Data.{plain}
use service_api.Tests.Versions.{json, call, after}

abbrev laundry : ℕ → Tenant
laundry id = record {
  id = id;
  name = "Bersih";
  slug = "bersih";
  is_active = true;
  created_at = 1;
  updated_at = 1;
}

abbrev town : World
town = calm (record (after.tables) { tenants = laundry 5 ∷ laundry 6 ∷ [] })

abbrev to_all : PushConfigRequest
to_all = record { tenant_ids = []; broadcast = true }

delete_tenant-broadcast_config_example :
    let later = (delete_tenant 60 5 town).1 in
    latest 5
      (broadcast_config plain json defaults call to_all 9 later).1.tables.office.config_versions
    ≡ latest 5 after.tables.office.config_versions
unfolding delete_tenant get_tenant find_where update_where fails rest
delete_tenant-broadcast_config_example =
    delete_tenant-broadcast_config 60 5 plain json defaults call to_all 9 town
      (delete_tenant 60 5 town).1 refl refl refl
