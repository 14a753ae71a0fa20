-- ===== src/Inventory/Mappings.antt =====
-- `CreateMapping`, `UpdateMapping`, `DeleteMapping` and `ListMappings` of
-- internal/service/inventory_service.go. The schema keeps (tenant, service, supply) unique.
use service_api.Base.{
  ℕ, Bool, ◌&&◌, not, Option, none, some, ◌∷◌, [], ◌++◌, ◌==◌, find_where, count_where,
  select_where, update_where,
}
use service_api.Apperror.{not_found, internal}
use service_api.Domain.Supplies.{ServiceSupplyMapping}
use service_api.Store.{Tables, Db, attempt, pure, raise, or_raise, branch, ◌>>=◌}

abbrev pub same_mapping : ServiceSupplyMapping → ServiceSupplyMapping → Bool
same_mapping m n =
    m.tenant_id == n.tenant_id
    && m.service_template_id == n.service_template_id
    && m.supply_id == n.supply_id

abbrev pub owned_mapping : ℕ → ℕ → ServiceSupplyMapping → Bool
owned_mapping tenant_id id m = m.id == id && m.tenant_id == tenant_id

abbrev insert_mapping : ServiceSupplyMapping → Tables → Option (ServiceSupplyMapping × Tables)
insert_mapping m t = elim (find_where (same_mapping m) t.mappings) [
  | none ↦ some (m, record t { mappings = t.mappings ++ m ∷ [] })
  | some _ ↦ none
]

-- `CreateMapping`; the names that it reads afterwards for the reply are left out.
unfoldable pub create_mapping : ℕ → ℕ → ℕ → ℕ → ℕ → Db ServiceSupplyMapping
create_mapping new_id tenant_id service_id supply_id quantity =
    attempt (
      insert_mapping (record {
        id = new_id;
        tenant_id = tenant_id;
        service_template_id = service_id;
        supply_id = supply_id;
        quantity_per_unit = quantity;
      }))
    >>= or_raise (internal "failed to create service-supply mapping")

-- `UpdateMapping`
unfoldable pub update_mapping : ℕ → ℕ → ℕ → Db (Unit {0})
update_mapping tenant_id id quantity = do
  affected ←
      attempt (λ t. some (
        count_where (owned_mapping tenant_id id) t.mappings,
        record t {
          mappings =
              update_where (owned_mapping tenant_id id)
                (λ m. record m { quantity_per_unit = quantity }) t.mappings;
        },
      ))
      >>= or_raise (internal "failed to update service-supply mapping")
  branch (affected == 0) (raise (not_found "mapping not found")) (pure tt)

-- `DeleteMapping`
unfoldable pub delete_mapping : ℕ → ℕ → Db (Unit {0})
delete_mapping tenant_id id = do
  affected ←
      attempt (λ t. some (
        count_where (owned_mapping tenant_id id) t.mappings,
        record t { mappings = select_where (λ m. not (owned_mapping tenant_id id m)) t.mappings },
      ))
      >>= or_raise (internal "failed to delete service-supply mapping")
  branch (affected == 0) (raise (not_found "mapping not found")) (pure tt)
