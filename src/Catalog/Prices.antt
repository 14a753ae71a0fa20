-- ===== src/Catalog/Prices.antt =====
-- `SetTenantPrice`, `GetServicesWithPrices` and `SetQuickAdd` of
-- internal/service/service_template_service.go.
use service_api.Base.{
  ℕ, Bool, true, false, ◌&&◌, Option, none, some, List, [], ◌∷◌, ◌++◌, ◌==◌, ℤ, find_where,
  update_where, select_where,
}
use service_api.Apperror.{validation, internal}
use service_api.Domain.Catalog.{
  ServiceTemplate, TenantServicePrice, ServiceWithPrice, SetTenantServicePriceRequest,
}
use service_api.External.{External}
use service_api.Store.{Tables, Db, attempt, select, pure, raise, or_raise, case_option, ◌>>=◌, ◌>>◌}
use service_api.Catalog.Templates.{with_template_id}

abbrev pub price_for : ℕ → ℕ → TenantServicePrice → Bool
price_for tenant_id template_id p = p.tenant_id == tenant_id && p.service_template_id == template_id

abbrev pub set_prices : List TenantServicePrice → Tables → Tables
set_prices ps t = record t { office = record (t.office) { service_prices = ps } }

-- `INSERT INTO tenant_service_prices ... ON CONFLICT (tenant_id, service_template_id) DO UPDATE`:
-- the template exists; the row that is there is changed by `f`.
abbrev pub upsert_price :
    TenantServicePrice
    → (TenantServicePrice → TenantServicePrice)
    → Tables
    → Option (Unit {0} × Tables)
upsert_price p f t =
    elim (find_where (with_template_id p.service_template_id) t.office.service_templates) [
      | none ↦ none
      | some _ ↦
          elim (find_where (price_for p.tenant_id p.service_template_id) t.office.service_prices) [
            | none ↦ some (tt, set_prices (t.office.service_prices ++ p ∷ []) t)
            | some _ ↦ some (
              tt,
              set_prices
                  (update_where (price_for p.tenant_id p.service_template_id) f
                    t.office.service_prices)
                  t,
            )
          ]
    ]

abbrev pub new_price : ℕ → ℕ → ℕ → ℤ → Bool → TenantServicePrice
new_price id tenant_id template_id price quick_add = record {
  id = id;
  tenant_id = tenant_id;
  service_template_id = template_id;
  price = price;
  is_active = true;
  is_quick_add = quick_add;
}

abbrev pub with_price : ℤ → TenantServicePrice → TenantServicePrice
with_price price p = record p { price = price; is_active = true }

-- `SetTenantPrice`: it returns the row that it would insert.
unfoldable pub set_tenant_price :
    External → ℕ → ℕ → SetTenantServicePriceRequest → Db TenantServicePrice
set_tenant_price ext new_id tenant_id req =
    case_option (ext.parse_uuid req.service_template_id)
      (raise (validation "invalid service_template_id"))
      (λ template_id. do
        attempt (
              upsert_price (new_price new_id tenant_id template_id req.price false)
                (with_price req.price))
            >>= or_raise (internal "failed to set tenant price")
        pure (new_price new_id tenant_id template_id req.price false))

-- The LEFT JOIN: the row of the tenant's prices for a template.
abbrev pub tenant_price_of : ℕ → List TenantServicePrice → ServiceTemplate → ServiceWithPrice
tenant_price_of tenant_id ps s = elim (find_where (price_for tenant_id s.id) ps) [
  | none ↦ record { template = s; tenant_price = none; is_quick_add = false }
  | some p ↦ record { template = s; tenant_price = some p.price; is_quick_add = p.is_quick_add }
]

abbrev pub with_prices : ℕ → List TenantServicePrice → List ServiceTemplate → List ServiceWithPrice
with_prices tenant_id ps [] = []
with_prices tenant_id ps (s ∷ ss) = tenant_price_of tenant_id ps s ∷ with_prices tenant_id ps ss

abbrev pub services_of : ℕ → Tables → List ServiceWithPrice
services_of tenant_id t =
    with_prices tenant_id t.office.service_prices
      (select_where (λ s. s.is_active) t.office.service_templates)

-- `GetServicesWithPrices`, without the order of its rows.
unfoldable pub get_services_with_prices : ℕ → Db (List ServiceWithPrice)
get_services_with_prices tenant_id =
    select (services_of tenant_id) (internal "failed to list services with prices")

abbrev pub with_quick_add : Bool → TenantServicePrice → TenantServicePrice
with_quick_add quick_add p = record p { is_quick_add = quick_add }

-- The INSERT takes the base price of the template; without a template it is NULL, which the column
-- refuses.
abbrev pub upsert_quick_add : ℕ → ℕ → ℕ → Bool → Tables → Option (Unit {0} × Tables)
upsert_quick_add new_id tenant_id template_id quick_add t =
    elim (find_where (with_template_id template_id) t.office.service_templates) [
      | none ↦ none
      | some s ↦
          upsert_price (new_price new_id tenant_id template_id s.base_price quick_add)
            (with_quick_add quick_add) t
    ]

-- `SetQuickAdd`
unfoldable pub set_quick_add : ℕ → ℕ → ℕ → Bool → Db (Unit {0})
set_quick_add new_id tenant_id template_id quick_add = do
  attempt (upsert_quick_add new_id tenant_id template_id quick_add)
      >>= or_raise (internal "failed to set quick add")
  pure tt
