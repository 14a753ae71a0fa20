-- ===== src/Tests/Offers.antt =====
-- The catalogue and the flags: a service with a price of one tenant's own, and a flag that one tenant
-- turns on.
use service_api.Base.{◌≡◌, inl, refl, arith, true, false, [], ◌∷◌, pos, find_where}
use service_api.Domain.Catalog.{ServiceTemplate, FeatureFlag, SetTenantServicePriceRequest}
use service_api.Store.{World, calm, fails, rest, no_rows}
use service_api.Catalog.{new_price}
use service_api.Flags.{set_tenant_flag, flag_enabled}
use service_api.Flags.Overrides.{set_tenant_flag_enables}

abbrev washing : ServiceTemplate
washing = record {
  id = 2;
  category_id = 1;
  name = "Cuci";
  pricing_unit = "kg";
  base_price = pos 7000;
  estimated_duration_hours = pos 24;
  is_active = true;
  sort_order = pos 1;
  created_at = 1;
}

abbrev flag : FeatureFlag
flag = record { id = 3; key = "qris"; description = ""; default_enabled = false }

abbrev office : World
office = calm (record no_rows {
  office = record (no_rows.office) {
    service_templates = washing ∷ [];
    service_prices = new_price 10 5 2 (pos 6500) true ∷ [];
    feature_flags = flag ∷ [];
  };
})

abbrev price_request : SetTenantServicePriceRequest
price_request = record { service_template_id = "u2"; price = pos 8000 }

set_tenant_flag_enables_example :
    let os' = (set_tenant_flag 12 5 3 true office).1.tables.office.tenant_flags in
    (flag_enabled 5 os' flag ≡ true) × (flag_enabled 6 os' flag ≡ flag_enabled 6 [] flag)
unfolding set_tenant_flag find_where fails rest
set_tenant_flag_enables_example =
    set_tenant_flag_enables 12 5 3 6 true flag flag office refl refl (inl (λ e. ground (arith, e)))
