-- ===== src/Flags/Overrides.antt =====
-- What a tenant's flags come to (internal/service/feature_flag_service.go).
use service_api.Base.{
  ℕ, ◌≡◌, ◌≢◌, ◌⊎◌, inl, inr, refl, arith, Bool, none, some, List, [], ◌∷◌, ◌++◌, find_where,
  update_where, select_where, Option-cases, find_where-update_where, find_where-update_where_other,
  find_where-snoc, find_where-snoc_other,
}
use service_api.Apperror.{ok}
use service_api.Domain.Catalog.{FeatureFlag, TenantFeatureFlag}
use service_api.Store.{World}
use service_api.Flags.Calls.{
  with_flag_id, of_flag, delete_where, delete_flag, override_of, flag_enabled, set_enabled_to,
  set_tenant_flag,
}

-- The overrides after one has been set.
abbrev overrides_with : TenantFeatureFlag → List TenantFeatureFlag → List TenantFeatureFlag
overrides_with o os = elim (find_where (override_of o.tenant_id o.feature_flag_id) os) [
  | none ↦ os ++ o ∷ []
  | some _ ↦ update_where (override_of o.tenant_id o.feature_flag_id) (set_enabled_to o.enabled) os
]

set_tenant_flag_rows :
    (new_id tenant_id flag_id : ℕ) (enabled : Bool) (w : World)
    → (set_tenant_flag new_id tenant_id flag_id enabled w).0 ≡ ok tt
    → (set_tenant_flag new_id tenant_id flag_id enabled w).1.tables.office.tenant_flags
      ≡ overrides_with
          (record {
            id = new_id;
            tenant_id = tenant_id;
            feature_flag_id = flag_id;
            enabled = enabled;
          })
          w.tables.office.tenant_flags
unfolding set_tenant_flag
set_tenant_flag_rows new_id tenant_id flag_id enabled w done = ground arith

overrides_with-own :
    (o : TenantFeatureFlag) (f : FeatureFlag) (os : List TenantFeatureFlag)
    → f.id ≡ o.feature_flag_id
    → flag_enabled o.tenant_id (overrides_with o os) f ≡ o.enabled
overrides_with-own o f os same =
    let key = override_of o.tenant_id o.feature_flag_id in
    elim (Option-cases (find_where key os)) [
      | inl new ↦ ground (arith, find_where-snoc key os o new)
      | inr (old, there) ↦
          ground (arith, find_where-update_where key (set_enabled_to o.enabled) os (λ y h. h) there)
    ]

overrides_with-other :
    (o : TenantFeatureFlag) (tenant_id : ℕ) (f : FeatureFlag) (os : List TenantFeatureFlag)
    → (tenant_id ≢ o.tenant_id) ⊎ (f.id ≢ o.feature_flag_id)
    → flag_enabled tenant_id (overrides_with o os) f ≡ flag_enabled tenant_id os f
overrides_with-other o tenant_id f os apart =
    let key = override_of o.tenant_id o.feature_flag_id in
    let other = override_of tenant_id f.id in
    elim (Option-cases (find_where key os)) [
      | inl new ↦ ground (arith, find_where-snoc_other other os o)
      | inr (old, there) ↦
          let same =
            find_where-update_where_other key other (set_enabled_to o.enabled) os
              (λ y h. ground arith) in
          ground arith
    ]

-- After SetTenantFlag the flag is for the tenant what was set, whatever its default; for every other
-- tenant, and every other flag, it is what it was.
pub set_tenant_flag_enables :
    (new_id tenant_id flag_id other : ℕ) (enabled : Bool) (f g : FeatureFlag) (w : World)
    → (set_tenant_flag new_id tenant_id flag_id enabled w).0 ≡ ok tt
    → f.id ≡ flag_id
    → (other ≢ tenant_id) ⊎ (g.id ≢ flag_id)
    → let os = w.tables.office.tenant_flags in
      let os' = (set_tenant_flag new_id tenant_id flag_id enabled w).1.tables.office.tenant_flags in
      (flag_enabled tenant_id os' f ≡ enabled)
      × (flag_enabled other os' g ≡ flag_enabled other os g)
set_tenant_flag_enables new_id tenant_id flag_id other enabled f g w done same apart =
    let o : TenantFeatureFlag = record {
      id = new_id;
      tenant_id = tenant_id;
      feature_flag_id = flag_id;
      enabled = enabled;
    } in
    let os = w.tables.office.tenant_flags in
    let rows = set_tenant_flag_rows new_id tenant_id flag_id enabled w done in
    (rw rows (overrides_with-own o f os same), rw rows (overrides_with-other o other g os apart))

module _ {A : Type 0} where
  find_where-delete_where : (p : A → Bool) (xs : List A) → find_where p (delete_where p xs) ≡ none
  unfolding find_where select_where
  find_where-delete_where p [] = refl
  find_where-delete_where p (x ∷ xs) = ground (arith, find_where-delete_where p xs)

-- After DeleteFlag neither the flag is there nor an override of it.
pub delete_flag_forgets :
    (id : ℕ) (w : World)
    → (delete_flag id w).0 ≡ ok tt
    → let t = (delete_flag id w).1.tables.office in
      (find_where (with_flag_id id) t.feature_flags ≡ none)
      × (find_where (of_flag id) t.tenant_flags ≡ none)
unfolding delete_flag
delete_flag_forgets id w done =
    let os = w.tables.office.tenant_flags in
    (
      ground (arith, find_where-delete_where (with_flag_id id) w.tables.office.feature_flags),
      ground (arith, find_where-delete_where (of_flag id) (delete_where (of_flag id) os)),
    )
