-- ===== src/Flags/Calls.antt =====
-- The operations of internal/service/feature_flag_service.go.
use service_api.Base.{
  value_or, ℕ, Bool, ◌&&◌, not, Option, none, some, List, [], ◌∷◌, ◌++◌, ◌==◌, String, str_eq,
  find_where, update_where, select_where, count_where,
}
use service_api.Apperror.{not_found, conflict, internal}
use service_api.Domain.Catalog.{
  FeatureFlag, TenantFeatureFlag, CreateFeatureFlagRequest, UpdateFeatureFlagRequest,
}
use service_api.Store.{
  Tables, Db, attempt, select, query_row, pure, raise, or_raise, branch, case_option, ◌>>=◌, ◌>>◌,
}

abbrev pub with_flag_id : ℕ → FeatureFlag → Bool
with_flag_id id f = f.id == id

abbrev pub with_key : String → FeatureFlag → Bool
with_key key f = str_eq f.key key

abbrev pub set_flags : List FeatureFlag → Tables → Tables
set_flags fs t = record t { office = record (t.office) { feature_flags = fs } }

abbrev pub set_overrides : List TenantFeatureFlag → Tables → Tables
set_overrides os t = record t { office = record (t.office) { tenant_flags = os } }

-- `ListFlags`, without the order of its rows.
unfoldable pub list_flags : Db (List FeatureFlag)
list_flags = select (λ t. t.office.feature_flags) (internal "failed to list flags")

abbrev pub new_flag : ℕ → CreateFeatureFlagRequest → FeatureFlag
new_flag id req = record {
  id = id;
  key = req.key;
  description = req.description;
  default_enabled = req.default_enabled;
}

-- The INSERT: the key is unique.
abbrev pub insert_flag : FeatureFlag → Tables → Option (Unit {0} × Tables)
insert_flag f t = elim (find_where (with_key f.key) t.office.feature_flags) [
  | none ↦ some (tt, set_flags (t.office.feature_flags ++ f ∷ []) t)
  | some _ ↦ none
]

-- `CreateFlag`: other calls may run between the check of the key and the INSERT.
unfoldable pub check_flag_key : String → Db (Unit {0})
check_flag_key key = do
  found ←
      select (λ t. find_where (with_key key) t.office.feature_flags)
        (internal "failed to check flag key")
  case_option found (pure tt) (λ f. raise (conflict "feature flag with this key already exists"))

unfoldable pub store_flag : ℕ → CreateFeatureFlagRequest → Db FeatureFlag
store_flag new_id req = do
  attempt (insert_flag (new_flag new_id req)) >>= or_raise (internal "failed to create flag")
  pure (new_flag new_id req)

unfoldable pub create_flag : ℕ → CreateFeatureFlagRequest → Db FeatureFlag
create_flag new_id req = check_flag_key req.key >> store_flag new_id req

abbrev pub merge_flag : UpdateFeatureFlagRequest → FeatureFlag → FeatureFlag
merge_flag req f = record f {
  description = value_or req.description f.description;
  default_enabled = value_or req.default_enabled f.default_enabled;
}

abbrev pub flag_columns : FeatureFlag → FeatureFlag → FeatureFlag
flag_columns new f = record f {
  description = new.description;
  default_enabled = new.default_enabled;
}

-- `UpdateFlag`
unfoldable pub update_flag : ℕ → UpdateFeatureFlagRequest → Db FeatureFlag
update_flag id req = do
  f ←
      query_row (λ t. find_where (with_flag_id id) t.office.feature_flags)
        (not_found "feature flag not found") (internal "failed to get flag")
  attempt (λ t. some (
    tt,
    set_flags
        (update_where (with_flag_id f.id) (flag_columns (merge_flag req f)) t.office.feature_flags)
        t,
  ))
      >>= or_raise (internal "failed to update flag")
  pure (merge_flag req f)

abbrev pub of_flag : ℕ → TenantFeatureFlag → Bool
of_flag flag_id o = o.feature_flag_id == flag_id

-- `DELETE ... WHERE`: the rows that stay.
abbrev pub delete_where : {A : Type 0} → (A → Bool) → List A → List A
delete_where p xs = select_where (λ x. not (p x)) xs

-- `DeleteFlag`: the overrides, then the flag; deleting the flag cascades to overrides that have come
-- in between.
unfoldable pub delete_flag : ℕ → Db (Unit {0})
delete_flag id = do
  attempt (λ t. some (tt, set_overrides (delete_where (of_flag id) t.office.tenant_flags) t))
      >>= or_raise (internal "failed to delete tenant feature flags")
  affected ←
      attempt (λ t. some (
        count_where (with_flag_id id) t.office.feature_flags,
        set_overrides (delete_where (of_flag id) t.office.tenant_flags)
            (set_flags (delete_where (with_flag_id id) t.office.feature_flags) t),
      ))
      >>= or_raise (internal "failed to delete feature flag")
  branch (affected == 0) (raise (not_found "feature flag not found")) (pure tt)

abbrev pub override_of : ℕ → ℕ → TenantFeatureFlag → Bool
override_of tenant_id flag_id o = o.feature_flag_id == flag_id && o.tenant_id == tenant_id

-- `COALESCE(tff.enabled, ff.default_enabled)`
abbrev pub flag_enabled : ℕ → List TenantFeatureFlag → FeatureFlag → Bool
flag_enabled tenant_id os f = elim (find_where (override_of tenant_id f.id) os) [
  | none ↦ f.default_enabled
  | some o ↦ o.enabled
]

abbrev pub with_enabled : ℕ → List TenantFeatureFlag → List FeatureFlag → List (FeatureFlag × Bool)
with_enabled tenant_id os [] = []
with_enabled tenant_id os (f ∷ fs) = (f, flag_enabled tenant_id os f) ∷ with_enabled tenant_id os fs

-- `GetTenantFlags`, without the order of its rows.
unfoldable pub get_tenant_flags : ℕ → Db (List (FeatureFlag × Bool))
get_tenant_flags tenant_id =
    select (λ t. with_enabled tenant_id t.office.tenant_flags t.office.feature_flags)
      (internal "failed to get tenant flags")

-- `GetFlagTenantOverrides`, without the names of the tenants.
unfoldable pub get_flag_tenant_overrides : ℕ → Db (List TenantFeatureFlag)
get_flag_tenant_overrides flag_id =
    select (λ t. select_where (of_flag flag_id) t.office.tenant_flags)
      (internal "failed to get flag tenant overrides")

abbrev pub set_enabled_to : Bool → TenantFeatureFlag → TenantFeatureFlag
set_enabled_to enabled o = record o { enabled = enabled }

-- `INSERT INTO tenant_feature_flags ... ON CONFLICT (tenant_id, feature_flag_id) DO UPDATE`: the flag
-- exists.
abbrev pub upsert_override : TenantFeatureFlag → Tables → Option (Unit {0} × Tables)
upsert_override o t = elim (find_where (with_flag_id o.feature_flag_id) t.office.feature_flags) [
  | none ↦ none
  | some _ ↦ elim (find_where (override_of o.tenant_id o.feature_flag_id) t.office.tenant_flags) [
    | none ↦ some (tt, set_overrides (t.office.tenant_flags ++ o ∷ []) t)
    | some _ ↦ some (
      tt,
      set_overrides
          (update_where (override_of o.tenant_id o.feature_flag_id) (set_enabled_to o.enabled)
            t.office.tenant_flags)
          t,
    )
  ]
]

-- `SetTenantFlag`
unfoldable pub set_tenant_flag : ℕ → ℕ → ℕ → Bool → Db (Unit {0})
set_tenant_flag new_id tenant_id flag_id enabled = do
  attempt (
        upsert_override (record {
          id = new_id;
          tenant_id = tenant_id;
          feature_flag_id = flag_id;
          enabled = enabled;
        }))
      >>= or_raise (internal "failed to set tenant flag")
  pure tt
