-- ===== src/Config/Calls.antt =====
-- The operations of internal/service/config_service.go. The text of a configuration is JSON, which
-- `encoding/json` writes and reads.
use service_api.Base.{
  ℕ, ◌+◌, Bool, true, Option, none, some, List, [], ◌∷◌, ◌++◌, ◌==◌, String, str_eq, ltb, pos,
  fits_int4, select_where, if◌then◌else◌,
}
use service_api.Apperror.{not_found, internal}
use service_api.Domain.Catalog.{ServiceCategory, ServiceWithPrice, FeatureFlag, TenantFeatureFlag}
use service_api.Domain.Members.{Member}
use service_api.Domain.Users.{Tenant}
use service_api.Domain.Sync.{ConfigVersion, PushConfigRequest}
use service_api.External.{External}
use service_api.Catalog.{get_services_with_prices, list_categories}
use service_api.Flags.{flag_enabled}
use service_api.Pagination.{Defaults}
use service_api.Store.{
  World, Tables, Db, attempt, select, query_row, pure, raise, or_raise, branch, case_option, ◌>>=◌,
}
use service_api.Apperror.{ok, err}

-- What a version is made of.
pub record Snapshot : Type 0 where
  pub services : List ServiceWithPrice
  pub categories : List ServiceCategory
  pub members : List Member
  pub feature_flags : List (String × Bool)
  pub generated_at : ℕ

-- `encoding/json`: a snapshot, and objects. A `map[string]any` stands as a list of keys, each with the
-- JSON that its decoded value is written as: the first entry of a key is its value, and the order of
-- the keys has no meaning. `none` is an error.
pub record Json : Type 0 where
  pub marshal_snapshot : Snapshot → Option String
  pub unmarshal : String → Option (List (String × String))
  pub marshal : List (String × String) → Option String
  pub text : String → String
  pub number : ℕ → String

-- What one call is given from outside.
pub record ConfigCall : Type 0 where
  pub new_id : ℕ
  pub generated : ℕ
  pub now : ℕ

-- `ORDER BY version DESC LIMIT 1` for a tenant.
abbrev pub newer : ConfigVersion → Option ConfigVersion → ConfigVersion
newer c none = c
newer c (some d) = if ltb c.version d.version then d else c

unfoldable pub latest : ℕ → List ConfigVersion → Option ConfigVersion
latest tenant_id [] = none
latest tenant_id (c ∷ cs) =
    let rest = latest tenant_id cs in if c.tenant_id == tenant_id then some (newer c rest) else rest

-- `GetCurrentConfig`
unfoldable pub get_current_config : ℕ → Db ConfigVersion
get_current_config tenant_id =
    query_row (λ t. latest tenant_id t.office.config_versions)
      (not_found "no config found for this tenant") (internal "failed to get config")

-- `COALESCE(MAX(version), 0)` of a tenant.
unfoldable pub max_version : ℕ → List ConfigVersion → ℕ
max_version tenant_id [] = 0
max_version tenant_id (c ∷ cs) =
    let rest = max_version tenant_id cs in
    if c.tenant_id == tenant_id then (if ltb rest c.version then c.version else rest) else rest

abbrev pub set_versions : List ConfigVersion → Tables → Tables
set_versions cs t = record t { office = record (t.office) { config_versions = cs } }

abbrev pub new_version : ConfigCall → ℕ → ℕ → String → ℕ → ConfigVersion
new_version c tenant_id created_by content version = record {
  id = c.new_id;
  tenant_id = tenant_id;
  version = version;
  content = content;
  created_by = created_by;
  created_at = c.now;
}

-- `INSERT INTO config_versions ... SELECT ..., COALESCE(MAX(version), 0) + 1, ... RETURNING version`.
-- The column is an INT. Of two such statements that run at once and read the same maximum, the
-- second breaks UNIQUE(tenant_id, version) and fails.
abbrev pub insert_version : ConfigCall → ℕ → ℕ → String → Tables → Option (ConfigVersion × Tables)
insert_version c tenant_id created_by content t =
    let v =
      new_version c tenant_id created_by content
        (max_version tenant_id t.office.config_versions + 1) in
    if fits_int4 (pos v.version)
    then some (v, set_versions (t.office.config_versions ++ v ∷ []) t)
    else none

abbrev pub store_version : ConfigCall → ℕ → ℕ → String → Db ConfigVersion
store_version c tenant_id created_by content =
    attempt (insert_version c tenant_id created_by content)
    >>= or_raise (internal "failed to insert config version")

abbrev pub visible_member : ℕ → Member → Bool
visible_member tenant_id m = elim m.tenant_id [ none ↦ true | some t ↦ t == tenant_id ]

abbrev pub flag_map : ℕ → List TenantFeatureFlag → List FeatureFlag → List (String × Bool)
flag_map tenant_id os [] = []
flag_map tenant_id os (f ∷ fs) = (f.key, flag_enabled tenant_id os f) ∷ flag_map tenant_id os fs

-- The reads of `PushConfig`.
unfoldable pub snapshot : External → Defaults → ℕ → ℕ → Db Snapshot
snapshot ext pages generated tenant_id = do
  services ← get_services_with_prices tenant_id
  categories ← list_categories ext (record { page = pos 1; per_page = pages.max_per_page })
  members ←
      select (λ t. select_where (visible_member tenant_id) t.members)
        (internal "failed to get members")
  flags ←
      select (λ t. flag_map tenant_id t.office.tenant_flags t.office.feature_flags)
        (internal "failed to get feature flags")
  pure (record {
    services = services;
    categories = categories.0;
    members = members;
    feature_flags = flags;
    generated_at = generated;
  })

-- `PushConfig`
unfoldable pub push_config : External → Json → Defaults → ConfigCall → ℕ → ℕ → Db ConfigVersion
push_config ext json pages c tenant_id created_by = do
  s ← snapshot ext pages c.generated tenant_id
  case_option (json.marshal_snapshot s) (raise (internal "failed to marshal config"))
      (store_version c tenant_id created_by)

pub record StoreSettingsUpdate : Type 0 where
  pub store_name : String
  pub address : String
  pub phone : String
  pub tax_rate : ℕ
  pub receipt_footer : String

-- `data[key] = value`
abbrev pub set_key : String → String → List (String × String) → List (String × String)
set_key key value [] = (key, value) ∷ []
set_key key value (x ∷ xs) =
    let rest = set_key key value xs in if str_eq x.0 key then (key, value) ∷ xs else x ∷ rest

unfoldable pub merge_settings :
    Json → StoreSettingsUpdate → List (String × String) → List (String × String)
merge_settings json u d = set_key "receiptFooter" (json.text u.receipt_footer) (
    set_key "taxRate" (json.number u.tax_rate) (
      set_key "phone" (json.text u.phone)
        (set_key "address" (json.text u.address) (set_key "storeName" (json.text u.store_name) d))))

-- `UpdateStoreSettings`
unfoldable pub update_store_settings :
    Json → ConfigCall → ℕ → ℕ → StoreSettingsUpdate → Db ConfigVersion
update_store_settings json c tenant_id created_by u = do
  current ← get_current_config tenant_id
  case_option (json.unmarshal current.content) (raise (internal "failed to parse current config"))
      (λ d.
        case_option (json.marshal (merge_settings json u d))
          (raise (internal "failed to marshal updated config"))
          (store_version c tenant_id created_by))

-- The version of one tenant; a failure is logged and passed over.
abbrev pub push_one :
    External → Json → Defaults → ConfigCall → ℕ → ℕ → World → Option ConfigVersion × World
push_one ext json pages c tenant_id created_by w =
    let (r, w') = push_config ext json pages c tenant_id created_by w in
    (elim r [ ok v ↦ some v | err _ ↦ none ], w')

abbrev pub with_pushed : Option ConfigVersion → List ConfigVersion → List ConfigVersion
with_pushed none vs = vs
with_pushed (some v) vs = v ∷ vs

-- The loop, with the ids and times of the call for each tenant.
unfoldable pub push_all :
    External → Json → Defaults → (ℕ → ConfigCall) → List ℕ → ℕ → World → List ConfigVersion × World
push_all ext json pages calls [] created_by w = ([], w)
push_all ext json pages calls (t ∷ ts) created_by w =
    let (o, w') = push_one ext json pages (calls t) t created_by w in
    let (vs, w'') = push_all ext json pages calls ts created_by w' in (with_pushed o vs, w'')

abbrev pub ids_of : List Tenant → List ℕ
ids_of [] = []
ids_of (t ∷ ts) = t.id ∷ ids_of ts

abbrev pub all_pushed :
    External → Json → Defaults → (ℕ → ConfigCall) → ℕ → List ℕ → Db (List ConfigVersion)
all_pushed ext json pages calls created_by ts w =
    let (vs, w') = push_all ext json pages calls ts created_by w in (ok vs, w')

-- `BroadcastConfig`
unfoldable pub broadcast_config :
    External → Json → Defaults → (ℕ → ConfigCall) → PushConfigRequest → ℕ → Db (List ConfigVersion)
broadcast_config ext json pages calls req created_by =
    branch req.broadcast
      (select (λ t. ids_of (select_where (λ x. x.is_active) t.tenants))
          (internal "failed to list active tenants")
        >>= all_pushed ext json pages calls created_by)
      (all_pushed ext json pages calls created_by req.tenant_ids)
