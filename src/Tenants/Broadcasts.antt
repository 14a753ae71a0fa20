-- ===== src/Tenants/Broadcasts.antt =====
-- What a broadcast of the configuration does for a deleted tenant (internal/service/tenant_service.go
-- with BroadcastConfig of internal/service/config_service.go).
use service_api.Base.{
  ℕ, ◌+◌, ◌≡◌, ◌≢◌, ◌∙◌, inl, inr, ap, refl, arith, true, Bool-cases, Option, List, [], ◌∷◌, All,
  String, select_where, update_where,
}
use service_api.Apperror.{ok}
use service_api.Domain.Users.{Tenant}
use service_api.Domain.Sync.{ConfigVersion, PushConfigRequest}
use service_api.External.{External}
use service_api.Pagination.{Defaults}
use service_api.Store.{World, fails, rest}
use service_api.Config.{
  Json, ConfigCall, ids_of, latest, max_version, new_version, store_version, push_config, push_all,
  broadcast_config,
}
use service_api.Config.Numbering.{latest-snoc_other}
use service_api.Config.Ends.{push_config_ends}
use service_api.Tenants.Calls.{tenant_id_is, get_tenant, deactivate_tenant, delete_tenant}

-- What is the current version of a tenant.
abbrev current : ℕ → World → Option ConfigVersion
current id w = latest id w.tables.office.config_versions

store_version_other :
    (c : ConfigCall) (tenant_id other created_by : ℕ) (content : String) (w : World)
    → tenant_id ≢ other
    → current other (store_version c tenant_id created_by content w).1 ≡ current other w
store_version_other c tenant_id other created_by content w apart =
    let cs = w.tables.office.config_versions in
    let v = new_version c tenant_id created_by content (max_version tenant_id cs + 1) in
    ground (arith, latest-snoc_other other cs v apart)

push_config_other :
    (ext : External) (json : Json) (pages : Defaults) (c : ConfigCall)
    (tenant_id other created_by : ℕ) (w : World)
    → tenant_id ≢ other
    → current other (push_config ext json pages c tenant_id created_by w).1 ≡ current other w
push_config_other ext json pages c tenant_id other created_by w apart =
    elim (push_config_ends ext json pages c tenant_id created_by w) [
      | inl (same, failed) ↦ ap (λ t. latest other t.office.config_versions) same
      | inr (content, w', same, ends) ↦
          ap (λ p. current other p.1) ends
          ∙ store_version_other c tenant_id other created_by content w' apart
          ∙ ap (λ t. latest other t.office.config_versions) same
    ]

push_all_other :
    (ext : External) (json : Json) (pages : Defaults) (calls : ℕ → ConfigCall) (ts : List ℕ)
    (other created_by : ℕ) (w : World)
    → All (λ t. t ≢ other) ts
    → current other (push_all ext json pages calls ts created_by w).1 ≡ current other w
unfolding push_all
push_all_other ext json pages calls [] other created_by w apart = refl
push_all_other ext json pages calls (t ∷ ts) other created_by w apart =
    let w1 = (push_config ext json pages (calls t) t created_by w).1 in
    push_all_other ext json pages calls ts other created_by w1 apart.1
    ∙ push_config_other ext json pages (calls t) t other created_by w apart.0

-- The active tenants are without the one that has been deleted.
ids_of_excludes :
    (now id : ℕ) (ts : List Tenant)
    → All
        (λ i. i ≢ id)
        (ids_of (
          select_where
            (λ x. x.is_active)
            (update_where (tenant_id_is id) (deactivate_tenant now) ts)))
unfolding select_where update_where
ids_of_excludes now id [] = tt
ids_of_excludes now id (t ∷ ts) = elim (Bool-cases (tenant_id_is id t)) [
  | inl e ↦ rw e (ids_of_excludes now id ts)
  | inr e ↦ elim (Bool-cases t.is_active) [
    | inl on ↦ rw e (rw on ((λ same. ground arith), ids_of_excludes now id ts))
    | inr off ↦ rw e (rw off (ids_of_excludes now id ts))
  ]
]

delete_tenant_done :
    (now id : ℕ) (w : World)
    → (delete_tenant now id w).0 ≡ ok tt
    → (delete_tenant now id w).1.tables ≡ record (w.tables) {
      tenants = update_where (tenant_id_is id) (deactivate_tenant now) w.tables.tenants;
    }
unfolding delete_tenant get_tenant
delete_tenant_done now id w done = ground arith

-- A broadcast to all is one to the active tenants, or its query fails.
broadcast_config_other :
    (ext : External) (json : Json) (pages : Defaults) (calls : ℕ → ConfigCall)
    (req : PushConfigRequest) (created_by other : ℕ) (w : World)
    → req.broadcast ≡ true
    → All (λ i. i ≢ other) (ids_of (select_where (λ x. x.is_active) w.tables.tenants))
    → current other (broadcast_config ext json pages calls req created_by w).1 ≡ current other w
unfolding broadcast_config
broadcast_config_other ext json pages calls req created_by other w all apart =
    let ts = ids_of (select_where (λ x. x.is_active) w.tables.tenants) in
    let w1 = record w { script = rest w.script } in
    let kept = push_all_other ext json pages calls ts other created_by w1 apart in
    elim (Bool-cases (fails w.script)) [
      | inl failed ↦
          let same : (broadcast_config ext json pages calls req created_by w).1.tables ≡ w.tables =
            ground arith in
          ap (λ t. latest other t.office.config_versions) same
      | inr runs ↦
          let same : (broadcast_config ext json pages calls req created_by w).1
              ≡ (push_all ext json pages calls ts created_by w1).1 =
            ground arith in
          ap (current other) same ∙ kept
    ]

-- A broadcast to all tenants after a deletion makes no version for the deleted tenant: its current
-- one stays, at whatever moment, whichever statements of the broadcast fail, as long as the tables
-- are as the deletion left them.
pub delete_tenant-broadcast_config :
    (now id : ℕ) (ext : External) (json : Json) (pages : Defaults) (calls : ℕ → ConfigCall)
    (req : PushConfigRequest) (created_by : ℕ) (w later : World)
    → (delete_tenant now id w).0 ≡ ok tt
    → later.tables ≡ (delete_tenant now id w).1.tables
    → req.broadcast ≡ true
    → latest id
        (broadcast_config ext json pages calls req created_by later).1.tables.office.config_versions
      ≡ latest id w.tables.office.config_versions
delete_tenant-broadcast_config now id ext json pages calls req created_by w later done same all =
    let left = same ∙ delete_tenant_done now id w done in
    let apart : All (λ i. i ≢ id) (ids_of (select_where (λ x. x.is_active) later.tables.tenants)) =
      rw (ap (λ t. t.tenants) left) (ids_of_excludes now id w.tables.tenants) in
    broadcast_config_other ext json pages calls req created_by id later all apart
    ∙ ap (λ t. latest id t.office.config_versions) left
