-- ===== src/Config/Versions.antt =====
-- The numbers of the versions, over all that can happen to them (internal/service/config_service.go).
use service_api.Base.{
  ℕ, ◌+◌, ◌<◌, ◌≡◌, ◌≢◌, ◌⊎◌, inl, inr, ap, refl, arith, some, List, [], ◌∷◌, ◌++◌, select_where,
  Bool-cases, String,
}
use service_api.Apperror.{Result, ok}
use service_api.Domain.Sync.{ConfigVersion, PushConfigRequest}
use service_api.External.{External}
use service_api.Pagination.{Defaults}
use service_api.Store.{World, fails, rest}
use service_api.Config.Numbering.{
  AllNumbered, Extended, Extended-Numbered, latest-snoc_own, latest-snoc_other,
}
use service_api.Config.Ends.{EndsIn, push_config_ends, update_store_settings_ends}
use service_api.Config.Calls.{
  Json, ConfigCall, ids_of, latest, max_version, new_version, store_version, push_config,
  StoreSettingsUpdate, update_store_settings, push_all, broadcast_config,
}

store_version-Extended :
    (c : ConfigCall) (tenant_id created_by : ℕ) (content : String) (w : World)
    → Extended w.tables.office.config_versions
        (store_version c tenant_id created_by content w).1.tables.office.config_versions
store_version-Extended c tenant_id created_by content w =
    let cs = w.tables.office.config_versions in
    let v = new_version c tenant_id created_by content (max_version tenant_id cs + 1) in
    elim (stored c tenant_id created_by content w) [
      | inl same ↦ inl same
      | inr more ↦ inr (v, more, refl)
    ]
  where
    stored :
        (c : ConfigCall) (tenant_id created_by : ℕ) (content : String) (w : World)
        → let cs = w.tables.office.config_versions in
          let cs' =
            (store_version c tenant_id created_by content w).1.tables.office.config_versions in
          (cs' ≡ cs)
          ⊎ (cs'
              ≡ cs
                ++ new_version c tenant_id created_by content (max_version tenant_id cs + 1) ∷ [])
    stored c tenant_id created_by content w = ground arith

EndsIn-Extended :
    (w : World) (c : ConfigCall) (tenant_id created_by : ℕ) (p : Result ConfigVersion × World)
    → EndsIn w c tenant_id created_by p
    → Extended w.tables.office.config_versions p.1.tables.office.config_versions
EndsIn-Extended w c tenant_id created_by p (inl (same, failed)) =
    inl (ap (λ t. t.office.config_versions) same)
EndsIn-Extended w c tenant_id created_by p (inr (content, w', same, ends)) =
    let rows : w'.tables.office.config_versions ≡ w.tables.office.config_versions =
      ap (λ t. t.office.config_versions) same in
    rw (ends, ← rows) (store_version-Extended c tenant_id created_by content w')

push_all-AllNumbered :
    (ext : External) (json : Json) (pages : Defaults) (calls : ℕ → ConfigCall) (ts : List ℕ)
    (created_by : ℕ) (w : World)
    → AllNumbered w
    → AllNumbered (push_all ext json pages calls ts created_by w).1
unfolding push_all
push_all-AllNumbered ext json pages calls [] created_by w h = h
push_all-AllNumbered ext json pages calls (t ∷ ts) created_by w h =
    let p = push_config ext json pages (calls t) t created_by w in
    push_all-AllNumbered ext json pages calls ts created_by p.1 (λ tenant_id.
      Extended-Numbered tenant_id w.tables.office.config_versions p.1.tables.office.config_versions
        (EndsIn-Extended w (calls t) t created_by p
          (push_config_ends ext json pages (calls t) t created_by w))
        (h tenant_id))

broadcast_config-AllNumbered :
    (ext : External) (json : Json) (pages : Defaults) (calls : ℕ → ConfigCall)
    (req : PushConfigRequest) (created_by : ℕ) (w : World)
    → AllNumbered w
    → AllNumbered (broadcast_config ext json pages calls req created_by w).1
unfolding broadcast_config
broadcast_config-AllNumbered ext json pages calls req created_by w h =
    elim (Bool-cases req.broadcast) [
      | inl all ↦ elim (Bool-cases (fails w.script)) [
        | inl failed ↦
            let same : (broadcast_config ext json pages calls req created_by w).1.tables
                ≡ w.tables =
              ground arith in
            λ tenant_id. rw same (h tenant_id)
        | inr runs ↦
            let w' = record w { script = rest w.script } in
            let ts = ids_of (select_where (λ x. x.is_active) w.tables.tenants) in
            let same : (broadcast_config ext json pages calls req created_by w).1
                ≡ (push_all ext json pages calls ts created_by w').1 =
              ground arith in
            λ tenant_id.
              rw same (push_all-AllNumbered ext json pages calls ts created_by w' h tenant_id)
      ]
      | inr named ↦
          let same : (broadcast_config ext json pages calls req created_by w).1
              ≡ (push_all ext json pages calls req.tenant_ids created_by w).1 =
            ground arith in
          λ tenant_id.
            rw same
              (push_all-AllNumbered ext json pages calls req.tenant_ids created_by w h tenant_id)
    ]

-- What the service can do to the database.
pub data Step (ext : External) (json : Json) (pages : Defaults) : World → World → Type 0 where
  pushed :
      (c : ConfigCall) (tenant_id created_by : ℕ) (w : World)
      → Step ext json pages w (push_config ext json pages c tenant_id created_by w).1
  edited :
      (c : ConfigCall) (tenant_id created_by : ℕ) (u : StoreSettingsUpdate) (w : World)
      → Step ext json pages w (update_store_settings json c tenant_id created_by u w).1
  broadcast :
      (calls : ℕ → ConfigCall) (req : PushConfigRequest) (created_by : ℕ) (w : World)
      → Step ext json pages w (broadcast_config ext json pages calls req created_by w).1

pub data Reach (ext : External) (json : Json) (pages : Defaults) (w : World) : World → Type 0 where
  here : Reach ext json pages w w
  next :
      {u v : World} → Reach ext json pages w u → Step ext json pages u v → Reach ext json pages w v

Step-AllNumbered :
    {ext : External} {json : Json} {pages : Defaults} {u v : World}
    → Step ext json pages u v
    → AllNumbered u
    → AllNumbered v
Step-AllNumbered {ext} {json} {pages} (pushed c tenant_id created_by w) h other =
    let p = push_config ext json pages c tenant_id created_by w in
    Extended-Numbered other w.tables.office.config_versions p.1.tables.office.config_versions
      (EndsIn-Extended w c tenant_id created_by p
        (push_config_ends ext json pages c tenant_id created_by w))
      (h other)
Step-AllNumbered {ext} {json} (edited c tenant_id created_by u w) h other =
    let p = update_store_settings json c tenant_id created_by u w in
    Extended-Numbered other w.tables.office.config_versions p.1.tables.office.config_versions
      (EndsIn-Extended w c tenant_id created_by p
        (update_store_settings_ends json c tenant_id created_by u w))
      (h other)
Step-AllNumbered {ext} {json} {pages} (broadcast calls req created_by w) h other =
    broadcast_config-AllNumbered ext json pages calls req created_by w h other

-- Whatever calls are made in whatever order, and whichever statements fail, the versions of each
-- tenant stay numbered 1, 2, 3 and so on without a gap, each number once.
pub Reach-AllNumbered :
    (ext : External) (json : Json) (pages : Defaults) {u v : World}
    → Reach ext json pages u v
    → AllNumbered u
    → AllNumbered v
Reach-AllNumbered ext json pages here h = h
Reach-AllNumbered ext json pages (next r s) h =
    Step-AllNumbered s (Reach-AllNumbered ext json pages r h)

store_version_current :
    (c : ConfigCall) (tenant_id created_by : ℕ) (content : String) (w : World) {v : ConfigVersion}
    → (store_version c tenant_id created_by content w).0 ≡ ok v
    → (v
        ≡ new_version c tenant_id created_by content
            (max_version tenant_id w.tables.office.config_versions + 1))
      × ((store_version c tenant_id created_by content w).1.tables.office.config_versions
          ≡ w.tables.office.config_versions ++ v ∷ [])
store_version_current c tenant_id created_by content w {v} done = ground arith

-- A version that PushConfig returns has the number after the highest of its tenant, is the one that
-- GetCurrentConfig then finds for the tenant, and leaves the current one of every other tenant.
pub push_config_current :
    (ext : External) (json : Json) (pages : Defaults) (c : ConfigCall)
    (tenant_id other created_by : ℕ) (w : World) {v : ConfigVersion}
    → (push_config ext json pages c tenant_id created_by w).0 ≡ ok v
    → tenant_id ≢ other
    → let cs = w.tables.office.config_versions in
      let cs' =
        (push_config ext json pages c tenant_id created_by w).1.tables.office.config_versions in
      (v.tenant_id ≡ tenant_id)
      × (v.version ≡ max_version tenant_id cs + 1)
      × (latest tenant_id cs' ≡ some v)
      × (latest other cs' ≡ latest other cs)
push_config_current ext json pages c tenant_id other created_by w {v} done apart =
    elim (push_config_ends ext json pages c tenant_id created_by w) [
      | inl (same, failed) ↦ elim (failed v done) [ ]
      | inr (content, w', same, ends) ↦
          let cs = w.tables.office.config_versions in
          let rows : w'.tables.office.config_versions ≡ cs =
            ap (λ t. t.office.config_versions) same in
          let (is, stored) =
            store_version_current c tenant_id created_by content w' {v = v} (rw ends at done) in
          let grown : (push_config ext json pages c tenant_id created_by
                w).1.tables.office.config_versions
              ≡ cs ++ v ∷ [] =
            ground arith in
          let own : v.tenant_id ≡ tenant_id = ground arith in
          let number : v.version ≡ max_version tenant_id cs + 1 = ground arith in
          let above : max_version tenant_id cs < v.version = omega (arith, number) in
          let mine = latest-snoc_own tenant_id cs v own above in
          (own, number, rw grown mine, rw grown (latest-snoc_other other cs v (λ e. ground arith)))
    ]
