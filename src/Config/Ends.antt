-- ===== src/Config/Ends.antt =====
-- How the calls that make a version end (internal/service/config_service.go).
use service_api.Base.{ℕ, ◌≡◌, ◌≢◌, ◌⊎◌, inl, inr, refl, arith, Option-cases, String}
use service_api.Apperror.{Result, ok, err}
use service_api.Domain.Sync.{ConfigVersion}
use service_api.External.{External}
use service_api.Pagination.{Defaults}
use service_api.Catalog.{get_services_with_prices, list_categories}
use service_api.Store.{World}
use service_api.Config.Calls.{
  Json, ConfigCall, Snapshot, merge_settings, store_version, snapshot, push_config,
  StoreSettingsUpdate, update_store_settings, get_current_config,
}

pub get_current_config_reads :
    (tenant_id : ℕ) (w : World) → (get_current_config tenant_id w).1.tables ≡ w.tables
unfolding get_current_config
get_current_config_reads tenant_id w = ground arith

snapshot_reads :
    (ext : External) (pages : Defaults) (generated tenant_id : ℕ) (w : World)
    → (snapshot ext pages generated tenant_id w).1.tables ≡ w.tables
unfolding snapshot get_services_with_prices list_categories
snapshot_reads ext pages generated tenant_id w = ground arith

-- A call either changes no row, or ends in the INSERT.
abbrev pub EndsIn : World → ConfigCall → ℕ → ℕ → Result ConfigVersion × World → Type 0
EndsIn w c tenant_id created_by p =
    ((p.1.tables ≡ w.tables) × ((v : ConfigVersion) → p.0 ≢ ok v))
    ⊎ ((content : String) × (w' : World) × (w'.tables ≡ w.tables)
        × (p ≡ store_version c tenant_id created_by content w'))

pub push_config_ends :
    (ext : External) (json : Json) (pages : Defaults) (c : ConfigCall) (tenant_id created_by : ℕ)
    (w : World)
    → EndsIn w c tenant_id created_by (push_config ext json pages c tenant_id created_by w)
unfolding push_config
push_config_ends ext json pages c tenant_id created_by w =
    by_result (snapshot ext pages c.generated tenant_id w) refl
  where
    by_result :
        (p : Result Snapshot × World)
        → snapshot ext pages c.generated tenant_id w ≡ p
        → EndsIn w c tenant_id created_by (push_config ext json pages c tenant_id created_by w)
    by_result (err x, w') e =
        let reads = snapshot_reads ext pages c.generated tenant_id w in
        inl (ground arith, λ v made. ground arith)
    by_result (ok s, w') e =
        let reads = snapshot_reads ext pages c.generated tenant_id w in
        elim (Option-cases (json.marshal_snapshot s)) [
          | inl bad ↦ inl (ground arith, λ v made. ground arith)
          | inr (content, good) ↦ inr (content, w', ground arith, ground arith)
        ]

pub update_store_settings_ends :
    (json : Json) (c : ConfigCall) (tenant_id created_by : ℕ) (u : StoreSettingsUpdate) (w : World)
    → EndsIn w c tenant_id created_by (update_store_settings json c tenant_id created_by u w)
unfolding update_store_settings
update_store_settings_ends json c tenant_id created_by u w =
    by_result (get_current_config tenant_id w) refl
  where
    by_result :
        (p : Result ConfigVersion × World)
        → get_current_config tenant_id w ≡ p
        → EndsIn w c tenant_id created_by (update_store_settings json c tenant_id created_by u w)
    by_result (err x, w') e =
        let reads = get_current_config_reads tenant_id w in
        inl (ground arith, λ v made. ground arith)
    by_result (ok v, w') e =
        let reads = get_current_config_reads tenant_id w in
        elim (Option-cases (json.unmarshal v.content)) [
          | inl bad ↦ inl (ground arith, λ v made. ground arith)
          | inr (d, good) ↦ elim (Option-cases (json.marshal (merge_settings json u d))) [
            | inl bad ↦ inl (ground arith, λ v made. ground arith)
            | inr (content, fine) ↦ inr (content, w', ground arith, ground arith)
          ]
        ]
