-- ===== src/Config/Settings.antt =====
-- What UpdateStoreSettings makes of a configuration (internal/service/config_service.go).
use service_api.Base.{
  ℕ, ◌≡◌, inl, inr, refl, arith, Bool, true, false, ◌||◌, ◌∙◌, Option, none, some, List, [], ◌∷◌,
  String, str_eq, str_eq_refl, str_eq_iff, Bool-cases, Option-cases,
}
use service_api.Apperror.{ok}
use service_api.Domain.Sync.{ConfigVersion}
use service_api.Store.{World}
use service_api.Config.Calls.{
  Json, ConfigCall, latest, set_key, merge_settings, StoreSettingsUpdate, update_store_settings,
  get_current_config,
}

-- The value at a key.
abbrev pub lookup : String → List (String × String) → Option String
lookup key [] = none
lookup key (x ∷ xs) = elim (str_eq x.0 key) [ true ↦ some x.1 | false ↦ lookup key xs ]

lookup-set_key :
    (key value : String) (d : List (String × String))
    → lookup key (set_key key value d) ≡ some value
lookup-set_key key value [] = rw (lookup, str_eq_refl key) refl
lookup-set_key key value (x ∷ xs) = elim (Bool-cases (str_eq x.0 key)) [
  | inl own ↦ ground (arith, str_eq_refl key)
  | inr other ↦ ground (arith, lookup-set_key key value xs)
]

lookup-set_key_other :
    (key other value : String) (d : List (String × String))
    → str_eq key other ≡ false
    → lookup other (set_key key value d) ≡ lookup other d
lookup-set_key_other key other value [] apart = ground arith
lookup-set_key_other key other value (x ∷ xs) apart = elim (Bool-cases (str_eq x.0 key)) [
  | inl own ↦ let same : x.0 ≡ key = (str_eq_iff x.0 key).0 own in ground arith
  | inr differs ↦ ground (arith, lookup-set_key_other key other value xs apart)
]

-- The five keys that the settings are written under.
abbrev pub is_setting : String → Bool
is_setting key =
    str_eq "storeName" key
    || str_eq "address" key
    || str_eq "phone" key
    || str_eq "taxRate" key
    || str_eq "receiptFooter" key

-- The object with the five settings of the request, and at another key as before.
abbrev pub Merged :
    Json → StoreSettingsUpdate → String → List (String × String) → List (String × String) → Type 0
Merged json u other d d' =
    (lookup "storeName" d' ≡ some (json.text u.store_name))
    × (lookup "address" d' ≡ some (json.text u.address))
    × (lookup "phone" d' ≡ some (json.text u.phone))
    × (lookup "taxRate" d' ≡ some (json.number u.tax_rate))
    × (lookup "receiptFooter" d' ≡ some (json.text u.receipt_footer))
    × (lookup other d' ≡ lookup other d)

merge_settings_exact :
    (json : Json) (u : StoreSettingsUpdate) (d : List (String × String)) (other : String)
    → is_setting other ≡ false
    → Merged json u other d (merge_settings json u d)
unfolding merge_settings
merge_settings_exact json u d other apart =
    let d1 = set_key "storeName" (json.text u.store_name) d in
    let d2 = set_key "address" (json.text u.address) d1 in
    let d3 = set_key "phone" (json.text u.phone) d2 in
    let d4 = set_key "taxRate" (json.number u.tax_rate) d3 in
    let footer = json.text u.receipt_footer in
    let rate = json.number u.tax_rate in
    (
      lookup-set_key_other "receiptFooter" "storeName" footer d4 refl
          ∙ lookup-set_key_other "taxRate" "storeName" rate d3 refl
          ∙ lookup-set_key_other "phone" "storeName" (json.text u.phone) d2 refl
          ∙ lookup-set_key_other "address" "storeName" (json.text u.address) d1 refl
          ∙ lookup-set_key "storeName" (json.text u.store_name) d,
      lookup-set_key_other "receiptFooter" "address" footer d4 refl
          ∙ lookup-set_key_other "taxRate" "address" rate d3 refl
          ∙ lookup-set_key_other "phone" "address" (json.text u.phone) d2 refl
          ∙ lookup-set_key "address" (json.text u.address) d1,
      lookup-set_key_other "receiptFooter" "phone" footer d4 refl
          ∙ lookup-set_key_other "taxRate" "phone" rate d3 refl
          ∙ lookup-set_key "phone" (json.text u.phone) d2,
      lookup-set_key_other "receiptFooter" "taxRate" footer d4 refl
          ∙ lookup-set_key "taxRate" rate d3,
      lookup-set_key "receiptFooter" footer d4,
      lookup-set_key_other "receiptFooter" other footer d4 (ground arith)
          ∙ lookup-set_key_other "taxRate" other rate d3 (ground arith)
          ∙ lookup-set_key_other "phone" other (json.text u.phone) d2 (ground arith)
          ∙ lookup-set_key_other "address" other (json.text u.address) d1 (ground arith)
          ∙ lookup-set_key_other "storeName" other (json.text u.store_name) d (ground arith),
    )

-- The version that UpdateStoreSettings returns has the five settings of the request, and at every
-- other key what the tenant's latest version has there. What encoding/json promises is a hypothesis:
-- an object that was written reads back as one with the same value at each key, in whatever order its
-- keys come.
pub update_store_settings_merges :
    (json : Json) (c : ConfigCall) (tenant_id created_by : ℕ) (u : StoreSettingsUpdate)
    (other : String) (w : World) {old v : ConfigVersion} {d : List (String × String)}
    → ((o : List (String × String)) (s : String)
        → json.marshal o ≡ some s
        → (o' : List (String × String)) × (json.unmarshal s ≡ some o')
          × ((key : String) → lookup key o' ≡ lookup key o))
    → is_setting other ≡ false
    → latest tenant_id w.tables.office.config_versions ≡ some old
    → json.unmarshal old.content ≡ some d
    → (update_store_settings json c tenant_id created_by u w).0 ≡ ok v
    → (d' : List (String × String)) × (json.unmarshal v.content ≡ some d')
      × Merged json u other d d'
unfolding update_store_settings get_current_config
update_store_settings_merges json c tenant_id created_by u other w {old} {v} {d} reads apart there
      parsed done =
    elim (Option-cases (json.marshal (merge_settings json u d))) [
      | inl bad ↦ ground arith
      | inr (content, good) ↦
          let written : v.content ≡ content = ground arith in
          let (o', read, same) = reads (merge_settings json u d) content good in
          let (name, address, phone, rate, footer, others) =
            merge_settings_exact json u d other apart in
          (
            o',
            rw written read,
            (
              same "storeName" ∙ name,
              same "address" ∙ address,
              same "phone" ∙ phone,
              same "taxRate" ∙ rate,
              same "receiptFooter" ∙ footer,
              same other ∙ others,
            ),
          )
    ]
