-- ===== src/Tests/Versions.antt =====
-- Versions of a configuration: the first is pushed, and the settings of the shop change in the second.
use service_api.Base.{
  ℕ, ◌+◌, ◌≡◌, refl, arith, true, false, none, some, List, [], ◌∷◌, String, Bool, ◌&&◌,
  if◌then◌else◌, str_eq_iff, inl, inr, Bool-cases, wrap64, ◌-ℤ◌, str_eq, count_where,
}
use service_api.Domain.Sync.{ConfigVersion}
use service_api.Catalog.{get_services_with_prices, list_categories}
use service_api.Pagination.{defaults, offset}
use service_api.Store.{World, calm, fails, rest, no_rows}
use service_api.Config.{
  Json, ConfigCall, latest, max_version, new_version, StoreSettingsUpdate, push_config,
  update_store_settings, get_current_config, snapshot, merge_settings,
}
use service_api.Config.Numbering.{AllNumbered}
use service_api.Config.Versions.{Reach, here, next, pushed, Reach-AllNumbered, push_config_current}
use service_api.Config.Settings.{lookup, Merged, update_store_settings_merges}
use service_api.Tests.Data.{plain}

-- The object of the settings has a text, and one without keys.
abbrev merged : List (String × String)
merged =
    ("storeName", "Laundry")
    ∷ ("address", "Jl. A")
    ∷ ("phone", "08")
    ∷ ("taxRate", "0.11")
    ∷ ("receiptFooter", "Terima kasih")
    ∷ []

abbrev same_object : List (String × String) → List (String × String) → Bool
same_object [] [] = true
same_object (x ∷ xs) (y ∷ ys) = str_eq x.0 y.0 && str_eq x.1 y.1 && same_object xs ys
same_object _ _ = false

same_object→≡ : (xs ys : List (String × String)) → same_object xs ys ≡ true → xs ≡ ys
same_object→≡ [] [] h = refl
same_object→≡ [] (y ∷ ys) h = ground arith
same_object→≡ (x ∷ xs) [] h = ground arith
same_object→≡ (x ∷ xs) (y ∷ ys) h =
    ground (arith, str_eq_iff x.0 y.0, str_eq_iff x.1 y.1, same_object→≡ xs ys)

abbrev pub json : Json
json = record {
  marshal_snapshot = λ s. some "{}";
  unmarshal = λ s. if str_eq s "{}" then some [] else some merged;
  marshal = λ o.
      if same_object o [] then some "{}" else if same_object o merged then some "{5}" else none;
  text = λ s. s;
  number = λ n. "0.11";
}

reads_back :
    (o : List (String × String)) (s : String)
    → json.marshal o ≡ some s
    → (o' : List (String × String)) × (json.unmarshal s ≡ some o')
      × ((key : String) → lookup key o' ≡ lookup key o)
reads_back o s h = elim (Bool-cases (same_object o [])) [
  | inl none_of ↦
      let is : o ≡ [] = same_object→≡ o [] none_of in
      let text : s ≡ "{}" = ground arith in ([], rw text refl, λ key. rw is refl)
  | inr some_of ↦ elim (Bool-cases (same_object o merged)) [
    | inl same ↦
        let is : o ≡ merged = same_object→≡ o merged same in
        let text : s ≡ "{5}" = ground arith in (merged, rw text refl, λ key. rw is refl)
    | inr differs ↦ ground arith
  ]
]

abbrev pub call : ℕ → ConfigCall
call id = record { new_id = id; generated = 50; now = 51 }

abbrev empty : World
empty = calm no_rows

abbrev settings : StoreSettingsUpdate
settings = record {
  store_name = "Laundry";
  address = "Jl. A";
  phone = "08";
  tax_rate = 11;
  receipt_footer = "Terima kasih";
}

abbrev pub after : World
after = (push_config plain json defaults (call 7) 5 9 empty).1

one_pushed : Reach plain json defaults empty after
one_pushed = next here (pushed (call 7) 5 9 empty)

no_versions : AllNumbered empty
unfolding count_where max_version
no_versions tenant_id k = ground arith

Reach-AllNumbered_example : AllNumbered after
Reach-AllNumbered_example =
    Reach-AllNumbered plain json defaults {u = empty} {v = after} one_pushed no_versions

abbrev first : ConfigVersion
first = new_version (call 7) 5 9 "{}" 1

push_config_current_example :
    let cs' = after.tables.office.config_versions in
    (first.tenant_id ≡ 5)
    × (first.version ≡ max_version 5 [] + 1)
    × (latest 5 cs' ≡ some first)
    × (latest 6 cs' ≡ latest 6 [])
unfolding push_config snapshot get_services_with_prices list_categories offset max_version wrap64
    ◌-ℤ◌ fails rest
push_config_current_example =
    push_config_current plain json defaults (call 7) 5 6 9 empty {v = first} refl
      (λ e. ground (arith, e))

abbrev second : ConfigVersion
second = new_version (call 8) 5 9 "{5}" 2

update_store_settings_merges_example :
    (d' : List (String × String)) × (json.unmarshal "{5}" ≡ some d')
    × Merged json settings "logo" [] d'
unfolding update_store_settings merge_settings get_current_config push_config snapshot
    get_services_with_prices list_categories offset latest max_version wrap64 ◌-ℤ◌ fails rest
update_store_settings_merges_example =
    update_store_settings_merges json (call 8) 5 9 settings "logo" after {old = first} {v = second}
      {d = []} reads_back refl refl refl refl
