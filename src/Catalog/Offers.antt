-- ===== src/Catalog/Offers.antt =====
-- What the tenants are offered (internal/service/service_template_service.go).
use service_api.Base.{
  ℕ, ◌≡◌, ◌≢◌, ◌⊎◌, inl, inr, refl, arith, Bool, false, none, some, List, [], ◌∷◌, ◌++◌, ◌==◌, All,
  find_where, find_where_passes, update_where, select_where, Option-cases, Bool-cases,
  find_where-update_where, find_where-update_where_other, find_where-snoc, find_where-snoc_other,
}
use service_api.Apperror.{ok}
use service_api.Domain.Catalog.{
  ServiceTemplate, TenantServicePrice, SetTenantServicePriceRequest, UpdateServiceTemplateRequest,
}
use service_api.External.{External}
use service_api.Store.{World, Tables}
use service_api.Catalog.Templates.{
  update_template, with_template_id, hide_template, delete_template,
}
use service_api.Catalog.Prices.{
  price_for, upsert_price, new_price, with_price, set_tenant_price, tenant_price_of, with_prices,
  services_of, with_quick_add, set_quick_add,
}

-- The prices after an upsert: found under the key as the new row or the changed old one, and as
-- before under every other key.
abbrev Upserted :
    TenantServicePrice
    → (TenantServicePrice → TenantServicePrice)
    → List TenantServicePrice
    → List TenantServicePrice
    → Type 0
Upserted p f ps ps' =
    (find_where (price_for p.tenant_id p.service_template_id) ps'
      ≡ some (elim (find_where (price_for p.tenant_id p.service_template_id) ps) [
        | none ↦ p
        | some old ↦ f old
      ]))
    × ((tenant_id template_id : ℕ)
        → (tenant_id ≢ p.tenant_id) ⊎ (template_id ≢ p.service_template_id)
        → find_where (price_for tenant_id template_id) ps'
          ≡ find_where (price_for tenant_id template_id) ps)

upsert_rows :
    (p : TenantServicePrice) (f : TenantServicePrice → TenantServicePrice)
    (ps : List TenantServicePrice)
    → ((q : TenantServicePrice)
        → ((f q).tenant_id ≡ q.tenant_id) × ((f q).service_template_id ≡ q.service_template_id))
    → Upserted p f ps (elim (find_where (price_for p.tenant_id p.service_template_id) ps) [
      | none ↦ ps ++ p ∷ []
      | some _ ↦ update_where (price_for p.tenant_id p.service_template_id) f ps
    ])
upsert_rows p f ps keep =
    let key = price_for p.tenant_id p.service_template_id in
    elim (Option-cases (find_where key ps)) [
      | inl new ↦ (
        ground (arith, find_where-snoc key ps p new),
        λ tenant_id template_id apart.
            ground (arith, find_where-snoc_other (price_for tenant_id template_id) ps p),
      )
      | inr (old, there) ↦ (
        ground (arith, find_where-update_where key f ps (λ y h. ground (arith, keep y)) there),
        λ tenant_id template_id apart.
            let other =
              find_where-update_where_other key (price_for tenant_id template_id) f ps
                (λ y h. ground (arith, keep y)) in
            ground arith,
      )
    ]

-- An upsert that runs leaves such prices and nothing else.
upsert_price-Upserted :
    (p : TenantServicePrice) (f : TenantServicePrice → TenantServicePrice) (t t' : Tables)
    → ((q : TenantServicePrice)
        → ((f q).tenant_id ≡ q.tenant_id) × ((f q).service_template_id ≡ q.service_template_id))
    → upsert_price p f t ≡ some (tt, t')
    → Upserted p f t.office.service_prices t'.office.service_prices
upsert_price-Upserted p f t t' keep ran =
    let ps = t.office.service_prices in
    let rows : t'.office.service_prices
        ≡ elim (find_where (price_for p.tenant_id p.service_template_id) ps) [
          | none ↦ ps ++ p ∷ []
          | some _ ↦ update_where (price_for p.tenant_id p.service_template_id) f ps
        ] =
      ground arith in
    rw rows (upsert_rows p f ps keep)

set_tenant_price_runs :
    (ext : External) (new_id tenant_id : ℕ) (req : SetTenantServicePriceRequest) (w : World)
    {template_id : ℕ} {r : TenantServicePrice}
    → ext.parse_uuid req.service_template_id ≡ some template_id
    → (set_tenant_price ext new_id tenant_id req w).0 ≡ ok r
    → upsert_price
        (new_price new_id tenant_id template_id req.price false)
        (with_price req.price)
        w.tables
      ≡ some (tt, (set_tenant_price ext new_id tenant_id req w).1.tables)
unfolding set_tenant_price
set_tenant_price_runs ext new_id tenant_id req w {template_id} {r} parsed done = ground arith

-- A price that is set is what the tenant is offered for the template, with the quick-add mark it
-- had; what any other tenant is offered for any template, and this one for other templates, stays.
set_tenant_price_offers :
    (ext : External) (new_id tenant_id other : ℕ) (req : SetTenantServicePriceRequest)
    (s s' : ServiceTemplate) (w : World) {r : TenantServicePrice}
    → ext.parse_uuid req.service_template_id ≡ some s.id
    → (set_tenant_price ext new_id tenant_id req w).0 ≡ ok r
    → (other ≢ tenant_id) ⊎ (s'.id ≢ s.id)
    → let ps = w.tables.office.service_prices in
      let ps' = (set_tenant_price ext new_id tenant_id req w).1.tables.office.service_prices in
      ((tenant_price_of tenant_id ps' s).tenant_price ≡ some req.price)
      × ((tenant_price_of tenant_id ps' s).is_quick_add
          ≡ (tenant_price_of tenant_id ps s).is_quick_add)
      × (tenant_price_of other ps' s' ≡ tenant_price_of other ps s')
set_tenant_price_offers ext new_id tenant_id other req s s' w {r} parsed done apart =
    let p = new_price new_id tenant_id s.id req.price false in
    let w' = (set_tenant_price ext new_id tenant_id req w).1 in
    let ran = set_tenant_price_runs ext new_id tenant_id req w {r = r} parsed done in
    let (own, others) =
      upsert_price-Upserted p (with_price req.price) w.tables w'.tables (λ q. (refl, refl)) ran in
    let same = others other s'.id apart in ground arith

-- A row that is there keeps its id, and the answer of SetTenantPrice has the new one.
pub set_tenant_price_id :
    (ext : External) (new_id tenant_id template_id : ℕ) (req : SetTenantServicePriceRequest)
    (w : World) {old r : TenantServicePrice}
    → ext.parse_uuid req.service_template_id ≡ some template_id
    → find_where (price_for tenant_id template_id) w.tables.office.service_prices ≡ some old
    → (set_tenant_price ext new_id tenant_id req w).0 ≡ ok r
    → let ps' = (set_tenant_price ext new_id tenant_id req w).1.tables.office.service_prices in
      (r.id ≡ new_id)
      × (find_where (price_for tenant_id template_id) ps' ≡ some (with_price req.price old))
unfolding set_tenant_price
set_tenant_price_id ext new_id tenant_id template_id req w {old} {r} parsed there done =
    let p = new_price new_id tenant_id template_id req.price false in
    let w' = (set_tenant_price ext new_id tenant_id req w).1 in
    let ran = set_tenant_price_runs ext new_id tenant_id req w {r = r} parsed done in
    let (own, others) =
      upsert_price-Upserted p (with_price req.price) w.tables w'.tables (λ q. (refl, refl)) ran in
    (ground arith, ground arith)

set_quick_add_runs :
    (new_id tenant_id template_id : ℕ) (quick_add : Bool) (w : World) {s : ServiceTemplate}
    → find_where (with_template_id template_id) w.tables.office.service_templates ≡ some s
    → (set_quick_add new_id tenant_id template_id quick_add w).0 ≡ ok tt
    → upsert_price
        (new_price new_id tenant_id template_id s.base_price quick_add)
        (with_quick_add quick_add)
        w.tables
      ≡ some (tt, (set_quick_add new_id tenant_id template_id quick_add w).1.tables)
unfolding set_quick_add
set_quick_add_runs new_id tenant_id template_id quick_add w {s} there done = ground arith

update_template_prices :
    (id : ℕ) (req : UpdateServiceTemplateRequest) (w : World)
    → (update_template id req w).1.tables.office.service_prices ≡ w.tables.office.service_prices
unfolding update_template
update_template_prices id req w = ground arith

update_template_id :
    (id : ℕ) (req : UpdateServiceTemplateRequest) (w : World) {u : ServiceTemplate}
    → (update_template id req w).0 ≡ ok u
    → u.id ≡ id
unfolding update_template
update_template_id id req w {u} done =
    elim (Option-cases (find_where (with_template_id id) w.tables.office.service_templates)) [
      | inl missing ↦ ground arith
      | inr (s, there) ↦
          let own =
            find_where_passes (with_template_id id) w.tables.office.service_templates there in
          ground arith
    ]

-- A template that a tenant without a price of its own marks for quick adding is offered to it at
-- the base price of that moment from then on, even after the base price has been changed.
pub set_quick_add_freezes :
    (new_id tenant_id template_id : ℕ) (quick_add : Bool) (req : UpdateServiceTemplateRequest)
    (w : World) {s u : ServiceTemplate}
    → find_where (with_template_id template_id) w.tables.office.service_templates ≡ some s
    → find_where (price_for tenant_id template_id) w.tables.office.service_prices ≡ none
    → (set_quick_add new_id tenant_id template_id quick_add w).0 ≡ ok tt
    → let w1 = (set_quick_add new_id tenant_id template_id quick_add w).1 in
      (update_template template_id req w1).0 ≡ ok u
      → let offer =
          tenant_price_of tenant_id
            (update_template template_id req w1).1.tables.office.service_prices
            u in
        (offer.tenant_price ≡ some s.base_price) × (offer.is_quick_add ≡ quick_add)
set_quick_add_freezes new_id tenant_id template_id quick_add req w {s} {u} there free done changed =
    let p = new_price new_id tenant_id template_id s.base_price quick_add in
    let w1 = (set_quick_add new_id tenant_id template_id quick_add w).1 in
    let ran = set_quick_add_runs new_id tenant_id template_id quick_add w {s = s} there done in
    let (own, others) =
      upsert_price-Upserted p (with_quick_add quick_add) w.tables w1.tables (λ q. (refl, refl))
        ran in
    let same = update_template_prices template_id req w1 in
    let id = update_template_id template_id req w1 {u = u} changed in ground arith

offered_template :
    (tenant_id : ℕ) (ps : List TenantServicePrice) (s : ServiceTemplate)
    → (tenant_price_of tenant_id ps s).template ≡ s
offered_template tenant_id ps s = elim (Option-cases (find_where (price_for tenant_id s.id) ps)) [
  | inl none_set ↦ ground arith
  | inr (p, there) ↦ ground arith
]

hidden_none :
    (id tenant_id : ℕ) (ps : List TenantServicePrice) (ss : List ServiceTemplate)
    → All
        (λ x. x.template.id ≢ id)
        (with_prices tenant_id ps
          (select_where (λ s. s.is_active) (update_where (with_template_id id) hide_template ss)))
unfolding select_where update_where
hidden_none id tenant_id ps [] = tt
hidden_none id tenant_id ps (s ∷ ss) =
    let ih = hidden_none id tenant_id ps ss in
    elim (Bool-cases (s.id == id)) [
      | inl own ↦ rw own ih
      | inr other ↦ elim (Bool-cases s.is_active) [
        | inl active ↦
            let differ : (tenant_price_of tenant_id ps s).template.id ≢ id =
              λ e. ground (arith, offered_template tenant_id ps s) in
            simp (other, active) (differ, ih)
        | inr hidden ↦ rw (other, hidden) ih
      ]
    ]

-- A template that has been deleted is offered to no tenant.
pub delete_template_hides :
    (id tenant_id : ℕ) (w : World)
    → (delete_template id w).0 ≡ ok tt
    → All (λ x. x.template.id ≢ id) (services_of tenant_id (delete_template id w).1.tables)
unfolding delete_template
delete_template_hides id tenant_id w done =
    let t = w.tables.office in
    let templates : (delete_template id w).1.tables.office.service_templates
        ≡ update_where (with_template_id id) hide_template t.service_templates =
      ground arith in
    let prices : (delete_template id w).1.tables.office.service_prices ≡ t.service_prices =
      ground arith in
    rw (templates, prices) (hidden_none id tenant_id t.service_prices t.service_templates)
