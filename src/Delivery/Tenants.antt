-- ===== src/Delivery/Tenants.antt =====
-- Whose rows a call of the deliveries can change (internal/service/delivery_service.go).
use service_api.Base.{
  ℕ, ◌≡◌, ◌≢◌, inl, inr, ap, refl, arith, false, List, ◌==◌, select_where, update_where,
  select_where-update_where_other, select_where-snoc_other, Option-cases, find_where,
  find_where_passes,
}
use service_api.Apperror.{Result, ok, err}
use service_api.Domain.Delivery.{
  DeliveryZone, PickupRequest, PickupStatus, CreatePickupRequestPayload, CreateDeliveryZoneRequest,
  UpdateDeliveryZoneRequest,
}
use service_api.External.{External}
use service_api.Store.{World, Tables}
use service_api.Delivery.Zones.{
  owned_zone, new_zone, merge_zone, with_columns, deactivate, create_zone, update_zone, delete_zone,
}
use service_api.Delivery.Pickups.{
  create_pickup_request, update_pickup_request_status, with_pickup_status, owned_request,
}
use service_api.Delivery.Fees.{
  create_pickup_request_exact, create_pickup_request_refused, create_pickup_request_zones,
}
use service_api.Delivery.Completion.{
  Step, zone_created, zone_updated, zone_deleted, requested, moved, moved_rows, zone_created_rows,
  zone_updated_rows, zone_deleted_rows,
}

-- The tenant of a call.
abbrev pub tenant_of : {ext : External} {u v : World} → Step ext u v → ℕ
tenant_of (zone_created id now tenant_id req w) = tenant_id
tenant_of (zone_updated now tenant_id id req w) = tenant_id
tenant_of (zone_deleted now tenant_id id w) = tenant_id
tenant_of (requested id now tenant_id req w) = tenant_id
tenant_of (moved now db_now tenant_id id s w) = tenant_id

-- The rows of a tenant.
abbrev pub zones_of : ℕ → World → List DeliveryZone
zones_of tenant_id w = select_where (λ z. z.tenant_id == tenant_id) w.tables.office.delivery_zones

abbrev requests_in : ℕ → Tables → List PickupRequest
requests_in tenant_id t = select_where (λ r. r.tenant_id == tenant_id) t.office.pickup_requests

abbrev pub requests_of : ℕ → World → List PickupRequest
requests_of tenant_id w = requests_in tenant_id w.tables

-- Both tables of another tenant are as they were.
abbrev pub Untouched : ℕ → World → World → Type 0
Untouched other u v =
    (zones_of other v ≡ zones_of other u) × (requests_of other v ≡ requests_of other u)

update_zones_other :
    (tenant_id id other : ℕ) (f : DeliveryZone → DeliveryZone) (zs : List DeliveryZone)
    → tenant_id ≢ other
    → ((z : DeliveryZone) → (f z).tenant_id ≡ z.tenant_id)
    → select_where (λ z. z.tenant_id == other) (update_where (owned_zone tenant_id id) f zs)
      ≡ select_where (λ z. z.tenant_id == other) zs
update_zones_other tenant_id id other f zs ne keep =
    select_where-update_where_other (owned_zone tenant_id id) (λ z. z.tenant_id == other) f zs
      (λ z own. ground (arith, keep z))

zone_created_other :
    (ext : External) (id now tenant_id other : ℕ) (req : CreateDeliveryZoneRequest) (w : World)
    → tenant_id ≢ other
    → zones_of other (create_zone ext id now tenant_id req w).1 ≡ zones_of other w
unfolding create_zone
zone_created_other ext id now tenant_id other req w ne =
    elim (Option-cases (ext.parse_uuid req.outlet_id)) [
      | inl bad ↦ ground arith
      | inr (outlet, good) ↦
          let apart : (tenant_id == other) ≡ false = ground arith in
          ground (
            arith,
            select_where-snoc_other (λ z. z.tenant_id == other) w.tables.office.delivery_zones
                (new_zone id now tenant_id outlet req) apart,
          )
    ]

zone_deleted_other :
    (now tenant_id id other : ℕ) (w : World)
    → tenant_id ≢ other
    → zones_of other (delete_zone now tenant_id id w).1 ≡ zones_of other w
unfolding delete_zone
zone_deleted_other now tenant_id id other w ne = ground (
  arith,
  update_zones_other tenant_id id other (deactivate now) w.tables.office.delivery_zones ne
      (λ z. refl),
)

zone_updated_other :
    (now tenant_id id other : ℕ) (req : UpdateDeliveryZoneRequest) (w : World)
    → tenant_id ≢ other
    → zones_of other (update_zone now tenant_id id req w).1 ≡ zones_of other w
unfolding update_zone
zone_updated_other now tenant_id id other req w ne =
    let zs = w.tables.office.delivery_zones in
    elim (Option-cases (find_where (owned_zone tenant_id id) zs)) [
      | inl missing ↦ ground arith
      | inr (z, there) ↦
          let own = find_where_passes (owned_zone tenant_id id) zs there in
          let apart : z.tenant_id ≢ other = λ e. ground arith in
          ground (
            arith,
            update_zones_other z.tenant_id z.id other (with_columns (merge_zone now req z)) zs apart
                (λ y. refl),
          )
    ]

requested_other :
    (ext : External) (id now tenant_id other : ℕ) (req : CreatePickupRequestPayload) (w : World)
    → tenant_id ≢ other
    → requests_of other (create_pickup_request ext id now tenant_id req w).1 ≡ requests_of other w
requested_other ext id now tenant_id other req w ne =
    by_result (create_pickup_request ext id now tenant_id req w) refl
  where
    by_result :
        (p : Result PickupRequest × World)
        → create_pickup_request ext id now tenant_id req w ≡ p
        → requests_of other (create_pickup_request ext id now tenant_id req w).1
          ≡ requests_of other w
    by_result (ok r, w') e =
        let (stored, new, undone, own, charged) =
          create_pickup_request_exact ext id now tenant_id req w {r = r} (ap (λ p. p.0) e) in
        let apart : (r.tenant_id == other) ≡ false = ground arith in
        rw stored (
          select_where-snoc_other (λ r. r.tenant_id == other) w.tables.office.pickup_requests r
            apart)
    by_result (err x, w') e =
        ap (requests_in other)
          (create_pickup_request_refused ext id now tenant_id req w {e = x} (ap (λ p. p.0) e))

moved_other :
    (now db_now tenant_id id other : ℕ) (s : PickupStatus) (w : World)
    → tenant_id ≢ other
    → requests_of other (update_pickup_request_status now db_now tenant_id id s w).1
      ≡ requests_of other w
moved_other now db_now tenant_id id other s w ne =
    let f = with_pickup_status now db_now s in
    let rows = w.tables.office.pickup_requests in
    let kept =
      select_where-update_where_other (owned_request tenant_id id) (λ r. r.tenant_id == other) f
        rows (λ r own. ground arith) in
    elim (moved_rows now db_now tenant_id id s w) [
      | inl same ↦ rw same refl
      | inr set ↦ rw set kept
    ]

moved_zones :
    (now db_now tenant_id id other : ℕ) (s : PickupStatus) (w : World)
    → zones_of other (update_pickup_request_status now db_now tenant_id id s w).1 ≡ zones_of other w
unfolding update_pickup_request_status
moved_zones now db_now tenant_id id other s w = ground arith

-- Whichever statements fail, no call for one tenant changes, adds or takes away a zone or a request
-- of another tenant.
pub Step-Untouched :
    (ext : External) (other : ℕ) {u v : World} (s : Step ext u v)
    → tenant_of s ≢ other
    → Untouched other u v
Step-Untouched ext other (zone_created id now tenant_id req w) ne = (
  zone_created_other ext id now tenant_id other req w ne,
  ap (select_where (λ r. r.tenant_id == other)) (zone_created_rows ext id now tenant_id req w),
)
Step-Untouched ext other (zone_updated now tenant_id id req w) ne = (
  zone_updated_other now tenant_id id other req w ne,
  ap (select_where (λ r. r.tenant_id == other)) (zone_updated_rows now tenant_id id req w),
)
Step-Untouched ext other (zone_deleted now tenant_id id w) ne = (
  zone_deleted_other now tenant_id id other w ne,
  ap (select_where (λ r. r.tenant_id == other)) (zone_deleted_rows now tenant_id id w),
)
Step-Untouched ext other (requested id now tenant_id req w) ne = (
  ap (select_where (λ z. z.tenant_id == other))
      (create_pickup_request_zones ext id now tenant_id req w),
  requested_other ext id now tenant_id other req w ne,
)
Step-Untouched ext other (moved now db_now tenant_id id s w) ne = (
  moved_zones now db_now tenant_id id other s w,
  moved_other now db_now tenant_id id other s w ne,
)
