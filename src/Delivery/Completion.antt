-- ===== src/Delivery/Completion.antt =====
-- When a request for a pickup counts as completed, over all that can happen to the requests
-- (internal/service/delivery_service.go).
use service_api.Base.{
  ℕ, ◌≡◌, ◌⊎◌, ap, update_where, inl, inr, refl, arith, Bool, true, false, Option, none, some, [],
  ◌∷◌, All, All-append, All-update_where,
}
use service_api.Apperror.{Result, ok, err}
use service_api.Domain.Delivery.{
  PickupStatus, completed, PickupRequest, CreatePickupRequestPayload, CreateDeliveryZoneRequest,
  UpdateDeliveryZoneRequest,
}
use service_api.External.{External}
use service_api.Store.{World}
use service_api.Delivery.Zones.{create_zone, update_zone, delete_zone}
use service_api.Delivery.Pickups.{
  create_pickup_request, update_pickup_request_status, completion_time, with_pickup_status,
  owned_request,
}
use service_api.Delivery.Fees.{create_pickup_request_exact, create_pickup_request_refused}

-- What the service can do to the database.
pub data Step (ext : External) : World → World → Type 0 where
  zone_created :
      (id now tenant_id : ℕ) (req : CreateDeliveryZoneRequest) (w : World)
      → Step ext w (create_zone ext id now tenant_id req w).1
  zone_updated :
      (now tenant_id id : ℕ) (req : UpdateDeliveryZoneRequest) (w : World)
      → Step ext w (update_zone now tenant_id id req w).1
  zone_deleted : (now tenant_id id : ℕ) (w : World) → Step ext w (delete_zone now tenant_id id w).1
  requested :
      (id now tenant_id : ℕ) (req : CreatePickupRequestPayload) (w : World)
      → Step ext w (create_pickup_request ext id now tenant_id req w).1
  moved :
      (now db_now tenant_id id : ℕ) (s : PickupStatus) (w : World)
      → Step ext w (update_pickup_request_status now db_now tenant_id id s w).1

pub data Reach (ext : External) (w : World) : World → Type 0 where
  here : Reach ext w w
  next : {u v : World} → Reach ext w u → Step ext u v → Reach ext w v

-- The time of completion stands exactly in the requests with that status.
abbrev pub is_completed : PickupStatus → Bool
is_completed completed = true
is_completed _ = false

abbrev pub is_set : Option ℕ → Bool
is_set none = false
is_set (some _) = true

abbrev pub Dated : PickupRequest → Type 0
Dated r = is_completed r.status ≡ is_set r.completed_at

abbrev pub AllDated : World → Type 0
AllDated w = All Dated w.tables.office.pickup_requests

completion_time-Dated :
    (now : ℕ) (s : PickupStatus) → is_completed s ≡ is_set (completion_time now s)
completion_time-Dated now s = ground arith

-- The requests after each call.
pub moved_rows :
    (now db_now tenant_id id : ℕ) (s : PickupStatus) (w : World)
    → let rows = w.tables.office.pickup_requests in
      let rows' =
        (update_pickup_request_status now db_now tenant_id id s
          w).1.tables.office.pickup_requests in
      (rows' ≡ rows)
      ⊎ (rows' ≡ update_where (owned_request tenant_id id) (with_pickup_status now db_now s) rows)
unfolding update_pickup_request_status
moved_rows now db_now tenant_id id s w = ground arith

pub zone_created_rows :
    (ext : External) (id now tenant_id : ℕ) (req : CreateDeliveryZoneRequest) (w : World)
    → (create_zone ext id now tenant_id req w).1.tables.office.pickup_requests
      ≡ w.tables.office.pickup_requests
unfolding create_zone
zone_created_rows ext id now tenant_id req w = ground arith

pub zone_updated_rows :
    (now tenant_id id : ℕ) (req : UpdateDeliveryZoneRequest) (w : World)
    → (update_zone now tenant_id id req w).1.tables.office.pickup_requests
      ≡ w.tables.office.pickup_requests
unfolding update_zone
zone_updated_rows now tenant_id id req w = ground arith

pub zone_deleted_rows :
    (now tenant_id id : ℕ) (w : World)
    → (delete_zone now tenant_id id w).1.tables.office.pickup_requests
      ≡ w.tables.office.pickup_requests
unfolding delete_zone
zone_deleted_rows now tenant_id id w = ground arith

requested-AllDated :
    (ext : External) (id now tenant_id : ℕ) (req : CreatePickupRequestPayload) (w : World)
    → AllDated w
    → AllDated (create_pickup_request ext id now tenant_id req w).1
requested-AllDated ext id now tenant_id req w h =
    by_result (create_pickup_request ext id now tenant_id req w) refl
  where
    by_result :
        (p : Result PickupRequest × World)
        → create_pickup_request ext id now tenant_id req w ≡ p
        → AllDated (create_pickup_request ext id now tenant_id req w).1
    by_result (ok r, w') e =
        let (stored, new, undone, own, charged) =
          create_pickup_request_exact ext id now tenant_id req w {r = r} (ap (λ p. p.0) e) in
        rw stored
          (All-append Dated w.tables.office.pickup_requests (r ∷ []) h (rw (new, undone) refl, tt))
    by_result (err x, w') e =
        rw (create_pickup_request_refused ext id now tenant_id req w {e = x} (ap (λ p. p.0) e)) h

Step-AllDated : {ext : External} {u v : World} → Step ext u v → AllDated u → AllDated v
Step-AllDated {ext} (zone_created id now tenant_id req w) h =
    rw (zone_created_rows ext id now tenant_id req w) h
Step-AllDated (zone_updated now tenant_id id req w) h =
    rw (zone_updated_rows now tenant_id id req w) h
Step-AllDated (zone_deleted now tenant_id id w) h = rw (zone_deleted_rows now tenant_id id w) h
Step-AllDated {ext} (requested id now tenant_id req w) h =
    requested-AllDated ext id now tenant_id req w h
Step-AllDated (moved now db_now tenant_id id s w) h =
    elim (moved_rows now db_now tenant_id id s w) [
      | inl same ↦ rw same h
      | inr set ↦ rw set (
          All-update_where Dated (owned_request tenant_id id) (with_pickup_status now db_now s)
            w.tables.office.pickup_requests (λ r own old. completion_time-Dated now s) h)
    ]

-- Whatever calls are made in whatever order, and whichever statements fail, exactly the requests
-- with the status completed have a time of completion.
pub Reach-AllDated : (ext : External) {u v : World} → Reach ext u v → AllDated u → AllDated v
Reach-AllDated ext here h = h
Reach-AllDated ext (next r s) h = Step-AllDated s (Reach-AllDated ext r h)
