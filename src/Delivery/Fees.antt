-- ===== src/Delivery/Fees.antt =====
-- What a pickup costs (internal/service/delivery_service.go, CreatePickupRequest, GetZoneFee and
-- DeleteZone).
use service_api.Base.{
  ℕ, ◌≡◌, ◌≢◌, ◌⊎◌, inl, inr, refl, arith, false, Option, none, some, List, [], ◌∷◌, ◌++◌, String,
  str_eq, ℤ, pos, Option-cases, Bool-cases, find_where, update_where,
}
use service_api.Apperror.{AppError, Result, ok, err}
use service_api.Domain.Delivery.{pending, DeliveryZone, PickupRequest, CreatePickupRequestPayload}
use service_api.External.{External}
use service_api.Store.{World, Tables}
use service_api.Delivery.Zones.{owned_zone, active_zone, deactivate, delete_zone, get_zone_fee}
use service_api.Delivery.Pickups.{zone_of, scheduled_time, new_request, create_pickup_request}

-- What a request pays: nothing without a zone, else the fee of an active zone of the tenant.
abbrev Charged : ℕ → Option ℕ → ℤ → Tables → Type 0
Charged tenant_id zone fee t =
    ((zone ≡ none) × (fee ≡ pos 0))
    ⊎ ((id : ℕ) × (z : DeliveryZone) × (zone ≡ some id)
        × (find_where (active_zone tenant_id id) t.office.delivery_zones ≡ some z)
        × (fee ≡ z.fee))

get_zone_fee_reads :
    (tenant_id id : ℕ) (w : World) {fee : ℤ}
    → (get_zone_fee tenant_id id w).0 ≡ ok fee
    → (z : DeliveryZone) × (find_where (active_zone tenant_id id) w.tables.office.delivery_zones
        ≡ some z)
      × (fee ≡ z.fee)
unfolding get_zone_fee
get_zone_fee_reads tenant_id id w {fee} h =
    elim (Option-cases (find_where (active_zone tenant_id id) w.tables.office.delivery_zones)) [
      | inl missing ↦ ground arith
      | inr (z, there) ↦ (z, there, ground arith)
    ]

get_zone_fee_keeps :
    (tenant_id id : ℕ) (w : World) → (get_zone_fee tenant_id id w).1.tables ≡ w.tables
unfolding get_zone_fee
get_zone_fee_keeps tenant_id id w = ground arith

zone_of-Charged :
    (ext : External) (tenant_id : ℕ) (o : Option String) (w : World) {zone : Option ℕ × ℤ}
    → (zone_of ext tenant_id o w).0 ≡ ok zone
    → Charged tenant_id zone.0 zone.1 w.tables
unfolding zone_of
zone_of-Charged ext tenant_id none w {zone} h = inl (ground arith)
zone_of-Charged ext tenant_id (some s) w {zone} h = elim (Bool-cases (str_eq s "")) [
  | inl empty ↦ inl (ground arith)
  | inr given ↦ elim (Option-cases (ext.parse_uuid s)) [
    | inl bad ↦ ground arith
    | inr (id, good) ↦ by_fee given id good (get_zone_fee tenant_id id w) refl
  ]
]
  where
    by_fee :
        str_eq s "" ≡ false
        → (id : ℕ) → ext.parse_uuid s ≡ some id
        → (p : Result ℤ × World) → get_zone_fee tenant_id id w ≡ p
        → Charged tenant_id zone.0 zone.1 w.tables
    by_fee given id good (ok fee, w') e =
        let (z, there, same) = get_zone_fee_reads tenant_id id w {fee = fee} (ground arith) in
        inr (id, z, ground arith, there, ground arith)
    by_fee given id good (err x, w') e = ground arith

zone_of_keeps :
    (ext : External) (tenant_id : ℕ) (o : Option String) (w : World)
    → (zone_of ext tenant_id o w).1.tables ≡ w.tables
unfolding zone_of
zone_of_keeps ext tenant_id none w = refl
zone_of_keeps ext tenant_id (some s) w = elim (Option-cases (ext.parse_uuid s)) [
  | inl bad ↦ ground arith
  | inr (id, good) ↦ ground (arith, get_zone_fee_keeps tenant_id id w)
]

scheduled_time_keeps :
    (ext : External) (o : Option String) (w : World) → (scheduled_time ext o w).1.tables ≡ w.tables
unfolding scheduled_time
scheduled_time_keeps ext none w = refl
scheduled_time_keeps ext (some s) w = ground arith

-- A request for a pickup that is made is stored as it is returned, pending, not completed and under
-- the tenant, and costs nothing without a zone, else the fee of the active zone of the tenant that
-- it names.
pub create_pickup_request_exact :
    (ext : External) (new_id now tenant_id : ℕ) (req : CreatePickupRequestPayload) (w : World)
    {r : PickupRequest}
    → (create_pickup_request ext new_id now tenant_id req w).0 ≡ ok r
    → let t = (create_pickup_request ext new_id now tenant_id req w).1.tables in
      (t.office.pickup_requests ≡ w.tables.office.pickup_requests ++ r ∷ [])
      × (r.status ≡ pending)
      × (r.completed_at ≡ none)
      × (r.tenant_id ≡ tenant_id)
      × Charged tenant_id r.zone_id r.delivery_fee w.tables
unfolding create_pickup_request
create_pickup_request_exact ext new_id now tenant_id req w {r} h =
    elim (Option-cases (ext.parse_uuid req.outlet_id)) [
      | inl bad ↦ ground arith
      | inr (outlet, good) ↦ by_zone outlet good (zone_of ext tenant_id req.zone_id w) refl
    ]
  where
    Made : Type 0
    Made =
        let t = (create_pickup_request ext new_id now tenant_id req w).1.tables in
        (t.office.pickup_requests ≡ w.tables.office.pickup_requests ++ r ∷ [])
        × (r.status ≡ pending)
        × (r.completed_at ≡ none)
        × (r.tenant_id ≡ tenant_id)
        × Charged tenant_id r.zone_id r.delivery_fee w.tables

    by_time :
        (outlet : ℕ)
        → ext.parse_uuid req.outlet_id ≡ some outlet
        → (zone : Option ℕ × ℤ) (w' : World) → zone_of ext tenant_id req.zone_id w ≡ (ok zone, w')
        → (p : Result (Option ℕ) × World) → scheduled_time ext req.scheduled_at w' ≡ p
        → Made
    by_time outlet good zone w' e (ok at, w'') f =
        let charged = zone_of-Charged ext tenant_id req.zone_id w {zone = zone} (ground arith) in
        let same = zone_of_keeps ext tenant_id req.zone_id w in
        let same' = scheduled_time_keeps ext req.scheduled_at w' in
        let row : r ≡ new_request new_id now tenant_id outlet zone.0 zone.1 at req = ground arith in
        (ground arith, ground arith, ground arith, ground arith, rw row charged)
    by_time outlet good zone w' e (err x, w'') f = ground arith

    by_zone :
        (outlet : ℕ)
        → ext.parse_uuid req.outlet_id ≡ some outlet
        → (p : Result (Option ℕ × ℤ) × World) → zone_of ext tenant_id req.zone_id w ≡ p
        → Made
    by_zone outlet good (ok zone, w') e =
        by_time outlet good zone w' e (scheduled_time ext req.scheduled_at w') refl
    by_zone outlet good (err x, w') e = ground arith

-- A request that is refused is not stored.
pub create_pickup_request_refused :
    (ext : External) (new_id now tenant_id : ℕ) (req : CreatePickupRequestPayload) (w : World)
    {e : AppError}
    → (create_pickup_request ext new_id now tenant_id req w).0 ≡ err e
    → (create_pickup_request ext new_id now tenant_id req w).1.tables ≡ w.tables
unfolding create_pickup_request
create_pickup_request_refused ext new_id now tenant_id req w {e} h =
    let w' = (zone_of ext tenant_id req.zone_id w).1 in
    ground (
      arith,
      zone_of_keeps ext tenant_id req.zone_id w,
      scheduled_time_keeps ext req.scheduled_at w',
    )

-- No zone changes with a request.
pub create_pickup_request_zones :
    (ext : External) (new_id now tenant_id : ℕ) (req : CreatePickupRequestPayload) (w : World)
    → (create_pickup_request ext new_id now tenant_id req w).1.tables.office.delivery_zones
      ≡ w.tables.office.delivery_zones
unfolding create_pickup_request
create_pickup_request_zones ext new_id now tenant_id req w =
    let w' = (zone_of ext tenant_id req.zone_id w).1 in
    ground (
      arith,
      zone_of_keeps ext tenant_id req.zone_id w,
      scheduled_time_keeps ext req.scheduled_at w',
    )

none_active :
    (now tenant_id id : ℕ) (zs : List DeliveryZone)
    → find_where
        (active_zone tenant_id id)
        (update_where (owned_zone tenant_id id) (deactivate now) zs)
      ≡ none
unfolding find_where update_where
none_active now tenant_id id [] = refl
none_active now tenant_id id (z ∷ zs) = ground (arith, none_active now tenant_id id zs)

delete_zone_zones :
    (now tenant_id id : ℕ) (w : World)
    → (delete_zone now tenant_id id w).0 ≡ ok tt
    → find_where
        (active_zone tenant_id id)
        (delete_zone now tenant_id id w).1.tables.office.delivery_zones
      ≡ none
unfolding delete_zone
delete_zone_zones now tenant_id id w h =
    ground (arith, none_active now tenant_id id w.tables.office.delivery_zones)

-- After a zone has been deleted, no request for a pickup of the tenant can be made with it.
pub delete_zone_hides :
    (ext : External) (now tenant_id id new_id later : ℕ) (req : CreatePickupRequestPayload)
    (w : World) {r : PickupRequest}
    → (delete_zone now tenant_id id w).0 ≡ ok tt
    → (create_pickup_request ext new_id later tenant_id req (delete_zone now tenant_id id w).1).0
      ≡ ok r
    → r.zone_id ≢ some id
delete_zone_hides ext now tenant_id id new_id later req w {r} deleted made named =
    let w' = (delete_zone now tenant_id id w).1 in
    let gone = delete_zone_zones now tenant_id id w deleted in
    let (stored, new, undone, own, charged) =
      create_pickup_request_exact ext new_id later tenant_id req w' {r = r} made in
    elim charged [
      | inl (free, zero) ↦ ground arith
      | inr (other, z, zone, there, fee) ↦ ground arith
    ]
