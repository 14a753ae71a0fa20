-- ===== src/Delivery/Pickups.antt =====
-- The requests for a pickup: `CreatePickupRequest` and `UpdatePickupRequestStatus` of
-- internal/service/delivery_service.go.
use service_api.Base.{
  ℕ, Bool, ◌&&◌, Option, none, some, List, [], ◌∷◌, ◌++◌, ◌==◌, String, str_eq, ℤ, pos,
  update_where, count_where,
}
use service_api.Apperror.{not_found, validation, internal}
use service_api.Domain.Delivery.{
  PickupStatus, pending, completed, PickupRequest, CreatePickupRequestPayload,
}
use service_api.External.{External}
use service_api.Inventory.{optional_text}
use service_api.Store.{Tables, Db, attempt, pure, raise, or_raise, branch, case_option, ◌>>=◌}
use service_api.Delivery.Zones.{get_zone_fee}

abbrev pub set_requests : List PickupRequest → Tables → Tables
set_requests rs t = record t { office = record (t.office) { pickup_requests = rs } }

-- The zone of the request, where one is given, with its fee.
unfoldable pub zone_of : External → ℕ → Option String → Db (Option ℕ × ℤ)
zone_of ext tenant_id none = pure (none, pos 0)
zone_of ext tenant_id (some s) = branch (str_eq s "") (pure (none, pos 0)) (
    case_option (ext.parse_uuid s) (raise (validation "invalid zone_id"))
      (λ id. do fee ← get_zone_fee tenant_id id; pure (some id, fee)))

-- The time of the pickup, where one is given.
unfoldable pub scheduled_time : External → Option String → Db (Option ℕ)
scheduled_time ext none = pure none
scheduled_time ext (some s) = branch (str_eq s "") (pure none) (
    case_option (ext.parse_time s) (raise (validation "invalid scheduled_at format, use RFC3339"))
      (λ t. pure (some t)))

-- The row of the INSERT: the id, the status and the times are the defaults of the table.
abbrev pub new_request :
    ℕ → ℕ → ℕ → ℕ → Option ℕ → ℤ → Option ℕ → CreatePickupRequestPayload → PickupRequest
new_request id now tenant_id outlet_id zone_id fee scheduled_at req = record {
  id = id;
  tenant_id = tenant_id;
  outlet_id = outlet_id;
  zone_id = zone_id;
  customer_name = req.customer_name;
  customer_phone = req.customer_phone;
  address = req.address;
  pickup_type = req.pickup_type;
  status = pending;
  scheduled_at = scheduled_at;
  completed_at = none;
  notes = optional_text req.notes;
  delivery_fee = fee;
  created_at = now;
  updated_at = now;
}

-- `CreatePickupRequest`
unfoldable pub create_pickup_request :
    External → ℕ → ℕ → ℕ → CreatePickupRequestPayload → Db PickupRequest
create_pickup_request ext new_id now tenant_id req =
    case_option (ext.parse_uuid req.outlet_id) (raise (validation "invalid outlet_id"))
      (λ outlet_id. do
        zone ← zone_of ext tenant_id req.zone_id
        scheduled_at ← scheduled_time ext req.scheduled_at
        let r = new_request new_id now tenant_id outlet_id zone.0 zone.1 scheduled_at req
        attempt (λ t. some (r, set_requests (t.office.pickup_requests ++ r ∷ []) t))
            >>= or_raise (internal "failed to create pickup request"))

abbrev pub completion_time : ℕ → PickupStatus → Option ℕ
completion_time now completed = some now
completion_time now _ = none

abbrev pub owned_request : ℕ → ℕ → PickupRequest → Bool
owned_request tenant_id id r = r.id == id && r.tenant_id == tenant_id

-- The new status, with the service's clock for the completion and the database's for the update.
abbrev pub with_pickup_status : ℕ → ℕ → PickupStatus → PickupRequest → PickupRequest
with_pickup_status now db_now status r = record r {
  status = status;
  completed_at = completion_time now status;
  updated_at = db_now;
}

-- `UpdatePickupRequestStatus`
unfoldable pub update_pickup_request_status : ℕ → ℕ → ℕ → ℕ → PickupStatus → Db (Unit {0})
update_pickup_request_status now db_now tenant_id id status = do
  affected ←
      attempt (λ t. some (
        count_where (owned_request tenant_id id) t.office.pickup_requests,
        set_requests
            (update_where (owned_request tenant_id id) (with_pickup_status now db_now status)
              t.office.pickup_requests)
            t,
      ))
      >>= or_raise (internal "failed to update pickup request status")
  branch (affected == 0) (raise (not_found "pickup request not found")) (pure tt)
