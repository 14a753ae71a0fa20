-- ===== src/Delivery/Zones.antt =====
-- The zones: `ListZones`, `ListAllZones`, `CreateZone`, `UpdateZone`, `DeleteZone` and `GetZoneFee` of
-- internal/service/delivery_service.go.
use service_api.Base.{
  value_or, ℕ, Bool, true, false, ◌&&◌, Option, none, some, List, [], ◌∷◌, ◌++◌, ◌==◌, ℤ, fits_int4,
  find_where, update_where, count_where, select_where, if◌then◌else◌,
}
use service_api.Apperror.{not_found, validation, internal}
use service_api.Domain.Delivery.{DeliveryZone, CreateDeliveryZoneRequest, UpdateDeliveryZoneRequest}
use service_api.External.{External}
use service_api.Store.{
  Tables, Db, attempt, select, query_row, pure, raise, or_raise, branch, case_option, ◌>>=◌, ◌>>◌,
}

abbrev pub owned_zone : ℕ → ℕ → DeliveryZone → Bool
owned_zone tenant_id id z = z.id == id && z.tenant_id == tenant_id

abbrev pub active_zone : ℕ → ℕ → DeliveryZone → Bool
active_zone tenant_id id z = owned_zone tenant_id id z && z.is_active

abbrev pub set_zones : List DeliveryZone → Tables → Tables
set_zones zs t = record t { office = record (t.office) { delivery_zones = zs } }

-- The filter by outlet, where one is given.
abbrev pub at_outlet : Option ℕ → ℕ → Bool
at_outlet none outlet_id = true
at_outlet (some o) outlet_id = outlet_id == o

-- `ListZones` and `ListAllZones`, without the order of their rows.
unfoldable pub list_zones : ℕ → Option ℕ → Db (List DeliveryZone)
list_zones tenant_id outlet =
    select
      (λ t.
        select_where (λ z. z.tenant_id == tenant_id && z.is_active && at_outlet outlet z.outlet_id)
          t.office.delivery_zones)
      (internal "failed to list delivery zones")

unfoldable pub list_all_zones : ℕ → Option ℕ → Db (List DeliveryZone)
list_all_zones tenant_id outlet =
    select
      (λ t.
        select_where (λ z. z.tenant_id == tenant_id && at_outlet outlet z.outlet_id)
          t.office.delivery_zones)
      (internal "failed to list delivery zones")

-- The row of the INSERT: the id and the times are the defaults of the table.
abbrev pub new_zone : ℕ → ℕ → ℕ → ℕ → CreateDeliveryZoneRequest → DeliveryZone
new_zone id now tenant_id outlet_id req = record {
  id = id;
  tenant_id = tenant_id;
  outlet_id = outlet_id;
  name = req.name;
  district = req.district;
  fee = req.fee;
  estimated_minutes = req.estimated_minutes;
  is_active = true;
  created_at = now;
  updated_at = now;
}

-- `CreateZone`. The column of the minutes is an INT.
unfoldable pub create_zone : External → ℕ → ℕ → ℕ → CreateDeliveryZoneRequest → Db DeliveryZone
create_zone ext new_id now tenant_id req =
    case_option (ext.parse_uuid req.outlet_id) (raise (validation "invalid outlet_id"))
      (λ outlet_id.
        attempt (λ t.
          if fits_int4 req.estimated_minutes
          then some (
            new_zone new_id now tenant_id outlet_id req,
            set_zones (t.office.delivery_zones ++ new_zone new_id now tenant_id outlet_id req ∷ [])
                t,
          )
          else none)
        >>= or_raise (internal "failed to create delivery zone"))

-- What the request leaves out stays.
abbrev pub given_text : {A : Type 0} → Option A → Option A → Option A
given_text none a = a
given_text (some b) a = some b

abbrev pub merge_zone : ℕ → UpdateDeliveryZoneRequest → DeliveryZone → DeliveryZone
merge_zone now req z = record z {
  name = value_or req.name z.name;
  district = given_text req.district z.district;
  fee = value_or req.fee z.fee;
  estimated_minutes = value_or req.estimated_minutes z.estimated_minutes;
  is_active = value_or req.is_active z.is_active;
  updated_at = now;
}

-- The UPDATE: the columns of the merged zone, in the row with its id and tenant.
abbrev pub with_columns : DeliveryZone → DeliveryZone → DeliveryZone
with_columns new z = record z {
  name = new.name;
  district = new.district;
  fee = new.fee;
  estimated_minutes = new.estimated_minutes;
  is_active = new.is_active;
  updated_at = new.updated_at;
}

-- `UpdateZone`
unfoldable pub update_zone : ℕ → ℕ → ℕ → UpdateDeliveryZoneRequest → Db DeliveryZone
update_zone now tenant_id id req = do
  z ←
      query_row (λ t. find_where (owned_zone tenant_id id) t.office.delivery_zones)
        (not_found "delivery zone not found") (internal "failed to get delivery zone")
  attempt (λ t.
        if fits_int4 (merge_zone now req z).estimated_minutes
        then some (
          tt,
          set_zones
              (update_where (owned_zone z.tenant_id z.id) (with_columns (merge_zone now req z))
                t.office.delivery_zones)
              t,
        )
        else none)
      >>= or_raise (internal "failed to update delivery zone")
  pure (merge_zone now req z)

abbrev pub deactivate : ℕ → DeliveryZone → DeliveryZone
deactivate now z = record z { is_active = false; updated_at = now }

-- `DeleteZone`: the row stays, and is inactive.
unfoldable pub delete_zone : ℕ → ℕ → ℕ → Db (Unit {0})
delete_zone now tenant_id id = do
  affected ←
      attempt (λ t. some (
        count_where (owned_zone tenant_id id) t.office.delivery_zones,
        set_zones (update_where (owned_zone tenant_id id) (deactivate now) t.office.delivery_zones)
            t,
      ))
      >>= or_raise (internal "failed to delete delivery zone")
  branch (affected == 0) (raise (not_found "delivery zone not found")) (pure tt)

-- `GetZoneFee`
unfoldable pub get_zone_fee : ℕ → ℕ → Db ℤ
get_zone_fee tenant_id id = do
  z ←
      query_row (λ t. find_where (active_zone tenant_id id) t.office.delivery_zones)
        (not_found "delivery zone not found") (internal "failed to get zone fee")
  pure z.fee
