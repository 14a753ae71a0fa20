-- ===== src/Tests/Deliveries.antt =====
-- Deliveries: a zone with a fee, a request for a pickup in it, its completion; and pages of rows.
use service_api.Base.{
  ℕ, ◌+◌, ◌≤◌, ◌<◌, ◌≡◌, arith, true, Option, none, some, [], ◌∷◌, String, ℤ, pos, suc, ◌/◌,
}
use service_api.Domain.Delivery.{DeliveryZone, PickupRequest, CreatePickupRequestPayload, completed}
use service_api.Store.{World, calm, no_rows}
use service_api.Delivery.{create_pickup_request, update_pickup_request_status, new_request}
use service_api.Delivery.Completion.{Reach, here, next, requested, moved, AllDated, Reach-AllDated}
use service_api.Delivery.Tenants.{Untouched, Step-Untouched}
use service_api.Pagination.{offset, total_pages}
use service_api.Pagination.Pages.{pages_cover}
use service_api.Tests.Data.{plain}

abbrev zone : DeliveryZone
zone = record {
  id = 2;
  tenant_id = 5;
  outlet_id = 1;
  name = "Timur";
  district = none;
  fee = pos 7000;
  estimated_minutes = pos 60;
  is_active = true;
  created_at = 1;
  updated_at = 1;
}

abbrev zones : World
zones = calm (record no_rows { office = record (no_rows.office) { delivery_zones = zone ∷ [] } })

abbrev payload : CreatePickupRequestPayload
payload = record {
  outlet_id = "u1";
  zone_id = some "u2";
  customer_name = "Ani";
  customer_phone = "08";
  address = "Jl. A";
  pickup_type = "pickup";
  scheduled_at = none;
  notes = "";
}

abbrev asked : PickupRequest
asked = new_request 30 40 5 1 (some 2) (pos 7000) none payload

abbrev finished : World
finished =
    (update_pickup_request_status 60 61 5 30 completed
      (create_pickup_request plain 30 40 5 payload zones).1).1

asked_and_moved : Reach plain zones finished
asked_and_moved =
    next (next here (requested 30 40 5 payload zones))
      (moved 60 61 5 30 completed (create_pickup_request plain 30 40 5 payload zones).1)

Reach-AllDated_example : AllDated finished
Reach-AllDated_example = Reach-AllDated plain {u = zones} {v = finished} asked_and_moved tt

Step-Untouched_example : Untouched 6 zones (create_pickup_request plain 30 40 5 payload zones).1
Step-Untouched_example =
    Step-Untouched plain 6 {u = zones} {v = (create_pickup_request plain 30 40 5 payload zones).1}
      (requested 30 40 5 payload zones) (λ e. ground (arith, e))

abbrev atoi : String → Option ℤ
atoi s = some (pos 500)

pages_cover_example :
    (first : ℕ) × (offset (record { page = pos (suc (42 / 20)); per_page = pos 20 }) ≡ pos first)
    × (suc (42 / 20) ≤ total_pages 45 20)
    × (first ≤ 42)
    × (42 < first + 20)
pages_cover_example = pages_cover 45 20 42 (omega arith) (omega arith) (omega arith)
