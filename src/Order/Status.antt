-- ===== src/Order/Status.antt =====
-- `validTransitions` and its use in `UpdateStatus` (internal/service/order_service.go).
use service_api.Base.{Bool, true, false, ◌||◌, Option, none, some, List, [], ◌∷◌, str_eq}
use service_api.Domain.Orders.{
  Status, received, washing, drying, ironing, done, picked_up, cancelled, pickup_requested,
}

-- `validTransitions[status]`; `none` is a missing key.
unfoldable pub valid_transitions : Status → Option (List Status)
valid_transitions received = some (washing ∷ cancelled ∷ [])
valid_transitions washing = some (drying ∷ ironing ∷ cancelled ∷ [])
valid_transitions drying = some (ironing ∷ done ∷ cancelled ∷ [])
valid_transitions ironing = some (done ∷ cancelled ∷ [])
valid_transitions done = some (picked_up ∷ cancelled ∷ [])
valid_transitions _ = none

-- `==` on the texts.
unfoldable pub status_eq : Status → Status → Bool
status_eq received received = true
status_eq washing washing = true
status_eq drying drying = true
status_eq ironing ironing = true
status_eq done done = true
status_eq picked_up picked_up = true
status_eq cancelled cancelled = true
status_eq pickup_requested pickup_requested = true
status_eq (Status.other s) (Status.other t) = str_eq s t
status_eq _ _ = false

-- The loop that sets `isValid`.
unfoldable pub is_valid : List Status → Status → Bool
unfolding status_eq
is_valid [] s = false
is_valid (a ∷ allowed) s = status_eq a s || is_valid allowed s
