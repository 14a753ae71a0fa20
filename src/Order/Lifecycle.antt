-- ===== src/Order/Lifecycle.antt =====
-- The diagram of the order statuses, and how far an order can move in it
-- (internal/service/order_service.go, validTransitions).
use service_api.Base.{◌↔◌, ℕ, ◌≤◌, ◌<◌, ◌≡◌, refl, Bool, true, false, none, some, arith}
use service_api.Domain.Orders.{
  Status, received, washing, drying, ironing, done, picked_up, cancelled, pickup_requested,
}
use service_api.Order.Status.{valid_transitions, is_valid}

infix 40 ◌⟶◌ ◌⟶*◌
-- The ways of a laundry order, written down apart from the code's table.
pub data ◌⟶◌ : Status → Status → Type 0 where
  wash : received ⟶ washing
  dry : washing ⟶ drying
  iron_wet : washing ⟶ ironing
  iron : drying ⟶ ironing
  finish_dry : drying ⟶ done
  finish : ironing ⟶ done
  collect : done ⟶ picked_up
  cancel_received : received ⟶ cancelled
  cancel_washing : washing ⟶ cancelled
  cancel_drying : drying ⟶ cancelled
  cancel_ironing : ironing ⟶ cancelled
  cancel_done : done ⟶ cancelled

pub data ◌⟶*◌ : Status → Status → Type 0 where
  here : {s : Status} → s ⟶* s
  then : {s t u : Status} → s ⟶ t → t ⟶* u → s ⟶* u

ruleset ways = (
  wash, dry, iron_wet, iron, finish_dry, finish, collect, cancel_received, cancel_washing,
  cancel_drying, cancel_ironing, cancel_done,
)

-- The code's test, as one Boolean.
abbrev pub allows : Status → Status → Bool
allows a b = elim (valid_transitions a) [ none ↦ false | some l ↦ is_valid l b ]

-- What the table admits is a way of the diagram.
pub allows-⟶ : (a b : Status) → allows a b ≡ true → a ⟶ b
unfolding valid_transitions is_valid
allows-⟶ a b h = grind (arith, ways)

-- And every way is admitted.
pub ⟶-allows : {a b : Status} → a ⟶ b → allows a b ≡ true
unfolding valid_transitions is_valid
⟶-allows wash = refl
⟶-allows dry = refl
⟶-allows iron_wet = refl
⟶-allows iron = refl
⟶-allows finish_dry = refl
⟶-allows finish = refl
⟶-allows collect = refl
⟶-allows cancel_received = refl
⟶-allows cancel_washing = refl
⟶-allows cancel_drying = refl
⟶-allows cancel_ironing = refl
⟶-allows cancel_done = refl

-- The table of transitions admits exactly the ways of the diagram.
pub allows_iff : (a b : Status) → (allows a b ≡ true) ↔ (a ⟶ b)
allows_iff a b = (allows-⟶ a b, ⟶-allows)

-- How far an order has come; no way leads on from 5.
abbrev pub stage : Status → ℕ
stage received = 0
stage washing = 1
stage drying = 2
stage ironing = 3
stage done = 4
stage _ = 5

pub ⟶-stage : {a b : Status} → a ⟶ b → stage a < stage b
⟶-stage wash = omega arith
⟶-stage dry = omega arith
⟶-stage iron_wet = omega arith
⟶-stage iron = omega arith
⟶-stage finish_dry = omega arith
⟶-stage finish = omega arith
⟶-stage collect = omega arith
⟶-stage cancel_received = omega arith
⟶-stage cancel_washing = omega arith
⟶-stage cancel_drying = omega arith
⟶-stage cancel_ironing = omega arith
⟶-stage cancel_done = omega arith

pub stage_le : (s : Status) → stage s ≤ 5
stage_le s = ground arith

-- From every status at which the table lets an order move, the order can be collected and can be
-- cancelled.
open_reaches_both : (a b : Status) → allows a b ≡ true → (a ⟶* picked_up) × (a ⟶* cancelled)
open_reaches_both a b h = ends a (allows-⟶ a b h)
  where
    ends : (a : Status) {b : Status} → a ⟶ b → (a ⟶* picked_up) × (a ⟶* cancelled)
    ends received p = (search (here, then, ways), search (here, then, ways))
    ends washing p = (search (here, then, ways), search (here, then, ways))
    ends drying p = (search (here, then, ways), search (here, then, ways))
    ends ironing p = (search (here, then, ways), search (here, then, ways))
    ends done p = (search (here, then, ways), search (here, then, ways))
    ends picked_up p = elim p [ ]
    ends cancelled p = elim p [ ]
    ends pickup_requested p = elim p [ ]
    ends (Status.other _) p = elim p [ ]
