-- ===== src/Tests/Plans.antt =====
-- A tenant on the free plan, whose only outlet is closed.
use service_api.Base.{
  suc, ◌≡◌, ◌⊎◌, refl, true, false, some, [], ◌∷◌, pos, ◌≤ℤ◌, ◌<ℤ◌, find_where, count_where,
}
use service_api.Apperror.{ok}
use service_api.Domain.Orders.{received}
use service_api.Domain.Payments.{pending}
use service_api.Domain.Billing.{SubscriptionPlan, Outlet, CreateOutletRequest, UpdateOutletRequest}
use service_api.Store.{World, fails, rest}
use service_api.Billing.{get_subscription_info, check_outlet_limit}
use service_api.Billing.Limits.{outlets_of, plan_of}
use service_api.Outlets.{
  create_outlet, owner_create, get_outlet, update_outlet, merge_outlet, new_outlet,
}
use service_api.Outlets.Quota.{owner_create-within_limit, update_outlet-past_limit}
use service_api.Tests.Data.{outlet, small_plan, world}

abbrev month : World
month = world received pending

abbrev closed : Outlet
closed = record outlet { is_active = false }

abbrev open_outlet : Outlet
open_outlet = record outlet { id = 61 }

abbrev vacant : World
vacant = record month { tables = record (month.tables) { outlets = closed ∷ [] } }

abbrev branch_office : CreateOutletRequest
branch_office = record { name = "Cabang"; address = "Jl. Baru"; phone = "021" }

abbrev reopening : UpdateOutletRequest
reopening = record { name = ""; address = ""; phone = ""; is_active = some true }

owner_create-within_limit_example :
    let after = outlets_of 5 (owner_create 1 60 700 701 5 branch_office vacant).1.tables in
    (p : SubscriptionPlan) × (plan_of 5 vacant.tables ≡ some p)
    × (after ≡ suc (outlets_of 5 vacant.tables))
    × ((p.max_outlets ≤ℤ pos 0) ⊎ (pos after ≤ℤ p.max_outlets))
unfolding owner_create check_outlet_limit get_subscription_info create_outlet find_where count_where
    fails rest
owner_create-within_limit_example =
    owner_create-within_limit 1 60 700 701 5 branch_office vacant
      {o = new_outlet 60 700 701 5 branch_office} refl

abbrev full : World
full = record month { tables = record (month.tables) { outlets = closed ∷ open_outlet ∷ [] } }

update_outlet-past_limit_example :
    let (r, w') = update_outlet 800 1 reopening full in
    (r ≡ ok (merge_outlet 800 reopening closed))
    × (plan_of 5 w'.tables ≡ some small_plan)
    × (pos 1 <ℤ pos (outlets_of 5 w'.tables))
unfolding update_outlet get_outlet find_where count_where fails rest
update_outlet-past_limit_example =
    update_outlet-past_limit 800 1 reopening full {o = closed} {p = small_plan} refl refl refl refl
      refl refl
