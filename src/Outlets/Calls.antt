-- ===== src/Outlets/Calls.antt =====
-- `GetByID`, `Create`, `Update` and `Delete` of internal/service/outlet_service.go, and `Create` of
-- internal/handler/owner/outlet_handler.go behind the decoding of its request.
use service_api.Base.{
  text_or, value_or, ℕ, Bool, true, false, some, [], ◌∷◌, ◌++◌, ◌==◌, find_where, update_where,
  count_where,
}
use service_api.Apperror.{not_found, internal}
use service_api.Domain.Billing.{Outlet, CreateOutletRequest, UpdateOutletRequest}
use service_api.Store.{Db, attempt, exec, query_row, pure, raise, or_raise, branch, ◌>>=◌, ◌>>◌}
use service_api.Billing.{check_outlet_limit}

abbrev pub outlet_id_is : ℕ → Outlet → Bool
outlet_id_is id o = o.id == id

-- `GetByID`
unfoldable pub get_outlet : ℕ → Db Outlet
get_outlet id =
    query_row (λ t. find_where (outlet_id_is id) t.outlets) (not_found "outlet not found")
      (internal "failed to get outlet")

-- The clock is read twice, at `created` and at `updated`.
abbrev pub new_outlet : ℕ → ℕ → ℕ → ℕ → CreateOutletRequest → Outlet
new_outlet new_id created updated tenant_id req = record {
  id = new_id;
  tenant_id = tenant_id;
  name = req.name;
  address = req.address;
  phone = req.phone;
  is_active = true;
  created_at = created;
  updated_at = updated;
}

-- `Create`
unfoldable pub create_outlet : ℕ → ℕ → ℕ → ℕ → CreateOutletRequest → Db Outlet
create_outlet new_id created updated tenant_id req =
    let o = new_outlet new_id created updated tenant_id req in
    exec (λ t. record t { outlets = t.outlets ++ o ∷ [] }) (internal "failed to create outlet")
    >> pure o

-- The handler of the owner: the limit of the plan first.
unfoldable pub owner_create : ℕ → ℕ → ℕ → ℕ → ℕ → CreateOutletRequest → Db Outlet
owner_create period_start new_id created updated tenant_id req =
    check_outlet_limit tenant_id period_start >> create_outlet new_id created updated tenant_id req

-- What the request leaves out stays.
abbrev pub merge_outlet : ℕ → UpdateOutletRequest → Outlet → Outlet
merge_outlet now req o = record o {
  name = text_or req.name o.name;
  address = text_or req.address o.address;
  phone = text_or req.phone o.phone;
  is_active = value_or req.is_active o.is_active;
  updated_at = now;
}

-- The columns of the UPDATE.
abbrev pub with_outlet : Outlet → Outlet → Outlet
with_outlet new o = record o {
  name = new.name;
  address = new.address;
  phone = new.phone;
  is_active = new.is_active;
  updated_at = new.updated_at;
}

-- `Update`
unfoldable pub update_outlet : ℕ → ℕ → UpdateOutletRequest → Db Outlet
update_outlet now id req = do
  o ← get_outlet id
  exec
      (λ t. record t {
        outlets = update_where (outlet_id_is o.id) (with_outlet (merge_outlet now req o)) t.outlets;
      })
      (internal "failed to update outlet")
  pure (merge_outlet now req o)

abbrev pub close_outlet : ℕ → Outlet → Outlet
close_outlet now o = record o { is_active = false; updated_at = now }

-- `Delete`: the row stays, and is inactive.
unfoldable pub delete_outlet : ℕ → ℕ → Db (Unit {0})
delete_outlet now id = do
  affected ←
      attempt (λ t. some (
        count_where (outlet_id_is id) t.outlets,
        record t { outlets = update_where (outlet_id_is id) (close_outlet now) t.outlets },
      ))
      >>= or_raise (internal "failed to delete outlet")
  branch (affected == 0) (raise (not_found "outlet not found")) (pure tt)
