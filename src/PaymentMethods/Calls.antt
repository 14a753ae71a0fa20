-- ===== src/PaymentMethods/Calls.antt =====
-- `Create`, `Update` and `Delete` of internal/service/payment_method_service.go.
use service_api.Base.{
  text_or, value_or, ℕ, Bool, true, false, ◌||◌, ◌&&◌, none, some, List, [], ◌∷◌, ◌++◌, ◌==◌,
  str_eq, fits_int4, find_where, update_where, count_where, if◌then◌else◌,
}
use service_api.Apperror.{not_found, internal}
use service_api.Domain.Registration.{
  PaymentMethod, CreatePaymentMethodRequest, UpdatePaymentMethodRequest,
}
use service_api.Store.{Tables, Db, attempt, query_row, pure, raise, or_raise, branch, ◌>>=◌}

abbrev method_id_is : ℕ → PaymentMethod → Bool
method_id_is id m = m.id == id

abbrev set_methods : List PaymentMethod → Tables → Tables
set_methods ms t = record t { office = record (t.office) { payment_methods = ms } }

-- The CHECK of the column `type`, and the width of `sort_order`.
abbrev accepted : PaymentMethod → Bool
accepted m =
    (str_eq m.method_type "cash"
      || str_eq m.method_type "qris"
      || str_eq m.method_type "bank_transfer"
      || str_eq m.method_type "ewallet"
      || str_eq m.method_type "other")
    && fits_int4 m.sort_order

abbrev created_method : ℕ → ℕ → ℕ → CreatePaymentMethodRequest → PaymentMethod
created_method new_id now tenant_id req = record {
  id = new_id;
  tenant_id = tenant_id;
  name = req.name;
  method_type = req.method_type;
  is_active = true;
  sort_order = req.sort_order;
  created_at = now;
}

-- `Create`
unfoldable pub create_payment_method : ℕ → ℕ → ℕ → CreatePaymentMethodRequest → Db PaymentMethod
create_payment_method new_id now tenant_id req =
    let m = created_method new_id now tenant_id req in
    attempt (λ t.
      if accepted m then some (m, set_methods (t.office.payment_methods ++ m ∷ []) t) else none)
    >>= or_raise (internal "failed to create payment method")

-- What the request leaves out stays.
abbrev merge_method : UpdatePaymentMethodRequest → PaymentMethod → PaymentMethod
merge_method req m = record m {
  name = text_or req.name m.name;
  method_type = text_or req.method_type m.method_type;
  sort_order = value_or req.sort_order m.sort_order;
  is_active = value_or req.is_active m.is_active;
}

-- The columns of the UPDATE.
abbrev with_method : PaymentMethod → PaymentMethod → PaymentMethod
with_method new m = record m {
  name = new.name;
  method_type = new.method_type;
  sort_order = new.sort_order;
  is_active = new.is_active;
}

-- `Update`
unfoldable pub update_payment_method : ℕ → UpdatePaymentMethodRequest → Db PaymentMethod
update_payment_method id req = do
  m ←
      query_row (λ t. find_where (method_id_is id) t.office.payment_methods)
        (not_found "payment method not found") (internal "failed to get payment method")
  attempt (λ t.
        if accepted (merge_method req m)
        then some (
          merge_method req m,
          set_methods
              (update_where (method_id_is m.id) (with_method (merge_method req m))
                t.office.payment_methods)
              t,
        )
        else none)
      >>= or_raise (internal "failed to update payment method")

-- `Delete`: the row stays, and is inactive.
unfoldable pub delete_payment_method : ℕ → Db (Unit {0})
delete_payment_method id = do
  affected ←
      attempt (λ t. some (
        count_where (method_id_is id) t.office.payment_methods,
        set_methods
            (update_where (method_id_is id) (λ m. record m { is_active = false })
              t.office.payment_methods)
            t,
      ))
      >>= or_raise (internal "failed to delete payment method")
  branch (affected == 0) (raise (not_found "payment method not found")) (pure tt)
