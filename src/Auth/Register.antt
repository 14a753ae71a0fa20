-- ===== src/Auth/Register.antt =====
-- `Register` of internal/service/auth_service.go: its statements run in a transaction of their own,
-- which is committed at the end and rolled back at every return before.
use service_api.Base.{
  ℕ, Bool, true, false, Option, none, some, List, [], ◌∷◌, ◌++◌, ◌==◌, pos, String, find_where,
  select_where, count_where,
}
use service_api.Apperror.{Result, ok, err, validation, internal}
use service_api.Domain.Users.{User, Tenant, tenant_owner}
use service_api.Domain.Catalog.{ServiceTemplate, TenantServicePrice}
use service_api.Domain.Registration.{PaymentMethod, RegisterRequest}
use service_api.Store.{
  World, Tables, Db, attempt, select, exec, pure, raise, or_raise, branch, case_option, ◌>>=◌, ◌>>◌,
}
use service_api.Base.{str_eq, append_text}
use service_api.Auth.Tokens.{
  Crypto, Expiry, Session, TokenResponse, generate_token_pair, with_email,
}

-- What one call is given from outside: the new ids, with one for the price of each template, the
-- clock and the salt.
pub record Registration : Type 0 where
  pub tenant_id : ℕ
  pub user_id : ℕ
  pub outlet_id : ℕ
  pub method_ids : ℕ × ℕ × ℕ
  pub price_id : ℕ → ℕ
  pub now : ℕ
  pub salt : ℕ

abbrev pub with_slug : String → Tenant → Bool
with_slug slug t = str_eq t.slug slug

-- The INSERTs, with the unique slug and the unique email.
abbrev pub insert_tenant : Tenant → Tables → Option (Unit {0} × Tables)
insert_tenant x t = elim (find_where (with_slug x.slug) t.tenants) [
  | none ↦ some (tt, record t { tenants = t.tenants ++ x ∷ [] })
  | some _ ↦ none
]

abbrev pub insert_user : User → Tables → Option (Unit {0} × Tables)
insert_user u t = elim (find_where (with_email u.email) t.users) [
  | none ↦ some (tt, record t { users = t.users ++ u ∷ [] })
  | some _ ↦ none
]

abbrev pub new_tenant : Registration → RegisterRequest → Tenant
new_tenant g req = record {
  id = g.tenant_id;
  name = req.business_name;
  slug = req.slug;
  is_active = true;
  created_at = g.now;
  updated_at = g.now;
}

abbrev pub new_owner : Registration → RegisterRequest → String → User
new_owner g req hash = record {
  id = g.user_id;
  email = req.email;
  name = req.owner_name;
  password_hash = hash;
  role = tenant_owner;
  tenant_id = some g.tenant_id;
  is_active = true;
  created_at = g.now;
  updated_at = g.now;
}

abbrev pub new_method : Registration → ℕ → String → String → ℕ → PaymentMethod
new_method g id name type_name order = record {
  id = id;
  tenant_id = g.tenant_id;
  name = name;
  method_type = type_name;
  is_active = true;
  sort_order = pos order;
  created_at = g.now;
}

abbrev pub insert_method : PaymentMethod → Tables → Tables
insert_method m t = record t {
  office = record (t.office) { payment_methods = t.office.payment_methods ++ m ∷ [] };
}

abbrev pub add_method : Registration → ℕ → String → String → ℕ → Db (Unit {0})
add_method g id name type_name order =
    exec (insert_method (new_method g id name type_name order))
      (internal "failed to create default payment methods")

-- The three default methods, one INSERT after the other.
unfoldable pub add_methods : Registration → Db (Unit {0})
add_methods g =
    add_method g g.method_ids.0 "Tunai" "cash" 1
    >> add_method g g.method_ids.1 "QRIS" "qris" 2
    >> add_method g g.method_ids.2 "Transfer Bank" "bank_transfer" 3

-- `INSERT INTO tenant_service_prices ... SELECT ... FROM service_templates WHERE is_active = true`
abbrev pub base_prices : Registration → List ServiceTemplate → List TenantServicePrice
base_prices g [] = []
base_prices g (s ∷ ss) =
    record {
      id = g.price_id s.id;
      tenant_id = g.tenant_id;
      service_template_id = s.id;
      price = s.base_price;
      is_active = true;
      is_quick_add = false;
    }
    ∷ base_prices g ss

abbrev pub copy_prices : Registration → Tables → Tables
copy_prices g t = record t {
  office = record (t.office) {
    service_prices =
        t.office.service_prices
        ++ base_prices g (select_where (λ s. s.is_active) t.office.service_templates);
  };
}

abbrev pub add_outlet : Registration → RegisterRequest → Tables → Tables
add_outlet g req t = record t {
  outlets =
      t.outlets
      ++ record {
        id = g.outlet_id;
        tenant_id = g.tenant_id;
        name = append_text req.business_name " - Pusat";
        address = "";
        phone = "";
        is_active = true;
        created_at = g.now;
        updated_at = g.now;
      }
        ∷ [];
}

abbrev pub own_method : ℕ → PaymentMethod → Bool
own_method tenant_id m = m.tenant_id == tenant_id

-- What is created behind the owner.
unfoldable pub add_defaults : Registration → RegisterRequest → Db (Unit {0})
add_defaults g req = do
  exec (add_outlet g req) (internal "failed to create default outlet")
  methods ←
      select (λ t. count_where (own_method g.tenant_id) t.office.payment_methods)
        (internal "failed to check payment methods")
  branch (methods == 0) (add_methods g) (pure tt)
  exec (copy_prices g) (internal "failed to create default service prices")

-- The statements between BEGIN and COMMIT: the checks of the slug and of the email,
unfoldable pub check_free : RegisterRequest → Db (Unit {0})
check_free req = do
  slug_taken ←
      select (λ t. find_where (with_slug req.slug) t.tenants) (internal "failed to check slug")
  case_option slug_taken (pure tt) (λ x. raise (validation "slug already taken"))
  email_taken ←
      select (λ t. find_where (with_email req.email) t.users) (internal "failed to check email")
  case_option email_taken (pure tt) (λ x. raise (validation "email already registered"))

-- the user with the hashed password, and what is created behind it,
unfoldable pub add_owner : Registration → RegisterRequest → String → Db User
add_owner g req hash = do
  attempt (insert_user (new_owner g req hash)) >>= or_raise (internal "failed to create user")
  add_defaults g req
  pure (new_owner g req hash)

-- and before it the tenant.
unfoldable pub add_tenant : Crypto → Registration → RegisterRequest → Db User
add_tenant c g req = do
  attempt (insert_tenant (new_tenant g req)) >>= or_raise (internal "failed to create tenant")
  case_option (c.generate g.salt req.password) (raise (internal "failed to hash password"))
      (add_owner g req)

unfoldable pub register_rows : Crypto → Registration → RegisterRequest → Db User
register_rows c g req = check_free req >> add_tenant c g req

-- BEGIN, the statements, and COMMIT; the tables at the start come back at any error.
abbrev pub roll_back : {A : Type 0} → Tables → Result A × World → Result A × World
roll_back t (ok a, w) = (ok a, w)
roll_back t (err e, w) = (err e, record w { tables = t })

abbrev pub in_transaction : {A : Type 0} → Db A → Db A
in_transaction m w = roll_back w.tables (
    (exec (λ t. t) (internal "failed to begin transaction")
        >> (m >>= λ a. exec (λ t. t) (internal "failed to commit transaction") >> pure a))
      w)

-- `Register`
unfoldable pub register :
    Crypto → Expiry → Session → Registration → RegisterRequest → Db TokenResponse
register c e s g req = do
  owner ← in_transaction (register_rows c g req)
  generate_token_pair c e s owner
