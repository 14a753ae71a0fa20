-- ===== src/Users/Calls.antt =====
-- `Create`, `UpdateUser` and `GetByID` of internal/service/user_service.go. A `UserResponse` is a
-- user without the hash of its password.
use service_api.Base.{
  text_or, value_or, ℕ, Bool, true, false, Option, none, some, String, find_where, update_where,
  if◌then◌else◌,
}
use service_api.Apperror.{not_found, conflict, validation, internal}
use service_api.Domain.Users.{Role, other, User, UserResponse, CreateUserRequest}
use service_api.External.{External}
use service_api.Store.{
  Db, attempt, select, query_row, pure, raise, or_raise, case_option, ◌>>=◌, ◌>>◌,
}
use service_api.Auth.{Crypto, with_email, has_id, insert_user}

-- `domain.ToUserResponse`
abbrev pub to_user_response : User → UserResponse
to_user_response u = record {
  id = u.id;
  email = u.email;
  name = u.name;
  role = u.role;
  tenant_id = u.tenant_id;
  is_active = u.is_active;
  created_at = u.created_at;
  updated_at = u.updated_at;
}

-- The CHECK of the column `role`.
abbrev known_role : Role → Bool
known_role (other _) = false
known_role _ = true

abbrev pub new_user : ℕ → ℕ → ℕ → CreateUserRequest → String → User
new_user new_id now tenant_id req hash = record {
  id = new_id;
  email = req.email;
  name = req.name;
  password_hash = hash;
  role = req.role;
  tenant_id = some tenant_id;
  is_active = true;
  created_at = now;
  updated_at = now;
}

abbrev pub store_user : User → Db UserResponse
store_user u = do
  attempt (λ t. if known_role u.role then insert_user u t else none)
      >>= or_raise (internal "failed to create user")
  pure (to_user_response u)

-- `Create`: the new id, the clock and the salt of the hash are arguments.
unfoldable pub create_user : Crypto → External → ℕ → ℕ → ℕ → CreateUserRequest → Db UserResponse
create_user c ext new_id now salt req = do
  taken ← select (λ t. find_where (with_email req.email) t.users) (internal "failed to check email")
  case_option taken (pure tt) (λ u. raise (conflict "user with this email already exists"))
  case_option (c.generate salt req.password) (raise (internal "failed to hash password")) (λ hash.
      case_option (ext.parse_uuid req.tenant_id) (raise (validation "invalid tenant_id"))
        (λ tenant_id. store_user (new_user new_id now tenant_id req hash)))

-- `GetByID`
unfoldable pub get_by_id : ℕ → Db UserResponse
get_by_id id = do
  u ←
      query_row (λ t. find_where (has_id id) t.users) (not_found "user not found")
        (internal "failed to fetch user")
  pure (to_user_response u)

-- What the call leaves out stays; the answer keeps the old time of the last change.
abbrev pub merge_user : String → Option Bool → UserResponse → UserResponse
merge_user name is_active u = record u {
  name = text_or name u.name;
  is_active = value_or is_active u.is_active;
}

-- The columns of the UPDATE.
abbrev pub with_user : ℕ → UserResponse → User → User
with_user now r u = record u { name = r.name; is_active = r.is_active; updated_at = now }

-- `UpdateUser`; it does not use its outlet, and `now` is the time of the database.
unfoldable pub update_user : ℕ → ℕ → String → Option Bool → Db UserResponse
update_user now id name is_active = do
  u ← get_by_id id
  attempt (λ t. some (
    tt,
    record t {
      users = update_where (has_id u.id) (with_user now (merge_user name is_active u)) t.users;
    },
  ))
      >>= or_raise (internal "failed to update user")
  pure (merge_user name is_active u)
