-- ===== src/Auth/Tokens.antt =====
-- `Login`, `RefreshToken` and `generateTokenPair` of internal/service/auth_service.go. The packages
-- bcrypt and jwt are parameters; the configured durations and the clock are arguments.
use service_api.Base.{
  ℕ, ◌*◌, ◌/◌, Bool, Option, ◌==◌, pos, String, str_eq, wrap64, add_duration, find_where,
}
use service_api.Apperror.{unauthorized, internal}
use service_api.Domain.Users.{Role, User}
use service_api.Store.{Db, query_row, pure, raise, branch, case_option, ◌>>=◌}

-- `middleware.Claims` (internal/middleware/auth.go), with the registered claims that are set.
pub record Claims : Type 0 where
  pub user_id : ℕ
  pub role : Role
  pub tenant_id : Option ℕ
  pub issued_at : ℕ
  pub expires_at : ℕ
  pub id : ℕ

-- bcrypt, whose salt is an argument, and jwt under the configured secret: `verify` reads a token
-- that is signed with it and whose expiry lies behind the moment given.
pub record Crypto : Type 0 where
  pub generate : ℕ → String → Option String
  pub matches : String → String → Bool
  pub sign : Claims → Option String
  pub verify : ℕ → String → Option Claims

-- `cfg.JWTExpiryMinutes` and `cfg.JWTRefreshExpiryDays`.
pub record Expiry : Type 0 where
  pub minutes : ℕ
  pub days : ℕ

pub record TokenResponse : Type 0 where
  pub access_token : String
  pub refresh_token : String
  pub expires_at : ℕ
  pub user : User

-- What a call is given from outside: the clock and the ids of the two tokens.
pub record Session : Type 0 where
  pub now : ℕ
  pub access_id : ℕ
  pub refresh_id : ℕ

abbrev minute : ℕ
minute = 60000000000

abbrev day : ℕ
day = 86400000000000

-- `jwt.NewNumericDate`: whole seconds.
abbrev pub second : ℕ
second = 1000000000

abbrev pub numeric_date : ℕ → ℕ
numeric_date t = t / second * second

abbrev pub new_claims : User → ℕ → ℕ → ℕ → Claims
new_claims u id issued expires = record {
  user_id = u.id;
  role = u.role;
  tenant_id = u.tenant_id;
  issued_at = numeric_date issued;
  expires_at = numeric_date expires;
  id = id;
}

abbrev pub access_expiry : Expiry → ℕ → ℕ
access_expiry e now = add_duration now (wrap64 (pos (e.minutes * minute)))

abbrev pub refresh_expiry : Expiry → ℕ → ℕ
refresh_expiry e now = add_duration now (wrap64 (pos (e.days * day)))

abbrev pub access_claims : Expiry → Session → User → Claims
access_claims e s u = new_claims u s.access_id s.now (access_expiry e s.now)

abbrev pub refresh_claims : Expiry → Session → User → Claims
refresh_claims e s u = new_claims u s.refresh_id s.now (refresh_expiry e s.now)

-- `generateTokenPair`
unfoldable pub generate_token_pair : Crypto → Expiry → Session → User → Db TokenResponse
generate_token_pair c e s u =
    case_option (c.sign (access_claims e s u)) (raise (internal "failed to sign access token"))
      (λ access.
        case_option (c.sign (refresh_claims e s u))
          (raise (internal "failed to sign refresh token"))
          (λ refresh. pure (record {
            access_token = access;
            refresh_token = refresh;
            expires_at = access_expiry e s.now;
            user = u;
          })))

abbrev pub with_email : String → User → Bool
with_email email u = str_eq u.email email

abbrev pub has_id : ℕ → User → Bool
has_id id u = u.id == id

-- `Login`
unfoldable pub login : Crypto → Expiry → Session → String → String → Db TokenResponse
login c e s email password = do
  u ←
      query_row (λ t. find_where (with_email email) t.users)
        (unauthorized "invalid email or password") (internal "failed to query user")
  branch u.is_active
      (branch (c.matches u.password_hash password) (generate_token_pair c e s u)
        (raise (unauthorized "invalid email or password")))
      (raise (unauthorized "account is deactivated"))

-- `RefreshToken`
unfoldable pub refresh_token : Crypto → Expiry → Session → String → Db TokenResponse
refresh_token c e s token =
    case_option (c.verify s.now token) (raise (unauthorized "invalid or expired refresh token"))
      (λ claims. do
        u ←
            query_row (λ t. find_where (has_id claims.user_id) t.users)
              (unauthorized "user not found") (internal "failed to query user")
        branch u.is_active (generate_token_pair c e s u)
            (raise (unauthorized "account is deactivated")))
