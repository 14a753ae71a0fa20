-- ===== src/Middleware/Bearer.antt =====
-- `JWTAuth` (internal/middleware/auth.go).
use Prim.Native.Char.{Char, code}
use Prim.Native.String.{String, [], ◌∷◌}
use service_api.Base.{
  ℕ, ◌+◌, ◌==◌, Bool, true, false, ◌&&◌, ◌||◌, Option, none, some, str_eq, if◌then◌else◌,
}
use service_api.Apperror.{Result, ok, err, unauthorized}
use service_api.Auth.{Claims, Crypto}
use service_api.Store.{Db, raise, case_option}
use service_api.Middleware.Isolation.{Caller}

-- `strings.EqualFold` with a text of small letters among which no k and no s is.
abbrev pub fold_eq : String → String → Bool
fold_eq [] [] = true
fold_eq (c ∷ s) (d ∷ t) = (code c == code d || code c + 32 == code d) && fold_eq s t
fold_eq _ _ = false

-- `strings.SplitN(s, " ", 2)` where it has two parts.
abbrev put_before : Char → Option (String × String) → Option (String × String)
put_before c none = none
put_before c (some (s, t)) = some (c ∷ s, t)

abbrev pub split_space : String → Option (String × String)
split_space [] = none
split_space (c ∷ s) =
    let rest = split_space s in if code c == 32 then some ([], s) else put_before c rest

-- The token: of the header `Authorization`, or, where that is missing or empty, of the query.
abbrev of_header : Option (String × String) → Result String
of_header none = err (unauthorized "invalid authorization header format")
of_header (some (scheme, token)) =
    if fold_eq scheme "bearer"
    then ok token
    else err (unauthorized "invalid authorization header format")

unfoldable pub token_of : String → String → Result String
token_of header query =
    if str_eq header ""
    then (if str_eq query "" then err (unauthorized "missing authorization") else ok query)
    else of_header (split_space header)

-- What GetUserRole and GetTenantID read from the context.
abbrev pub caller_of : Claims → Caller
caller_of k = record { role = k.role; tenant_id = k.tenant_id }

-- `JWTAuth`: `c.verify` is jwt under the secret, at the moment `now`.
unfoldable pub jwt_auth : {A : Type 0} → Crypto → ℕ → String → String → (Claims → Db A) → Db A
jwt_auth c now header query next w = elim (token_of header query) [
  | err x ↦ (err x, w)
  | ok token ↦
      case_option (c.verify now token) (raise (unauthorized "invalid or expired token")) next w
]
