-- ===== src/Middleware/Access.antt =====
-- That a request with the token of a login runs as its user (internal/middleware/auth.go and
-- tenant.go with Login of internal/service/auth_service.go).
use Prim.Native.String.{String}
use service_api.Base.{
  ℕ, ◌<◌, ◌≡◌, ap, arith, true, false, Bool-cases, inl, inr, none, some, str_eq, str_eq_iff,
  find_where,
}
use service_api.Apperror.{ok}
use service_api.Domain.Users.{User}
use service_api.Auth.{
  Claims, Crypto, Expiry, Session, TokenResponse, with_email, login, numeric_date, access_expiry,
}
use service_api.Auth.Sessions.{ReadsBack-new_claims, login_grants}
use service_api.Store.{World}
use service_api.Middleware.Isolation.{Handler, tenant_isolation}
use service_api.Middleware.Bearer.{fold_eq, split_space, token_of, caller_of, jwt_auth}

-- A header that has a scheme and a token is not empty.
split_space_nonempty :
    (header : String) {scheme token : String}
    → split_space header ≡ some (scheme, token)
    → str_eq header "" ≡ false
split_space_nonempty header {scheme} {token} parts = elim (Bool-cases (str_eq header "")) [
  | inl empty ↦
      let none_of : split_space header ≡ none = ap split_space ((str_eq_iff header "").0 empty) in
      ground arith
  | inr filled ↦ filled
]

token_of_scheme :
    (header query : String) {scheme token : String}
    → split_space header ≡ some (scheme, token)
    → fold_eq scheme "bearer" ≡ true
    → token_of header query ≡ ok token
unfolding token_of
token_of_scheme header query {scheme} {token} parts bearer =
    let filled = split_space_nonempty header {scheme = scheme} {token = token} parts in ground arith

-- A request that brings the access token of a login in its header, before the token expires, runs
-- with the role and the tenant of the user who logged in, whatever the letters of the scheme. What
-- jwt promises is a hypothesis: a token that was signed, with times in whole seconds, is read back
-- before the moment at which it expires.
pub login_then_jwt_auth :
    {A : Type 0} (c : Crypto) (e : Expiry) (s : Session) (email password header query : String)
    (now : ℕ) (handler : Handler A) (w later : World) {t : TokenResponse} {scheme : String}
    → ((k : Claims) (now : ℕ) (token : String)
        → c.sign k ≡ some token
        → numeric_date k.issued_at ≡ k.issued_at
        → numeric_date k.expires_at ≡ k.expires_at
        → now < k.expires_at
        → c.verify now token ≡ some k)
    → (login c e s email password w).0 ≡ ok t
    → split_space header ≡ some (scheme, t.access_token)
    → fold_eq scheme "bearer" ≡ true
    → now < numeric_date (access_expiry e s.now)
    → (u : User) × (find_where (with_email email) w.tables.users ≡ some u)
      × (jwt_auth c now header query (λ k. tenant_isolation (caller_of k) handler) later
          ≡ tenant_isolation (record { role = u.role; tenant_id = u.tenant_id }) handler later)
unfolding jwt_auth
login_then_jwt_auth {A} c e s email password header query now handler w later {t} {scheme} reads
      given parts bearer fresh =
    let (u, mine, known, good, (signed, again, same)) =
      (login_grants c e s email password w {t = t} given).1 in
    let read =
      ReadsBack-new_claims c u s.access_id s.now (access_expiry e s.now) now t.access_token reads
        signed fresh in
    let token = token_of_scheme header query {scheme = scheme} parts bearer in
    (u, mine, ground (arith, read, token))
