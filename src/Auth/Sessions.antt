-- ===== src/Auth/Sessions.antt =====
-- Who is given tokens, and what stands in them (internal/service/auth_service.go).
use service_api.Base.{
  ℕ, ◌<◌, ◌≡◌, inl, inr, true, some, [], arith, String, find_where, Option-cases,
}
use service_api.Apperror.{ok}
use service_api.Domain.Users.{User}
use service_api.Store.{World, fails, rest}
use service_api.Auth.Tokens.{
  new_claims, numeric_date, Claims, Crypto, Expiry, Session, TokenResponse, access_claims,
  refresh_claims, refresh_expiry, access_expiry, generate_token_pair, with_email, has_id, login,
  refresh_token,
}

-- A pair of tokens that are signed for a user.
abbrev pub SignedFor : Crypto → Expiry → Session → User → TokenResponse → Type 0
SignedFor c e s u r =
    (c.sign (access_claims e s u) ≡ some r.access_token)
    × (c.sign (refresh_claims e s u) ≡ some r.refresh_token)
    × (r.user ≡ u)

-- Login gives tokens only to an active user with that address and that password; they are signed
-- for that user's id, role and tenant; and no row changes.
pub login_grants :
    (c : Crypto) (e : Expiry) (s : Session) (email password : String) (w : World)
    {t : TokenResponse}
    → (login c e s email password w).0 ≡ ok t
    → ((login c e s email password w).1.tables ≡ w.tables)
      × ((u : User) × (find_where (with_email email) w.tables.users ≡ some u)
          × (u.is_active ≡ true)
          × (c.matches u.password_hash password ≡ true)
          × SignedFor c e s u t)
unfolding login generate_token_pair
login_grants c e s email password w {t} given =
    elim (Option-cases (find_where (with_email email) w.tables.users)) [
      | inl unknown ↦ ground arith
      | inr (u, found) ↦ (
        ground arith,
        (u, found, ground arith, ground arith, (ground arith, ground arith, ground arith)),
      )
    ]

-- What jwt promises of a token that was signed, with times in whole seconds.
abbrev pub ReadsBack : Crypto → Type 0
ReadsBack c =
    (k : Claims) (now : ℕ) (token : String)
    → c.sign k ≡ some token
    → numeric_date k.issued_at ≡ k.issued_at
    → numeric_date k.expires_at ≡ k.expires_at
    → now < k.expires_at
    → c.verify now token ≡ some k

numeric_date_twice : (t : ℕ) → numeric_date (numeric_date t) ≡ numeric_date t
numeric_date_twice t = omega arith

-- The claims of a login are read back.
pub ReadsBack-new_claims :
    (c : Crypto) (u : User) (id issued expires now : ℕ) (token : String)
    → ReadsBack c
    → c.sign (new_claims u id issued expires) ≡ some token
    → now < numeric_date expires
    → c.verify now token ≡ some (new_claims u id issued expires)
ReadsBack-new_claims c u id issued expires now token reads signed fresh =
    reads (new_claims u id issued expires) now token signed (numeric_date_twice issued)
      (numeric_date_twice expires) fresh

-- The pair that a login gives can be traded for a new one as long as its tokens have not expired:
-- the refresh token, and the access token just so. The new pair is signed for the user as the table
-- has it by then. What jwt promises is a hypothesis: a token that was signed, with times in whole
-- seconds, is read back before the moment at which it expires.
pub login_then_refresh :
    (c : Crypto) (e : Expiry) (s later : Session) (email password : String) (w w' : World)
    {t : TokenResponse} {u : User}
    → ((k : Claims) (now : ℕ) (token : String)
        → c.sign k ≡ some token
        → numeric_date k.issued_at ≡ k.issued_at
        → numeric_date k.expires_at ≡ k.expires_at
        → now < k.expires_at
        → c.verify now token ≡ some k)
    → (login c e s email password w).0 ≡ ok t
    → w'.script ≡ []
    → find_where (has_id t.user.id) w'.tables.users ≡ some u
    → u.is_active ≡ true
    → later.now < numeric_date (refresh_expiry e s.now)
    → later.now < numeric_date (access_expiry e s.now)
    → ((refresh_token c e later t.refresh_token w').0 ≡ (generate_token_pair c e later u w').0)
      × ((refresh_token c e later t.access_token w').0 ≡ (generate_token_pair c e later u w').0)
unfolding login refresh_token generate_token_pair fails rest
login_then_refresh c e s later email password w w' {t} {u} reads given runs found active fresh
      fresh' =
    let (u', mine, known, good, (signed, again, same)) =
      (login_grants c e s email password w given).1 in
    let read =
      ReadsBack-new_claims c u' s.refresh_id s.now (refresh_expiry e s.now) later.now
        t.refresh_token reads again fresh in
    let read' =
      ReadsBack-new_claims c u' s.access_id s.now (access_expiry e s.now) later.now t.access_token
        reads signed fresh' in
    (ground (arith, read), ground (arith, read'))
