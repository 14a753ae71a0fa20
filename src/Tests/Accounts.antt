-- ===== src/Tests/Accounts.antt =====
-- A user who logs in, and one who has forgotten the password.
use service_api.Base.{
  ℕ, ◌≡◌, inl, inr, refl, ap, sym, arith, Bool, true, false, ◌&&◌, ◌==◌, ltb, Bool-cases,
  if◌then◌else◌, Option, none, some, String, str_eq, str_eq_refl, find_where, update_where,
  count_where, wrap64,
}
use service_api.Apperror.{ok, err}
use service_api.Domain.Orders.{received}
use service_api.Domain.Payments.{pending}
use service_api.Domain.Users.{Role}
use service_api.Store.{World, fails, rest}
use service_api.Auth.{
  Claims, Crypto, Expiry, Session, TokenResponse, generate_token_pair, login, refresh_token,
  reset_password, write_password,
}
use service_api.Auth.Sessions.{ReadsBack, login_then_refresh}
use service_api.Auth.Resets.{used_or_unknown, reset_password_once, reset_then_login}
use service_api.Tests.Data.{user, reset_token, world}

abbrev pub pair : Session
pair = record { now = 1000; access_id = 21; refresh_id = 22 }

abbrev pub later : Session
later = record { now = 2000; access_id = 23; refresh_id = 24 }

abbrev pub lifetimes : Expiry
lifetimes = record { minutes = 15; days = 7 }

abbrev pub claims : ℕ → ℕ → Claims
claims id expires = record {
  user_id = 9;
  role = Role.cashier;
  tenant_id = some 5;
  issued_at = 0;
  expires_at = expires;
  id = id;
}

abbrev is_cashier : Role → Bool
is_cashier Role.cashier = true
is_cashier _ = false

abbrev is_tenant : Option ℕ → Bool
is_tenant none = false
is_tenant (some t) = t == 5

abbrev is_claims : ℕ → ℕ → Claims → Bool
is_claims id expires k =
    k.user_id == 9
    && is_cashier k.role
    && is_tenant k.tenant_id
    && k.issued_at == 0
    && k.expires_at == expires
    && k.id == id

-- A cipher that can sign the claims of one login and no others.
abbrev pub toy : Crypto
toy = record {
  generate = λ salt p. some p;
  matches = λ h p. str_eq h p;
  sign = λ k.
      if is_claims 21 900000000000 k
      then some "a"
      else if is_claims 22 604800000000000 k
      then some "r"
      else none;
  verify = λ now s.
      if str_eq s "a" && ltb now 900000000000
      then some (claims 21 900000000000)
      else if str_eq s "r" && ltb now 604800000000000
      then some (claims 22 604800000000000)
      else none;
}

is_claims-≡ : (id expires : ℕ) (k : Claims) → is_claims id expires k ≡ true → k ≡ claims id expires
is_claims-≡ id expires k h = ground arith

pub toy_reads : ReadsBack toy
toy_reads k now token signed whole whole' fresh = elim (Bool-cases (is_claims 21 900000000000 k)) [
  | inl a ↦
      let is = is_claims-≡ 21 900000000000 k a in
      let named : token ≡ "a" = ground arith in
      let early : ltb now 900000000000 ≡ true = ground arith in
      rw named (rw early (ap some (sym is)))
  | inr other ↦ elim (Bool-cases (is_claims 22 604800000000000 k)) [
    | inl r ↦
        let is = is_claims-≡ 22 604800000000000 k r in
        let named : token ≡ "r" = ground arith in
        let early : ltb now 604800000000000 ≡ true = ground arith in
        rw named (rw early (ap some (sym is)))
    | inr none_of ↦ ground arith
  ]
]

toy_matches : (salt : ℕ) (p h : String) → toy.generate salt p ≡ some h → toy.matches h p ≡ true
toy_matches salt p h hashed = ground (arith, str_eq_refl p)

abbrev pub day : World
day = world received pending

abbrev pub tokens : TokenResponse
tokens = record { access_token = "a"; refresh_token = "r"; expires_at = 900000001000; user = user }

login_then_refresh_example :
    ((refresh_token toy lifetimes later "r" day).0
      ≡ (generate_token_pair toy lifetimes later user day).0)
    × ((refresh_token toy lifetimes later "a" day).0
        ≡ (generate_token_pair toy lifetimes later user day).0)
unfolding login generate_token_pair find_where wrap64 fails rest
login_then_refresh_example =
    login_then_refresh toy lifetimes pair later "kasir@x.id" "h0" day day {t = tokens} {u = user}
      toy_reads refl refl refl refl (omega arith) (omega arith)

reset_password_once_example :
    let w' = (reset_password toy 0 50 "tok" "baru" day).1 in
    ((reset_password toy 0 51 "tok" "lagi" w').0 ≡ err used_or_unknown)
    × ((reset_password toy 0 51 "tok" "lagi" w').1.tables ≡ w'.tables)
unfolding reset_password write_password find_where update_where count_where fails rest
reset_password_once_example =
    reset_password_once toy 0 50 0 51 "tok" "baru" "lagi" day (omega arith) refl refl

reset_then_login_example :
    let w' = (reset_password toy 0 50 "tok" "baru" day).1 in
    (t : TokenResponse) × ((login toy lifetimes pair "kasir@x.id" "baru" w').0 ≡ ok t)
    × (t.access_token ≡ "a")
    × (t.user.id ≡ 9)
unfolding reset_password write_password find_where update_where wrap64 fails rest
reset_then_login_example =
    reset_then_login toy lifetimes pair 0 50 "tok" "baru" day {r = reset_token} {u = user}
      {access = "a"} {refresh = "r"} toy_matches refl refl refl refl refl refl refl refl
