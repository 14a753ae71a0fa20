-- ===== src/Tests/Signups.antt =====
-- A laundry that registers, and a request that its owner sends.
use service_api.Base.{
  ℕ, ◌≡◌, ◌⊎◌, refl, arith, true, ◌==◌, if◌then◌else◌, none, some, String, str_eq, str_eq_refl,
  find_where, select_where, count_where, wrap64,
}
use service_api.Apperror.{ok}
use service_api.Domain.Users.{tenant_owner}
use service_api.Domain.Registration.{RegisterRequest}
use service_api.Store.{Db, no_rows, calm, fails, rest}
use service_api.Domain.Billing.{Outlet}
use service_api.Outlets.{create_outlet}
use service_api.Auth.{
  Crypto, TokenResponse, Registration, generate_token_pair, login, register, register_rows,
  check_free, add_tenant, add_owner, add_defaults, add_methods, new_owner,
}
use service_api.Auth.Signup.{registered}
use service_api.Auth.Owners.{register_all_or_nothing, register_then_login}
use service_api.Middleware.{Handler, Caller, tenant_isolation}
use service_api.Middleware.Scope.{Served, tenant_isolation_serves}
use service_api.Tests.Accounts.{pair, later, lifetimes}

abbrev pub signer : Crypto
signer = record {
  generate = λ salt p. some p;
  matches = λ h p. str_eq h p;
  sign = λ k. some (if k.id == 21 then "a" else if k.id == 23 then "b" else "r");
  verify = λ now s. none;
}

pub signer_matches :
    (salt : ℕ) (p h : String) → signer.generate salt p ≡ some h → signer.matches h p ≡ true
signer_matches salt p h hashed = ground (arith, str_eq_refl p)

abbrev signup : Registration
signup = record {
  tenant_id = 30;
  user_id = 31;
  outlet_id = 32;
  method_ids = (33, 34, 35);
  price_id = λ s. s;
  now = 900;
  salt = 0;
}

abbrev request : RegisterRequest
request = record {
  business_name = "Bersih";
  slug = "bersih";
  owner_name = "Ani";
  email = "ani@x.id";
  password = "rahasia";
}

abbrev answer : TokenResponse
answer = record {
  access_token = "a";
  refresh_token = "r";
  expires_at = 900000001000;
  user = new_owner signup request "rahasia";
}

register_all_or_nothing_example :
    let t = (register signer lifetimes pair signup request (calm no_rows)).1.tables in
    (t ≡ no_rows)
    ⊎ ((hash : String) × (some "rahasia" ≡ some hash)
        × (t ≡ registered signup request hash no_rows))
register_all_or_nothing_example =
    register_all_or_nothing signer lifetimes pair signup request (calm no_rows)

register_then_login_example :
    let later_on = calm (register signer lifetimes pair signup request (calm no_rows)).1.tables in
    (r : TokenResponse) × ((login signer lifetimes later "ani@x.id" "rahasia" later_on).0 ≡ ok r)
    × (r.access_token ≡ "b")
    × (r.user.id ≡ 31)
    × (r.user.tenant_id ≡ some 30)
unfolding register register_rows check_free add_tenant add_owner add_defaults add_methods
    generate_token_pair find_where select_where count_where wrap64 fails rest
register_then_login_example =
    register_then_login signer lifetimes pair later signup request (calm no_rows) {t = answer}
      {access = "b"} {refresh = "r"} signer_matches refl refl refl

abbrev owner : Caller
owner = record { role = tenant_owner; tenant_id = some 30 }

-- A call of one statement, which fails where the script says so.
abbrev pub single : {A : Type 0} → Db A → Handler A
single m s w = let (r, w') = m w in (record { answer = r; aborted = fails w.script }, w')

abbrev second_outlet : Handler Outlet
second_outlet =
    single (create_outlet 36 910 911 30 (record { name = "Cabang"; address = ""; phone = "" }))

tenant_isolation_serves_example :
    Served owner second_outlet (calm no_rows) (tenant_isolation owner second_outlet (calm no_rows))
tenant_isolation_serves_example = tenant_isolation_serves owner second_outlet (calm no_rows)
