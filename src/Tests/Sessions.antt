-- ===== src/Tests/Sessions.antt =====
-- A cashier who has logged in sends a request.
use service_api.Base.{◌≡◌, refl, arith, some, find_where, wrap64}
use service_api.Domain.Users.{User}
use service_api.Store.{fails, rest}
use service_api.Auth.{generate_token_pair, login, with_email}
use service_api.Users.{get_by_id}
use service_api.Middleware.{tenant_isolation, caller_of, jwt_auth}
use service_api.Tests.Signups.{single}
use service_api.Middleware.Access.{login_then_jwt_auth}
use service_api.Tests.Accounts.{pair, lifetimes, toy, toy_reads, tokens, day}

login_then_jwt_auth_example :
    (u : User) × (find_where (with_email "kasir@x.id") day.tables.users ≡ some u)
    × (jwt_auth toy 2000 "BEARER a" ""
          (λ k. tenant_isolation (caller_of k) (single (get_by_id 9)))
          day
        ≡ tenant_isolation
            (record { role = u.role; tenant_id = u.tenant_id })
            (single (get_by_id 9))
            day)
unfolding login generate_token_pair find_where wrap64 fails rest
login_then_jwt_auth_example =
    login_then_jwt_auth toy lifetimes pair "kasir@x.id" "h0" "BEARER a" "" 2000
      (single (get_by_id 9)) day day {t = tokens} {scheme = "BEARER"} toy_reads refl refl refl
      (omega arith)
