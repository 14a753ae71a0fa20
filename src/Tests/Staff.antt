-- ===== src/Tests/Staff.antt =====
-- A cashier who is hired, and one who is dismissed.
use service_api.Base.{
  ◌≡◌, ◌≢◌, refl, true, false, ◌==◌, if◌then◌else◌, some, [], ◌∷◌, find_where, update_where,
}
use service_api.Apperror.{ok}
use service_api.Domain.Users.{cashier, CreateUserRequest}
use service_api.Store.{World, no_rows, calm, fails, rest}
use service_api.Auth.{TokenResponse, access_claims, login, refresh_token}
use service_api.Users.{to_user_response, merge_user, create_user, get_by_id, update_user}
use service_api.Users.Access.{update_user_locks, create_user_then_login}
use service_api.Tests.Data.{plain, user}
use service_api.Tests.Accounts.{later, lifetimes, claims, toy, tokens}
use service_api.Tests.Signups.{signer, signer_matches}

abbrev shop : World
shop = calm (record no_rows { users = user ∷ [] })

abbrev dismissed : World
dismissed = (update_user 500 9 "" (some false) shop).1

update_user_locks_example :
    ((login toy lifetimes later "kasir@x.id" "h0" dismissed).0 ≢ ok tokens)
    × ((refresh_token toy lifetimes later "r" dismissed).0 ≢ ok tokens)
unfolding update_user get_by_id find_where update_where fails rest
update_user_locks_example =
    update_user_locks toy lifetimes later 500 9 "" "h0" "r" shop dismissed
      {r = merge_user "" (some false) (to_user_response user)} {u = user}
      {k = claims 22 604800000000000} refl refl refl refl refl refl tokens

abbrev hired : CreateUserRequest
hired = record {
  email = "budi@x.id";
  password = "rahasia";
  name = "Budi";
  role = cashier;
  tenant_id = "u2";
}

abbrev opened_account : World
opened_account = calm (create_user signer plain 40 600 0 hired shop).1.tables

create_user_then_login_example :
    (t : TokenResponse) × ((login signer lifetimes later "budi@x.id" "rahasia" opened_account).0
      ≡ ok t)
    × (signer.sign (access_claims lifetimes later t.user) ≡ some t.access_token)
    × (t.user.id ≡ 40)
    × (t.user.role ≡ cashier)
    × (t.user.tenant_id ≡ some 2)
unfolding create_user find_where fails rest
create_user_then_login_example =
    create_user_then_login signer plain lifetimes later 40 600 0 hired shop
      {r = record {
        id = 40;
        email = "budi@x.id";
        name = "Budi";
        role = cashier;
        tenant_id = some 2;
        is_active = true;
        created_at = 600;
        updated_at = 600;
      }}
      signer_matches (λ k. (if k.id == 21 then "a" else if k.id == 23 then "b" else "r", refl)) refl
