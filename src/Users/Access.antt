-- ===== src/Users/Access.antt =====
-- Who still gets tokens: a new user, and one that is deactivated (internal/service/user_service.go
-- with Login and RefreshToken of internal/service/auth_service.go).
use service_api.Base.{
  ℕ, ◌≡◌, ◌≢◌, ◌∙◌, sym, ap, refl, arith, inl, inr, Bool, true, false, Bool-cases, Option-cases,
  Option, none, some, List, [], ◌∷◌, ◌++◌, String, str_eq_refl, find_where, find_where_passes,
  find_where-snoc, update_where,
}
use service_api.Apperror.{ok}
use service_api.Domain.Users.{User, UserResponse, CreateUserRequest}
use service_api.External.{External}
use service_api.Store.{World, fails, rest, calm}
use service_api.Auth.{
  Claims, Crypto, Expiry, Session, TokenResponse, with_email, has_id, login, refresh_token,
  generate_token_pair, access_claims, refresh_claims, access_expiry,
}
use service_api.Users.Calls.{
  to_user_response, new_user, create_user, get_by_id, merge_user, with_user, update_user,
}

module _ {A : Type 0} where
  -- The row that is found is the updated one, where the update is of it.
  find_where-update_where_hit :
      (p q : A → Bool) (f : A → A) (xs : List A) {x : A}
      → ((y : A) → q (f y) ≡ q y)
      → find_where q xs ≡ some x
      → p x ≡ true
      → find_where q (update_where p f xs) ≡ some (f x)
  unfolding find_where update_where
  find_where-update_where_hit p q f [] keep h hit = cc
  find_where-update_where_hit p q f (y ∷ xs) {x} keep h hit = elim (Bool-cases (q y)) [
    | inl e ↦ let same : y ≡ x = ground arith in ground (arith, keep y, keep x)
    | inr e ↦
        let ih = find_where-update_where_hit p q f xs {x = x} keep (rw e at h) hit in
        ground (arith, keep y, ih)
  ]

update_user_done :
    (now id : ℕ) (name : String) (active : Option Bool) (w : World) {r : UserResponse}
    → (update_user now id name active w).0 ≡ ok r
    → (u : User) × (find_where (has_id id) w.tables.users ≡ some u)
      × (r ≡ merge_user name active (to_user_response u))
      × ((update_user now id name active w).1.tables.users
          ≡ update_where (has_id id) (with_user now r) w.tables.users)
unfolding update_user get_by_id
update_user_done now id name active w {r} done =
    elim (Option-cases (find_where (has_id id) w.tables.users)) [
      | inl missing ↦ ground arith
      | inr (u, found) ↦
          let hit = find_where_passes (has_id id) w.tables.users {x = u} found in
          let same : u.id ≡ id = ground arith in (u, found, ground arith, ground arith)
    ]

-- A user who is deactivated gets no tokens any more, neither by the email and a password nor for a
-- token from before, at whatever moment and whichever statements fail, as long as the users stay as
-- the call left them.
pub update_user_locks :
    (c : Crypto) (e : Expiry) (s : Session) (now id : ℕ) (name password token : String)
    (w later : World) {r : UserResponse} {u : User} {k : Claims}
    → (update_user now id name (some false) w).0 ≡ ok r
    → later.tables.users ≡ (update_user now id name (some false) w).1.tables.users
    → find_where (with_email u.email) w.tables.users ≡ some u
    → u.id ≡ id
    → c.verify s.now token ≡ some k
    → k.user_id ≡ id
    → (t : TokenResponse)
    → ((login c e s u.email password later).0 ≢ ok t) × ((refresh_token c e s token later).0 ≢ ok t)
unfolding login refresh_token
update_user_locks c e s now id name password token w later {r} {u} {k} done same known is read of
      t =
    let (v, found, answer, users) = update_user_done now id name (some false) w {r = r} done in
    let locked : r.is_active ≡ false = ap (λ r. r.is_active) answer in
    let hit : has_id id u ≡ true = ground arith in
    let by_email : find_where (with_email u.email) later.tables.users ≡ some (with_user now r u) =
      rw (same ∙ users) (
        find_where-update_where_hit (has_id id) (with_email u.email) (with_user now r)
          w.tables.users {x = u} (λ y. refl) known hit) in
    let hit' = find_where_passes (has_id id) w.tables.users {x = v} found in
    let by_id : find_where (has_id k.user_id) later.tables.users ≡ some (with_user now r v) =
      rw of (
        rw (same ∙ users) (
          find_where-update_where_hit (has_id id) (has_id id) (with_user now r) w.tables.users
            {x = v} (λ y. refl) found hit')) in
    (λ got. ground (arith, by_email, locked), λ got. ground (arith, by_id, locked))

create_user_done :
    (c : Crypto) (ext : External) (new_id now salt : ℕ) (req : CreateUserRequest) (w : World)
    {r : UserResponse}
    → (create_user c ext new_id now salt req w).0 ≡ ok r
    → (hash : String) × (tenant_id : ℕ) × (c.generate salt req.password ≡ some hash)
      × (ext.parse_uuid req.tenant_id ≡ some tenant_id)
      × (find_where (with_email req.email) w.tables.users ≡ none)
      × ((create_user c ext new_id now salt req w).1.tables.users
          ≡ w.tables.users ++ new_user new_id now tenant_id req hash ∷ [])
unfolding create_user
create_user_done c ext new_id now salt req w {r} done =
    elim (Option-cases (c.generate salt req.password)) [
      | inl failed ↦ ground arith
      | inr (hash, hashed) ↦ elim (Option-cases (ext.parse_uuid req.tenant_id)) [
        | inl invalid ↦ ground arith
        | inr (tenant_id, parsed) ↦ (hash, tenant_id, hashed, parsed, ground arith, ground arith)
      ]
    ]

-- A user who has been created logs in with the email and the password of the request, where a hash
-- matches the password that it was made from and the tokens can be signed, and the token is for the
-- role and the tenant of the request.
pub create_user_then_login :
    (c : Crypto) (ext : External) (e : Expiry) (s : Session) (new_id now salt : ℕ)
    (req : CreateUserRequest) (w : World) {r : UserResponse}
    → ((salt : ℕ) (p h : String) → c.generate salt p ≡ some h → c.matches h p ≡ true)
    → ((k : Claims) → (token : String) × (c.sign k ≡ some token))
    → (create_user c ext new_id now salt req w).0 ≡ ok r
    → let later = calm (create_user c ext new_id now salt req w).1.tables in
      (t : TokenResponse) × ((login c e s req.email req.password later).0 ≡ ok t)
      × (c.sign (access_claims e s t.user) ≡ some t.access_token)
      × (t.user.id ≡ new_id)
      × (t.user.role ≡ req.role)
      × (t.user.tenant_id ≡ ext.parse_uuid req.tenant_id)
unfolding login generate_token_pair fails rest
create_user_then_login c ext e s new_id now salt req w {r} law signs done =
    let (hash, tenant_id, hashed, parsed, fresh, users) =
      create_user_done c ext new_id now salt req w {r = r} done in
    let u = new_user new_id now tenant_id req hash in
    let found =
      find_where-snoc (with_email req.email) w.tables.users u fresh (str_eq_refl req.email) in
    let (access, signed) = signs (access_claims e s u) in
    let (refresh, signed') = signs (refresh_claims e s u) in
    let t : TokenResponse = record {
      access_token = access;
      refresh_token = refresh;
      expires_at = access_expiry e s.now;
      user = u;
    } in
    (
      t,
      ground (arith, users, found, law salt req.password hash hashed),
      signed,
      refl,
      refl,
      sym parsed,
    )
