-- ===== src/Auth/Owners.antt =====
-- What a registration leaves, and that its owner can log in (internal/service/auth_service.go,
-- Register and Login).
use service_api.Base.{
  ℕ, ◌≡◌, ◌≢◌, ◌∙◌, ◌⊎◌, inl, inr, ap, refl, arith, true, false, some, [], ◌∷◌, ◌++◌, String,
  find_where-snoc, Bool-cases, str_eq_refl,
}
use service_api.Apperror.{AppError, Result, ok, err, internal}
use service_api.Domain.Users.{User}
use service_api.Domain.Registration.{RegisterRequest}
use service_api.Store.{World, Tables, Db, calm, fails, rest}
use service_api.Auth.Tokens.{
  Crypto, Expiry, Session, TokenResponse, generate_token_pair, with_email, login, access_claims,
  refresh_claims, access_expiry,
}
use service_api.Auth.Register.{Registration, new_owner, register_rows, in_transaction, register}
use service_api.Auth.Signup.{registered, register_rows_done}

module _ {A : Type 0} where
  -- A transaction that fails changes no row; one that succeeds has run to its end.
  in_transaction_cases :
      (m : Db A) (w : World)
      → let p = in_transaction m w in
        let w1 = record w { script = rest w.script } in
        ((x : AppError) × (p.0 ≡ err x) × (p.1.tables ≡ w.tables))
        ⊎ ((a : A) × (p.0 ≡ ok a) × ((m w1).0 ≡ ok a) × (p.1.tables ≡ (m w1).1.tables))
  in_transaction_cases m w = elim (Bool-cases (fails w.script)) [
    | inl failed ↦ inl (internal "failed to begin transaction", ground arith, ground arith)
    | inr begun ↦ by_run begun (m (record w { script = rest w.script })) refl
  ]
    where
      by_run :
          fails w.script ≡ false
          → (r : Result A × World) → m (record w { script = rest w.script }) ≡ r
          → let p = in_transaction m w in
            let w1 = record w { script = rest w.script } in
            ((x : AppError) × (p.0 ≡ err x) × (p.1.tables ≡ w.tables))
            ⊎ ((a : A) × (p.0 ≡ ok a) × ((m w1).0 ≡ ok a) × (p.1.tables ≡ (m w1).1.tables))
      by_run begun (err x, w') e = inl (x, ground arith, ground arith)
      by_run begun (ok a, w') e = elim (Bool-cases (fails w'.script)) [
        | inl failed ↦ inl (internal "failed to commit transaction", ground arith, ground arith)
        | inr committed ↦ inr (a, ground arith, ground arith, ground arith)
      ]

generate_token_pair_keeps :
    (c : Crypto) (e : Expiry) (s : Session) (u : User) (w : World)
    → (generate_token_pair c e s u w).1 ≡ w
unfolding generate_token_pair
generate_token_pair_keeps c e s u w = ground arith

register_tables :
    (c : Crypto) (e : Expiry) (s : Session) (g : Registration) (req : RegisterRequest) (w : World)
    → (register c e s g req w).1 ≡ (in_transaction (register_rows c g req) w).1
unfolding register
register_tables c e s g req w = by_result (in_transaction (register_rows c g req) w) refl
  where
    by_result :
        (p : Result User × World)
        → in_transaction (register_rows c g req) w ≡ p
        → (register c e s g req w).1 ≡ (in_transaction (register_rows c g req) w).1
    by_result (err x, w') same = ground arith
    by_result (ok u, w') same = ground (arith, generate_token_pair_keeps c e s u w')

-- Whichever statements fail, a registration leaves the tables as they were, or is complete: the
-- tenant, its owner with the hashed password, an outlet, the three payment methods where the tenant
-- has none, and a price for each active template at its base price, and nothing else.
pub register_all_or_nothing :
    (c : Crypto) (e : Expiry) (s : Session) (g : Registration) (req : RegisterRequest) (w : World)
    → let t = (register c e s g req w).1.tables in
      (t ≡ w.tables)
      ⊎ ((hash : String) × (c.generate g.salt req.password ≡ some hash)
          × (t ≡ registered g req hash w.tables))
register_all_or_nothing c e s g req w =
    let w1 = record w { script = rest w.script } in
    let same = ap (λ w. w.tables) (register_tables c e s g req w) in
    elim (in_transaction_cases (register_rows c g req) w) [
      | inl (x, failed, kept) ↦ inl (same ∙ kept)
      | inr (u, done, ran, rows) ↦
          let (hash, hashed, is, full, fresh) = register_rows_done c g req w1 {u = u} ran in
          inr (hash, hashed, same ∙ rows ∙ full)
    ]

registered_users :
    (g : Registration) (req : RegisterRequest) (hash : String) (t : Tables)
    → (registered g req hash t).users ≡ t.users ++ new_owner g req hash ∷ []
registered_users g req hash t = ground arith

register_done :
    (c : Crypto) (e : Expiry) (s : Session) (g : Registration) (req : RegisterRequest) (w : World)
    {t : TokenResponse} {x : AppError}
    → (register c e s g req w).0 ≡ ok t
    → (in_transaction (register_rows c g req) w).0 ≢ err x
unfolding register
register_done c e s g req w {t} {x} done failed = ground arith

-- An owner who has been registered can log in with the email and the password of the registration,
-- where a hash matches the password that it was made from and the tokens can be signed: with the
-- token of the new user.
pub register_then_login :
    (c : Crypto) (e : Expiry) (s s' : Session) (g : Registration) (req : RegisterRequest)
    (w : World) {t : TokenResponse} {access refresh : String}
    → ((salt : ℕ) (p h : String) → c.generate salt p ≡ some h → c.matches h p ≡ true)
    → (register c e s g req w).0 ≡ ok t
    → c.sign (access_claims e s' (new_owner g req "")) ≡ some access
    → c.sign (refresh_claims e s' (new_owner g req "")) ≡ some refresh
    → let later = calm (register c e s g req w).1.tables in
      (r : TokenResponse) × ((login c e s' req.email req.password later).0 ≡ ok r)
      × (r.access_token ≡ access)
      × (r.user.id ≡ g.user_id)
      × (r.user.tenant_id ≡ some g.tenant_id)
unfolding login generate_token_pair fails rest
register_then_login c e s s' g req w {t} {access} {refresh} law done signed signed' =
    let w1 = record w { script = rest w.script } in
    let same = ap (λ w. w.tables) (register_tables c e s g req w) in
    elim (in_transaction_cases (register_rows c g req) w) [
      | inl (x, failed, kept) ↦ elim (register_done c e s g req w {t = t} {x = x} done failed) [ ]
      | inr (u, made, ran, rows) ↦
          let (hash, hashed, is, full, fresh) = register_rows_done c g req w1 {u = u} ran in
          let owner = new_owner g req hash in
          let users : (register c e s g req w).1.tables.users ≡ w.tables.users ++ owner ∷ [] =
            ap (λ t. t.users) (same ∙ rows ∙ full) ∙ registered_users g req hash w.tables in
          let known =
            find_where-snoc (with_email req.email) w.tables.users owner fresh
              (str_eq_refl req.email) in
          let r : TokenResponse = record {
            access_token = access;
            refresh_token = refresh;
            expires_at = access_expiry e s'.now;
            user = owner;
          } in
          (r, ground (arith, users, known, law g.salt req.password hash hashed), refl, refl, refl)
    ]
