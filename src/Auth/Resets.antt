-- ===== src/Auth/Resets.antt =====
-- What a reset of a password does, and how often its token serves
-- (internal/service/auth_service.go).
use service_api.Base.{
  ℕ, ◌≤◌, ◌≡◌, inl, inr, refl, Bool, true, false, none, some, List, [], ◌∷◌, arith, String, str_eq,
  find_where, update_where, count_where, Option-cases, find_where-update_where_exact,
}
use service_api.Apperror.{AppError, ok, err, validation}
use service_api.Domain.Users.{User, ResetToken}
use service_api.Store.{World, fails, rest}
use service_api.Auth.Tokens.{
  Crypto, Expiry, Session, TokenResponse, access_claims, refresh_claims, access_expiry,
  generate_token_pair, with_email, has_id, login,
}
use service_api.Auth.Passwords.{
  usable, with_token_id, mark_used, with_password, write_password, reset_password,
}

abbrev pub same_token : String → ResetToken → Bool
same_token token r = str_eq r.token token

nothing_left :
    (token : String) (id now : ℕ) (xs : List ResetToken)
    → count_where (same_token token) xs ≡ 0
    → find_where (usable token) (update_where (with_token_id id) (mark_used now) xs) ≡ none
unfolding find_where update_where count_where
nothing_left token id now [] zero_of = refl
nothing_left token id now (x ∷ xs) zero_of = ground (arith, nothing_left token id now xs)

-- Marking the row that is found leaves none to find.
spent :
    (token : String) (now : ℕ) (xs : List ResetToken) {r : ResetToken}
    → count_where (same_token token) xs ≤ 1
    → find_where (usable token) xs ≡ some r
    → find_where (usable token) (update_where (with_token_id r.id) (mark_used now) xs) ≡ none
unfolding find_where update_where count_where
spent token now [] one found = refl
spent token now (x ∷ xs) {r} one found =
    ground (arith, nothing_left token r.id now xs, spent token now xs {r = r})

-- The text of a used token.
abbrev pub used_or_unknown : AppError
used_or_unknown = validation "token tidak valid atau sudah digunakan"

-- Where no statement fails, a token resets a password once: a second ResetPassword with it, at
-- any later time and with any password, is refused and changes no row. (The column `token` is
-- unique.)
pub reset_password_once :
    (c : Crypto) (salt now salt' now' : ℕ) (token password password' : String) (w : World)
    → count_where (same_token token) w.tables.reset_tokens ≤ 1
    → w.script ≡ []
    → (reset_password c salt now token password w).0 ≡ ok tt
    → let w' = (reset_password c salt now token password w).1 in
      ((reset_password c salt' now' token password' w').0 ≡ err used_or_unknown)
      × ((reset_password c salt' now' token password' w').1.tables ≡ w'.tables)
unfolding reset_password write_password fails rest
reset_password_once c salt now salt' now' token password password' w one runs done =
    elim (Option-cases (find_where (usable token) w.tables.reset_tokens)) [
      | inl unknown ↦ ground arith
      | inr (r, found) ↦ ground (arith, spent token now w.tables.reset_tokens {r = r} one found)
    ]

-- The error of the write that marks the token is dropped: where just that statement fails, the
-- password is reset, the call succeeds, and the token resets it again.
pub reset_password_again :
    (c : Crypto) (salt now salt' : ℕ) (token password password' : String) (w : World)
    {hash : String}
    → w.script ≡ false ∷ false ∷ true ∷ []
    → (reset_password c salt now token password w).0 ≡ ok tt
    → c.generate salt' password' ≡ some hash
    → let w' = (reset_password c salt now token password w).1 in
      (reset_password c salt' now token password' w').0 ≡ ok tt
unfolding reset_password write_password fails rest
reset_password_again c salt now salt' token password password' w {hash} runs done hashed =
    ground arith

-- After a reset that succeeds, the user of the token logs in with the new password, where the user
-- is active, no query fails and the tokens can be signed. What bcrypt promises is a hypothesis: a
-- password matches its own hash.
pub reset_then_login :
    (c : Crypto) (e : Expiry) (s : Session) (salt now : ℕ) (token password : String) (w : World)
    {r : ResetToken} {u : User} {access refresh : String}
    → ((salt : ℕ) (p h : String) → c.generate salt p ≡ some h → c.matches h p ≡ true)
    → w.script ≡ []
    → (reset_password c salt now token password w).0 ≡ ok tt
    → find_where (usable token) w.tables.reset_tokens ≡ some r
    → find_where (with_email u.email) w.tables.users ≡ some u
    → u.id ≡ r.user_id
    → u.is_active ≡ true
    → c.sign (access_claims e s u) ≡ some access
    → c.sign (refresh_claims e s u) ≡ some refresh
    → let w' = (reset_password c salt now token password w).1 in
      (t : TokenResponse) × ((login c e s u.email password w').0 ≡ ok t)
      × (t.access_token ≡ access)
      × (t.user.id ≡ r.user_id)
unfolding reset_password write_password login generate_token_pair fails rest
reset_then_login c e s salt now token password w {r} {u} {access} {refresh} law runs done found has
      own active signed signed' =
    elim (Option-cases (c.generate salt password)) [
      | inl failed ↦ ground arith
      | inr (hash, hashed) ↦
          let known =
            find_where-update_where_exact (has_id r.user_id) (with_email u.email)
              (with_password now hash) w.tables.users {x = u} (λ y. refl) has in
          let t : TokenResponse = record {
            access_token = access;
            refresh_token = refresh;
            expires_at = access_expiry e s.now;
            user = with_password now hash u;
          } in
          (t, ground (arith, known, law salt password hash hashed), refl, own)
    ]
