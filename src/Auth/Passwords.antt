-- ===== src/Auth/Passwords.antt =====
-- `RequestPasswordReset` and `ResetPassword` of internal/service/auth_service.go. The random token,
-- bcrypt's salt and the clock are arguments.
use service_api.Base.{
  ℕ, Bool, true, false, ◌&&◌, Option, none, some, [], ◌∷◌, ◌++◌, ◌==◌, String, str_eq, ltb, ◌+◌,
  find_where, update_where,
}
use service_api.Apperror.{validation, internal}
use service_api.Domain.Users.{User, ResetToken}
use service_api.Store.{
  Tables, Db, attempt, query_row, select, exec, pure, raise, or_raise, branch, case_option, ◌>>=◌,
  ◌>>◌,
}
use service_api.Auth.Tokens.{Crypto, with_email, has_id}

abbrev pub is_unused : ResetToken → Bool
is_unused r = elim r.used_at [ none ↦ true | some _ ↦ false ]

-- `WHERE token = $1 AND used_at IS NULL`
abbrev pub usable : String → ResetToken → Bool
usable token r = str_eq r.token token && is_unused r

abbrev pub unused_of : ℕ → ResetToken → Bool
unused_of user_id r = r.user_id == user_id && is_unused r

abbrev pub with_token_id : ℕ → ResetToken → Bool
with_token_id id r = r.id == id

abbrev pub mark_used : ℕ → ResetToken → ResetToken
mark_used now r = record r { used_at = some now }

-- An UPDATE whose error the code drops.
abbrev pub try_exec : (Tables → Tables) → Db (Option (Unit {0}))
try_exec f = attempt (λ t. some (tt, f t))

abbrev pub hour : ℕ
hour = 3600000000000

abbrev pub new_token : ℕ → ℕ → ℕ → String → ResetToken
new_token id now user_id token = record {
  id = id;
  user_id = user_id;
  token = token;
  expires_at = now + hour;
  used_at = none;
  created_at = now;
}

-- The unique column `token` refuses a token that is there.
abbrev pub insert_token : ResetToken → Tables → Option (Unit {0} × Tables)
insert_token r t = elim (find_where (λ o. str_eq o.token r.token) t.reset_tokens) [
  | none ↦ some (tt, record t { reset_tokens = t.reset_tokens ++ r ∷ [] })
  | some _ ↦ none
]

abbrev pub active_with_email : String → User → Bool
active_with_email email u = with_email email u && u.is_active

-- `RequestPasswordReset`: an unknown address is no error.
unfoldable pub request_password_reset : ℕ → ℕ → Option String → String → Db String
request_password_reset new_id now random email = do
  found ←
      select (λ t. find_where (active_with_email email) t.users) (internal "failed to query user")
  case_option found (pure "") (λ u.
      case_option random (raise (internal "failed to generate token")) (λ token. do
        try_exec (λ t. record t {
          reset_tokens = update_where (unused_of u.id) (mark_used now) t.reset_tokens;
        })
        attempt (insert_token (new_token new_id now u.id token))
            >>= or_raise (internal "failed to create reset token")
        pure token))

abbrev pub with_password : ℕ → String → User → User
with_password now hash u = record u { password_hash = hash; updated_at = now }

-- The writes of `ResetPassword`; the error of the second is dropped.
unfoldable pub write_password : ℕ → String → ResetToken → Db (Unit {0})
write_password now hash r = do
  exec (λ t. record t { users = update_where (has_id r.user_id) (with_password now hash) t.users })
      (internal "failed to update password")
  try_exec (λ t. record t {
    reset_tokens = update_where (with_token_id r.id) (mark_used now) t.reset_tokens;
  })
  pure tt

-- `ResetPassword`
unfoldable pub reset_password : Crypto → ℕ → ℕ → String → String → Db (Unit {0})
reset_password c salt now token password = do
  r ←
      query_row (λ t. find_where (usable token) t.reset_tokens)
        (validation "token tidak valid atau sudah digunakan") (internal "failed to validate token")
  branch (ltb r.expires_at now) (raise (validation "token sudah kadaluarsa")) (
      case_option (c.generate salt password) (raise (internal "failed to hash password"))
        (λ hash. write_password now hash r))
