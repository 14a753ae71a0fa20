-- ===== src/RateLimit/Memory.antt =====
-- The limiter that keeps its attempts in memory, and the middleware before it
-- (internal/middleware/ratelimit.go). Its mutex makes `Allow` and `cleanup` single steps.
use service_api.Base.{
  ℕ, ◌+◌, Bool, true, false, Option, none, some, List, [], ◌∷◌, ◌++◌, String, str_eq, ℤ, pos,
  pos_part, neg_part, ltb, leb_ℤ, if◌then◌else◌, length, select_where,
}
use service_api.Apperror.{Result, ok, err, new_app_error}

-- `map[string][]time.Time`: an absent key is `none`.
abbrev pub Attempts : Type 0
Attempts = String → Option (List ℕ)

abbrev pub no_attempts : Attempts
no_attempts key = none

abbrev pub set_key : String → Option (List ℕ) → Attempts → Attempts
set_key key v m k = if str_eq k key then v else m k

-- `rl.attempts[key]`, which is empty for an absent key.
abbrev pub attempts_of : Option (List ℕ) → List ℕ
attempts_of none = []
attempts_of (some ts) = ts

-- `t.After(now.Add(-rl.window))`
abbrev pub is_recent : ℤ → ℕ → ℕ → Bool
is_recent window now t = ltb (now + neg_part window) (t + pos_part window)

-- `memoryRateLimiter.Allow`
unfoldable pub allow : ℤ → ℤ → ℕ → String → Attempts → Bool × Attempts
allow max window now key m =
    let recent = select_where (is_recent window now) (attempts_of (m key)) in
    if leb_ℤ max (pos (length recent))
    then (false, set_key key (some recent) m)
    else (true, set_key key (some (recent ++ now ∷ [])) m)

-- `delete` for an empty list, else it is stored.
abbrev pub unless_empty : List ℕ → Option (List ℕ)
unless_empty [] = none
unless_empty (t ∷ ts) = some (t ∷ ts)

-- What `cleanup` makes of one key: it is deleted where no attempt is recent.
abbrev pub clean_key : ℤ → ℕ → Option (List ℕ) → Option (List ℕ)
clean_key window now none = none
clean_key window now (some ts) = unless_empty (select_where (is_recent window now) ts)

-- `memoryRateLimiter.cleanup`
unfoldable pub cleanup : ℤ → ℕ → Attempts → Attempts
cleanup window now m k = clean_key window now (m k)

-- The address that the middleware counts: the header `X-Real-Ip` where it is set.
abbrev pub address_of : String → String → String
address_of remote_addr real_ip = if str_eq real_ip "" then remote_addr else real_ip

-- `rateLimitMiddleware` before the in-memory backend: 429, or the next handler runs.
unfoldable pub rate_limit : ℤ → ℤ → ℕ → String → String → Attempts → Result (Unit {0}) × Attempts
unfolding allow
rate_limit max window now remote_addr real_ip m =
    let (allowed, m') = allow max window now (address_of remote_addr real_ip) m in
    if allowed
    then (ok tt, m')
    else (err (new_app_error 429 "terlalu banyak permintaan, coba lagi nanti"), m')
