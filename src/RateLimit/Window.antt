-- ===== src/RateLimit/Window.antt =====
-- However the requests come, no window of time admits more of one address than the limit
-- (internal/middleware/ratelimit.go).
use service_api.Base.{
  ℕ, ◌≤◌, ◌≡◌, ◌↔◌, refl, Bool, true, false, ◌&&◌, Option, none, some, List, [], ◌∷◌, String,
  str_eq, str_eq_iff, ℤ, pos, pos_part, arith, length, select_where, count_where,
  count_where-append, ◌<ℤ◌,
}
use service_api.RateLimit.Memory.{
  Attempts, no_attempts, attempts_of, is_recent, allow, unless_empty, clean_key, cleanup,
}

-- A request that was admitted.
pub record Admitted : Type 0 where
  pub key : String
  pub at : ℕ

-- The limiter with the clock's last reading and all the requests that it has admitted.
pub record Run : Type 0 where
  pub attempts : Attempts
  pub clock : ℕ
  pub admitted : List Admitted

abbrev pub record_if : Bool → String → ℕ → List Admitted → List Admitted
record_if true key now log = record { key = key; at = now } ∷ log
record_if false key now log = log

abbrev pub after_request : ℤ → ℤ → ℕ → String → Run → Run
after_request max window now key r =
    let (allowed, m) = allow max window now key r.attempts in
    record { attempts = m; clock = now; admitted = record_if allowed key now r.admitted }

-- A request, and a turn of the cleaning loop. The clock never goes back.
pub data Step (max window : ℤ) : Run → Run → Type 0 where
  asked :
      (now : ℕ) (key : String) (r : Run)
      → r.clock ≤ now
      → Step max window r (after_request max window now key r)
  cleaned :
      (now : ℕ) (r : Run)
      → r.clock ≤ now
      → Step max window r
          (record { attempts = cleanup window now r.attempts; clock = now; admitted = r.admitted })

pub data Reach (max window : ℤ) : Run → Type 0 where
  start :
      (clock : ℕ)
      → Reach max window (record { attempts = no_attempts; clock = clock; admitted = [] })
  next : {r r' : Run} → Reach max window r → Step max window r r' → Reach max window r'

-- A request of the address within the window before a moment.
abbrev pub in_window : ℤ → String → ℕ → Admitted → Bool
in_window window key now a = str_eq key a.key && is_recent window now a.at

-- What a later moment counts is left by an earlier filter.
count_recent :
    (window : ℤ) (n m : ℕ) (ts : List ℕ)
    → n ≤ m
    → count_where (is_recent window m) (select_where (is_recent window n) ts)
      ≡ count_where (is_recent window m) ts
unfolding count_where select_where
count_recent window n m [] le = refl
count_recent window n m (t ∷ ts) le = ground (arith, count_recent window n m ts le)

count_le_length :
    (window : ℤ) (m : ℕ) (ts : List ℕ) → count_where (is_recent window m) ts ≤ length ts
unfolding count_where
count_le_length window m [] = omega arith
count_le_length window m (t ∷ ts) = ground (arith, count_le_length window m ts)

length-recent :
    (window : ℤ) (n : ℕ) (ts : List ℕ)
    → length (select_where (is_recent window n) ts) ≡ count_where (is_recent window n) ts
unfolding count_where select_where
length-recent window n [] = refl
length-recent window n (t ∷ ts) = ground (arith, length-recent window n ts)

-- The attempts that are kept count as the requests that were admitted do.
abbrev pub Kept : ℤ → ℤ → Run → Type 0
Kept max window r =
    (key : String) (now : ℕ)
    → r.clock ≤ now
    → (count_where (is_recent window now) (attempts_of (r.attempts key))
        ≡ count_where (in_window window key now) r.admitted)
      × (count_where (in_window window key now) r.admitted ≤ pos_part max)

unless_empty-attempts : (ts : List ℕ) → attempts_of (unless_empty ts) ≡ ts
unless_empty-attempts [] = refl
unless_empty-attempts (t ∷ ts) = refl

clean_key-count :
    (window : ℤ) (n m : ℕ) (o : Option (List ℕ))
    → n ≤ m
    → count_where (is_recent window m) (attempts_of (clean_key window n o))
      ≡ count_where (is_recent window m) (attempts_of o)
clean_key-count window n m none le = refl
clean_key-count window n m (some ts) le =
    rw (unless_empty-attempts (select_where (is_recent window n) ts))
      (count_recent window n m ts le)

asked_keeps :
    (max window : ℤ) (now : ℕ) (key : String) (r : Run)
    → r.clock ≤ now
    → Kept max window r
    → Kept max window (after_request max window now key r)
unfolding allow count_where
asked_keeps max window now key r le kept k later after =
    let recent = select_where (is_recent window now) (attempts_of (r.attempts key)) in
    ground (
      arith,
      kept k later,
      kept key now,
      str_eq_iff k key,
      count_recent window now later (attempts_of (r.attempts key)) after,
      length-recent window now (attempts_of (r.attempts key)),
      count_where-append (is_recent window later) recent (now ∷ []),
      count_le_length window later recent,
    )

Step-Kept :
    {max window : ℤ} {r r' : Run} → Step max window r r' → Kept max window r → Kept max window r'
unfolding cleanup
Step-Kept {max} {window} (asked now key r le) kept k later after =
    asked_keeps max window now key r le kept k later after
Step-Kept {max} {window} (cleaned now r le) kept k later after =
    ground (arith, kept k later, clean_key-count window now later (r.attempts k) after)

Reach-Kept : {max window : ℤ} {r : Run} → Reach max window r → Kept max window r
unfolding count_where
Reach-Kept (start clock) key now le = (refl, omega arith)
Reach-Kept (next r s) key now le = Step-Kept s (Reach-Kept r) key now le

-- However requests and cleanings follow each other, the requests of one address that were admitted
-- within the window before any moment from now on are at most as many as the limit.
pub Reach-le_max :
    {max window : ℤ} {r : Run}
    → Reach max window r
    → (key : String) (now : ℕ) → r.clock ≤ now
    → count_where (in_window window key now) r.admitted ≤ pos_part max
Reach-le_max reach key now le = (Reach-Kept reach key now le).1

-- And a request is admitted exactly if fewer were within the window before it: whatever was cleaned,
-- the limiter has forgotten no request that counts.
allow_exact :
    {max window : ℤ} {r : Run}
    → Reach max window r
    → (key : String) (now : ℕ) → r.clock ≤ now
    → ((allow max window now key r.attempts).0 ≡ true)
      ↔ (pos (count_where (in_window window key now) r.admitted) <ℤ max)
unfolding allow
allow_exact {max} {window} {r} reach key now le =
    let (same, fits) = Reach-Kept reach key now le in
    ground (arith, length-recent window now (attempts_of (r.attempts key)))
