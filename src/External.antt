-- ===== src/External.antt =====
-- What the services call and do not implement: the UUID package, the clock's text format, the
-- arithmetic of `float64`, and the arithmetic of Postgres' NUMERIC(12,2) columns. Nothing is
-- assumed of them; each is a function, and the theorems hold for every choice.
use service_api.Base.{ℕ, Bool, Option, String, ℤ}

pub record External : Type 0 where
  -- `uuid.Parse`, `uuid.UUID.String`
  pub parse_uuid : String → Option ℕ
  pub uuid_string : ℕ → String
  -- `time.Parse(time.RFC3339, s)`
  pub parse_time : String → Option ℕ
  -- `a * b` and `-a` on `float64`
  pub mul_float : ℕ → ℕ → ℕ
  pub neg_float : ℕ → ℕ
  -- A `float64` written to a NUMERIC(12,2) column, in hundredths; `none` is an error.
  pub to_numeric : ℕ → Option ℤ
  -- `column + $1` and `column - $1`, written back to the column.
  pub plus_numeric : ℤ → ℕ → Option ℤ
  pub minus_numeric : ℤ → ℕ → Option ℤ
  -- Postgres' `LOWER`
  pub lower : String → String
  -- Whether one text comes before or with another in the database's collation.
  pub collate : String → String → Bool
