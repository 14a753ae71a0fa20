-- ===== src/Sync/Batch.antt =====
-- A `pgx.Batch`: its statements run in one transaction, on their own or inside the request's. The
-- first that fails takes back what the batch has written, and all behind it fail with it.
use service_api.Base.{ℕ, suc, true, false, Option, none, some, List, [], ◌∷◌, Bool}
use service_api.Store.{World, Tables, fails, rest}

abbrev pub Statement : Type 0
Statement = Tables → Option (Unit {0} × Tables)

-- How one statement of the batch ends: `none` where it fails.
abbrev pub outcome : Bool → Option (Unit {0} × Tables) → Option Tables
outcome true o = none
outcome false none = none
outcome false (some (_, t)) = some t

-- The statements behind a failure.
abbrev pub all_fail : List Statement → List Bool
all_fail [] = []
all_fail (f ∷ fs) = false ∷ all_fail fs

-- What `br.Exec()` reports of each statement, and the world after `br.Close()`. `start` is what the
-- tables were before the batch.
unfoldable pub run_batch : Tables → List Statement → World → List Bool × World
run_batch start [] w = ([], w)
run_batch start (f ∷ fs) w = elim (outcome (fails w.script) (f w.tables)) [
  | none ↦ (false ∷ all_fail fs, record { tables = start; script = rest w.script })
  | some t ↦
      let (reports, w') = run_batch start fs (record { tables = t; script = rest w.script }) in
      (true ∷ reports, w')
]

unfoldable pub send_batch : List Statement → World → List Bool × World
unfolding run_batch
send_batch fs w = run_batch w.tables fs w

-- How many reports are no error.
abbrev pub successes : List Bool → ℕ
successes [] = 0
successes (true ∷ rs) = suc (successes rs)
successes (false ∷ rs) = successes rs
