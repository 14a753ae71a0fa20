-- ===== src/Shift/Closing.antt =====
-- The arithmetic of a closing, and who can close a shift (internal/service/shift_service.go,
-- CloseShift).
use service_api.Base.{
  Option, ℕ, ◌≡◌, ◌≢◌, ◌⊎◌, refl, Bool, true, false, none, some, ℤ, pos, ◌+ℤ◌, ◌-ℤ◌, wrap64,
  IsInt64, arith, find_where, update_where, List, [], ◌∷◌,
}
use service_api.Apperror.{Result, ok, err, forbidden, internal}
use service_api.Domain.Transactions.{Transaction}
use service_api.Domain.Shifts.{Shift, CloseShiftRequest, closed}
use service_api.External.{External}
use service_api.Store.{World, Tables, fails, rest}
use service_api.Shift.Cash.{cash_amount, revenue_amount, query_sum, sum_linked}
use service_api.Shift.Calls.{
  open_with_id, has_id, expected_cash, with_closing, expected_total, cash_difference_of,
  close_shift,
}

-- In `int64`, whatever wraps: the expected cash and the difference make up the count again.
pub wrap64_restores :
    (expected closing : ℤ)
    → IsInt64 closing
    → wrap64 (wrap64 expected +ℤ wrap64 (closing -ℤ wrap64 expected)) ≡ closing
unfolding wrap64 ◌+ℤ◌ ◌-ℤ◌
wrap64_restores expected closing h = ground arith

-- The statement of a sum fails: the script says so, or the rows do not let the query run.
abbrev pub FailingSum : (Transaction → Option ℤ) → ℕ → Tables → List Bool → Type 0
FailingSum f shift_id t script = (fails script ≡ true) ⊎ (query_sum f shift_id t ≡ none)

-- The statement runs, and its sum is `a`.
abbrev pub RunningSum : (Transaction → Option ℤ) → ℕ → Tables → List Bool → ℤ → Type 0
RunningSum f shift_id t script a =
    (fails script ≡ false) × (sum_linked f shift_id t.transactions t.shift_transactions ≡ some a)

-- What `CloseShift` takes for the cash of a shift: the sum of its cash transactions; where that
-- query fails, all its revenue; where both fail, 0. `script` is that of the statements from the
-- first query on.
abbrev pub ExpectedCash : External → ℕ → Tables → List Bool → ℤ → Type 0
ExpectedCash ext shift_id t script a =
    RunningSum (cash_amount ext) shift_id t script a
    ⊎ (FailingSum (cash_amount ext) shift_id t script
        × (RunningSum revenue_amount shift_id t (rest script) a
            ⊎ (FailingSum revenue_amount shift_id t (rest script) × (a ≡ pos 0))))

-- No row of a shift is open once all of its rows are closed.
closed_none_open :
    (now shift_id : ℕ) (e d : ℤ) (req : CloseShiftRequest) (xs : List Shift)
    → find_where
        (open_with_id shift_id)
        (update_where (has_id shift_id) (with_closing now e d req) xs)
      ≡ none
unfolding find_where update_where
closed_none_open now shift_id e d req [] = refl
closed_none_open now shift_id e d req (x ∷ xs) =
    ground (arith, closed_none_open now shift_id e d req xs)

pub expected_cash_cases :
    (ext : External) (shift_id : ℕ) (w : World)
    → (a : ℤ) × (s : List Bool) × (expected_cash ext shift_id w ≡ (ok a, record w { script = s }))
      × ExpectedCash ext shift_id w.tables w.script a
unfolding expected_cash query_sum
expected_cash_cases ext shift_id w = by_result (expected_cash ext shift_id w) refl
  where
    by_result :
        (p : Result ℤ × World)
        → expected_cash ext shift_id w ≡ p
        → (a : ℤ) × (s : List Bool) × (expected_cash ext shift_id w
            ≡ (ok a, record w { script = s }))
          × ExpectedCash ext shift_id w.tables w.script a
    by_result (ok a, w') ran = (a, w'.script, ground arith, ground arith)
    by_result (err e, w') ran = ground arith

module _ (ext : External) (now shift_id cashier_id : ℕ) (req : CloseShiftRequest) (w : World)
    {s : Shift} (found : find_where (open_with_id shift_id) w.tables.shifts ≡ some s) where
  -- Another cashier's shift is not closed: the call fails, and changes no row.
  pub close_shift_foreign :
      s.cashier_id ≢ cashier_id
      → ((close_shift ext now shift_id cashier_id req w).1.tables ≡ w.tables)
        × (((close_shift ext now shift_id cashier_id req w).0
              ≡ err (forbidden "you can only close your own shift"))
            ⊎ ((close_shift ext now shift_id cashier_id req w).0
                ≡ err (internal "failed to get shift")))
  unfolding close_shift
  close_shift_foreign foreign = ground arith

  -- A closing that succeeds is of the cashier's own shift. The shift that it returns is closed, with
  -- the count of the request; its expected cash is the opening one and the sum of the shift's cash
  -- transactions, or all its revenue where the statement of that sum fails, or nothing more where
  -- both statements fail;
  -- expected cash and difference make up the count again in `int64`; and no row of the shift is left
  -- open.
  pub close_shift_exact :
      {r : Shift}
      → IsInt64 req.closing_cash
      → (close_shift ext now shift_id cashier_id req w).0 ≡ ok r
      → (s.cashier_id ≡ cashier_id)
        × (r.status ≡ closed)
        × (r.closing_cash ≡ some req.closing_cash)
        × ((a : ℤ) × (e : ℤ) × (d : ℤ) × ExpectedCash ext shift_id w.tables (rest w.script) a
            × (e ≡ wrap64 (s.opening_cash +ℤ a))
            × (r.expected_cash ≡ some e)
            × (r.cash_difference ≡ some d)
            × (wrap64 (e +ℤ d) ≡ req.closing_cash))
        × (find_where
              (open_with_id shift_id)
              (close_shift ext now shift_id cashier_id req w).1.tables.shifts
            ≡ none)
  unfolding close_shift rest
  close_shift_exact {r} fits h =
      let (a, sc, ran, is) =
        expected_cash_cases ext shift_id (record w { script = rest w.script }) in
      let e = expected_total s a in
      let d = cash_difference_of s a req in
      let shut = closed_none_open now shift_id e d req w.tables.shifts in
      let sums = wrap64_restores (s.opening_cash +ℤ a) req.closing_cash fits in
      (
        ground (arith, ran),
        ground (arith, ran),
        ground (arith, ran),
        (a, e, d, ground (arith, is), refl, ground (arith, ran), ground (arith, ran), sums),
        ground (arith, ran, shut),
      )
