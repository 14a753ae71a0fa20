-- ===== src/Shift/OneOpen.antt =====
-- A cashier has one open shift at most, in whatever order the calls and their statements run
-- (internal/service/shift_service.go, and the unique index of migrations/00018).
use service_api.Base.{
  ℕ, ◌+◌, ◌≤◌, ◌≡◌, inl, inr, refl, Bool, none, List, [], ◌∷◌, ◌++◌, ℤ, arith, Option-cases,
  Bool-cases, find_where, if◌then◌else◌, count_where, update_where, count_where-append,
  count_where-update_where_le,
}
use service_api.Domain.Shifts.{Shift, OpenShiftRequest, CloseShiftRequest}
use service_api.External.{External}
use service_api.Store.{World, rest}
use service_api.Shift.Closing.{expected_cash_cases}
use service_api.Shift.Calls.{
  has_id, open_of, new_shift, insert_shift, open_shift, open_with_id, expected_total,
  cash_difference_of, with_closing, close_shift,
}

-- The service's steps. `inserted` is the INSERT of an `OpenShift` whose check ran at any time
-- before, so that two calls can run interleaved.
pub data Step (ext : External) : World → World → Type 0 where
  inserted : (s : Shift) (w : World) → Step ext w (insert_shift s w).1
  opened :
      (new_id now tenant_id cashier_id : ℕ) (req : OpenShiftRequest) (w : World)
      → Step ext w (open_shift ext new_id now tenant_id cashier_id req w).1
  closed :
      (now shift_id cashier_id : ℕ) (req : CloseShiftRequest) (w : World)
      → Step ext w (close_shift ext now shift_id cashier_id req w).1

pub data Reach (ext : External) (w : World) : World → Type 0 where
  here : Reach ext w w
  next : {u v : World} → Reach ext w u → Step ext u v → Reach ext w v

abbrev pub OneOpenShift : World → Type 0
OneOpenShift w = (cashier : ℕ) → count_where (open_of cashier) w.tables.shifts ≤ 1

count_where-zero :
    (p : Shift → Bool) (xs : List Shift) → find_where p xs ≡ none → count_where p xs ≡ 0
unfolding find_where count_where
count_where-zero p [] h = refl
count_where-zero p (x ∷ xs) h = elim (Bool-cases (p x)) [
  | inl e ↦ ground arith
  | inr e ↦ let ih = count_where-zero p xs (rw e at h) in ground arith
]

count_where-snoc :
    (cashier : ℕ) (s : Shift) (xs : List Shift)
    → count_where (open_of cashier) (xs ++ s ∷ [])
      ≡ count_where (open_of cashier) xs + (if open_of cashier s then 1 else 0)
unfolding count_where
count_where-snoc cashier s xs = ground (arith, count_where-append (open_of cashier) xs (s ∷ []))

insert_shift_keeps :
    (s : Shift) (w : World) (cashier : ℕ)
    → count_where (open_of cashier) w.tables.shifts ≤ 1
    → count_where (open_of cashier) (insert_shift s w).1.tables.shifts ≤ 1
unfolding insert_shift
insert_shift_keeps s w cashier le = ground (
  arith,
  count_where-snoc cashier s w.tables.shifts,
  count_where-zero (open_of s.cashier_id) w.tables.shifts,
)

open_shift_keeps :
    (ext : External) (new_id now tenant_id cashier_id : ℕ) (req : OpenShiftRequest) (w : World)
    (cashier : ℕ)
    → count_where (open_of cashier) w.tables.shifts ≤ 1
    → count_where
        (open_of cashier)
        (open_shift ext new_id now tenant_id cashier_id req w).1.tables.shifts
      ≤ 1
unfolding open_shift
open_shift_keeps ext new_id now tenant_id cashier_id req w cashier le =
    elim (Option-cases (ext.parse_uuid req.outlet_id)) [
      | inl bad ↦ ground arith
      | inr (outlet_id, good) ↦ ground (
        arith,
        insert_shift_keeps (new_shift new_id now tenant_id outlet_id cashier_id req.opening_cash)
            (record w { script = rest w.script }) cashier,
      )
    ]

-- A closing leaves no more open shifts than there were.
update_keeps :
    (now shift_id cashier : ℕ) (req : CloseShiftRequest) (xs : List Shift) (e d : ℤ)
    → count_where (open_of cashier) (update_where (has_id shift_id) (with_closing now e d req) xs)
      ≤ count_where (open_of cashier) xs
update_keeps now shift_id cashier req xs e d =
    count_where-update_where_le (has_id shift_id) (open_of cashier) (with_closing now e d req) xs
      (λ y h k. ground arith)

close_shift_keeps :
    (ext : External) (now shift_id cashier_id : ℕ) (req : CloseShiftRequest) (w : World)
    (cashier : ℕ)
    → count_where (open_of cashier) w.tables.shifts ≤ 1
    → count_where (open_of cashier) (close_shift ext now shift_id cashier_id req w).1.tables.shifts
      ≤ 1
unfolding close_shift
close_shift_keeps ext now shift_id cashier_id req w cashier le =
    elim (Option-cases (find_where (open_with_id shift_id) w.tables.shifts)) [
      | inl missing ↦ ground arith
      | inr (s, found) ↦
          let (a, sc, ran, is) =
            expected_cash_cases ext shift_id (record w { script = rest w.script }) in
          ground (
            arith,
            update_keeps now shift_id cashier req w.tables.shifts (expected_total s a)
                (cash_difference_of s a req),
          )
    ]

Step-OneOpenShift : {ext : External} {u v : World} → Step ext u v → OneOpenShift u → OneOpenShift v
Step-OneOpenShift {ext} (inserted s w) h cashier = insert_shift_keeps s w cashier (h cashier)
Step-OneOpenShift {ext} (opened new_id now tenant_id cashier_id req w) h cashier =
    open_shift_keeps ext new_id now tenant_id cashier_id req w cashier (h cashier)
Step-OneOpenShift {ext} (closed now shift_id cashier_id req w) h cashier =
    close_shift_keeps ext now shift_id cashier_id req w cashier (h cashier)

-- Whatever calls and interleaved INSERTs run in whatever order, and whichever statements fail, no
-- cashier comes to have two open shifts.
pub Reach-OneOpenShift :
    (ext : External) {u v : World} → Reach ext u v → OneOpenShift u → OneOpenShift v
Reach-OneOpenShift ext here h = h
Reach-OneOpenShift ext (next r s) h = Step-OneOpenShift s (Reach-OneOpenShift ext r h)
