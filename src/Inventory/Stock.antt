-- ===== src/Inventory/Stock.antt =====
-- What one stock movement does (internal/service/inventory_service.go, RecordMovement).
use service_api.Base.{
  ℕ, ◌≡◌, ◌⊎◌, refl, true, false, Option-cases, some, none, List, [], ◌∷◌, ◌++◌, ℤ, arith, ◌==◌,
  find_where, count_where, find_where-update_where, Option, Bool, Bool-cases, inl, inr,
}
use service_api.Apperror.{AppError, Result, ok, err, not_found, internal}
use service_api.Domain.Supplies.{
  stock_in, stock_out, adjustment, MovementType, Supply, StockMovement, StockMovementRequest,
}
use service_api.External.{External}
use service_api.Store.{World, fails, rest}
use service_api.Inventory.Movements.{
  has_id, owned, with_stock, optional_text, move_stock, adjust_stock, record_movement,
}

-- The stock that a movement leaves.
abbrev pub new_stock : External → MovementType → ℤ → ℕ → Option ℤ
new_stock ext stock_in n q = ext.plus_numeric n q
new_stock ext stock_out n q = ext.plus_numeric n (ext.neg_float q)
new_stock ext adjustment n q = ext.to_numeric q

abbrev pub movement_row : ℕ → ℕ → ℕ → ℤ → StockMovementRequest → StockMovement
movement_row tenant_id user_id id k req = record {
  tenant_id = tenant_id;
  supply_id = id;
  movement_type = req.movement_type;
  quantity = k;
  notes = optional_text req.notes;
  created_by = user_id;
}

-- What a movement of another tenant's supply answers.
abbrev pub foreign_reply : MovementType → Result (Unit {0})
foreign_reply adjustment = ok tt
foreign_reply _ = err (not_found "supply not found")

count_where-pos :
    (p : Supply → Bool) (xs : List Supply) {s : Supply}
    → find_where p xs ≡ some s
    → (count_where p xs == 0) ≡ false
unfolding find_where count_where
count_where-pos p [] h = cc
count_where-pos p (x ∷ xs) {s} h = elim (Bool-cases (p x)) [
  | inl e ↦ ground arith
  | inr e ↦ let ih = count_where-pos p xs {s = s} (rw e at h) in ground arith
]

-- Where the statements run and the numbers fit, a movement of a supply of one's own tenant is
-- logged as the last row and leaves the stock that its type says: more by the quantity, less by it,
-- or the quantity itself.
pub record_movement_own :
    (ext : External) (tenant_id user_id : ℕ) (req : StockMovementRequest) (w : World) {id : ℕ}
    {s any : Supply} {k n : ℤ}
    → w.script ≡ []
    → ext.parse_uuid req.supply_id ≡ some id
    → find_where (owned tenant_id id) w.tables.supplies ≡ some s
    → find_where (has_id id) w.tables.supplies ≡ some any
    → ext.to_numeric req.quantity ≡ some k
    → new_stock ext req.movement_type s.current_stock req.quantity ≡ some n
    → let (r, w') = record_movement ext tenant_id user_id req w in
      (r ≡ ok tt)
      × (find_where (owned tenant_id id) w'.tables.supplies ≡ some (with_stock n s))
      × (w'.tables.stock_movements
          ≡ w.tables.stock_movements ++ movement_row tenant_id user_id id k req ∷ [])
unfolding record_movement move_stock adjust_stock fails rest
record_movement_own ext tenant_id user_id req w {id} {s} {any} {k} {n} quiet parsed mine there fits
      stock =
    ground (
      arith,
      count_where-pos (owned tenant_id id) w.tables.supplies mine,
      find_where-update_where (owned tenant_id id) (with_stock n) w.tables.supplies (λ y h. h) mine,
    )

-- The error where the statement on the stock fails.
abbrev pub stock_failure : MovementType → AppError
stock_failure adjustment = internal "failed to adjust stock"
stock_failure _ = internal "failed to update stock"

-- The behaviour of a movement of another tenant's supply, whichever statements fail: its entry is
-- refused, with 500 and no row changed; or it is logged under the caller's tenant, no supply changes,
-- and the caller hears 500 where the statement on the stock fails, and else 404 for an inflow or an
-- outflow, and success for an adjustment.
pub record_movement_foreign :
    (ext : External) (tenant_id user_id : ℕ) (req : StockMovementRequest) (w : World) {id : ℕ}
    {any : Supply}
    → ext.parse_uuid req.supply_id ≡ some id
    → find_where (owned tenant_id id) w.tables.supplies ≡ none
    → find_where (has_id id) w.tables.supplies ≡ some any
    → let (r, w') = record_movement ext tenant_id user_id req w in
      (((fails w.script ≡ true) ⊎ (ext.to_numeric req.quantity ≡ none))
        × (r ≡ err (internal "failed to record stock movement"))
        × (w'.tables ≡ w.tables))
      ⊎ ((k : ℤ) × (fails w.script ≡ false)
          × (ext.to_numeric req.quantity ≡ some k)
          × (w'.tables ≡ record (w.tables) {
            stock_movements =
                w.tables.stock_movements ++ movement_row tenant_id user_id id k req ∷ [];
          })
          × (((fails (rest w.script) ≡ true) × (r ≡ err (stock_failure req.movement_type)))
              ⊎ ((fails (rest w.script) ≡ false) × (r ≡ foreign_reply req.movement_type))))
unfolding record_movement move_stock adjust_stock
record_movement_foreign ext tenant_id user_id req w {id} parsed not_mine there =
    elim (Bool-cases (fails w.script)) [
      | inl failed ↦ inl (inl failed, ground arith, ground arith)
      | inr runs ↦ elim (Option-cases (ext.to_numeric req.quantity)) [
        | inl unfit ↦ inl (inr unfit, ground arith, ground arith)
        | inr (k, fits) ↦
            let (rows, reply) = by_stock req.movement_type refl k runs fits in
            inr (k, runs, fits, rows, reply)
      ]
    ]
  where
    by_stock :
        (m : MovementType)
        → req.movement_type ≡ m
        → (k : ℤ) → fails w.script ≡ false
        → ext.to_numeric req.quantity ≡ some k
        → let (r, w') = record_movement ext tenant_id user_id req w in
          (w'.tables ≡ record (w.tables) {
            stock_movements =
                w.tables.stock_movements ++ movement_row tenant_id user_id id k req ∷ [];
          })
          × (((fails (rest w.script) ≡ true) × (r ≡ err (stock_failure req.movement_type)))
              ⊎ ((fails (rest w.script) ≡ false) × (r ≡ foreign_reply req.movement_type)))
    by_stock stock_in is k runs fits = (ground arith, ground arith)
    by_stock stock_out is k runs fits = (ground arith, ground arith)
    by_stock adjustment is k runs fits = (ground arith, ground arith)
