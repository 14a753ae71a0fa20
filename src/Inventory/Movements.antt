-- ===== src/Inventory/Movements.antt =====
-- `RecordMovement`, `UpdateSupply`, `ListSupplies` and `GetLowStockAlerts` of
-- internal/service/inventory_service.go.
use service_api.Base.{
  ℕ, Bool, true, ◌&&◌, Option, none, some, List, ◌∷◌, [], ◌++◌, ◌==◌, if◌then◌else◌, ℤ, pos, ltb_ℤ,
  leb_ℤ, find_where, count_where, select_where, update_where, String, str_eq,
}
use service_api.Apperror.{not_found, validation, internal}
use service_api.Domain.Supplies.{
  MovementType, stock_in, stock_out, adjustment, Supply, StockMovement, StockMovementRequest,
}
use service_api.External.{External}
use service_api.Store.{
  Tables, Db, attempt, select, pure, raise, or_raise, branch, case_option, ◌>>=◌, ◌>>◌,
}

-- An empty text is stored as NULL.
abbrev pub optional_text : String → Option String
optional_text s = if str_eq s "" then none else some s

abbrev pub has_id : ℕ → Supply → Bool
has_id id s = s.id == id

-- `WHERE id = $n AND tenant_id = $m`
abbrev pub owned : ℕ → ℕ → Supply → Bool
owned tenant_id id s = s.id == id && s.tenant_id == tenant_id

abbrev pub with_stock : ℤ → Supply → Supply
with_stock n s = record s { current_stock = n }

-- `INSERT INTO stock_movements`: the supply exists, whichever tenant it belongs to, and the
-- quantity fits its column.
abbrev pub insert_movement : Option ℤ → (ℤ → StockMovement) → Tables → Option (Unit {0} × Tables)
insert_movement none row t = none
insert_movement (some q) row t = elim (find_where (has_id (row q).supply_id) t.supplies) [
  | none ↦ none
  | some _ ↦ some (tt, record t { stock_movements = t.stock_movements ++ row q ∷ [] })
]

-- `UPDATE supplies SET current_stock = f(current_stock) WHERE id AND tenant_id`, with the number
-- of rows. `f` gives `none` where the result does not fit.
abbrev pub update_stock : ℕ → ℕ → (ℤ → Option ℤ) → Tables → Option (ℕ × Tables)
update_stock tenant_id id f t = elim (find_where (owned tenant_id id) t.supplies) [
  | none ↦ some (0, t)
  | some s ↦ elim (f s.current_stock) [
    | none ↦ none
    | some n ↦ some (
      count_where (owned tenant_id id) t.supplies,
      record t { supplies = update_where (owned tenant_id id) (with_stock n) t.supplies },
    )
  ]
]

-- The delta's update, behind `switch req.MovementType`.
unfoldable pub move_stock : External → ℕ → ℕ → ℕ → Db (Unit {0})
move_stock ext tenant_id id delta = do
  affected ←
      attempt (update_stock tenant_id id (λ n. ext.plus_numeric n delta))
      >>= or_raise (internal "failed to update stock")
  branch (affected == 0) (raise (not_found "supply not found")) (pure tt)

-- An adjustment sets the stock, and does not look at the number of rows.
unfoldable pub adjust_stock : External → ℕ → ℕ → ℕ → Db (Unit {0})
adjust_stock ext tenant_id id quantity = do
  affected ←
      attempt (update_stock tenant_id id (λ _. ext.to_numeric quantity))
      >>= or_raise (internal "failed to adjust stock")
  pure tt

abbrev pub apply_movement : MovementType → External → ℕ → ℕ → ℕ → Db (Unit {0})
apply_movement stock_in ext tenant_id id q = move_stock ext tenant_id id q
apply_movement stock_out ext tenant_id id q = move_stock ext tenant_id id (ext.neg_float q)
apply_movement adjustment ext tenant_id id q = adjust_stock ext tenant_id id q

-- `RecordMovement`
unfoldable pub record_movement : External → ℕ → ℕ → StockMovementRequest → Db (Unit {0})
record_movement ext tenant_id user_id req =
    case_option (ext.parse_uuid req.supply_id) (raise (validation "invalid supply_id")) (λ id. do
      attempt (
            insert_movement (ext.to_numeric req.quantity) (λ q. record {
              tenant_id = tenant_id;
              supply_id = id;
              movement_type = req.movement_type;
              quantity = q;
              notes = optional_text req.notes;
              created_by = user_id;
            }))
          >>= or_raise (internal "failed to record stock movement")
      apply_movement req.movement_type ext tenant_id id req.quantity)

pub record UpdateSupplyRequest : Type 0 where
  pub name : String
  pub min_stock : ℤ
  pub cost_per_unit : ℤ
  pub is_active : Option Bool

-- `UpdateSupply`: without a flag in the request the supply becomes active.
unfoldable pub update_supply : ℕ → ℕ → UpdateSupplyRequest → Db (Unit {0})
update_supply tenant_id id req = do
  affected ←
      attempt (λ t. some (
        count_where (owned tenant_id id) t.supplies,
        record t {
          supplies =
              update_where (owned tenant_id id)
                (λ s. record s {
                  name = req.name;
                  min_stock = req.min_stock;
                  cost_per_unit = req.cost_per_unit;
                  is_active = elim req.is_active [ none ↦ true | some b ↦ b ];
                })
                t.supplies;
        },
      ))
      >>= or_raise (internal "failed to update supply")
  branch (affected == 0) (raise (not_found "supply not found")) (pure tt)

-- The WHERE clause of `GetLowStockAlerts`, which `ListSupplies` adds for `lowStockOnly`.
abbrev pub is_low : ℕ → Supply → Bool
is_low tenant_id s =
    s.tenant_id == tenant_id
    && s.is_active
    && ltb_ℤ (pos 0) s.min_stock
    && leb_ℤ s.current_stock s.min_stock

-- `GetLowStockAlerts`, without the order of its rows.
unfoldable pub get_low_stock_alerts : ℕ → Db (List Supply)
get_low_stock_alerts tenant_id =
    select (λ t. select_where (is_low tenant_id) t.supplies)
      (internal "failed to get low stock alerts")
