-- ===== src/Inventory/Deduct.antt =====
-- `DeductStockForOrder` of internal/service/inventory_service.go. Every failure is logged and passed
-- over: the function always returns `nil`.
use service_api.Base.{
  ℕ, Bool, true, false, ◌&&◌, Option, none, some, List, ◌∷◌, [], ◌==◌, String, ℤ, find_where,
  select_where,
}
use service_api.Domain.Transactions.{TxItem}
use service_api.Domain.Supplies.{ServiceSupplyMapping, StockMovement, stock_out}
use service_api.External.{External}
use service_api.Store.{Tables, Db, attempt, pure, case_option, ◌>>=◌, ◌>>◌}
use service_api.Inventory.Movements.{has_id, insert_movement, update_stock}

abbrev pub is_some {ℓ} : {A : Type ℓ} → Option A → Bool
is_some none = false
is_some (some _) = true

abbrev pub deduct_row : ℕ → ℕ → String → ServiceSupplyMapping → ℤ → StockMovement
deduct_row tenant_id user_id notes m q = record {
  tenant_id = tenant_id;
  supply_id = m.supply_id;
  movement_type = stock_out;
  quantity = q;
  notes = some notes;
  created_by = user_id;
}

-- The statements for one mapping: the movement, and the stock where the movement was written.
-- `notes` is the text that names the order.
unfoldable pub deduct_mapping : External → ℕ → ℕ → String → ℕ → ServiceSupplyMapping → Db (Unit {0})
deduct_mapping ext tenant_id user_id notes quantity m = do
  let deduct_qty = ext.mul_float m.quantity_per_unit quantity
  written ←
      attempt (insert_movement (ext.to_numeric deduct_qty) (deduct_row tenant_id user_id notes m))
  case_option written (pure tt) (λ _.
      attempt (update_stock tenant_id m.supply_id (λ n. ext.minus_numeric n deduct_qty)) >> pure tt)

unfoldable pub deduct_mappings :
    External → ℕ → ℕ → String → ℕ → List ServiceSupplyMapping → Db (Unit {0})
deduct_mappings ext tenant_id user_id notes quantity [] = pure tt
deduct_mappings ext tenant_id user_id notes quantity (m ∷ ms) =
    deduct_mapping ext tenant_id user_id notes quantity m
    >> deduct_mappings ext tenant_id user_id notes quantity ms

-- The mappings of a service whose supply exists (the JOIN).
abbrev pub service_mappings : ℕ → ℕ → Tables → List ServiceSupplyMapping
service_mappings tenant_id service_id t =
    select_where
      (λ m.
        m.tenant_id == tenant_id
        && m.service_template_id == service_id
        && is_some (find_where (has_id m.supply_id) t.supplies))
      t.mappings

-- One item: a service id that does not parse, and a query that fails, skip it.
unfoldable pub deduct_item : External → ℕ → ℕ → String → TxItem → Db (Unit {0})
deduct_item ext tenant_id user_id notes item =
    case_option (ext.parse_uuid item.service_id) (pure tt) (λ service_id. do
      found ← attempt (λ t. some (service_mappings tenant_id service_id t, t))
      case_option found (pure tt) (deduct_mappings ext tenant_id user_id notes item.quantity))

unfoldable pub deduct_items : External → ℕ → ℕ → String → List TxItem → Db (Unit {0})
deduct_items ext tenant_id user_id notes [] = pure tt
deduct_items ext tenant_id user_id notes (i ∷ is) =
    deduct_item ext tenant_id user_id notes i >> deduct_items ext tenant_id user_id notes is

-- `SELECT t.items FROM orders o JOIN transactions t ... WHERE o.id = $1 AND o.tenant_id = $2`
abbrev pub order_items : ℕ → ℕ → Tables → Option (Option (List TxItem))
order_items tenant_id order_id t =
    elim (find_where (λ o. o.id == order_id && o.tenant_id == tenant_id) t.orders) [
      | none ↦ none
      | some o ↦ elim o.transaction_id [
        | none ↦ none
        | some tx ↦ elim (find_where (λ x. x.id == tx) t.transactions) [
          | none ↦ none
          | some x ↦ some x.items
        ]
      ]
    ]

-- `DeductStockForOrder`. No linked transaction, and items that are no JSON, end it early.
unfoldable pub deduct_stock_for_order : External → ℕ → ℕ → String → ℕ → Db (Unit {0})
deduct_stock_for_order ext tenant_id user_id notes order_id = do
  row ← attempt (λ t. some (order_items tenant_id order_id t, t))
  case_option row (pure tt) (λ linked.
      case_option linked (pure tt)
        (λ items. case_option items (pure tt) (deduct_items ext tenant_id user_id notes)))
