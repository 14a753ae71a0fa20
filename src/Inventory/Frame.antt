-- ===== src/Inventory/Frame.antt =====
-- The deduction of stock returns success and touches stock alone
-- (internal/service/inventory_service.go, DeductStockForOrder).
use service_api.Base.{
  ℕ, ◌≡◌, ◌∙◌, ap, sym, refl, some, none, List, [], ◌∷◌, ◌++◌, String, arith, Option-cases, inl,
  inr, All, All-append,
}
use mathlib.Core.List.{append-nil, append_assoc}
use service_api.Apperror.{ok}
use service_api.Domain.Transactions.{TxItem}
use service_api.Domain.Supplies.{ServiceSupplyMapping, StockMovement, stock_out}
use service_api.External.{External}
use service_api.Store.{World, Tables, Db, rest, ◌>>◌}
use service_api.Inventory.Deduct.{
  deduct_row, deduct_mapping, deduct_mappings, deduct_item, deduct_items, deduct_stock_for_order,
  order_items, service_mappings,
}

-- A log with more entries: the old ones first, as they were, and outflows behind them.
unfoldable pub Extended : List StockMovement → List StockMovement → Type 0
Extended ms ms' =
    (more : List StockMovement) × All (λ m. m.movement_type ≡ stock_out) more × (ms' ≡ ms ++ more)

-- Only the supplies and the log of movements differ, and the log is extended.
abbrev pub OnlyStock : Tables → Tables → Type 0
OnlyStock t t' =
    (t' ≡ record t { supplies = t'.supplies; stock_movements = t'.stock_movements })
    × Extended t.stock_movements t'.stock_movements

pub Extended-refl : (ms : List StockMovement) → Extended ms ms
unfolding Extended
Extended-refl ms = ([], tt, sym (append-nil ms))

Extended-snoc :
    (ms : List StockMovement) (m : StockMovement)
    → m.movement_type ≡ stock_out
    → Extended ms (ms ++ m ∷ [])
unfolding Extended
Extended-snoc ms m out = (m ∷ [], (out, tt), refl)

Extended-trans : (a b c : List StockMovement) → Extended a b → Extended b c → Extended a c
unfolding Extended
Extended-trans a b c (m, outflows, grown) (m', outflows', grown') = (
  m ++ m',
  All-append (λ m. m.movement_type ≡ stock_out) m m' outflows outflows',
  grown' ∙ ap (λ ms. ms ++ m') grown ∙ append_assoc a m m',
)

-- A call that returns success and touches stock alone.
abbrev pub Harmless : Db (Unit {0}) → Type 0
Harmless m = (w : World) → ((m w).0 ≡ ok tt) × OnlyStock w.tables (m w).1.tables

OnlyStock-trans : (a b c : Tables) → OnlyStock a b → OnlyStock b c → OnlyStock a c
OnlyStock-trans a b c p q = (
  q.0
      ∙ ap {A = Tables}
          (λ t. record t { supplies = c.supplies; stock_movements = c.stock_movements }) p.0,
  Extended-trans a.stock_movements b.stock_movements c.stock_movements p.1 q.1,
)

-- Two harmless calls in a row.
pub >>-Harmless : (m k : Db (Unit {0})) → Harmless m → Harmless k → Harmless (m >> k)
>>-Harmless m k hm hk w =
    let w' = (m w).1 in
    ground
      (arith, hm w, hk w', OnlyStock-trans w.tables w'.tables (k w').1.tables (hm w).1 (hk w').1)

deduct_mapping-Harmless :
    (ext : External) (tenant_id user_id : ℕ) (notes : String) (q : ℕ) (m : ServiceSupplyMapping)
    → Harmless (deduct_mapping ext tenant_id user_id notes q m)
unfolding deduct_mapping
deduct_mapping-Harmless ext tenant_id user_id notes q m w =
    elim (Option-cases (ext.to_numeric (ext.mul_float m.quantity_per_unit q))) [
      | inl unfit ↦ ground (arith, Extended-refl w.tables.stock_movements)
      | inr (k, fits) ↦ ground (
        arith,
        Extended-snoc w.tables.stock_movements (deduct_row tenant_id user_id notes m k) refl,
        Extended-refl w.tables.stock_movements,
      )
    ]

pub deduct_mappings-Harmless :
    (ext : External) (tenant_id user_id : ℕ) (notes : String) (q : ℕ)
    (ms : List ServiceSupplyMapping)
    → Harmless (deduct_mappings ext tenant_id user_id notes q ms)
unfolding deduct_mappings
deduct_mappings-Harmless ext tenant_id user_id notes q [] w =
    (refl, (refl, Extended-refl w.tables.stock_movements))
deduct_mappings-Harmless ext tenant_id user_id notes q (m ∷ ms) w =
    >>-Harmless (deduct_mapping ext tenant_id user_id notes q m)
      (deduct_mappings ext tenant_id user_id notes q ms)
      (deduct_mapping-Harmless ext tenant_id user_id notes q m)
      (deduct_mappings-Harmless ext tenant_id user_id notes q ms) w

deduct_item-Harmless :
    (ext : External) (tenant_id user_id : ℕ) (notes : String) (item : TxItem)
    → Harmless (deduct_item ext tenant_id user_id notes item)
unfolding deduct_item
deduct_item-Harmless ext tenant_id user_id notes item w =
    elim (Option-cases (ext.parse_uuid item.service_id)) [
      | inl bad ↦ ground (arith, Extended-refl w.tables.stock_movements)
      | inr (id, good) ↦ ground (
        arith,
        Extended-refl w.tables.stock_movements,
        deduct_mappings-Harmless ext tenant_id user_id notes item.quantity
            (service_mappings tenant_id id w.tables) (record w { script = rest w.script }),
      )
    ]

deduct_items-Harmless :
    (ext : External) (tenant_id user_id : ℕ) (notes : String) (items : List TxItem)
    → Harmless (deduct_items ext tenant_id user_id notes items)
unfolding deduct_items
deduct_items-Harmless ext tenant_id user_id notes [] w =
    (refl, (refl, Extended-refl w.tables.stock_movements))
deduct_items-Harmless ext tenant_id user_id notes (i ∷ is) w =
    >>-Harmless (deduct_item ext tenant_id user_id notes i)
      (deduct_items ext tenant_id user_id notes is)
      (deduct_item-Harmless ext tenant_id user_id notes i)
      (deduct_items-Harmless ext tenant_id user_id notes is) w

-- Whatever statements fail and whatever the order holds, the deduction of its stock returns success,
-- keeps every logged movement as it is and where it is, adds only outflows behind them, and changes
-- no table but the supplies and the movements.
pub deduct_stock_for_order-Harmless :
    (ext : External) (tenant_id user_id : ℕ) (notes : String) (order_id : ℕ) (w : World)
    → let (r, w') = deduct_stock_for_order ext tenant_id user_id notes order_id w in
      (r ≡ ok tt) × OnlyStock w.tables w'.tables
unfolding deduct_stock_for_order
deduct_stock_for_order-Harmless ext tenant_id user_id notes order_id w =
    elim (Option-cases (order_items tenant_id order_id w.tables)) [
      | inl unlinked ↦ ground (arith, Extended-refl w.tables.stock_movements)
      | inr (none, linked) ↦ ground (arith, Extended-refl w.tables.stock_movements)
      | inr (some items, linked) ↦ ground (
        arith,
        Extended-refl w.tables.stock_movements,
        deduct_items-Harmless ext tenant_id user_id notes items
            (record w { script = rest w.script }),
      )
    ]
