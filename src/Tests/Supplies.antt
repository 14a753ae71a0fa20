-- ===== src/Tests/Supplies.antt =====
-- A supply that is used, another tenant's, and the stock of an order.
use service_api.Base.{◌≡◌, ◌⊎◌, ℤ, true, false, none, refl, some, [], ◌∷◌, pos, ◌+ℤ◌, find_where}
use service_api.Apperror.{ok, err, internal}
use service_api.Domain.Orders.{done}
use service_api.Domain.Payments.{pending}
use service_api.Domain.Supplies.{stock_in, adjustment, StockMovementRequest}
use service_api.Store.{World, fails, rest}
use service_api.Inventory.{owned, with_stock, record_movement, deduct_stock_for_order}
use service_api.Inventory.Stock.{movement_row, record_movement_own, record_movement_foreign}
use service_api.Inventory.Frame.{OnlyStock, deduct_stock_for_order-Harmless}
use service_api.Tests.Data.{plain, supply, world}

abbrev store : World
store = world done pending

abbrev inflow : StockMovementRequest
inflow = record { supply_id = "u1"; movement_type = stock_in; quantity = 200; notes = "" }

abbrev count : StockMovementRequest
count = record { supply_id = "u1"; movement_type = adjustment; quantity = 30; notes = "" }

record_movement_own_example :
    let (r, w') = record_movement plain 5 9 inflow store in
    (r ≡ ok tt)
    × (find_where (owned 5 1) w'.tables.supplies ≡ some (with_stock (pos 700) supply))
    × (w'.tables.stock_movements ≡ movement_row 5 9 1 (pos 200) inflow ∷ [])
unfolding find_where ◌+ℤ◌
record_movement_own_example =
    record_movement_own plain 5 9 inflow store {id = 1} {s = supply} {any = supply} {k = pos 200}
      {n = pos 700} refl refl refl refl refl refl

record_movement_foreign_example :
    let (r, w') = record_movement plain 77 9 count store in
    (((fails [] ≡ true) ⊎ (plain.to_numeric 30 ≡ none))
      × (r ≡ err (internal "failed to record stock movement"))
      × (w'.tables ≡ store.tables))
    ⊎ ((k : ℤ) × (fails [] ≡ false)
        × (plain.to_numeric 30 ≡ some k)
        × (w'.tables ≡ record (store.tables) { stock_movements = movement_row 77 9 1 k count ∷ [] })
        × (((fails (rest []) ≡ true) × (r ≡ err (internal "failed to adjust stock")))
            ⊎ ((fails (rest []) ≡ false) × (r ≡ ok tt))))
unfolding find_where
record_movement_foreign_example =
    record_movement_foreign plain 77 9 count store {id = 1} {any = supply} refl refl refl

deduct_stock_for_order-Harmless_example :
    let (r, w') = deduct_stock_for_order plain 5 9 "n" 1 store in
    (r ≡ ok tt) × OnlyStock store.tables w'.tables
deduct_stock_for_order-Harmless_example = deduct_stock_for_order-Harmless plain 5 9 "n" 1 store
