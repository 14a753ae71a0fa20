-- ===== src/Sync/Stock.antt =====
-- `autoDeductStockForTransactions` of internal/service/sync_service.go, without the alert that it
-- sends in the background afterwards. Every failure is logged and passed over.
use service_api.Base.{ℕ, ◌&&◌, some, List, [], ◌∷◌, ◌==◌, String, select_where}
use service_api.Domain.Transactions.{TxItem, TxUpload}
use service_api.Domain.Supplies.{ServiceSupplyMapping}
use service_api.External.{External}
use service_api.Store.{Tables, Db, attempt, pure, case_option, ◌>>=◌, ◌>>◌}
use service_api.Inventory.{deduct_mappings}

-- The mappings of a service; the statements for each are those of `DeductStockForOrder`.
abbrev pub tenant_mappings : ℕ → ℕ → Tables → List ServiceSupplyMapping
tenant_mappings tenant_id service_id t =
    select_where (λ m. m.tenant_id == tenant_id && m.service_template_id == service_id) t.mappings

unfoldable pub deduct_sold : External → ℕ → ℕ → String → TxItem → Db (Unit {0})
deduct_sold ext tenant_id created_by notes item =
    case_option (ext.parse_uuid item.service_id) (pure tt) (λ service_id. do
      found ← attempt (λ t. some (tenant_mappings tenant_id service_id t, t))
      case_option found (pure tt) (deduct_mappings ext tenant_id created_by notes item.quantity))

unfoldable pub deduct_all_sold : External → ℕ → ℕ → String → List TxItem → Db (Unit {0})
deduct_all_sold ext tenant_id created_by notes [] = pure tt
deduct_all_sold ext tenant_id created_by notes (i ∷ is) =
    deduct_sold ext tenant_id created_by notes i
    >> deduct_all_sold ext tenant_id created_by notes is

-- `notes` gives the text that names a transaction. Items that are no JSON skip it.
unfoldable pub auto_deduct : External → (ℕ → String) → ℕ → List TxUpload → Db (Unit {0})
auto_deduct ext notes tenant_id [] = pure tt
auto_deduct ext notes tenant_id (x ∷ xs) =
    case_option x.row.items (pure tt)
      (deduct_all_sold ext tenant_id x.row.created_by (notes x.row.id))
    >> auto_deduct ext notes tenant_id xs
