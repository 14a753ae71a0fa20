-- ===== src/Sync/Parts.antt =====
-- What follows the batch of an upload returns whatever fails, and each part of it leaves alone what
-- is not its own (internal/service/sync_service.go, Upload).
use service_api.Base.{
  ℕ, ◌≡◌, inl, inr, refl, arith, ℤ, Option, none, some, List, [], ◌∷◌, String, Option-cases,
}
use service_api.Apperror.{ok}
use service_api.Domain.Transactions.{TxItem, TxUpload}
use service_api.External.{External}
use service_api.Store.{World, Tables, Db, rest, pure, case_option, ◌>>◌}
use service_api.Inventory.Frame.{Harmless, Extended-refl, >>-Harmless, deduct_mappings-Harmless}
use service_api.Member.{update_spending, award_referral_points, award_referrer}
use service_api.Order.{create_from_transaction, Call}
use service_api.Sync.Stock.{tenant_mappings, deduct_sold, deduct_all_sold, auto_deduct}
use service_api.Sync.Upload.{Entry, ignore, create_orders, credit_member, credit_members}

-- Calls that return success and keep what `g` reads of the tables.
module _ {B : Type 0} (g : Tables → B) where
  abbrev pub Quiet : Db (Unit {0}) → Type 0
  Quiet m = (w : World) → ((m w).0 ≡ ok tt) × (g (m w).1.tables ≡ g w.tables)

  pub >>-Quiet : (m k : Db (Unit {0})) → Quiet m → Quiet k → Quiet (m >> k)
  >>-Quiet m k hm hk w = ground (arith, hm w, hk (m w).1)

-- All tables but those of the orders, and all but the members.
abbrev pub but_orders : Tables → Tables
but_orders t = record t { orders = []; order_status_logs = [] }

abbrev pub but_members : Tables → Tables
but_members t = record t { members = [] }

create_from_transaction_frame :
    (ext : External) (c : Call) (tenant_id user_id : ℕ) (x : TxUpload) (w : World)
    → but_orders (create_from_transaction ext c tenant_id user_id x w).1.tables
      ≡ but_orders w.tables
unfolding create_from_transaction
create_from_transaction_frame ext c tenant_id user_id x w = ground arith

pub create_orders-Quiet :
    (ext : External) (tenant_id : ℕ) (es : List Entry)
    → Quiet but_orders (create_orders ext tenant_id es)
unfolding create_orders
create_orders-Quiet ext tenant_id [] w = (refl, refl)
create_orders-Quiet ext tenant_id (e ∷ es) w =
    >>-Quiet but_orders
      (ignore (create_from_transaction ext e.call tenant_id e.upload.row.created_by e.upload))
      (create_orders ext tenant_id es)
      (λ w. (
        refl,
        create_from_transaction_frame ext e.call tenant_id e.upload.row.created_by e.upload w,
      ))
      (create_orders-Quiet ext tenant_id es) w

update_spending_frame :
    (id : ℕ) (amount : ℤ) (w : World)
    → but_members (update_spending id amount w).1.tables ≡ but_members w.tables
unfolding update_spending
update_spending_frame id amount w = ground arith

award_referral_points-Quiet : (id : ℕ) → Quiet but_members (award_referral_points id)
unfolding award_referral_points award_referrer
award_referral_points-Quiet id w = ground arith

pub credit_member-Quiet : (x : TxUpload) → Quiet but_members (credit_member x)
unfolding credit_member
credit_member-Quiet x w = elim (Option-cases x.row.member_id) [
  | inl none_named ↦ ground arith
  | inr (m, named) ↦
      let w' = (update_spending m x.row.total_amount w).1 in
      ground (arith, update_spending_frame m x.row.total_amount w, award_referral_points-Quiet m w')
]

pub credit_members-Quiet : (xs : List TxUpload) → Quiet but_members (credit_members xs)
unfolding credit_members
credit_members-Quiet [] w = (refl, refl)
credit_members-Quiet (x ∷ xs) w =
    >>-Quiet but_members (credit_member x) (credit_members xs) (credit_member-Quiet x)
      (credit_members-Quiet xs) w

-- The automatic deduction is as harmless as that for one order.
deduct_sold-Harmless :
    (ext : External) (tenant_id user_id : ℕ) (notes : String) (item : TxItem)
    → Harmless (deduct_sold ext tenant_id user_id notes item)
unfolding deduct_sold
deduct_sold-Harmless ext tenant_id user_id notes item w =
    elim (Option-cases (ext.parse_uuid item.service_id)) [
      | inl bad ↦ ground (arith, Extended-refl w.tables.stock_movements)
      | inr (id, good) ↦ ground (
        arith,
        Extended-refl w.tables.stock_movements,
        deduct_mappings-Harmless ext tenant_id user_id notes item.quantity
            (tenant_mappings tenant_id id w.tables) (record w { script = rest w.script }),
      )
    ]

deduct_all_sold-Harmless :
    (ext : External) (tenant_id user_id : ℕ) (notes : String) (items : List TxItem)
    → Harmless (deduct_all_sold ext tenant_id user_id notes items)
unfolding deduct_all_sold
deduct_all_sold-Harmless ext tenant_id user_id notes [] w =
    (refl, (refl, Extended-refl w.tables.stock_movements))
deduct_all_sold-Harmless ext tenant_id user_id notes (i ∷ is) w =
    >>-Harmless (deduct_sold ext tenant_id user_id notes i)
      (deduct_all_sold ext tenant_id user_id notes is)
      (deduct_sold-Harmless ext tenant_id user_id notes i)
      (deduct_all_sold-Harmless ext tenant_id user_id notes is) w

deduct_items_of-Harmless :
    (ext : External) (tenant_id user_id : ℕ) (notes : String) (o : Option (List TxItem))
    → Harmless (case_option o (pure tt) (deduct_all_sold ext tenant_id user_id notes))
deduct_items_of-Harmless ext tenant_id user_id notes none w =
    (refl, (refl, Extended-refl w.tables.stock_movements))
deduct_items_of-Harmless ext tenant_id user_id notes (some items) w =
    deduct_all_sold-Harmless ext tenant_id user_id notes items w

-- Whatever statements fail and whatever the transactions hold, the deduction after an upload
-- returns success, keeps every logged movement, adds only outflows behind them, and changes no table
-- but the supplies and the movements.
pub auto_deduct-Harmless :
    (ext : External) (notes : ℕ → String) (tenant_id : ℕ) (xs : List TxUpload)
    → Harmless (auto_deduct ext notes tenant_id xs)
unfolding auto_deduct
auto_deduct-Harmless ext notes tenant_id [] w =
    (refl, (refl, Extended-refl w.tables.stock_movements))
auto_deduct-Harmless ext notes tenant_id (x ∷ xs) w =
    >>-Harmless
      (case_option x.row.items (pure tt)
        (deduct_all_sold ext tenant_id x.row.created_by (notes x.row.id)))
      (auto_deduct ext notes tenant_id xs)
      (deduct_items_of-Harmless ext tenant_id x.row.created_by (notes x.row.id) x.row.items)
      (auto_deduct-Harmless ext notes tenant_id xs) w
