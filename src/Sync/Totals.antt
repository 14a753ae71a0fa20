-- ===== src/Sync/Totals.antt =====
-- What an upload answers, and what it leaves of the rows that were there
-- (internal/service/sync_service.go, Upload).
use service_api.Base.{
  ℕ, ◌≤◌, ◌≡◌, ◌∙◌, ap, refl, arith, Bool, true, false, List, [], ◌∷◌, String, count_where,
}
use service_api.Apperror.{ok}
use service_api.Domain.Orders.{Order}
use service_api.Domain.Members.{Member}
use service_api.Domain.Transactions.{Transaction, TxUpload}
use service_api.External.{External}
use service_api.Store.{World, Tables, branch, pure}
use service_api.Sync.Batch.{send_batch}
use service_api.Sync.Stock.{auto_deduct}
use service_api.Sync.Upload.{
  Entry, uploads, upsert_statements, link_shifts, create_orders, credit_members, Session, follow_up,
  upload,
}
use service_api.Sync.Frame.{upserts_frame, link_shifts_frame}
use service_api.Sync.Parts.{create_orders-Quiet, credit_members-Quiet, auto_deduct-Harmless, Quiet}
use service_api.Order.{has_transaction, create_from_transaction}
use service_api.Order.System.{create_from_transaction_keeps, OneOrderPerTransaction}

abbrev pub sales : Tables → List Transaction × List Order × List Member
sales t = (t.transactions, t.orders, t.members)

-- The deduction, if there is an inventory service, leaves the sales alone.
pub deduct_if-Quiet :
    (b : Bool) (ext : External) (notes : ℕ → String) (tenant_id : ℕ) (xs : List TxUpload)
    → Quiet sales (branch b (auto_deduct ext notes tenant_id xs) (pure tt))
deduct_if-Quiet false ext notes tenant_id xs w = (refl, refl)
deduct_if-Quiet true ext notes tenant_id xs w =
    let h = auto_deduct-Harmless ext notes tenant_id xs w in (h.0, ap sales h.1.0)

create_orders_keeps :
    (ext : External) (tenant_id : ℕ) (es : List Entry) (w : World) (tx : ℕ)
    → count_where (has_transaction tx) w.tables.orders ≤ 1
    → count_where (has_transaction tx) (create_orders ext tenant_id es w).1.tables.orders ≤ 1
unfolding create_orders
create_orders_keeps ext tenant_id [] w tx le = le
create_orders_keeps ext tenant_id (e ∷ es) w tx le =
    let user_id = e.upload.row.created_by in
    create_orders_keeps ext tenant_id es
      (create_from_transaction ext e.call tenant_id user_id e.upload w).1 tx
      (create_from_transaction_keeps ext e.call tenant_id user_id e.upload w tx le)

-- The part behind the batch: it returns, leaves the stored transactions alone, and gives no
-- transaction a second order.
pub follow_up_frame :
    (ext : External) (notes : ℕ → String) (injected : Bool) (s : Session) (tenant_id outlet_id : ℕ)
    (es : List Entry) (w : World)
    → let (r, w') = follow_up ext notes injected s tenant_id outlet_id es w in
      (r ≡ ok tt)
      × (w'.tables.transactions ≡ w.tables.transactions)
      × ((tx : ℕ)
          → count_where (has_transaction tx) w.tables.orders ≤ 1
          → count_where (has_transaction tx) w'.tables.orders ≤ 1)
unfolding follow_up
follow_up_frame ext notes injected s tenant_id outlet_id es w =
    let ((reports, linked), a) = link_shifts_frame outlet_id (uploads es) w in
    let w1 = (link_shifts outlet_id (uploads es) w).1 in
    let b = create_orders-Quiet ext tenant_id es w1 in
    let w2 = (create_orders ext tenant_id es w1).1 in
    let c = credit_members-Quiet (uploads es) w2 in
    let w3 = (credit_members (uploads es) w2).1 in
    let d = deduct_if-Quiet injected ext notes tenant_id (uploads es) w3 in
    let kept : w3.tables.transactions ≡ w.tables.transactions =
      ap (λ t. t.transactions) c.1 ∙ ap (λ t. t.transactions) b.1 ∙ ap (λ t. t.transactions) a in
    let same : w1.tables.orders ≡ w.tables.orders = ap (λ t. t.orders) a in
    let same' : w3.tables.orders ≡ w2.tables.orders = ap (λ t. t.orders) c.1 in
    let one = λ (tx : ℕ). create_orders_keeps ext tenant_id es w1 tx in
    let orders : (follow_up ext notes injected s tenant_id outlet_id es w).1.tables.orders
        ≡ w2.tables.orders =
      ground arith in
    (ground arith, ground arith, λ tx le. rw (orders) (one tx (rw same le)))

-- The members are those that the credits leave.
pub follow_up_members :
    (ext : External) (notes : ℕ → String) (injected : Bool) (s : Session) (tenant_id outlet_id : ℕ)
    (es : List Entry) (w : World)
    → let w1 = (link_shifts outlet_id (uploads es) w).1 in
      let w2 = (create_orders ext tenant_id es w1).1 in
      (follow_up ext notes injected s tenant_id outlet_id es w).1.tables.members
      ≡ (credit_members (uploads es) w2).1.tables.members
unfolding follow_up
follow_up_members ext notes injected s tenant_id outlet_id es w =
    let ((reports, linked), a) = link_shifts_frame outlet_id (uploads es) w in
    let w1 = (link_shifts outlet_id (uploads es) w).1 in
    let b = create_orders-Quiet ext tenant_id es w1 in
    let w2 = (create_orders ext tenant_id es w1).1 in
    let c = credit_members-Quiet (uploads es) w2 in
    let w3 = (credit_members (uploads es) w2).1 in
    let d = deduct_if-Quiet injected ext notes tenant_id (uploads es) w3 in ground arith

-- What an upload leaves is what the part behind the batch leaves.
pub upload_tables :
    (ext : External) (notes : ℕ → String) (injected : Bool) (s : Session) (tenant_id outlet_id : ℕ)
    (es : List Entry) (w : World)
    → let w' = (send_batch (upsert_statements s.now tenant_id outlet_id (uploads es)) w).1 in
      (upload ext notes injected s tenant_id outlet_id es w).1
      ≡ (follow_up ext notes injected s tenant_id outlet_id es w').1
unfolding upload
upload_tables ext notes injected s tenant_id outlet_id es w =
    let w' = (send_batch (upsert_statements s.now tenant_id outlet_id (uploads es)) w).1 in
    let f = follow_up_frame ext notes injected s tenant_id outlet_id es w' in ground arith

-- Whatever statements fail, an upload gives no transaction a second order.
pub upload-OneOrderPerTransaction :
    (ext : External) (notes : ℕ → String) (injected : Bool) (s : Session) (tenant_id outlet_id : ℕ)
    (es : List Entry) (w : World)
    → OneOrderPerTransaction w
    → OneOrderPerTransaction (upload ext notes injected s tenant_id outlet_id es w).1
unfolding upload
upload-OneOrderPerTransaction ext notes injected s tenant_id outlet_id es w h tx =
    let fs = upsert_statements s.now tenant_id outlet_id (uploads es) in
    let w' = (send_batch fs w).1 in
    let f = follow_up_frame ext notes injected s tenant_id outlet_id es w' in
    let same = ap (λ t. t.orders) (upserts_frame s.now tenant_id outlet_id (uploads es) w) in
    let le = f.2 tx (rw same (h tx)) in ground arith
