-- ===== src/Gateway/Create.antt =====
-- `CreateGatewayPayment` of internal/service/gateway_service.go, in the three parts between which
-- other sessions run: the row is reserved, the gateway is called, and the row is activated.
use Prim.Native.String.{◌++◌ as str_append}
use service_api.Base.{
  ℕ, Bool, true, false, not, Option, none, some, List, [], ◌∷◌, ◌++◌, ℤ, String, str_eq, find_where,
  update_where, select_where, if◌then◌else◌, ◌==◌,
}
use service_api.Apperror.{not_found, validation, internal}
use service_api.Domain.Payments.{GatewayStatus, pending, active, expired, failed, GatewayPayment}
use service_api.External.{External}
use service_api.Store.{
  Tables, Db, attempt, query_row, pure, raise, or_raise, branch, case_option, ◌>>=◌, ◌>>◌,
}
use service_api.Gateway.Status.{has_external_id, find_payment, is_gateway_type, map_gateway_type}
use service_api.Gateway.Config.{
  Gateway, AvailableBank, QrCode, XenditInvoice, has_tenant, get_decrypted_secret_key,
}

pub record CreateGatewayPaymentRequest : Type 0 where
  pub transaction_id : String
  pub payment_item_id : String
  pub gateway_type : String
  pub amount : ℤ

pub record GatewayPaymentResponse : Type 0 where
  pub payment : GatewayPayment
  pub virtual_accounts : List AvailableBank

-- `fmt.Sprintf("lpos-%s", paymentItemID)`
abbrev pub external_id_of : External → ℕ → String
external_id_of ext item = str_append "lpos-" (ext.uuid_string item)

abbrev pub is_retry : GatewayStatus → Bool
is_retry expired = true
is_retry failed = true
is_retry _ = false

-- The ON CONFLICT branch: an expired or failed payment starts anew, any other stays as it is.
unfoldable pub retry_payment : ℕ → GatewayPayment → GatewayPayment
retry_payment now p =
    if is_retry p.gateway_status
    then record p {
      gateway_status = pending;
      gateway_payment_url = none;
      gateway_ref_id = none;
      expires_at = none;
      updated_at = now;
    }
    else record p { updated_at = now }

abbrev pub new_payment : ℕ → ℕ → ℕ → ℕ → ℕ → String → CreateGatewayPaymentRequest → GatewayPayment
new_payment new_id now tenant_id tx item x req = record {
  id = new_id;
  tenant_id = tenant_id;
  transaction_id = tx;
  payment_item_id = item;
  gateway_type = req.gateway_type;
  external_id = x;
  gateway_ref_id = none;
  amount = req.amount;
  gateway_status = pending;
  gateway_payment_url = none;
  qr_string = none;
  gateway_response = none;
  webhook_payload = none;
  expires_at = none;
  paid_at = none;
  created_at = now;
  updated_at = now;
}

abbrev pub update_payment : String → (GatewayPayment → GatewayPayment) → Tables → Tables
update_payment x f t = record t {
  gateway_payments = update_where (has_external_id x) f t.gateway_payments;
}

-- `INSERT ... ON CONFLICT (external_id) DO UPDATE ... RETURNING`. Postgres checks the new row's
-- type before it looks for the conflict.
abbrev pub upsert_payment : ℕ → GatewayPayment → Tables → Option (GatewayPayment × Tables)
upsert_payment now p t =
    if is_gateway_type p.gateway_type
    then elim (find_payment p.external_id t) [
      | none ↦ some (p, record t { gateway_payments = t.gateway_payments ++ p ∷ [] })
      | some q ↦ some (retry_payment now q, update_payment p.external_id (retry_payment now) t)
    ]
    else none

-- The row, once its transaction is known to exist.
unfoldable pub store_payment : ℕ → GatewayPayment → Db GatewayPayment
store_payment now p = do
  exists ←
      query_row (λ t. find_where (λ x. x.id == p.transaction_id) t.transactions)
        (not_found "transaction not found") (internal "failed to verify transaction")
  attempt (upsert_payment now p) >>= or_raise (internal "failed to create gateway payment")

-- The first part: the checks, and the row.
unfoldable pub reserve_payment :
    External → ℕ → ℕ → ℕ → CreateGatewayPaymentRequest → Db GatewayPayment
reserve_payment ext new_id now tenant_id req = do
  c ←
      query_row (λ t. find_where (has_tenant tenant_id) t.gateway_configs)
        (validation "payment gateway not configured for this tenant")
        (internal "failed to check gateway config")
  branch c.is_enabled
      (case_option (ext.parse_uuid req.transaction_id) (raise (validation "invalid transaction_id"))
        (λ tx.
          case_option (ext.parse_uuid req.payment_item_id)
            (raise (validation "invalid payment_item_id"))
            (λ item.
              store_payment now
                (new_payment new_id now tenant_id tx item (external_id_of ext item) req))))
      (raise (validation "payment gateway is disabled"))

-- What the gateway answered: the columns to store, and the accounts to show.
pub record Answer : Type 0 where
  pub ref_id : String
  pub payment_url : Option String
  pub qr_string : Option String
  pub expires_at : ℕ
  pub raw_json : String
  pub virtual_accounts : List AvailableBank

abbrev pub qr_answer : Gateway → ℕ → QrCode → Answer
qr_answer g now q = record {
  ref_id = q.id;
  payment_url = none;
  qr_string = some q.qr_string;
  expires_at = g.invoice_expiry now;
  raw_json = q.raw_json;
  virtual_accounts = [];
}

abbrev pub invoice_answer : XenditInvoice → Answer
invoice_answer i = record {
  ref_id = i.id;
  payment_url = some i.invoice_url;
  qr_string = none;
  expires_at = i.expiry_date;
  raw_json = i.raw_json;
  virtual_accounts = select_where (λ b. not (str_eq b.bank_account_number "")) i.available_banks;
}

-- The second part: the call of the gateway, after its key is read.
unfoldable pub call_gateway : Gateway → ℕ → ℕ → String → String → Db Answer
unfolding get_decrypted_secret_key
call_gateway g now tenant_id gateway_type x = do
  key ← get_decrypted_secret_key g tenant_id
  branch (str_eq gateway_type "qris")
      (branch (str_eq g.qr_callback_url "")
        (raise (internal "XENDIT_QR_CALLBACK_URL not configured"))
        (case_option (g.create_qr_code key x)
          (raise (internal "failed to create payment with gateway"))
          (λ q. pure (qr_answer g now q))))
      (case_option (g.create_invoice key x (map_gateway_type gateway_type))
        (raise (internal "failed to create payment with gateway")) (λ i. pure (invoice_answer i)))

abbrev pub is_pending : GatewayStatus → Bool
is_pending pending = true
is_pending _ = false

abbrev pub activate : ℕ → Answer → GatewayPayment → GatewayPayment
activate now a p = record p {
  gateway_status = active;
  gateway_ref_id = some a.ref_id;
  gateway_payment_url = a.payment_url;
  qr_string = a.qr_string;
  expires_at = some a.expires_at;
  gateway_response = some a.raw_json;
  updated_at = now;
}

-- `UPDATE ... WHERE external_id = $7 AND gateway_status = 'PENDING' RETURNING`
abbrev pub activate_row : ℕ → String → Answer → Tables → Option (Option GatewayPayment × Tables)
activate_row now x a t = elim (find_payment x t) [
  | none ↦ some (none, t)
  | some p ↦
      if is_pending p.gateway_status
      then some (some (activate now a p), update_payment x (activate now a) t)
      else some (none, t)
]

-- The third part. Where the webhook was faster, the row is read again.
unfoldable pub activate_payment : ℕ → String → Answer → Db GatewayPayment
activate_payment now x a = do
  row ← attempt (activate_row now x a) >>= or_raise (internal "failed to update gateway payment")
  case_option row
      (query_row (find_payment x) (internal "failed to re-read gateway payment")
        (internal "failed to re-read gateway payment"))
      pure

-- What other sessions do to the tables in the meantime.
abbrev pub interleave : (Tables → Tables) → Db (Unit {0})
interleave others w = pure tt (record w { tables = others w.tables })

-- The call of the gateway and the activation of a row that is pending. `others` is what the other
-- sessions write during the call.
unfoldable pub charge :
    Gateway → (Tables → Tables) → ℕ → ℕ → String → String → Db GatewayPaymentResponse
charge g others now tenant_id gateway_type x = do
  a ← call_gateway g now tenant_id gateway_type x
  interleave others
  q ← activate_payment now x a
  pure (record { payment = q; virtual_accounts = a.virtual_accounts })

-- `CreateGatewayPayment`
unfoldable pub create_gateway_payment :
    External
    → Gateway
    → (Tables → Tables)
    → ℕ
    → ℕ
    → ℕ
    → CreateGatewayPaymentRequest
    → Db GatewayPaymentResponse
create_gateway_payment ext g others new_id now tenant_id req = do
  p ← reserve_payment ext new_id now tenant_id req
  branch (is_pending p.gateway_status)
      (charge g others now tenant_id req.gateway_type p.external_id)
      (pure (record { payment = p; virtual_accounts = [] }))
