-- ===== src/Tests/Payments.antt =====
-- A payment that is charged, reported and paid.
use service_api.Base.{
  ap, arith, str_eq, ◌≡◌, ◌⊎◌, refl, none, some, [], pos, find_where, update_where,
}
use service_api.Apperror.{ok}
use service_api.Domain.Orders.{received}
use service_api.Domain.Payments.{pending, active, paid, GatewayPayment}
use service_api.Store.{World, Tables, fails, rest}
use service_api.Gateway.{
  Gateway, WebhookData, process_webhook, is_final, resolve_external_id, find_payment,
  CreateGatewayPaymentRequest, GatewayPaymentResponse, create_gateway_payment, reserve_payment,
  store_payment, retry_payment, activate, qr_answer,
}
use service_api.Gateway.Callback.{token_reply, process_webhook_reply}
use service_api.Gateway.Reports.{Reported, DatedBy, process_webhook_settles}
use service_api.Gateway.Race.{Reach, here, next, reported, paid_row, Reach-paid}
use service_api.Gateway.Payments.{create_gateway_payment_idempotent}
use service_api.Tests.Data.{plain, payment, world}

abbrev gateway : Gateway
gateway = record {
  encryption_key = "key";
  webhook_token = "cb";
  qr_callback_url = "url";
  invoice_expiry = λ now. now;
  encrypt = λ k s. some s;
  decrypt = λ k s. some s;
  trim_space = λ s. s;
  create_qr_code = λ k x. some (record { id = "qr"; qr_string = "data"; raw_json = "{}" });
  create_invoice = λ k x m. none;
}

abbrev silent : Gateway
silent = record gateway { create_qr_code = λ k x. none }

abbrev report : WebhookData
report = record {
  external_id = "lpos-u1";
  reference_id = "";
  status = "PAID";
  paid_at = "";
  qr_external_id = none;
  payload = "{}";
}

abbrev waiting : World
waiting = world received active

abbrev settled : World
settled = world received paid

process_webhook_reply_example :
    let (r, w') = process_webhook plain gateway 60 "other" (some report) waiting in
    (r ≡ token_reply "cb" "other") × ((r ≡ ok tt) ⊎ (w'.tables ≡ waiting.tables))
process_webhook_reply_example = process_webhook_reply plain gateway 60 "other" (some report) waiting

process_webhook_settles_example :
    let t = (process_webhook plain gateway 60 "cb" (some report) waiting).1.tables in
    (p' : GatewayPayment) × (find_payment "lpos-u1" t ≡ some p')
    × Reported "PAID" p'.gateway_status
    × DatedBy plain 60 report (payment active) p'
    × (p' ≡ record (payment active) {
      gateway_status = p'.gateway_status;
      paid_at = p'.paid_at;
      webhook_payload = some "{}";
      updated_at = 60;
    })
    × (find_payment "lpos-u2" t ≡ find_payment "lpos-u2" waiting.tables)
unfolding find_where is_final resolve_external_id
process_webhook_settles_example =
    process_webhook_settles plain gateway 60 report waiting "lpos-u2" {p = payment active} refl refl
      refl refl refl refl refl (λ e. ground (arith, ap (str_eq "lpos-u2") e))

abbrev reported_again : World
reported_again = (process_webhook plain gateway 61 "cb" (some report) settled).1

again : Reach plain gateway settled reported_again
again = next here (reported 61 "cb" report settled)

Reach-paid_example : paid_row (find_payment "lpos-u1" reported_again.tables) ≡ some none
unfolding find_where
Reach-paid_example =
    Reach-paid plain gateway {u = settled} {v = reported_again} "lpos-u1" {at = none} again refl

abbrev request : CreateGatewayPaymentRequest
request = record {
  transaction_id = "u1";
  payment_item_id = "u1";
  gateway_type = "qris";
  amount = pos 40000;
}

abbrev others : Tables → Tables
others t = t

abbrev charged : GatewayPaymentResponse
charged = record { payment = record (payment active) { updated_at = 60 }; virtual_accounts = [] }

create_gateway_payment_idempotent_example :
    (charged
      ≡ record { payment = record (payment active) { updated_at = 60 }; virtual_accounts = [] })
    × (create_gateway_payment plain silent others 12 60 5 request waiting
        ≡ create_gateway_payment plain gateway others 12 60 5 request waiting)
unfolding create_gateway_payment reserve_payment store_payment retry_payment find_where update_where
    fails rest
create_gateway_payment_idempotent_example =
    create_gateway_payment_idempotent plain gateway silent others others 12 60 5 1 request waiting
      {p = payment active} {r = charged} refl refl refl refl

abbrev unpaid : World
unpaid = world received pending

abbrev with_code : GatewayPaymentResponse
with_code = record {
  payment =
      activate 60 (qr_answer gateway 60 (record { id = "qr"; qr_string = "data"; raw_json = "{}" }))
        (record (payment pending) { updated_at = 60 });
  virtual_accounts = [];
}
