-- ===== src/Gateway/Config.antt =====
-- `UpsertConfig`, `GetConfig`, `SetEnabled` and `getDecryptedSecretKey` of
-- internal/service/gateway_service.go. The cipher of internal/pkg/encrypt and the trimming of the
-- key are parameters.
use service_api.Base.{
  ℕ, Bool, not, Option, none, some, List, [], ◌∷◌, ◌++◌, String, str_eq, starts_with, find_where,
  update_where, ◌==◌,
}
use service_api.Apperror.{not_found, validation, internal}
use service_api.Domain.Payments.{GatewayConfig}
use service_api.Store.{Tables, Db, attempt, query_row, raise, or_raise, branch, case_option, ◌>>=◌}
use service_api.Inventory.{optional_text}

-- What the gateway service is configured with, and what it calls: the cipher, and the two
-- endpoints of the Xendit API, each of which may fail.
pub record QrCode : Type 0 where
  pub id : String
  pub qr_string : String
  pub raw_json : String

pub record AvailableBank : Type 0 where
  pub bank_code : String
  pub bank_account_number : String

pub record XenditInvoice : Type 0 where
  pub id : String
  pub invoice_url : String
  pub expiry_date : ℕ
  pub available_banks : List AvailableBank
  pub raw_json : String

pub record Gateway : Type 0 where
  pub encryption_key : String
  pub webhook_token : String
  pub qr_callback_url : String
  pub invoice_expiry : ℕ → ℕ
  pub encrypt : String → String → Option String
  pub decrypt : String → String → Option String
  pub trim_space : String → String
  pub create_qr_code : String → String → Option QrCode
  pub create_invoice : String → String → List String → Option XenditInvoice

pub record UpsertGatewayConfigRequest : Type 0 where
  pub secret_key : String
  pub public_key : String
  pub is_enabled : Bool

abbrev pub has_tenant : ℕ → GatewayConfig → Bool
has_tenant tenant_id c = c.tenant_id == tenant_id

-- `INSERT ... ON CONFLICT (tenant_id, gateway) DO UPDATE`
abbrev pub upsert_row : GatewayConfig → Tables → Tables
upsert_row c t = elim (find_where (has_tenant c.tenant_id) t.gateway_configs) [
  | none ↦ record t { gateway_configs = t.gateway_configs ++ c ∷ [] }
  | some _ ↦ record t {
    gateway_configs = update_where (has_tenant c.tenant_id) (λ _. c) t.gateway_configs;
  }
]

-- `UpsertConfig`, without the webhook token and the enabled types, which no other function reads.
unfoldable pub upsert_config : Gateway → ℕ → UpsertGatewayConfigRequest → Db GatewayConfig
upsert_config g tenant_id req =
    branch (str_eq g.encryption_key "") (raise (internal "gateway encryption key not configured")) (
      branch (not (starts_with (g.trim_space req.secret_key) "xnd_"))
        (raise (validation "secret key must start with 'xnd_'"))
        (case_option (g.encrypt g.encryption_key (g.trim_space req.secret_key))
          (raise (internal "failed to encrypt gateway secret"))
          (λ secret.
            let c : GatewayConfig = record {
              tenant_id = tenant_id;
              is_enabled = req.is_enabled;
              secret_key_encrypted = secret;
              public_key = optional_text req.public_key;
            } in
            attempt (λ t. some (c, upsert_row c t))
            >>= or_raise (internal "failed to upsert gateway config"))))

-- `SetEnabled`
unfoldable pub set_enabled : ℕ → Bool → Db GatewayConfig
set_enabled tenant_id enabled = do
  row ←
      attempt (λ t. elim (find_where (has_tenant tenant_id) t.gateway_configs) [
        | none ↦ some (none, t)
        | some c ↦ some (
          some (record c { is_enabled = enabled }),
          record t {
            gateway_configs =
                update_where (has_tenant tenant_id) (λ d. record d { is_enabled = enabled })
                  t.gateway_configs;
          },
        )
      ])
      >>= or_raise (internal "failed to update gateway config")
  or_raise (not_found "gateway config not found") row

-- `getDecryptedSecretKey`
unfoldable pub get_decrypted_secret_key : Gateway → ℕ → Db String
get_decrypted_secret_key g tenant_id =
    branch (str_eq g.encryption_key "") (raise (internal "gateway encryption key not configured"))
      (do
        c ←
            query_row (λ t. find_where (has_tenant tenant_id) t.gateway_configs)
              (internal "failed to get gateway secret key")
              (internal "failed to get gateway secret key")
        branch (str_eq c.secret_key_encrypted "")
            (raise (validation "gateway secret key not configured"))
            (or_raise (internal "failed to decrypt gateway secret key")
              (g.decrypt g.encryption_key c.secret_key_encrypted)))
