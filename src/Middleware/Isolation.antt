-- ===== src/Middleware/Isolation.antt =====
-- `TenantIsolation` (internal/middleware/tenant.go) and `RequireRole` (internal/middleware/rbac.go).
-- The settings of the database session, which the policies of row level security read, are an
-- argument of the handler.
use service_api.Base.{ℕ, Bool, true, false, ◌||◌, Option, none, some, List, [], ◌∷◌, str_eq}
use service_api.Apperror.{Result, internal, forbidden}
use service_api.Domain.Users.{Role, superadmin, tenant_owner, cashier, other}
use service_api.Store.{
  World, Tables, Db, exec, pure, raise, branch, case_option, fails, rest, ◌>>=◌, ◌>>◌,
}

-- `app.current_role` and `app.current_tenant_id`, which last until the end of the transaction.
pub record Settings : Type 0 where
  pub current_role : Option Role
  pub current_tenant_id : Option ℕ

-- What the claims of the token say: the role, and the tenant where there is one.
pub record Caller : Type 0 where
  pub role : Role
  pub tenant_id : Option ℕ

abbrev pub role_eq : Role → Role → Bool
role_eq superadmin superadmin = true
role_eq tenant_owner tenant_owner = true
role_eq cashier cashier = true
role_eq (other a) (other b) = str_eq a b
role_eq _ _ = false

-- The settings, each by a statement.
unfoldable pub scope : Caller → Db Settings
scope c =
    branch (role_eq c.role superadmin)
      (do
        exec (λ t. t) (internal "failed to set session role")
        pure (record { current_role = some superadmin; current_tenant_id = none }))
      (case_option c.tenant_id (raise (forbidden "tenant context required")) (λ tenant_id. do
        exec (λ t. t) (internal "failed to set tenant context")
        exec (λ t. t) (internal "failed to set session role")
        pure (record { current_role = some c.role; current_tenant_id = some tenant_id })))

-- What a handler comes to: its answer, and whether one of its statements in the transaction has
-- failed, which aborts the transaction.
pub record Reply (A : Type 0) : Type 0 where
  pub answer : Result A
  pub aborted : Bool

abbrev pub Handler : Type 0 → Type 0
Handler A = Settings → World → Reply A × World

-- COMMIT: what the handler wrote stays; nothing does where the transaction is aborted, which Postgres
-- then rolls back, or where the COMMIT itself fails. Either is logged, and the answer has been sent.
abbrev pub commit : {A : Type 0} → Bool → Tables → Result A × World → Result A × World
commit true start (r, w) = (r, record { tables = start; script = rest w.script })
commit false start (r, w) = (r, record w { script = rest w.script })

abbrev pub serve : {A : Type 0} → Handler A → Settings → Db A
serve handler s w =
    let (r, w') = handler s w in commit (r.aborted || fails w'.script) w.tables (r.answer, w')

-- `TenantIsolation`: a connection, BEGIN, the settings, the handler, and COMMIT.
unfoldable pub tenant_isolation : {A : Type 0} → Caller → Handler A → Db A
tenant_isolation c handler = do
  exec (λ t. t) (internal "failed to acquire database connection")
  exec (λ t. t) (internal "failed to begin transaction")
  s ← scope c
  serve handler s

-- `RequireRole`
abbrev pub has_role : Role → List Role → Bool
has_role r [] = false
has_role r (x ∷ xs) = role_eq x r || has_role r xs

unfoldable pub require_role : {A : Type 0} → List Role → Caller → Db A → Db A
require_role roles c next =
    branch (has_role c.role roles) next (raise (forbidden "insufficient permissions"))

-- `RequireSuperadmin`
abbrev pub require_superadmin : {A : Type 0} → Caller → Db A → Db A
require_superadmin c next = require_role (superadmin ∷ []) c next
