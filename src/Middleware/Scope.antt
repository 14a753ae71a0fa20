-- ===== src/Middleware/Scope.antt =====
-- In which scope a handler runs, and what becomes of its writes (internal/middleware/tenant.go and
-- rbac.go).
use service_api.Base.{
  ℕ, ◌≡◌, ◌⊎◌, inl, inr, ap, refl, arith, true, false, ◌||◌, none, some, str_eq_iff, Bool-cases,
  Option-cases,
}
use service_api.Apperror.{AppError, Result, ok, err, internal}
use service_api.Domain.Users.{Role, superadmin, tenant_owner, cashier, other}
use service_api.Store.{World, fails, rest, ◌>>=◌}
use service_api.Middleware.Isolation.{
  Handler, Settings, Caller, role_eq, scope, serve, tenant_isolation,
}

-- The settings for a caller: a superadmin is bound to no tenant, every other caller to its own.
abbrev pub InScope : Caller → Settings → Type 0
InScope c s =
    ((c.role ≡ superadmin) × (s.current_role ≡ some superadmin) × (s.current_tenant_id ≡ none))
    ⊎ ((tenant_id : ℕ) × (c.tenant_id ≡ some tenant_id)
        × (s.current_role ≡ some c.role)
        × (s.current_tenant_id ≡ some tenant_id))

role_eq→≡ : (a b : Role) → role_eq a b ≡ true → a ≡ b
role_eq→≡ superadmin b h = ground arith
role_eq→≡ tenant_owner b h = ground arith
role_eq→≡ cashier b h = ground arith
role_eq→≡ (other x) (other y) h = ap other ((str_eq_iff x y).0 h)
role_eq→≡ (other x) superadmin h = ground arith
role_eq→≡ (other x) tenant_owner h = ground arith
role_eq→≡ (other x) cashier h = ground arith

scope_keeps : (c : Caller) (w : World) → (scope c w).1.tables ≡ w.tables
unfolding scope
scope_keeps c w = ground arith

scope-InScope : (c : Caller) (w : World) {s : Settings} → (scope c w).0 ≡ ok s → InScope c s
unfolding scope
scope-InScope c w {s} done = elim (Bool-cases (role_eq c.role superadmin)) [
  | inl top ↦ inl (role_eq→≡ c.role superadmin top, ground arith, ground arith)
  | inr lower ↦ elim (Option-cases c.tenant_id) [
    | inl free ↦ ground arith
    | inr (t, bound) ↦ inr (t, bound, ground arith, ground arith)
  ]
]

module _ {A : Type 0} where
  -- What a request comes to: it is refused, or its handler runs and is answered.
  abbrev pub Served : Caller → Handler A → World → Result A × World → Type 0
  Served c handler w p =
      ((x : AppError) × (p.0 ≡ err x) × (p.1.tables ≡ w.tables))
      ⊎ ((s : Settings) × (w1 : World) × InScope c s
          × (w1.tables ≡ w.tables)
          × (p.0 ≡ (handler s w1).0.answer)
          × ((((handler s w1).0.aborted || fails (handler s w1).1.script) ≡ false)
                × (p.1.tables ≡ (handler s w1).1.tables)
              ⊎ (((handler s w1).0.aborted || fails (handler s w1).1.script) ≡ true)
                × (p.1.tables ≡ w.tables)))

  serve-Served :
      (c : Caller) (handler : Handler A) (s : Settings) (w w1 : World)
      → InScope c s
      → w1.tables ≡ w.tables
      → Served c handler w (serve handler s w1)
  serve-Served c handler s w w1 scoped same =
      elim (Bool-cases ((handler s w1).0.aborted || fails (handler s w1).1.script)) [
        | inl lost ↦ inr (s, w1, scoped, same, ground arith, inr (lost, ground arith))
        | inr kept ↦ inr (s, w1, scoped, same, ground arith, inl (kept, ground arith))
      ]

  -- The two ways on from the settings.
  scope_serves :
      (c : Caller) (handler : Handler A) (w : World) (p : Result Settings × World)
      → p.1.tables ≡ w.tables
      → ((s : Settings) → p.0 ≡ ok s → InScope c s)
      → Served c handler w (((λ w. p) >>= serve handler) w)
  scope_serves c handler w (err x, w') same scoped = inl (x, refl, same)
  scope_serves c handler w (ok s, w') same scoped =
      serve-Served c handler s w w' (scoped s refl) same

  tenant_isolation_refused :
      (c : Caller) (handler : Handler A) (w : World)
      → (fails w.script || fails (rest w.script)) ≡ true
      → (x : AppError) × ((tenant_isolation c handler w).0 ≡ err x)
        × ((tenant_isolation c handler w).1.tables ≡ w.tables)
  unfolding tenant_isolation
  tenant_isolation_refused c handler w failed = elim (Bool-cases (fails w.script)) [
    | inl first ↦ (internal "failed to acquire database connection", ground arith, ground arith)
    | inr got ↦ (internal "failed to begin transaction", ground arith, ground arith)
  ]

  tenant_isolation_scoped :
      (c : Caller) (handler : Handler A) (w : World)
      → (fails w.script || fails (rest w.script)) ≡ false
      → tenant_isolation c handler w
        ≡ (scope c >>= serve handler) (record w { script = rest (rest w.script) })
  unfolding tenant_isolation
  tenant_isolation_scoped c handler w begun = ground arith

  -- A request is refused and changes no row, or its handler runs on the rows as they were, with the
  -- settings of its caller, a superadmin's without a tenant and any other's with the caller's own
  -- tenant, and the request is answered as the handler does. The handler's writes all stay where none of its
  -- statements failed and the COMMIT runs, and else none of them does.
  pub tenant_isolation_serves :
      (c : Caller) (handler : Handler A) (w : World)
      → Served c handler w (tenant_isolation c handler w)
  tenant_isolation_serves c handler w =
      elim (Bool-cases (fails w.script || fails (rest w.script))) [
        | inl failed ↦ inl (tenant_isolation_refused c handler w failed)
        | inr begun ↦
            let w2 : World = record w { script = rest (rest w.script) } in
            rw (tenant_isolation_scoped c handler w begun) (
              scope_serves c handler w (scope c w2) (scope_keeps c w2)
                (λ s. scope-InScope c w2 {s = s}))
      ]
