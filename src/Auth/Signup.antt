-- ===== src/Auth/Signup.antt =====
-- What the statements of a registration leave (internal/service/auth_service.go, Register).
use service_api.Base.{
  ◌≡◌, ◌∙◌, sym, inl, inr, ap, refl, arith, none, some, [], ◌∷◌, ◌++◌, ◌==◌, String, find_where,
  count_where, Option-cases, if◌then◌else◌,
}
use service_api.Apperror.{Result, ok, err}
use service_api.Domain.Users.{User}
use service_api.Domain.Registration.{RegisterRequest}
use service_api.Store.{World, Tables, rest}
use service_api.Auth.Tokens.{Crypto, with_email}
use service_api.Auth.Register.{
  Registration, new_tenant, new_owner, new_method, insert_method, add_methods, copy_prices,
  add_outlet, own_method, add_defaults, check_free, add_owner, add_tenant, register_rows,
}

-- A complete registration, with the hash of the password.
abbrev with_owner : Registration → RegisterRequest → String → Tables → Tables
with_owner g req hash t = record t {
  tenants = t.tenants ++ new_tenant g req ∷ [];
  users = t.users ++ new_owner g req hash ∷ [];
}

abbrev three_methods : Registration → Tables → Tables
three_methods g t = insert_method (new_method g g.method_ids.2 "Transfer Bank" "bank_transfer" 3) (
    insert_method (new_method g g.method_ids.1 "QRIS" "qris" 2)
      (insert_method (new_method g g.method_ids.0 "Tunai" "cash" 1) t))

abbrev with_methods : Registration → Tables → Tables
with_methods g t =
    if count_where (own_method g.tenant_id) t.office.payment_methods == 0
    then three_methods g t
    else t

abbrev pub registered : Registration → RegisterRequest → String → Tables → Tables
registered g req hash t =
    copy_prices g (with_methods g (add_outlet g req (with_owner g req hash t)))

add_methods_done :
    (g : Registration) (w : World)
    → (add_methods g w).0 ≡ ok tt
    → (add_methods g w).1.tables ≡ three_methods g w.tables
unfolding add_methods
add_methods_done g w done = ground arith

add_defaults_done :
    (g : Registration) (req : RegisterRequest) (w : World)
    → (add_defaults g req w).0 ≡ ok tt
    → (add_defaults g req w).1.tables ≡ copy_prices g (with_methods g (add_outlet g req w.tables))
unfolding add_defaults
add_defaults_done g req w done =
    let w' : World = record { tables = add_outlet g req w.tables; script = rest (rest w.script) } in
    ground (arith, add_methods_done g w')

check_free_done :
    (req : RegisterRequest) (w : World)
    → ((check_free req w).1.tables ≡ w.tables)
      × ((check_free req w).0 ≡ ok tt → find_where (with_email req.email) w.tables.users ≡ none)
unfolding check_free
check_free_done req w = (ground arith, λ done. ground arith)

add_owner_done :
    (g : Registration) (req : RegisterRequest) (hash : String) (w : World) {u : User}
    → (add_owner g req hash w).0 ≡ ok u
    → let t = w.tables in
      let owned = record t { users = t.users ++ new_owner g req hash ∷ [] } in
      (u ≡ new_owner g req hash)
      × ((add_owner g req hash w).1.tables
          ≡ copy_prices g (with_methods g (add_outlet g req owned)))
unfolding add_owner
add_owner_done g req hash w {u} done =
    let w' : World = record {
      tables = record (w.tables) { users = w.tables.users ++ new_owner g req hash ∷ [] };
      script = rest w.script;
    } in
    (ground arith, ground (arith, add_defaults_done g req w'))

add_tenant_done :
    (c : Crypto) (g : Registration) (req : RegisterRequest) (w : World) {u : User}
    → (add_tenant c g req w).0 ≡ ok u
    → (hash : String) × (c.generate g.salt req.password ≡ some hash)
      × (u ≡ new_owner g req hash)
      × ((add_tenant c g req w).1.tables ≡ registered g req hash w.tables)
unfolding add_tenant
add_tenant_done c g req w {u} done = elim (Option-cases (c.generate g.salt req.password)) [
  | inl bad ↦ ground arith
  | inr (hash, hashed) ↦
      let w' : World = record {
        tables = record (w.tables) { tenants = w.tables.tenants ++ new_tenant g req ∷ [] };
        script = rest w.script;
      } in
      let goes_on : add_tenant c g req w ≡ add_owner g req hash w' = ground arith in
      let (is, rows) = add_owner_done g req hash w' {u = u} (rw goes_on at done) in
      (hash, hashed, is, rw goes_on rows)
]

register_rows_goes_on :
    (c : Crypto) (g : Registration) (req : RegisterRequest) (w : World)
    → (check_free req w).0 ≡ ok tt
    → register_rows c g req w ≡ add_tenant c g req (check_free req w).1
unfolding register_rows
register_rows_goes_on c g req w passed = ground arith

pub register_rows_done :
    (c : Crypto) (g : Registration) (req : RegisterRequest) (w : World) {u : User}
    → (register_rows c g req w).0 ≡ ok u
    → (hash : String) × (c.generate g.salt req.password ≡ some hash)
      × (u ≡ new_owner g req hash)
      × ((register_rows c g req w).1.tables ≡ registered g req hash w.tables)
      × (find_where (with_email req.email) w.tables.users ≡ none)
unfolding register_rows
register_rows_done c g req w {u} done = by_check (check_free req w) refl
  where
    Done : Type 0
    Done =
        (hash : String) × (c.generate g.salt req.password ≡ some hash)
        × (u ≡ new_owner g req hash)
        × ((register_rows c g req w).1.tables ≡ registered g req hash w.tables)
        × (find_where (with_email req.email) w.tables.users ≡ none)

    by_check : (p : Result (Unit {0}) × World) → check_free req w ≡ p → Done
    by_check (err x, w') e = ground arith
    by_check (ok _, w') e =
        let (same, free) = check_free_done req w in
        let passed : (check_free req w).0 ≡ ok tt = ap (λ p. p.0) e in
        let goes_on = register_rows_goes_on c g req w passed in
        let w1 = (check_free req w).1 in
        let (hash, hashed, is, rows) =
          add_tenant_done c g req w1 {u = u} (ap (λ p. p.0) (sym goes_on) ∙ done) in
        (
          hash,
          hashed,
          is,
          ap (λ p. p.1.tables) goes_on ∙ rows ∙ ap (registered g req hash) same,
          free passed,
        )
