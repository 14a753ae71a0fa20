-- ===== src/Config/Numbering.antt =====
-- The numbers of the versions of a tenant, and the latest of them
-- (internal/service/config_service.go).
use service_api.Base.{
  ℕ, ◌+◌, ◌≤◌, ◌<◌, ◌≡◌, ◌≢◌, ◌⊎◌, inl, inr, arith, Bool, some, List, [], ◌∷◌, ◌++◌, ◌==◌, ltb, leb,
  ◌&&◌, if◌then◌else◌, count_where, count_where-append, Bool-cases, Option-cases,
}
use service_api.Domain.Sync.{ConfigVersion}
use service_api.Store.{World}
use service_api.Config.Calls.{latest, max_version}

-- The rows of a tenant with a version, and the highest version.
abbrev pub is_version : ℕ → ℕ → ConfigVersion → Bool
is_version tenant_id k c = c.tenant_id == tenant_id && c.version == k

-- The versions of a tenant are 1, 2, 3 and so on up to the highest, each once.
abbrev pub Numbered : ℕ → List ConfigVersion → Type 0
Numbered tenant_id cs =
    (k : ℕ)
    → count_where (is_version tenant_id k) cs
      ≡ (if leb 1 k && leb k (max_version tenant_id cs) then 1 else 0)

abbrev pub AllNumbered : World → Type 0
AllNumbered w = (tenant_id : ℕ) → Numbered tenant_id w.tables.office.config_versions

pub max_version-snoc :
    (tenant_id : ℕ) (cs : List ConfigVersion) (c : ConfigVersion)
    → max_version tenant_id (cs ++ c ∷ []) ≡ (
        if c.tenant_id == tenant_id && ltb (max_version tenant_id cs) c.version
        then c.version
        else max_version tenant_id cs)
unfolding max_version
max_version-snoc tenant_id [] c = ground arith
max_version-snoc tenant_id (d ∷ cs) c = ground (arith, max_version-snoc tenant_id cs c)

count_one :
    (tenant_id k : ℕ) (c : ConfigVersion)
    → count_where (is_version tenant_id k) (c ∷ []) ≡ (if is_version tenant_id k c then 1 else 0)
unfolding count_where
count_one tenant_id k c = ground arith

-- The next version keeps the numbering, of its tenant and of every other.
pub next-Numbered :
    (tenant_id : ℕ) (cs : List ConfigVersion) (c : ConfigVersion)
    → c.version ≡ max_version c.tenant_id cs + 1
    → Numbered tenant_id cs
    → Numbered tenant_id (cs ++ c ∷ [])
next-Numbered tenant_id cs c next h k =
    let one = count_one tenant_id k c in
    let sum = count_where-append (is_version tenant_id k) cs (c ∷ []) in
    let top = max_version-snoc tenant_id cs c in
    let old = h k in
    elim (Bool-cases (c.tenant_id == tenant_id)) [
      | inl own ↦
          let same : c.tenant_id ≡ tenant_id = ground arith in
          let next' : c.version ≡ max_version tenant_id cs + 1 = rw same at next in ground arith
      | inr other ↦ ground arith
    ]

-- What a call leaves of the versions: the same rows, or one more with the next number.
abbrev pub Extended : List ConfigVersion → List ConfigVersion → Type 0
Extended cs cs' =
    (cs' ≡ cs)
    ⊎ ((c : ConfigVersion) × (cs' ≡ cs ++ c ∷ []) × (c.version ≡ max_version c.tenant_id cs + 1))

pub Extended-Numbered :
    (tenant_id : ℕ) (cs cs' : List ConfigVersion)
    → Extended cs cs'
    → Numbered tenant_id cs
    → Numbered tenant_id cs'
Extended-Numbered tenant_id cs cs' (inl same) h = rw same h
Extended-Numbered tenant_id cs cs' (inr (c, more, next)) h =
    rw more (next-Numbered tenant_id cs c next h)

latest_le :
    (tenant_id : ℕ) (cs : List ConfigVersion) {d : ConfigVersion}
    → latest tenant_id cs ≡ some d
    → d.version ≤ max_version tenant_id cs
unfolding latest max_version
latest_le tenant_id [] h = ground arith
latest_le tenant_id (c ∷ cs) {d} h = elim (Option-cases (latest tenant_id cs)) [
  | inl first ↦ ground arith
  | inr (e, there) ↦ ground (arith, latest_le tenant_id cs {d = e} there)
]

-- A version above all others is the latest of its tenant, and changes no other tenant's.
pub latest-snoc_own :
    (tenant_id : ℕ) (cs : List ConfigVersion) (c : ConfigVersion)
    → c.tenant_id ≡ tenant_id
    → max_version tenant_id cs < c.version
    → latest tenant_id (cs ++ c ∷ []) ≡ some c
unfolding latest max_version
latest-snoc_own tenant_id [] c own above = ground arith
latest-snoc_own tenant_id (d ∷ cs) c own above = ground (arith, latest-snoc_own tenant_id cs c own)

pub latest-snoc_other :
    (tenant_id : ℕ) (cs : List ConfigVersion) (c : ConfigVersion)
    → c.tenant_id ≢ tenant_id
    → latest tenant_id (cs ++ c ∷ []) ≡ latest tenant_id cs
unfolding latest
latest-snoc_other tenant_id [] c ne = ground arith
latest-snoc_other tenant_id (d ∷ cs) c ne = ground (arith, latest-snoc_other tenant_id cs c ne)
