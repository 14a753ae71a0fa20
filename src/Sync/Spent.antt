-- ===== src/Sync/Spent.antt =====
-- What a member has spent, under the calls that credit members
-- (internal/service/member_service.go, UpdateSpending and AwardReferralPoints).
use service_api.Base.{
  ℕ, ◌+◌, ◌<◌, ◌≡◌, ◌≢◌, ◌⊎◌, ◌∙◌, inl, inr, ap, refl, arith, true, none, some, List, ◌==◌, ℤ, pos,
  ◌+ℤ◌, two63, fits_int8, Option-cases, Bool-cases, find_where, update_where,
  find_where-update_where_cases, find_where-update_where, find_where-update_where_other,
}
use service_api.Domain.Members.{Member}
use service_api.Store.{World, Tables, calm, fails, rest}
use service_api.Member.{
  has_id, find_member, update_spending, award_referral_points, award_referrer, with_spending,
  with_tier, with_points, mark_first, calculate_tier, referrer,
}
use service_api.Member.Loyalty.{update_other}

-- The member is there, and has spent `k`.
abbrev pub Spent : ℕ → ℕ → List Member → Type 0
Spent id k ms = (m : Member) × (find_where (has_id id) ms ≡ some m) × (m.total_spending ≡ pos k)

-- An update that writes no spending and no id.
update-Spent :
    (id k other : ℕ) (f : Member → Member) (ms : List Member)
    → ((m : Member) → ((f m).id ≡ m.id) × ((f m).total_spending ≡ m.total_spending))
    → Spent id k ms
    → Spent id k (update_where (has_id other) f ms)
update-Spent id k other f ms keep (m, there, spent) =
    elim (find_where-update_where_cases (has_id other) (has_id id) f ms
      (λ y. ap (λ n. n == id) (keep y).0) there) [
        | inl left ↦ (m, left, spent)
        | inr new ↦ (f m, new, (keep m).1 ∙ spent)
      ]

award_referrer_members :
    (id referred_by : ℕ) (w : World)
    → let ms = w.tables.members in
      let marked = update_where (has_id id) mark_first ms in
      let ms' = (award_referrer id referred_by w).1.tables.members in
      (ms' ≡ ms)
      ⊎ ((ms' ≡ marked) ⊎ (ms' ≡ update_where (has_id referred_by) (with_points (pos 100)) marked))
unfolding award_referrer
award_referrer_members id referred_by w = ground arith

award_referrer-Spent :
    (id k other referred_by : ℕ) (w : World)
    → Spent id k w.tables.members
    → Spent id k (award_referrer other referred_by w).1.tables.members
award_referrer-Spent id k other referred_by w h =
    let marked = update-Spent id k other mark_first w.tables.members (λ m. (refl, refl)) h in
    elim (award_referrer_members other referred_by w) [
      | inl same ↦ rw same h
      | inr (inl first) ↦ rw first marked
      | inr (inr paid) ↦ rw paid (
          update-Spent id k referred_by (with_points (pos 100))
            (update_where (has_id other) mark_first w.tables.members) (λ m. (refl, refl)) marked)
    ]

award_referral_points_members :
    (other : ℕ) (w : World)
    → ((award_referral_points other w).1.tables.members ≡ w.tables.members)
      ⊎ ((r : ℕ) × ((award_referral_points other w).1.tables.members
            ≡ (award_referrer other r (record w { script = rest w.script })).1.tables.members))
unfolding award_referral_points
award_referral_points_members other w = elim (Option-cases (find_member other w.tables)) [
  | inl missing ↦ inl (ground arith)
  | inr (m, there) ↦ elim (Option-cases (referrer m)) [
    | inl free ↦ inl (ground arith)
    | inr (r, referred) ↦ elim (Bool-cases (fails w.script)) [
      | inl failed ↦ inl (ground arith)
      | inr runs ↦ inr (r, ground arith)
    ]
  ]
]

pub award_referral_points-Spent :
    (id k other : ℕ) (w : World)
    → Spent id k w.tables.members
    → Spent id k (award_referral_points other w).1.tables.members
award_referral_points-Spent id k other w h = elim (award_referral_points_members other w) [
  | inl same ↦ rw same h
  | inr (r, paid) ↦
      rw paid (award_referrer-Spent id k other r (record w { script = rest w.script }) h)
]

-- The rows of the members when UpdateSpending has added an amount and may have set the tier.
abbrev with_more : ℕ → ℤ → List Member → List Member
with_more id amount ms = update_where (has_id id) (with_spending amount) ms

abbrev tiered : ℕ → ℤ → ℤ → List Member → List Member
tiered id amount total ms =
    update_where (has_id id) (with_tier (calculate_tier total).0 (calculate_tier total).1)
      (with_more id amount ms)

update_spending_missing :
    (other : ℕ) (amount : ℤ) (w : World)
    → find_member other w.tables ≡ none
    → (update_spending other amount w).1.tables ≡ w.tables
unfolding update_spending
update_spending_missing other amount w missing = ground arith

update_spending_members :
    (other : ℕ) (amount : ℤ) (w : World) {m : Member}
    → find_member other w.tables ≡ some m
    → let ms = w.tables.members in
      let ms' = (update_spending other amount w).1.tables.members in
      (ms' ≡ ms)
      ⊎ ((ms' ≡ with_more other amount ms)
          ⊎ (ms' ≡ tiered other amount (m.total_spending +ℤ amount) ms))
unfolding update_spending
update_spending_members other amount w found = ground arith

update_spending_own :
    (id : ℕ) (amount : ℤ) (t : Tables) {m : Member}
    → find_member id t ≡ some m
    → fits_int8 (m.total_spending +ℤ amount) ≡ true
    → let ms' = (update_spending id amount (calm t)).1.tables.members in
      (ms' ≡ with_more id amount t.members)
      ⊎ (ms' ≡ tiered id amount (m.total_spending +ℤ amount) t.members)
unfolding update_spending fails rest
update_spending_own id amount t found fits = ground arith

more_other-Spent :
    (id k other : ℕ) (amount : ℤ) (ms : List Member)
    → other ≢ id
    → Spent id k ms
    → Spent id k (with_more other amount ms)
more_other-Spent id k other amount ms ne (m, there, spent) = (
  m,
  find_where-update_where_other (has_id other) (has_id id) (with_spending amount) ms
        (update_other other id (with_spending amount) (λ y. refl) ne)
      ∙ there,
  spent,
)

tiered-Spent :
    (id k other : ℕ) (amount total : ℤ) (ms : List Member)
    → Spent id k (with_more other amount ms)
    → Spent id k (tiered other amount total ms)
tiered-Spent id k other amount total ms h =
    update-Spent id k other (with_tier (calculate_tier total).0 (calculate_tier total).1)
      (with_more other amount ms) (λ m. (refl, refl)) h

-- The spending of another member changes nothing for this one.
pub update_other-Spent :
    (id k other : ℕ) (amount : ℤ) (w : World)
    → other ≢ id
    → Spent id k w.tables.members
    → Spent id k (update_spending other amount w).1.tables.members
update_other-Spent id k other amount w ne h =
    let more = more_other-Spent id k other amount w.tables.members ne h in
    elim (Option-cases (find_member other w.tables)) [
      | inl missing ↦ rw (update_spending_missing other amount w missing) h
      | inr (m, found) ↦ elim (update_spending_members other amount w found) [
        | inl same ↦ rw same h
        | inr (inl added) ↦ rw added more
        | inr (inr moved) ↦
            rw moved
              (tiered-Spent id k other amount (m.total_spending +ℤ amount) w.tables.members more)
      ]
    ]

pos_add : (k n : ℕ) → (pos k +ℤ pos n) ≡ pos (k + n)
unfolding ◌+ℤ◌
pos_add k n = ground arith

-- Where the statements run, the member's own spending grows by the amount, if the sum is a BIGINT.
pub update_own-Spent :
    (id k n : ℕ) (t : Tables)
    → k + n < two63
    → Spent id k t.members
    → Spent id (k + n) (update_spending id (pos n) (calm t)).1.tables.members
update_own-Spent id k n t fits (m, there, spent) =
    let sum : m.total_spending +ℤ pos n ≡ pos (k + n) = rw spent (pos_add k n) in
    let fine : fits_int8 (m.total_spending +ℤ pos n) ≡ true = rw sum (ground arith) in
    let more : Spent id (k + n) (with_more id (pos n) t.members) = (
      with_spending (pos n) m,
      find_where-update_where (has_id id) (with_spending (pos n)) t.members (λ y h. h) there,
      sum,
    ) in
    elim (update_spending_own id (pos n) t there fine) [
      | inl added ↦ rw added more
      | inr moved ↦
          rw moved (tiered-Spent id (k + n) id (pos n) (m.total_spending +ℤ pos n) t.members more)
    ]
