-- ===== src/Member/Referral.antt =====
-- A referral pays once (internal/service/member_service.go, AwardReferralPoints).
use service_api.Base.{
  ℕ, zero, suc, ap, ◌≡◌, ◌≢◌, ◌⊎◌, inl, inr, refl, true, false, some, none, [], pos, ◌+ℤ◌, arith,
  fits_int4, find_where-update_where, find_where-update_where_cases, find_where-update_where_other,
  update_where, Option-cases, Option, Bool, ◌∙◌, sym,
}
use service_api.Domain.Members.{Member}
use service_api.Store.{World, fails, rest}
use service_api.Member.Points.{
  has_id, find_member, with_points, mark_first, referrer, award_referrer, award_referral_points,
}
use service_api.Member.Loyalty.{update_other}

-- Whether the member's first transaction is marked.
abbrev is_marked : Option Member → Bool
is_marked none = false
is_marked (some m) = m.has_first_transaction

-- Once a member is marked, AwardReferralPoints changes no row.
marked-unchanged :
    (id : ℕ) (w : World)
    → is_marked (find_member id w.tables) ≡ true
    → (award_referral_points id w).1.tables ≡ w.tables
unfolding award_referral_points
marked-unchanged id w marked = elim (Option-cases (find_member id w.tables)) [
  | inl e ↦ ground arith
  | inr (m, e) ↦ let h : m.has_first_transaction ≡ true = rw e at marked in ground arith
]

-- The two updates either change no row or leave the member marked.
award_referrer_marks :
    (id referred_by : ℕ) (w : World) {m : Member}
    → find_member id w.tables ≡ some m
    → ((award_referrer id referred_by w).1.tables ≡ w.tables)
      ⊎ (is_marked (find_member id (award_referrer id referred_by w).1.tables) ≡ true)
unfolding award_referrer
award_referrer_marks id referred_by w {m} found =
    let a = find_where-update_where (has_id id) mark_first w.tables.members (λ y h. h) found in
    ground (
      arith,
      a,
      find_where-update_where_cases (has_id referred_by) (has_id id) (with_points (pos 100))
          (update_where (has_id id) mark_first w.tables.members) (λ y. refl) a,
    )

award_referral_points_marks :
    (id : ℕ) (w : World)
    → ((award_referral_points id w).1.tables ≡ w.tables)
      ⊎ (is_marked (find_member id (award_referral_points id w).1.tables) ≡ true)
unfolding award_referral_points
award_referral_points_marks id w = elim (Option-cases (find_member id w.tables)) [
  | inl e ↦ ground arith
  | inr (m, e) ↦ elim (Option-cases (referrer m)) [
    | inl f ↦ ground arith
    | inr (r, f) ↦ ground (arith, award_referrer_marks id r (record w { script = rest w.script }) e)
  ]
]

-- So many calls for one member, one after another.
unfoldable pub award_again : ℕ → ℕ → World → World
award_again id zero w = w
award_again id (suc n) w = award_again id n (award_referral_points id w).1

marked-unchanged_again :
    (id n : ℕ) (w : World)
    → is_marked (find_member id w.tables) ≡ true
    → (award_again id n w).tables ≡ w.tables
unfolding award_again
marked-unchanged_again id zero w marked = refl
marked-unchanged_again id (suc n) w marked =
    let same = marked-unchanged id w marked in
    marked-unchanged_again id n (award_referral_points id w).1
      (ap (λ t. is_marked (find_member id t)) same ∙ marked)
    ∙ same

-- However its statements fail, one call of AwardReferralPoints changes nothing, or any number of
-- calls that begin after it has ended and run one after another change nothing.
pub award_referral_points_once :
    (id n : ℕ) (w : World)
    → let w1 = (award_referral_points id w).1 in
      (w1.tables ≡ w.tables) ⊎ ((award_again id n w1).tables ≡ w1.tables)
award_referral_points_once id n w = elim (award_referral_points_marks id w) [
  | inl same ↦ inl same
  | inr marked ↦ inr (marked-unchanged_again id n (award_referral_points id w).1 marked)
]

award_referrer_pays :
    (id referred_by : ℕ) (w : World) {r : Member}
    → w.script ≡ []
    → id ≢ referred_by
    → find_member referred_by w.tables ≡ some r
    → fits_int4 (r.total_points +ℤ pos 100) ≡ true
    → ((award_referrer id referred_by w).1.script ≡ [])
      × (find_member referred_by (award_referrer id referred_by w).1.tables
          ≡ some (with_points (pos 100) r))
unfolding award_referrer fails rest
award_referrer_pays id referred_by w {r} quiet ne found fits =
    let marked = update_where (has_id id) mark_first w.tables.members in
    let b =
      find_where-update_where_other (has_id id) (has_id referred_by) mark_first w.tables.members
        (update_other id referred_by mark_first (λ y. refl) ne) in
    let c =
      find_where-update_where (has_id referred_by) (with_points (pos 100)) marked (λ y h. h)
        (b ∙ found) in
    (ground (arith, b, found), ground (arith, b, found, c))

-- Two calls that both read the member before either marks it both pay the referrer.
award_referral_points_race :
    (id referred_by : ℕ) (w : World) {r : Member}
    → w.script ≡ []
    → id ≢ referred_by
    → find_member referred_by w.tables ≡ some r
    → fits_int4 (r.total_points +ℤ pos 100) ≡ true
    → fits_int4 (r.total_points +ℤ pos 100 +ℤ pos 100) ≡ true
    → let w1 = (award_referrer id referred_by w).1 in
      let w2 = (award_referrer id referred_by w1).1 in
      find_member referred_by w2.tables ≡ some (with_points (pos 100) (with_points (pos 100) r))
award_referral_points_race id referred_by w {r} quiet ne found fits fits' =
    let w1 = (award_referrer id referred_by w).1 in
    let (quiet', paid) = award_referrer_pays id referred_by w {r = r} quiet ne found fits in
    (award_referrer_pays id referred_by w1 {r = with_points (pos 100) r} quiet' ne paid fits').1

-- Where the statements run, the first transaction of a referred member marks the member and pays
-- the referrer 100 points, if the sum is an INT.
pub award_referral_points_pays :
    (id referred_by : ℕ) (w : World) {m r : Member}
    → w.script ≡ []
    → id ≢ referred_by
    → find_member id w.tables ≡ some m
    → find_member referred_by w.tables ≡ some r
    → m.has_first_transaction ≡ false
    → m.referred_by_member_id ≡ some referred_by
    → fits_int4 (r.total_points +ℤ pos 100) ≡ true
    → let t = (award_referral_points id w).1.tables in
      (find_member id t ≡ some (mark_first m))
      × (find_member referred_by t ≡ some (with_points (pos 100) r))
unfolding award_referral_points award_referrer fails rest
award_referral_points_pays id referred_by w {m} {r} quiet ne found found' new by fits =
    let marked = update_where (has_id id) mark_first w.tables.members in
    let a = find_where-update_where (has_id id) mark_first w.tables.members (λ y h. h) found in
    let b =
      find_where-update_where_other (has_id id) (has_id referred_by) mark_first w.tables.members
        (update_other id referred_by mark_first (λ y. refl) ne) in
    ground (
      arith,
      a,
      b,
      find_where-update_where (has_id referred_by) (with_points (pos 100)) marked (λ y h. h)
          (b ∙ found'),
      find_where-update_where_other (has_id referred_by) (has_id id) (with_points (pos 100)) marked
          (update_other referred_by id (with_points (pos 100)) (λ y. refl) (λ e. ne (sym e))),
    )
