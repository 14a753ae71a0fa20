-- ===== src/Member/Registry.antt =====
-- `Create`, `Update`, `Delete` and `LookupByPhone` of internal/service/member_service.go. The schema
-- keeps (tenant, phone) unique and admits the four tiers (migrations/00001, 00004).
use service_api.Base.{
  ℕ, Bool, true, false, ◌&&◌, not, Option, none, some, ◌∷◌, [], ◌++◌, ◌==◌, if◌then◌else◌, ℤ, pos,
  find_where, count_where, select_where, String, str_eq,
}
use service_api.Apperror.{not_found, conflict, internal}
use service_api.Domain.Members.{Tier, bronze, silver, gold, platinum, Member}
use service_api.Store.{
  Tables, Db, attempt, select, query_row, pure, raise, or_raise, branch, case_option, ◌>>=◌,
}
use service_api.Member.Points.{has_id, find_member, update_member}

pub record CreateMemberRequest : Type 0 where
  pub name : String
  pub phone : String
  pub email : String
  pub tier : String
  pub discount_percent : ℤ
  pub referral_code : String

pub record UpdateMemberRequest : Type 0 where
  pub name : String
  pub phone : String
  pub email : String
  pub tier : String
  pub discount_percent : Option ℤ

-- The texts that the column's CHECK admits.
unfoldable pub parse_tier : String → Option Tier
parse_tier s =
    if str_eq s "bronze"
    then some bronze
    else if str_eq s "silver"
    then some silver
    else if str_eq s "gold"
    then some gold
    else if str_eq s "platinum"
    then some platinum
    else none

unfoldable pub opt_eq : Option ℕ → Option ℕ → Bool
opt_eq none none = true
opt_eq (some a) (some b) = a == b
opt_eq _ _ = false

abbrev pub has_phone : String → Member → Bool
has_phone phone m = str_eq m.phone phone

-- The unique index of migrations/00004.
abbrev pub same_key : Option ℕ → String → Member → Bool
same_key tenant_id phone m = opt_eq m.tenant_id tenant_id && str_eq m.phone phone

abbrev pub has_code : String → Member → Bool
has_code c m = elim m.referral_code [ none ↦ false | some d ↦ str_eq d c ]

abbrev insert_member : Option Tier → (Tier → Member) → Tables → Option (Member × Tables)
insert_member none row t = none
insert_member (some tier) row t =
    let m = row tier in
    elim (find_where (same_key m.tenant_id m.phone) t.members) [
      | none ↦ some (m, record t { members = t.members ++ m ∷ [] })
      | some _ ↦ none
    ]

-- What the query for the referral code gave.
abbrev pub referrer_of : Option (Option Member) → Option ℕ
referrer_of none = none
referrer_of (some none) = none
referrer_of (some (some r)) = some r.id

-- `Create`. `normalize` is `strings.ToUpper(strings.TrimSpace(...))`; an unknown referral code and
-- a failure of its query are ignored alike.
unfoldable pub create :
    (String → String) → ℕ → ℕ → String → Option ℕ → CreateMemberRequest → Db Member
unfolding parse_tier opt_eq
create normalize new_id now code tenant_id req = do
  taken ←
      select (λ t. find_where (has_phone req.phone) t.members) (internal "failed to check phone")
  case_option taken
      (do
        let tier = if str_eq req.tier "" then "bronze" else req.tier
        found ←
            branch (str_eq req.referral_code "") (pure none) (
              attempt
                (λ t. some (find_where (has_code (normalize req.referral_code)) t.members, t)))
        attempt (
              insert_member (parse_tier tier) (λ tier'. record {
                id = new_id;
                tenant_id = tenant_id;
                name = req.name;
                phone = req.phone;
                email = req.email;
                tier = tier';
                discount_percent = req.discount_percent;
                total_points = pos 0;
                total_spending = pos 0;
                referral_code = some code;
                referred_by_member_id = referrer_of found;
                has_first_transaction = false;
                created_at = now;
              }))
            >>= or_raise (internal "failed to create member"))
      (λ _. raise (conflict "member with this phone already exists"))

abbrev pub is_nonempty : String → Bool
is_nonempty s = not (str_eq s "")

-- `UPDATE members SET name=$1, phone=$2, email=$3, tier=$4, discount_percent=$5 WHERE id=$6`: the
-- index refuses the phone of another member of the tenant.
abbrev store_member : Member → Tables → Option (Unit {0} × Tables)
store_member m t =
    elim (find_where (λ n. same_key m.tenant_id m.phone n && not (n.id == m.id)) t.members) [
      | none ↦ some (
        tt,
        update_member m.id
            (λ n. record n {
              name = m.name;
              phone = m.phone;
              email = m.email;
              tier = m.tier;
              discount_percent = m.discount_percent;
            })
            t,
      )
      | some _ ↦ none
    ]

-- The fields that `Update` replaces: those that the request gives. `none` is a tier that the
-- column does not admit.
unfoldable pub merge_request : UpdateMemberRequest → Member → Option Member
unfolding parse_tier
merge_request req m =
    let m' = record m {
      name = if is_nonempty req.name then req.name else m.name;
      phone = if is_nonempty req.phone then req.phone else m.phone;
      email = if is_nonempty req.email then req.email else m.email;
      discount_percent = elim req.discount_percent [ none ↦ m.discount_percent | some d ↦ d ];
    } in
    if is_nonempty req.tier
    then elim (parse_tier req.tier) [ none ↦ none | some t ↦ some (record m' { tier = t }) ]
    else some m'

-- `Update`
unfoldable pub update : ℕ → UpdateMemberRequest → Db Member
unfolding merge_request opt_eq
update id req = do
  m ← query_row (find_member id) (not_found "member not found") (internal "failed to get member")
  attempt (λ t. elim (merge_request req m) [
    | none ↦ none
    | some m' ↦ elim (store_member m' t) [ none ↦ none | some (_, t') ↦ some (m', t') ]
  ])
      >>= or_raise (internal "failed to update member")

-- `DELETE FROM members WHERE id = $1`, with the number of rows.
abbrev delete_rows : ℕ → Tables → ℕ × Tables
delete_rows id t = (
  count_where (has_id id) t.members,
  record t { members = select_where (λ m. not (has_id id m)) t.members },
)

-- `Delete`
unfoldable pub delete : ℕ → Db (Unit {0})
delete id = do
  affected ←
      attempt (λ t. some (delete_rows id t)) >>= or_raise (internal "failed to delete member")
  branch (affected == 0) (raise (not_found "member not found")) (pure tt)

-- `LookupByPhone`
unfoldable pub lookup_by_phone : String → Db Member
lookup_by_phone phone =
    query_row (λ t. find_where (has_phone phone) t.members) (not_found "member not found")
      (internal "failed to lookup member")
