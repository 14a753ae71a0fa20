-- ===== src/Pagination/Pages.antt =====
-- The bounds of a page, and the rows that the pages cover (internal/pkg/pagination/pagination.go).
use native.Mathlib.Nat.{mod-lt, suc-mul, mul-le-mul_left, div-add-mod', mul-le-mul_right}
use service_api.Base.{
  ℕ, suc, ◌+◌, ◌*◌, ◌/◌, ◌%◌, ◌≤◌, ◌<◌, ◌≡◌, inl, inr, arith, Option, String, ℤ, pos, ◌<ℤ◌, ◌≤ℤ◌,
  ◌-ℤ◌, ltb, two63, wrap64-eq, Bool-cases, Option-cases,
}
use service_api.Pagination.Query.{
  Defaults, defaults, init, read_positive, parse_from_request, mul_ℤ, offset, total_pages,
}

-- Both variables are positive.
abbrev IsPositive : Defaults → Type 0
IsPositive d = (pos 0 <ℤ d.default_per_page) × (pos 0 <ℤ d.max_per_page)

init-IsPositive : (a b : ℤ) → IsPositive (init a b defaults)
unfolding init
init-IsPositive a b = ground arith

read_positive-lt :
    (atoi : String → Option ℤ) (s : String) (old : ℤ)
    → pos 0 <ℤ old
    → pos 0 <ℤ read_positive atoi s old
unfolding read_positive
read_positive-lt atoi s old h = elim (Option-cases (atoi s)) [
  | inl bad ↦ ground arith
  | inr (v, good) ↦ ground arith
]

-- However the variables are initialised and whatever the query holds, the page is at least 1 and
-- its size lies between 1 and the maximum.
parse_from_request-bounds :
    (atoi : String → Option ℤ) (default_per_page max_per_page : ℤ) (page per_page : String)
    → let d = init default_per_page max_per_page defaults in
      let p = parse_from_request atoi d page per_page in
      (pos 1 ≤ℤ p.page) × (pos 1 ≤ℤ p.per_page) × (p.per_page ≤ℤ d.max_per_page)
unfolding parse_from_request
parse_from_request-bounds atoi default_per_page max_per_page page per_page =
    let d = init default_per_page max_per_page defaults in
    let fine = init-IsPositive default_per_page max_per_page in
    let page_ok = read_positive-lt atoi page (pos 1) (omega arith) in
    let size_ok = read_positive-lt atoi per_page d.default_per_page fine.0 in ground arith

back_one : (k : ℕ) → pos (suc k) -ℤ pos 1 ≡ pos k
unfolding ◌-ℤ◌
back_one k = ground arith

mul_pos : (k p : ℕ) → mul_ℤ (pos k) (pos p) ≡ pos (k * p)
mul_pos k p = ground arith

-- The first row of page k + 1.
offset_eq :
    (k p : ℕ)
    → k < two63
    → k * p < two63
    → offset (record { page = pos (suc k); per_page = pos p }) ≡ pos (k * p)
unfolding offset
offset_eq k p h h' =
    rw (back_one k, wrap64-eq (pos k) (h, omega arith), mul_pos k p)
      (wrap64-eq (pos (k * p)) (h', omega arith))

mul_suc_le : (q k p : ℕ) → suc q ≤ k → q * p + p ≤ k * p
mul_suc_le q k p h = omega (arith, mul-le-mul_right p h, suc-mul q p)

page_exists : (n p i : ℕ) → 0 < p → i < n → suc (i / p) ≤ total_pages n p
unfolding total_pages
page_exists n p i h lt =
    let i_parts = div-add-mod' i p in
    let n_parts = div-add-mod' n p in
    let n_mod = mod-lt n h in
    elim (Bool-cases (ltb (i / p) (n / p))) [
      | inl before ↦ ground arith
      | inr not_before ↦
          let back : n / p ≤ i / p = ground arith in
          let rows = mul-le-mul_right p back in
          elim (Bool-cases (ltb (n / p) (i / p))) [
            | inl after ↦
                let past : suc (n / p) ≤ i / p = ground arith in
                let more = mul_suc_le (n / p) (i / p) p past in
                let absurd : 1 ≤ 0 = omega (arith, more, i_parts, n_parts, n_mod) in ground arith
            | inr not_after ↦
                let some_rows : 0 < n % p = omega (arith, rows, i_parts, n_parts) in ground arith
          ]
    ]

-- The pages 1 to TotalPages show every row: row i of n stands on page i / p + 1, within its p rows,
-- where the first row's number is an `int`.
pub pages_cover :
    (n p i : ℕ)
    → 0 < p
    → i < n
    → n < two63
    → (first : ℕ) × (offset (record { page = pos (suc (i / p)); per_page = pos p }) ≡ pos first)
      × (suc (i / p) ≤ total_pages n p)
      × (first ≤ i)
      × (i < first + p)
pages_cover n p i h lt fits =
    let i_parts = div-add-mod' i p in
    let i_mod = mod-lt i h in
    let k = i / p in
    let small = mul-le-mul_left k h in
    let start : offset (record { page = pos (suc k); per_page = pos p }) ≡ pos (k * p) =
      offset_eq k p (omega (arith, small, i_parts)) (omega (arith, i_parts)) in
    (k * p, start, page_exists n p i h lt, omega (arith, i_parts), omega (arith, i_parts, i_mod))
