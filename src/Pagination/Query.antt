-- ===== src/Pagination/Query.antt =====
-- `Init`, `ParseFromRequest`, `Offset` and `ToMeta` of internal/pkg/pagination/pagination.go. A query
-- parameter that is absent is the empty text, as for `url.Values.Get`.
use service_api.Base.{
  ℕ, ◌+◌, ◌*◌, ◌/◌, ◌%◌, Option, none, some, String, str_eq, ℤ, pos, ltb, ltb_ℤ, ◌-ℤ◌, wrap64,
  pos_part, neg_part, sub_ℕ, if◌then◌else◌,
}

-- The package's two variables.
pub record Defaults : Type 0 where
  pub default_per_page : ℤ
  pub max_per_page : ℤ

abbrev pub defaults : Defaults
defaults = record { default_per_page = pos 20; max_per_page = pos 100 }

abbrev pub positive_or : ℤ → ℤ → ℤ
positive_or n old = if ltb_ℤ (pos 0) n then n else old

-- `Init`
unfoldable pub init : ℤ → ℤ → Defaults → Defaults
init default_per_page max_per_page d = record {
  default_per_page = positive_or default_per_page d.default_per_page;
  max_per_page = positive_or max_per_page d.max_per_page;
}

pub record Params : Type 0 where
  pub page : ℤ
  pub per_page : ℤ

-- A parameter that is a positive number, else what is there already.
unfoldable pub read_positive : (String → Option ℤ) → String → ℤ → ℤ
read_positive atoi s old =
    if str_eq s "" then old else elim (atoi s) [ none ↦ old | some v ↦ positive_or v old ]

-- `ParseFromRequest`, on the two query parameters.
unfoldable pub parse_from_request : (String → Option ℤ) → Defaults → String → String → Params
parse_from_request atoi d page per_page =
    let size = read_positive atoi per_page d.default_per_page in
    record {
      page = read_positive atoi page (pos 1);
      per_page = if ltb_ℤ d.max_per_page size then d.max_per_page else size;
    }

-- A product of `int`s, before it wraps.
abbrev pub mul_ℤ : ℤ → ℤ → ℤ
mul_ℤ a b =
    sub_ℕ (pos_part a * pos_part b + neg_part a * neg_part b)
      (pos_part a * neg_part b + neg_part a * pos_part b)

-- `Offset`
unfoldable pub offset : Params → ℤ
offset p = wrap64 (mul_ℤ (wrap64 (p.page -ℤ pos 1)) p.per_page)

-- `TotalPages` of `ToMeta`, on a count of rows and a positive page size.
unfoldable pub total_pages : ℕ → ℕ → ℕ
total_pages total per_page =
    if ltb 0 (total % per_page) then total / per_page + 1 else total / per_page
