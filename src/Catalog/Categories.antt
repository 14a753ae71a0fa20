-- ===== src/Catalog/Categories.antt =====
-- `ListCategories`, `CreateCategory`, `UpdateCategory` and `DeleteCategory` of
-- internal/service/service_template_service.go.
use service_api.Base.{
  text_or, value_or, ℕ, Bool, true, false, ◌&&◌, ◌||◌, none, some, List, [], ◌∷◌, ◌++◌, ◌==◌,
  String, ℤ, fits_int4, ltb_ℤ, leb_ℤ, find_where, update_where, count_where, length, if◌then◌else◌,
  sort_by, page_of,
}
use service_api.Apperror.{not_found, internal}
use service_api.Domain.Catalog.{
  ServiceCategory, CreateServiceCategoryRequest, UpdateServiceCategoryRequest,
}
use service_api.External.{External}
use service_api.Pagination.{Params, offset}
use service_api.Store.{
  Tables, Db, attempt, select, query_row, pure, raise, or_raise, branch, ◌>>=◌, ◌>>◌,
}

abbrev pub with_category_id : ℕ → ServiceCategory → Bool
with_category_id id c = c.id == id

abbrev pub set_categories : List ServiceCategory → Tables → Tables
set_categories cs t = record t { office = record (t.office) { service_categories = cs } }

-- `ORDER BY sort_order ASC, name ASC`
abbrev pub comes_before : External → ℤ → String → ℤ → String → Bool
comes_before ext a s b r = ltb_ℤ a b || (leb_ℤ a b && ext.collate s r)

abbrev pub category_order : External → ServiceCategory → ServiceCategory → Bool
category_order ext c d = comes_before ext c.sort_order c.name d.sort_order d.name

-- `ListCategories`: a page of them, and how many there are.
unfoldable pub list_categories : External → Params → Db (List ServiceCategory × ℕ)
list_categories ext p = do
  total ← select (λ t. length t.office.service_categories) (internal "failed to count categories")
  page ←
      select
        (λ t.
          page_of p.per_page (offset p) (sort_by (category_order ext) t.office.service_categories))
        (internal "failed to list categories")
  rows ← or_raise (internal "failed to list categories") page
  pure (rows, total)

abbrev pub new_category : ℕ → ℕ → CreateServiceCategoryRequest → ServiceCategory
new_category id now req = record {
  id = id;
  name = req.name;
  icon = req.icon;
  sort_order = req.sort_order;
  is_active = true;
  created_at = now;
}

-- `CreateCategory`. The column of the order is an INT.
unfoldable pub create_category : ℕ → ℕ → CreateServiceCategoryRequest → Db ServiceCategory
create_category new_id now req = do
  attempt (λ t.
        if fits_int4 req.sort_order
        then some
            (tt, set_categories (t.office.service_categories ++ new_category new_id now req ∷ []) t)
        else none)
      >>= or_raise (internal "failed to create category")
  pure (new_category new_id now req)

abbrev pub merge_category : UpdateServiceCategoryRequest → ServiceCategory → ServiceCategory
merge_category req c = record c {
  name = text_or req.name c.name;
  icon = text_or req.icon c.icon;
  sort_order = value_or req.sort_order c.sort_order;
  is_active = value_or req.is_active c.is_active;
}

abbrev pub category_columns : ServiceCategory → ServiceCategory → ServiceCategory
category_columns new c = record c {
  name = new.name;
  icon = new.icon;
  sort_order = new.sort_order;
  is_active = new.is_active;
}

-- `UpdateCategory`
unfoldable pub update_category : ℕ → UpdateServiceCategoryRequest → Db ServiceCategory
update_category id req = do
  c ←
      query_row (λ t. find_where (with_category_id id) t.office.service_categories)
        (not_found "category not found") (internal "failed to get category")
  attempt (λ t.
        if fits_int4 (merge_category req c).sort_order
        then some (
          tt,
          set_categories
              (update_where (with_category_id c.id) (category_columns (merge_category req c))
                t.office.service_categories)
              t,
        )
        else none)
      >>= or_raise (internal "failed to update category")
  pure (merge_category req c)

abbrev pub hide_category : ServiceCategory → ServiceCategory
hide_category c = record c { is_active = false }

-- `DeleteCategory`: the row stays, and is inactive.
unfoldable pub delete_category : ℕ → Db (Unit {0})
delete_category id = do
  affected ←
      attempt (λ t. some (
        count_where (with_category_id id) t.office.service_categories,
        set_categories
            (update_where (with_category_id id) hide_category t.office.service_categories) t,
      ))
      >>= or_raise (internal "failed to delete category")
  branch (affected == 0) (raise (not_found "category not found")) (pure tt)
