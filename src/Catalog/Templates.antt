-- ===== src/Catalog/Templates.antt =====
-- `ListTemplates`, `CreateTemplate`, `UpdateTemplate` and `DeleteTemplate` of
-- internal/service/service_template_service.go.
use service_api.Base.{
  text_or, value_or, ℕ, Bool, true, false, ◌&&◌, Option, none, some, List, [], ◌∷◌, ◌++◌, ◌==◌,
  fits_int4, find_where, update_where, count_where, length, if◌then◌else◌, sort_by, page_of,
}
use service_api.Apperror.{not_found, validation, internal}
use service_api.Domain.Catalog.{
  ServiceTemplate, CreateServiceTemplateRequest, UpdateServiceTemplateRequest,
}
use service_api.External.{External}
use service_api.Pagination.{Params, offset}
use service_api.Store.{
  Tables, Db, attempt, select, query_row, pure, raise, or_raise, branch, case_option, ◌>>=◌, ◌>>◌,
}
use service_api.Catalog.Categories.{with_category_id, comes_before}

abbrev pub with_template_id : ℕ → ServiceTemplate → Bool
with_template_id id s = s.id == id

abbrev pub set_templates : List ServiceTemplate → Tables → Tables
set_templates ss t = record t { office = record (t.office) { service_templates = ss } }

abbrev pub template_order : External → ServiceTemplate → ServiceTemplate → Bool
template_order ext c d = comes_before ext c.sort_order c.name d.sort_order d.name

-- `ListTemplates`
unfoldable pub list_templates : External → Params → Db (List ServiceTemplate × ℕ)
list_templates ext p = do
  total ← select (λ t. length t.office.service_templates) (internal "failed to count templates")
  page ←
      select
        (λ t.
          page_of p.per_page (offset p) (sort_by (template_order ext) t.office.service_templates))
        (internal "failed to list templates")
  rows ← or_raise (internal "failed to list templates") page
  pure (rows, total)

abbrev pub new_template : ℕ → ℕ → ℕ → CreateServiceTemplateRequest → ServiceTemplate
new_template id now category_id req = record {
  id = id;
  category_id = category_id;
  name = req.name;
  pricing_unit = req.pricing_unit;
  base_price = req.base_price;
  estimated_duration_hours = req.estimated_duration_hours;
  is_active = true;
  sort_order = req.sort_order;
  created_at = now;
}

-- The INSERT: two columns are INTs, and the category exists.
abbrev pub insert_template : ServiceTemplate → Tables → Option (Unit {0} × Tables)
insert_template s t =
    elim (find_where (with_category_id s.category_id) t.office.service_categories) [
      | none ↦ none
      | some _ ↦
          if fits_int4 s.estimated_duration_hours && fits_int4 s.sort_order
          then some (tt, set_templates (t.office.service_templates ++ s ∷ []) t)
          else none
    ]

-- `CreateTemplate`
unfoldable pub create_template :
    External → ℕ → ℕ → CreateServiceTemplateRequest → Db ServiceTemplate
create_template ext new_id now req =
    case_option (ext.parse_uuid req.category_id) (raise (validation "invalid category_id"))
      (λ category_id. do
        attempt (insert_template (new_template new_id now category_id req))
            >>= or_raise (internal "failed to create template")
        pure (new_template new_id now category_id req))

abbrev pub merge_template : UpdateServiceTemplateRequest → ServiceTemplate → ServiceTemplate
merge_template req s = record s {
  name = text_or req.name s.name;
  pricing_unit = text_or req.pricing_unit s.pricing_unit;
  base_price = value_or req.base_price s.base_price;
  estimated_duration_hours = value_or req.estimated_duration_hours s.estimated_duration_hours;
  sort_order = value_or req.sort_order s.sort_order;
  is_active = value_or req.is_active s.is_active;
}

abbrev pub template_columns : ServiceTemplate → ServiceTemplate → ServiceTemplate
template_columns new s = record s {
  name = new.name;
  pricing_unit = new.pricing_unit;
  base_price = new.base_price;
  estimated_duration_hours = new.estimated_duration_hours;
  is_active = new.is_active;
  sort_order = new.sort_order;
}

-- `UpdateTemplate`
unfoldable pub update_template : ℕ → UpdateServiceTemplateRequest → Db ServiceTemplate
update_template id req = do
  s ←
      query_row (λ t. find_where (with_template_id id) t.office.service_templates)
        (not_found "template not found") (internal "failed to get template")
  attempt (λ t.
        if fits_int4 (merge_template req s).estimated_duration_hours
          && fits_int4 (merge_template req s).sort_order
        then some (
          tt,
          set_templates
              (update_where (with_template_id s.id) (template_columns (merge_template req s))
                t.office.service_templates)
              t,
        )
        else none)
      >>= or_raise (internal "failed to update template")
  pure (merge_template req s)

abbrev pub hide_template : ServiceTemplate → ServiceTemplate
hide_template s = record s { is_active = false }

-- `DeleteTemplate`: the row stays, and is inactive.
unfoldable pub delete_template : ℕ → Db (Unit {0})
delete_template id = do
  affected ←
      attempt (λ t. some (
        count_where (with_template_id id) t.office.service_templates,
        set_templates (update_where (with_template_id id) hide_template t.office.service_templates)
            t,
      ))
      >>= or_raise (internal "failed to delete template")
  branch (affected == 0) (raise (not_found "template not found")) (pure tt)
