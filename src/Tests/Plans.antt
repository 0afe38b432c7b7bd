-- ===== src/Tests/Plans.antt =====
-- The theorems on plans, schemas and foreign keys.
use protoc_gen_go_jet.Common.{◌↔◌, ◌<◌, ◌^◌, arith}
use protoc_gen_go_jet.Aip.Errors.{panic}
use protoc_gen_go_jet.Aip.Filter.{name_prefix, parse_name_filter}
use protoc_gen_go_jet.Aip.Filter.Panic.{parse_name_filter_panic_iff}
use protoc_gen_go_jet.Jet.Execute.{query_limit}
use protoc_gen_go_jet.Jet.Execute.Limit.{query_limit_iff}
use protoc_gen_go_jet.Common.{
  pos, negsuc, ◌≤ℤ◌, Text, codes, true, false, List, [], ◌∷◌, none, some, is_empty, contains_byte,
  text_eq, trim_space, lookup, is_space, has_prefix, has_suffix, ◌≡◌, refl, inr,
}
use protoc_gen_go_jet.Aip.Errors.{ok}
use protoc_gen_go_jet.Aip.Order.{asc, desc}
use protoc_gen_go_jet.Jet.Schema.{
  SchemaOption, with_default_order, with_tie_breaker, with_default_page_size, with_max_page_size,
  new_schema, validate, check_order, check_fields, check_field, build_codecs,
}
use protoc_gen_go_jet.Jet.Plan.{build_plan, effective_page_size}
use protoc_gen_go_jet.Jet.Plan.Errors.{IsRequestError, build_plan-IsRequestError}
use protoc_gen_go_jet.Jet.Plan.Size.{new_schema-effective_page_size}
use protoc_gen_go_jet.Plugin.Plan.{
  ColumnPlan, TenancyPlan, ResourcePlan, SupplementalUniqueConstraint,
}
use protoc_gen_go_jet.Plugin.ForeignKey.{
  ForeignKey, action_set_null, action_unspecified, parse_fk_annotation, local_plan, split_fk_target,
  validate_fk_target_syntax, validate_fk_actions_against_column, check_action, check_target,
  check_message, cut_last_dot, field_valid, field_character, fk_action_sql, has_constraint,
  add_supplemental_unique,
}
use protoc_gen_go_jet.Plugin.ForeignKey.Local.{IsApplicable, parse_fk_annotation_safe}
use protoc_gen_go_jet.Plugin.ForeignKey.Unique.{NamesDiffer, add_supplemental_unique-NamesDiffer}
use protoc_gen_go_jet.Tests.Database.{users}
use protoc_gen_go_jet.Tests.Paging.{two_per_page}

abbrev options : List SchemaOption
options =
    with_default_page_size (pos 2)
    ∷ with_max_page_size (pos 3)
    ∷ with_default_order (codes "group") asc
    ∷ with_tie_breaker (codes "name") desc
    ∷ []

accepted_users : new_schema (codes "user") users.fields options ≡ inr users
unfolding new_schema validate check_order check_fields check_field build_codecs lookup text_eq
accepted_users = refl

new_schema-effective_page_size_example :
    (pos 1 ≤ℤ effective_page_size users.default_page_size users.max_page_size (negsuc 6))
    × (effective_page_size users.default_page_size users.max_page_size (negsuc 6)
        ≤ℤ users.max_page_size)
new_schema-effective_page_size_example =
    new_schema-effective_page_size (codes "user") users.fields options (negsuc 6) accepted_users

build_plan-IsRequestError_example : IsRequestError (build_plan (pos 0) users two_per_page)
build_plan-IsRequestError_example = build_plan-IsRequestError (pos 0) users two_per_page

abbrev provider_fk : ForeignKey
provider_fk = record {
  target = codes ".ai.v1.Provider.id";
  on_delete = action_set_null;
  on_update = action_unspecified;
  index = none;
}

abbrev pub plain_column : Text → ColumnPlan
plain_column name = record {
  db_name = name;
  sql_type = codes "TEXT";
  not_null = false;
  default_expr = [];
  check = [];
  comment = [];
  proto_field_name = name;
  orderable = false;
  synthesized = false;
  jsonb_indexed_paths = [];
  rename_from = [];
  jsonb_gin_index = false;
  is_unique = false;
  foreign_key = none;
  generated_expr = [];
}

abbrev provider_column : ColumnPlan
provider_column = plain_column (codes "provider_id")

provider_accepted :
    parse_fk_annotation provider_fk provider_column
    ≡ ok (local_plan provider_fk (codes ".ai.v1.Provider.id"))
unfolding parse_fk_annotation trim_space validate_fk_target_syntax
    validate_fk_actions_against_column check_action check_target check_message cut_last_dot
    field_valid field_character local_plan fk_action_sql contains_byte text_eq has_prefix has_suffix
    is_space
provider_accepted = refl

parse_fk_annotation_safe_example :
    IsApplicable (local_plan provider_fk (codes ".ai.v1.Provider.id")).on_delete provider_column
    × IsApplicable (local_plan provider_fk (codes ".ai.v1.Provider.id")).on_update provider_column
    × ((message : Text) × (field : Text) × (split_fk_target
            (local_plan provider_fk (codes ".ai.v1.Provider.id")).raw_target
            (codes "ai.v1.Server")
          ≡ ok (message, field))
        × (is_empty field ≡ false)
        × (contains_byte field 46 ≡ false))
parse_fk_annotation_safe_example =
    parse_fk_annotation_safe provider_fk provider_column (codes "ai.v1.Server") provider_accepted

abbrev pub tenants : TenancyPlan
tenants = record {
  column = codes "tenant_id";
  runtime_role = codes "app-tenant";
  user_scoped = false;
  user_column = [];
}

abbrev pub providers : ResourcePlan
providers = record {
  proto_file = codes "ai/v1/provider.proto";
  resource_fqn = codes "ai.v1.Provider";
  go_dir = codes "storage";
  table_name = codes "providers";
  table_comment = [];
  primary_key = codes "id" ∷ [];
  indexes = [];
  tenancy = some tenants;
  partition = none;
  default_order = [];
  tie_breaker = [];
  columns = plain_column (codes "tenant_id") ∷ plain_column (codes "id") ∷ [];
  oneof_columns = [];
  custom_sql = [];
  supplemental_uniques = record { name = codes "uq_a"; columns = [] } ∷ [];
}

abbrev uq_b : SupplementalUniqueConstraint
uq_b = record { name = codes "uq_b"; columns = codes "tenant_id" ∷ codes "id" ∷ [] }

add_supplemental_unique-NamesDiffer_example :
    NamesDiffer (add_supplemental_unique providers uq_b).supplemental_uniques
    × (has_constraint (codes "uq_b") (add_supplemental_unique providers uq_b).supplemental_uniques
        ≡ true)
add_supplemental_unique-NamesDiffer_example =
    add_supplemental_unique-NamesDiffer providers uq_b (unfold has_constraint in (refl, tt))

parse_name_filter_panic_iff_example :
    (parse_name_filter (codes "name:\"") ≡ panic) ↔ (codes "name:\"" ≡ name_prefix)
parse_name_filter_panic_iff_example = parse_name_filter_panic_iff (codes "name:\"")

query_limit_iff_example : (query_limit (pos 1000) ≡ pos 1001) ↔ (1001 < 2 ^ 31)
query_limit_iff_example = query_limit_iff 1000 (omega arith)
