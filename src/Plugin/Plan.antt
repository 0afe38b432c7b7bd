-- ===== src/Plugin/Plan.antt =====
-- cmd/protoc-gen-go-jet/plan.go: the plan of a table. Of its fields, those that the validation, the
-- foreign keys and the SQL emitter read; the protobuf descriptors and the Go names are left out.
use protoc_gen_go_jet.Common.{Text, Bool, List, Option}

pub record ForeignKeyPlan : Type 0 where
  pub raw_target : Text
  pub target_table : Text
  pub target_column : Text
  pub tenant_composite : Bool
  pub local_tenant_column : Text
  pub target_tenant_column : Text
  pub on_delete : Text
  pub on_update : Text
  pub backing_index : Bool
  pub constraint_name : Text
  pub index_name : Text

pub record SupplementalUniqueConstraint : Type 0 where
  pub name : Text
  pub columns : List Text

-- A nil foreign key is `none`.
pub record ColumnPlan : Type 0 where
  pub db_name : Text
  pub sql_type : Text
  pub not_null : Bool
  pub default_expr : Text
  pub check : Text
  pub comment : Text
  pub proto_field_name : Text
  pub orderable : Bool
  pub synthesized : Bool
  pub jsonb_indexed_paths : List Text
  pub rename_from : Text
  pub jsonb_gin_index : Bool
  pub is_unique : Bool
  pub foreign_key : Option ForeignKeyPlan
  pub generated_expr : Text

-- A variant is its name.
pub record OneofColumnPlan : Type 0 where
  pub base_name : Text
  pub kind_column : Text
  pub json_column : Text
  pub comment : Text
  pub is_optional : Bool
  pub variants : List Text
  pub jsonb_indexed_paths : List Text

pub record IndexPlan : Type 0 where
  pub name : Text
  pub columns : List Text
  pub order : List Text
  pub is_unique : Bool
  pub where_clause : Text

pub record PartitionPlan : Type 0 where
  pub method : Text
  pub columns : List Text

pub record TenancyPlan : Type 0 where
  pub column : Text
  pub runtime_role : Text
  pub user_scoped : Bool
  pub user_column : Text

pub record OrderPart : Type 0 where
  pub field_path : Text
  pub desc : Bool

pub record ResourcePlan : Type 0 where
  pub proto_file : Text
  pub resource_fqn : Text
  pub go_dir : Text
  pub table_name : Text
  pub table_comment : Text
  pub primary_key : List Text
  pub indexes : List IndexPlan
  pub tenancy : Option TenancyPlan
  pub partition : Option PartitionPlan
  pub default_order : List OrderPart
  pub tie_breaker : List OrderPart
  pub columns : List ColumnPlan
  pub oneof_columns : List OneofColumnPlan
  pub custom_sql : List Text
  pub supplemental_uniques : List SupplementalUniqueConstraint
