-- ===== src/Tests/Plugin.antt =====
-- The theorems on the validation, the foreign keys and the order of the files, at concrete inputs.
use mathlib.Core.List.{Perm}
use protoc_gen_go_jet.Common.{
  ℕ, ◌<◌, Text, codes, true, false, List, [], ◌∷◌, none, some, map, has_prefix, is_empty, length,
  text_eq, utf8_length, ltb, All, Has, ◌≡◌, ◌≢◌, refl, sym, subst, inl, inr, arith, lookup, ◌↔◌,
}
use protoc_gen_go_jet.Aip.Errors.{ok}
use protoc_gen_go_jet.Plugin.Plan.{ForeignKeyPlan, ColumnPlan, TenancyPlan, ResourcePlan}
use protoc_gen_go_jet.Plugin.Identifier.{check_synth_ident_len}
use protoc_gen_go_jet.Plugin.ForeignKey.{
  local_plan, fk_action_sql, action_unspecified, split_fk_target, qualify, cut_last_dot,
  find_column, target_pk_covers_tenant_composite, covers, mentions, delete, column_already_covered,
  leads, leads_index, unique_column,
}
use protoc_gen_go_jet.Plugin.ForeignKey.Pass.{
  Store, Completion, pair_constraint, find_plan, complete_fk, complete_found, complete_scoped,
  finish_fk, with_backing_index, needed_constraint,
}
use protoc_gen_go_jet.Plugin.ForeignKey.Keys.{IsTenantScoped, ArePairs}
use protoc_gen_go_jet.Plugin.ForeignKey.Backed.{IsBacked, complete_fk-IsBacked}
use protoc_gen_go_jet.Plugin.ForeignKey.UserScope.{needed_constraint-user_scoped}
use protoc_gen_go_jet.Plugin.Sql.Index.{unique_index_columns}
use protoc_gen_go_jet.Plugin.Validate.{
  member, claim_name, check_each, claim_columns, claim_oneofs, require_known, require_column,
  require_scope, check_tenancy, check_key, check_partition, check_index_scope, claim_indexes,
  claim_synth, claim_paths, claim_column_paths, claim_oneof_paths, claim_gin, claim_unique,
  check_check_name, claim_column_indexes, check_order_part, validate_known, validate_plan,
}
use protoc_gen_go_jet.Plugin.Validate.Accepted.{AreDistinct, column_names}
use protoc_gen_go_jet.Plugin.Validate.Names.{
  IsShort, index_names, synthesized_names, validate_plan-index_names,
}
use protoc_gen_go_jet.Plugin.Validate.Scope.{IsScopedBy, of_column, validate_plan-IsScopedBy}
use protoc_gen_go_jet.Plugin.Validate.Sound.{
  AreColumns, IsPartition, IsOrderPart, validate_plan-AreColumns,
}
use protoc_gen_go_jet.Plugin.Apply.{
  FileContent, owners, find_owner, mem, add_owner, add_references, build, release, kahn, finish,
  edges_of, sorted, cycle, out_of_fuel, topo_sort_ddl,
}
use protoc_gen_go_jet.Plugin.Apply.Count.{one_if, mult}
use protoc_gen_go_jet.Plugin.Apply.Correct.{
  DependsOn, topo_sort_ddl_ends, topo_sort_ddl-sorted, topo_sort_ddl-DependsOn, topo_sort_ddl-cycle,
}
use protoc_gen_go_jet.Plugin.Entry.{
  PendingEmit, table_key, report, see, duplicates_from, detect_duplicate_tables,
}
use protoc_gen_go_jet.Plugin.Entry.Duplicates.{NoneSame, detect_duplicate_tables_iff}
use protoc_gen_go_jet.Tests.Plans.{plain_column, tenants, providers}

abbrev tenant_column : ColumnPlan
tenant_column = record (plain_column (codes "tenant_id")) { synthesized = true }

abbrev id_fk : ForeignKeyPlan
id_fk =
    local_plan
      (record {
        target = codes "Model.id";
        on_delete = action_unspecified;
        on_update = action_unspecified;
        index = none;
      })
      (codes "Model.id")

abbrev model_column : ColumnPlan
model_column = record (plain_column (codes "model_id")) { foreign_key = some id_fk }

-- A table with a key of its own, so that a foreign key to it needs a constraint.
abbrev models : ResourcePlan
models = record providers {
  resource_fqn = codes "ai.v1.Model";
  table_name = codes "models";
  primary_key = codes "tenant_id" ∷ codes "id" ∷ codes "kind" ∷ [];
  columns = tenant_column ∷ plain_column (codes "id") ∷ plain_column (codes "kind") ∷ [];
  supplemental_uniques = [];
}

abbrev agents : ResourcePlan
agents = record providers {
  resource_fqn = codes "ai.v1.Agent";
  table_name = codes "agents";
  primary_key = codes "tenant_id" ∷ codes "id" ∷ [];
  columns = tenant_column ∷ plain_column (codes "id") ∷ model_column ∷ [];
  supplemental_uniques = [];
}

abbrev plans : Store
plans = models ∷ agents ∷ []

abbrev completion : Completion
completion = record {
  foreign_key = record id_fk {
    target_table = codes "models";
    target_column = codes "id";
    constraint_name = codes "agents_model_id_fkey";
    tenant_composite = true;
    local_tenant_column = codes "tenant_id";
    target_tenant_column = codes "tenant_id";
    index_name = codes "idx_agents_model_id_fk";
  };
  target = 0;
  supplemental = some (pair_constraint models tenants (codes "id"));
}

model_completed : complete_fk plans agents model_column id_fk ≡ ok completion
unfolding complete_fk complete_found complete_scoped finish_fk with_backing_index needed_constraint
    find_plan split_fk_target qualify cut_last_dot find_column target_pk_covers_tenant_composite
    covers mentions delete column_already_covered leads leads_index unique_column
    check_synth_ident_len utf8_length local_plan fk_action_sql has_prefix text_eq
model_completed = refl

of_tenants : {t : TenancyPlan} → some tenants ≡ some t → tenants ≡ t
of_tenants h = cc

models-IsTenantScoped : IsTenantScoped models
unfolding text_eq
models-IsTenantScoped t e =
    subst
      (λ s.
        (s.user_scoped ≡ false)
        × ((c : ColumnPlan)
            → Has c models.columns
            → c.synthesized ≡ false
            → text_eq s.column c.db_name ≡ false))
      (of_tenants e) (refl, λ c m s. apart c m s)
  where
    apart :
        (c : ColumnPlan)
        → Has c models.columns
        → c.synthesized ≡ false
        → text_eq (codes "tenant_id") c.db_name ≡ false
    apart c (inl q) s =
        absurd
          (let r : c.synthesized ≡ true = (subst (λ d. d.synthesized ≡ true) (sym q) refl) in cc)
    apart c (inr (inl q)) s =
        subst (λ d. text_eq (codes "tenant_id") d.db_name ≡ false) (sym q) refl
    apart c (inr (inr (inl q))) s =
        subst (λ d. text_eq (codes "tenant_id") d.db_name ≡ false) (sym q) refl
    apart c (inr (inr (inr m))) s = elim m [ ]

agents-IsTenantScoped : IsTenantScoped agents
unfolding text_eq
agents-IsTenantScoped t e =
    subst
      (λ s.
        (s.user_scoped ≡ false)
        × ((c : ColumnPlan)
            → Has c agents.columns
            → c.synthesized ≡ false
            → text_eq s.column c.db_name ≡ false))
      (of_tenants e) (refl, λ c m s. apart c m s)
  where
    apart :
        (c : ColumnPlan)
        → Has c agents.columns
        → c.synthesized ≡ false
        → text_eq (codes "tenant_id") c.db_name ≡ false
    apart c (inl q) s =
        absurd
          (let r : c.synthesized ≡ true = (subst (λ d. d.synthesized ≡ true) (sym q) refl) in cc)
    apart c (inr (inl q)) s =
        subst (λ d. text_eq (codes "tenant_id") d.db_name ≡ false) (sym q) refl
    apart c (inr (inr (inl q))) s =
        subst (λ d. text_eq (codes "tenant_id") d.db_name ≡ false) (sym q) refl
    apart c (inr (inr (inr m))) s = elim m [ ]

none_added : (p : ResourcePlan) → p.supplemental_uniques ≡ [] → ArePairs p
none_added p e uq m = absurd (subst (λ l. Has uq l) e m)

complete_fk-IsBacked_example : IsBacked plans completion
complete_fk-IsBacked_example =
    complete_fk-IsBacked plans agents model_column id_fk (unfold local_plan in refl)
      (models-IsTenantScoped, (agents-IsTenantScoped, tt))
      (none_added models refl, (none_added agents refl, tt)) model_completed

abbrev per_user : TenancyPlan
per_user = record tenants { user_scoped = true; user_column = codes "user_id" }

abbrev slug : ColumnPlan
slug = record (plain_column (codes "slug")) { is_unique = true }

abbrev notes : ResourcePlan
notes = record models { tenancy = some per_user; columns = tenant_column ∷ slug ∷ [] }

needed_constraint-user_scoped_example :
    (needed_constraint notes per_user slug ≡ none)
    × (¬ Perm (unique_index_columns notes (codes "slug")) (codes "tenant_id" ∷ codes "slug" ∷ []))
needed_constraint-user_scoped_example =
    needed_constraint-user_scoped notes per_user slug refl refl refl (unfold text_eq in refl)
      (unfold text_eq in refl)

-- A plan that is accepted.
abbrev accounts : ResourcePlan
accounts = record models {
  table_name = codes "accounts";
  primary_key = codes "tenant_id" ∷ codes "id" ∷ [];
  columns = tenant_column ∷ plain_column (codes "id") ∷ slug ∷ [];
  indexes =
      record {
        name = codes "by_slug";
        columns = codes "slug" ∷ [];
        order = codes "ASC" ∷ [];
        is_unique = false;
        where_clause = [];
      }
      ∷ [];
  tie_breaker = record { field_path = codes "tenant_id"; desc = false } ∷ [];
}

accounts_accepted : validate_plan accounts ≡ ok tt
unfolding validate_plan validate_known member claim_name check_each claim_columns claim_oneofs
    require_known require_column require_scope check_tenancy check_key check_partition
    check_index_scope claim_indexes claim_synth claim_paths claim_column_paths claim_oneof_paths
    claim_gin claim_unique check_check_name claim_column_indexes check_order_part
    check_synth_ident_len utf8_length text_eq
accounts_accepted = refl

validate_plan-index_names_example :
    AreDistinct (index_names accounts) × All IsShort (synthesized_names accounts)
validate_plan-index_names_example = validate_plan-index_names accounts accounts_accepted

validate_plan-IsScopedBy_example :
    IsScopedBy (some tenants) (unique_index_columns accounts (codes "slug"))
validate_plan-IsScopedBy_example =
    validate_plan-IsScopedBy accounts (unique_index_columns accounts (codes "slug"))
      accounts_accepted
      (of_column slug (inr (inr (inl refl))) refl (unique_index_columns accounts (codes "slug"))
        refl)

validate_plan-AreColumns_example :
    AreDistinct (map (λ c. c.db_name) accounts.columns)
    × (is_empty accounts.primary_key ≡ false)
    × AreColumns (column_names accounts) accounts.primary_key
    × All (λ idx. AreColumns (column_names accounts) idx.columns) accounts.indexes
    × IsPartition accounts accounts.partition
    × All (IsOrderPart accounts) accounts.default_order
    × All (IsOrderPart accounts) accounts.tie_breaker
validate_plan-AreColumns_example = validate_plan-AreColumns accounts accounts_accepted

-- Files whose content begins with the name of their table, of one letter; the letters behind it are the
-- tables that they reference.
abbrev created : Text → List Text
created [] = []
created (c ∷ s) = (c ∷ []) ∷ []

abbrev referenced : Text → List Text
referenced [] = []
referenced (c ∷ s) = map (λ d. d ∷ []) s

abbrev file : Text → FileContent
file content = record { path = content; content = content }

abbrev files : List FileContent
files = file (codes "abd") ∷ file (codes "b") ∷ file (codes "cab") ∷ []

files_sorted : topo_sort_ddl created referenced files ≡ sorted (1 ∷ 0 ∷ 2 ∷ [])
unfolding topo_sort_ddl edges_of build add_references add_owner owners find_owner kahn release
    finish text_eq
files_sorted = refl

topo_sort_ddl_ends_example : topo_sort_ddl created referenced files ≢ out_of_fuel
topo_sort_ddl_ends_example = topo_sort_ddl_ends created referenced files

topo_sort_ddl-sorted_example : mult 2 (1 ∷ 0 ∷ 2 ∷ []) ≡ one_if (ltb 2 (length files))
topo_sort_ddl-sorted_example = topo_sort_ddl-sorted created referenced files files_sorted 2

a_depends : DependsOn created referenced files 0 1
unfolding find_owner owners text_eq
a_depends = (file (codes "abd"), codes "b", refl, inl refl, refl, omega arith)

topo_sort_ddl-DependsOn_example : mem 1 (1 ∷ []) ≡ true
topo_sort_ddl-DependsOn_example =
    topo_sort_ddl-DependsOn created referenced files (1 ∷ []) (2 ∷ []) 0 1 files_sorted a_depends

abbrev looped : List FileContent
looped = file (codes "ab") ∷ file (codes "ba") ∷ file (codes "c") ∷ []

looped_cycle : topo_sort_ddl created referenced looped ≡ cycle (0 ∷ 1 ∷ [])
unfolding topo_sort_ddl edges_of build add_references add_owner owners find_owner kahn release
    finish text_eq
looped_cycle = refl

topo_sort_ddl-cycle_example :
    ((k : ℕ) × (mem k (0 ∷ 1 ∷ []) ≡ true))
    × All
        (λ k.
          (o : ℕ) × (mem o (0 ∷ 1 ∷ []) ≡ true)
          × (0 < mult k ((edges_of created referenced looped).adj o)))
        (0 ∷ 1 ∷ [])
topo_sort_ddl-cycle_example = topo_sort_ddl-cycle created referenced looped looped_cycle

abbrev message : Text → ResourcePlan → Text → PendingEmit
message source plan name = record { source = source; plan = record plan { table_name = name } }

abbrev twice : List PendingEmit
twice =
    message (codes "a.proto") models (codes "ab")
    ∷ message (codes "b.proto") agents (codes "cd")
    ∷ message (codes "c.proto") agents (codes "ab")
    ∷ []

twice_reported :
    detect_duplicate_tables twice
    ≡ record { source = codes "c.proto"; table_name = codes "ab"; previous = codes "a.proto" } ∷ []
unfolding detect_duplicate_tables duplicates_from report see table_key lookup text_eq
twice_reported = refl

detect_duplicate_tables_iff_example : (detect_duplicate_tables twice ≡ []) ↔ NoneSame twice
detect_duplicate_tables_iff_example = detect_duplicate_tables_iff twice (
  (omega arith, (omega arith, tt)),
  ((omega arith, (omega arith, tt)), ((omega arith, (omega arith, tt)), tt)),
)
