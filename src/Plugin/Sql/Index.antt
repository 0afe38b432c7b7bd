-- ===== src/Plugin/Sql/Index.antt =====
-- cmd/protoc-gen-go-jet/emit_sql.go: the indexes of a table.
use protoc_gen_go_jet.Common.{
  Text, codes, not, List, [], ◌∷◌, ◌++◌, Option, none, some, map, is_empty, text_eq, filterb,
  if◌then◌else◌,
}
use protoc_gen_go_jet.Aip.Errors.{Result, ok, panic, ◌>>=◌}
use protoc_gen_go_jet.Plugin.Plan.{
  ForeignKeyPlan, ColumnPlan, IndexPlan, TenancyPlan, ResourcePlan, OneofColumnPlan,
  SupplementalUniqueConstraint,
}
use protoc_gen_go_jet.Plugin.Identifier.{concat, join_texts, jsonb_path_expr, jsonb_path_index_name}

-- Lines behind a blank one, if there are any.
abbrev section : List Text → Text
section [] = []
section (l ∷ ls) = codes "\n" ++ concat (l ∷ ls)

-- The columns with their directions: `idx.Order[i]` panics where no direction stands.
unfoldable pub index_columns : List Text → List Text → Result (List Text)
index_columns [] order = ok []
index_columns (c ∷ cs) [] = panic
index_columns (c ∷ cs) (o ∷ order) = do
  rest ← index_columns cs order
  ok ((if text_eq o (codes "DESC") then c ++ codes " DESC" else c) ∷ rest)

unfoldable pub index_line : Text → IndexPlan → List Text → Text
index_line table idx cols = concat (
    codes "CREATE "
    ∷ (if idx.is_unique then codes "UNIQUE " else [])
    ∷ codes "INDEX "
    ∷ idx.name
    ∷ codes " ON "
    ∷ table
    ∷ codes " ("
    ∷ join_texts (codes ", ") cols
    ∷ codes ")"
    ∷ (if is_empty idx.where_clause then [] else codes " WHERE " ++ idx.where_clause)
    ∷ codes ";\n"
    ∷ [])

unfoldable pub index_lines : Text → List IndexPlan → Result (List Text)
index_lines table [] = ok []
index_lines table (idx ∷ indexes) = do
  cols ← index_columns idx.columns idx.order
  rest ← index_lines table indexes
  ok (index_line table idx cols ∷ rest)

unfoldable pub render_indexes : ResourcePlan → Result Text
render_indexes p = do lines ← index_lines p.table_name p.indexes; ok (section lines)

unfoldable pub scope_columns : Option TenancyPlan → List Text
scope_columns none = []
scope_columns (some t) = if t.user_scoped then t.column ∷ t.user_column ∷ [] else t.column ∷ []

-- The columns of the index behind `unique: true`.
unfoldable pub unique_index_columns : ResourcePlan → Text → List Text
unfolding scope_columns
unique_index_columns p col =
    filterb (λ s. not (text_eq s col)) (scope_columns p.tenancy) ++ (col ∷ [])

abbrev unique_line : ResourcePlan → ColumnPlan → Text
unique_line p c = concat (
    codes "CREATE UNIQUE INDEX idx_"
    ∷ p.table_name
    ∷ codes "_"
    ∷ c.db_name
    ∷ codes "_unique ON "
    ∷ p.table_name
    ∷ codes " ("
    ∷ join_texts (codes ", ") (unique_index_columns p c.db_name)
    ∷ codes ");\n"
    ∷ [])

unfoldable pub render_unique_column_indexes : ResourcePlan → Text
unfolding unique_index_columns
render_unique_column_indexes p =
    section (map (unique_line p) (filterb (λ c. c.is_unique) p.columns))

abbrev gin_line : Text → ColumnPlan → Text
gin_line table c = concat (
    codes "CREATE INDEX idx_"
    ∷ table
    ∷ codes "_"
    ∷ c.db_name
    ∷ codes "_gin ON "
    ∷ table
    ∷ codes " USING GIN ("
    ∷ c.db_name
    ∷ codes " jsonb_path_ops);\n"
    ∷ [])

unfoldable pub render_jsonb_gin_indexes : ResourcePlan → Text
render_jsonb_gin_indexes p =
    section (map (gin_line p.table_name) (filterb (λ c. c.jsonb_gin_index) p.columns))

abbrev path_line : Text → Text → Text → Text
path_line table col path = concat (
    codes "CREATE INDEX "
    ∷ jsonb_path_index_name table col path
    ∷ codes " ON "
    ∷ table
    ∷ codes " (("
    ∷ jsonb_path_expr col path
    ∷ codes "));\n"
    ∷ [])

abbrev column_path_lines : Text → List ColumnPlan → List Text
column_path_lines table [] = []
column_path_lines table (c ∷ cs) =
    map (path_line table c.db_name) c.jsonb_indexed_paths ++ column_path_lines table cs

abbrev oneof_path_lines : Text → List OneofColumnPlan → List Text
oneof_path_lines table [] = []
oneof_path_lines table (oc ∷ ocs) =
    map (path_line table oc.json_column) oc.jsonb_indexed_paths ++ oneof_path_lines table ocs

unfoldable pub render_jsonb_path_indexes : ResourcePlan → Text
render_jsonb_path_indexes p =
    section
      (column_path_lines p.table_name p.columns ++ oneof_path_lines p.table_name p.oneof_columns)

abbrev supplemental_line : Text → SupplementalUniqueConstraint → Text
supplemental_line table uq = concat (
    codes "CREATE UNIQUE INDEX "
    ∷ uq.name
    ∷ codes " ON "
    ∷ table
    ∷ codes " ("
    ∷ join_texts (codes ", ") uq.columns
    ∷ codes ");\n"
    ∷ [])

unfoldable pub render_supplemental_uniques : ResourcePlan → Text
render_supplemental_uniques p = elim p.supplemental_uniques [
  | [] ↦ []
  | _ ∷ _ ↦ concat (
      codes "\n-- Supplemental UNIQUE constraints backing tenant-composite foreign keys.\n"
      ∷ codes "-- Auto-emitted because the primary key does not already cover these columns.\n"
      ∷ map (supplemental_line p.table_name) p.supplemental_uniques)
]

abbrev backing_line : Text → ColumnPlan → ForeignKeyPlan → Text
backing_line table c fk = concat (
    codes "CREATE INDEX "
    ∷ fk.index_name
    ∷ codes " ON "
    ∷ table
    ∷ codes " ("
    ∷ c.db_name
    ∷ codes ");\n"
    ∷ [])

unfoldable pub backing_lines : Text → List ColumnPlan → List Text
backing_lines table [] = []
backing_lines table (c ∷ cs) =
    let rest = backing_lines table cs in
    elim c.foreign_key [
      | none ↦ rest
      | some fk ↦ if fk.backing_index then backing_line table c fk ∷ rest else rest
    ]

unfoldable pub render_foreign_key_indexes : ResourcePlan → Text
unfolding backing_lines
render_foreign_key_indexes p = section (backing_lines p.table_name p.columns)
