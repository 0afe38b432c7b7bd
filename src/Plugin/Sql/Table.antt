-- ===== src/Plugin/Sql/Table.antt =====
-- cmd/protoc-gen-go-jet/emit_sql.go: renderCreateTable, orderedColumns and oneofKindCheck.
use protoc_gen_go_jet.Common.{
  ℕ, zero, suc, ◌-◌, Text, codes, Bool, true, false, not, ◌&&◌, ◌||◌, List, [], ◌∷◌, ◌++◌, Option,
  none, some, map, is_empty, length, filterb, utf8_length, if◌then◌else◌, ltb, ◌==◌,
}
use protoc_gen_go_jet.Plugin.Plan.{
  ForeignKeyPlan, ColumnPlan, OneofColumnPlan, ResourcePlan, PartitionPlan,
}
use protoc_gen_go_jet.Plugin.Identifier.{concat, join_texts}

-- s < t on strings; the order of the bytes of two UTF-8 texts is that of their code points.
unfoldable pub text_lt : Text → Text → Bool
text_lt s [] = false
text_lt [] (d ∷ t) = true
text_lt (c ∷ s) (d ∷ t) = ltb c d || c == d && text_lt s t

-- sort.SliceStable by the name: a stable insertion sort.
unfoldable pub insert_column : ColumnPlan → List ColumnPlan → List ColumnPlan
insert_column c [] = c ∷ []
insert_column c (d ∷ ds) =
    let rest = insert_column c ds in if text_lt d.db_name c.db_name then d ∷ rest else c ∷ d ∷ ds

unfoldable pub sort_columns : List ColumnPlan → List ColumnPlan
unfolding insert_column
sort_columns [] = []
sort_columns (c ∷ cs) = insert_column c (sort_columns cs)

unfoldable pub ordered_columns : ResourcePlan → List ColumnPlan
unfolding sort_columns
ordered_columns p =
    sort_columns (filterb (λ c. c.synthesized) p.columns)
    ++ filterb (λ c. not c.synthesized) p.columns

abbrev max_length : Text → ℕ → ℕ
max_length name width = if ltb width (utf8_length name) then utf8_length name else width

abbrev column_width : List ColumnPlan → ℕ → ℕ
column_width [] width = width
column_width (c ∷ cs) width = column_width cs (max_length c.db_name width)

abbrev pair_width : List OneofColumnPlan → ℕ → ℕ
pair_width [] width = width
pair_width (oc ∷ ocs) width =
    pair_width ocs (max_length oc.json_column (max_length oc.kind_column width))

abbrev spaces : ℕ → Text
spaces zero = []
spaces (suc n) = 32 ∷ spaces n

-- fmt's %-*s
abbrev pad : ℕ → Text → Text
pad width s = s ++ spaces (width - length s)

abbrev not_null_part : ColumnPlan → Text
not_null_part c = if c.not_null then codes " NOT NULL" else []

unfoldable pub column_def : ℕ → ColumnPlan → Text
column_def width c = concat (
    codes "    "
    ∷ pad width c.db_name
    ∷ codes "  "
    ∷ c.sql_type
    ∷ (if not (is_empty c.generated_expr)
        then concat (
            codes " GENERATED ALWAYS AS ("
            ∷ c.generated_expr
            ∷ codes ") STORED"
            ∷ not_null_part c
            ∷ [])
        else not_null_part c
          ++ (if is_empty c.default_expr then [] else codes " DEFAULT " ++ c.default_expr))
    ∷ [])

unfoldable pub pair_defs : ℕ → List OneofColumnPlan → List Text
pair_defs width [] = []
pair_defs width (oc ∷ ocs) =
    concat (
      codes "    "
      ∷ pad width oc.kind_column
      ∷ (if oc.is_optional then codes "  TEXT NOT NULL DEFAULT ''" else codes "  TEXT NOT NULL")
      ∷ [])
    ∷ concat (
        codes "    " ∷ pad width oc.json_column ∷ codes "  JSONB NOT NULL DEFAULT '{}'::jsonb" ∷ [])
    ∷ pair_defs width ocs

unfoldable pub key_def : List Text → List Text
key_def [] = []
key_def (k ∷ ks) =
    concat (codes "    PRIMARY KEY (" ∷ join_texts (codes ", ") (k ∷ ks) ∷ codes ")" ∷ []) ∷ []

unfoldable pub check_defs : Text → List ColumnPlan → List Text
check_defs table [] = []
check_defs table (c ∷ cs) =
    let rest = check_defs table cs in
    if is_empty c.check
    then rest
    else concat (
        codes "    CONSTRAINT "
        ∷ table
        ∷ codes "_"
        ∷ c.db_name
        ∷ codes "_check CHECK ("
        ∷ c.check
        ∷ codes ")"
        ∷ [])
      ∷ rest

abbrev quoted : Text → Text
quoted v = concat (codes "'" ∷ v ∷ codes "'" ∷ [])

unfoldable pub oneof_kind_check : OneofColumnPlan → Text
oneof_kind_check oc = concat (
    oc.kind_column
    ∷ codes " IN ("
    ∷ join_texts (codes ", ")
        ((if oc.is_optional then codes "''" ∷ [] else []) ++ map quoted oc.variants)
    ∷ codes ")"
    ∷ [])

unfoldable pub kind_defs : Text → List OneofColumnPlan → List Text
unfolding oneof_kind_check
kind_defs table [] = []
kind_defs table (oc ∷ ocs) =
    concat (
      codes "    CONSTRAINT "
      ∷ table
      ∷ codes "_"
      ∷ oc.base_name
      ∷ codes "_kind_valid CHECK ("
      ∷ oneof_kind_check oc
      ∷ codes ")"
      ∷ [])
    ∷ kind_defs table ocs

-- The columns of a foreign key, and those that it references.
unfoldable pub local_columns : ColumnPlan → ForeignKeyPlan → List Text
local_columns c fk =
    if fk.tenant_composite then fk.local_tenant_column ∷ c.db_name ∷ [] else c.db_name ∷ []

unfoldable pub target_columns : ForeignKeyPlan → List Text
target_columns fk =
    if fk.tenant_composite
    then fk.target_tenant_column ∷ fk.target_column ∷ []
    else fk.target_column ∷ []

unfoldable pub foreign_key_def : ColumnPlan → ForeignKeyPlan → Text
unfolding local_columns target_columns
foreign_key_def c fk = concat (
    codes "    CONSTRAINT "
    ∷ fk.constraint_name
    ∷ codes " FOREIGN KEY ("
    ∷ join_texts (codes ", ") (local_columns c fk)
    ∷ codes ") REFERENCES "
    ∷ fk.target_table
    ∷ codes " ("
    ∷ join_texts (codes ", ") (target_columns fk)
    ∷ codes ") ON DELETE "
    ∷ fk.on_delete
    ∷ codes " ON UPDATE "
    ∷ fk.on_update
    ∷ [])

unfoldable pub foreign_key_defs : List ColumnPlan → List Text
unfolding foreign_key_def
foreign_key_defs [] = []
foreign_key_defs (c ∷ cs) = elim c.foreign_key [
  | none ↦ foreign_key_defs cs
  | some fk ↦ foreign_key_def c fk ∷ foreign_key_defs cs
]

abbrev end_of_table : Option PartitionPlan → Text
end_of_table none = codes "\n);\n"
end_of_table (some part) = concat (
    codes "\n) PARTITION BY "
    ∷ part.method
    ∷ codes " ("
    ∷ join_texts (codes ", ") part.columns
    ∷ codes ");\n"
    ∷ [])

unfoldable pub table_defs : ResourcePlan → List Text
unfolding column_def pair_defs key_def check_defs kind_defs foreign_key_defs ordered_columns
table_defs p =
    let ordered = ordered_columns p in
    let width = pair_width p.oneof_columns (column_width ordered 0) in
    map (column_def width) ordered
    ++ (pair_defs width p.oneof_columns
        ++ (key_def p.primary_key
            ++ (check_defs p.table_name ordered
                ++ (kind_defs p.table_name p.oneof_columns ++ foreign_key_defs ordered))))

unfoldable pub render_create_table : ResourcePlan → Text
unfolding table_defs
render_create_table p = concat (
    codes "CREATE TABLE "
    ∷ p.table_name
    ∷ codes " (\n"
    ∷ join_texts (codes ",\n") (table_defs p)
    ∷ end_of_table p.partition
    ∷ [])
