-- ===== src/Plugin/Sql/Notes.antt =====
-- cmd/protoc-gen-go-jet/emit_sql.go: the policies, the comments, the rename directives and the
-- statements of the caller.
use protoc_gen_go_jet.Common.{
  ℕ, Text, codes, Bool, false, not, ◌&&◌, ◌||◌, List, [], ◌∷◌, ◌++◌, none, some, map, is_empty,
  filterb, trim_space, if◌then◌else◌, ◌==◌,
}
use protoc_gen_go_jet.Aip.Errors.{Result, ok, ◌>>=◌}
use protoc_gen_go_jet.Plugin.Plan.{ColumnPlan, TenancyPlan, ResourcePlan, OneofColumnPlan}
use protoc_gen_go_jet.Plugin.Identifier.{concat, pg_ident, sql_dollar_quote}
use protoc_gen_go_jet.Plugin.Sql.Table.{ordered_columns}

unfoldable pub rename_line : Text → ColumnPlan → Text
rename_line table c = concat (
    codes "-- PLUGIN-RENAME: "
    ∷ table
    ∷ codes " "
    ∷ c.rename_from
    ∷ codes " -> "
    ∷ c.db_name
    ∷ codes "\n"
    ∷ [])

abbrev pub rename_notice : Text
rename_notice = concat (
    codes "\n-- PLUGIN-RENAME directives — declared via `(storage.v1.column).rename_from`.\n"
    ∷ codes "-- Author the next migration as `ALTER TABLE <t> RENAME COLUMN <old> TO <new>`\n"
    ∷ codes "-- for each line below, then drop the annotation on the next release once\n"
    ∷ codes "-- every environment has applied the rename.\n"
    ∷ [])

abbrev pub renamed : List ColumnPlan → List ColumnPlan
renamed cs = filterb (λ c. not (is_empty c.rename_from)) cs

unfoldable pub rename_lines : Text → List ColumnPlan → Text
unfolding rename_line
rename_lines table [] = []
rename_lines table (c ∷ cs) = rename_notice ++ concat (map (rename_line table) (c ∷ cs))

unfoldable pub render_rename_directives : ResourcePlan → Text
unfolding rename_lines
render_rename_directives p = rename_lines p.table_name (renamed p.columns)

unfoldable pub tenant_predicate : TenancyPlan → Text
tenant_predicate t =
    let tenant_eq = t.column ++ codes " = current_setting('app.tenant_id', true)" in
    let user_eq = t.user_column ++ codes " = current_setting('app.user_id', true)" in
    if not t.user_scoped
    then concat (codes "(" ∷ tenant_eq ∷ codes ")" ∷ [])
    else concat (codes "(" ∷ tenant_eq ∷ codes "\n                AND " ∷ user_eq ∷ codes ")" ∷ [])

unfoldable pub render_rls : ResourcePlan → Text
unfolding tenant_predicate
render_rls p = elim p.tenancy [
  | none ↦ []
  | some t ↦ concat (
      codes "\nALTER TABLE "
      ∷ p.table_name
      ∷ codes " ENABLE ROW LEVEL SECURITY;\nCREATE POLICY "
      ∷ (if t.user_scoped then codes "tenant_user_isolation" else codes "tenant_isolation")
      ∷ codes " ON "
      ∷ p.table_name
      ∷ codes "\n    TO "
      ∷ pg_ident t.runtime_role
      ∷ codes "\n    USING      "
      ∷ tenant_predicate t
      ∷ codes "\n    WITH CHECK "
      ∷ tenant_predicate t
      ∷ codes ";\n"
      ∷ [])
]

abbrev comment_line : Text → Text → Text → Text
comment_line table col q =
    concat
      (codes "COMMENT ON COLUMN " ∷ table ∷ codes "." ∷ col ∷ codes " IS " ∷ q ∷ codes ";\n" ∷ [])

unfoldable pub table_comment_line : ResourcePlan → Result Text
table_comment_line p = if is_empty p.table_comment then ok [] else (do
  q ← sql_dollar_quote p.table_comment
  ok (concat (codes "COMMENT ON TABLE " ∷ p.table_name ∷ codes " IS " ∷ q ∷ codes ";\n" ∷ [])))

unfoldable pub column_comments : Text → List ColumnPlan → Result Text
column_comments table [] = ok []
column_comments table (c ∷ cs) =
    let rest = column_comments table cs in
    if is_empty c.comment then rest else (do
      q ← sql_dollar_quote c.comment
      more ← rest
      ok (comment_line table c.db_name q ++ more))

unfoldable pub oneof_comments : Text → List OneofColumnPlan → Result Text
oneof_comments table [] = ok []
oneof_comments table (oc ∷ ocs) =
    let rest = oneof_comments table ocs in
    if is_empty oc.comment then rest else (do
      q ← sql_dollar_quote oc.comment
      more ← rest
      ok (comment_line table oc.kind_column q ++ (comment_line table oc.json_column q ++ more)))

unfoldable pub any_column_comment : List ColumnPlan → Bool
any_column_comment [] = false
any_column_comment (c ∷ cs) = not (is_empty c.comment) || any_column_comment cs

unfoldable pub any_oneof_comment : List OneofColumnPlan → Bool
any_oneof_comment [] = false
any_oneof_comment (oc ∷ ocs) = not (is_empty oc.comment) || any_oneof_comment ocs

unfoldable pub render_comments : ResourcePlan → Result Text
render_comments p =
    if not (
      not (is_empty p.table_comment)
      || any_column_comment p.columns
      || any_oneof_comment p.oneof_columns)
    then ok []
    else (do
      table ← table_comment_line p
      columns ← column_comments p.table_name (ordered_columns p)
      oneofs ← oneof_comments p.table_name p.oneof_columns
      ok (codes "\n" ++ (table ++ (columns ++ oneofs))))

-- strings.TrimRight(stmt, "; \t\r\n")
abbrev cut_off : ℕ → Bool
cut_off r = r == 59 || r == 32 || r == 9 || r == 13 || r == 10

unfoldable pub trim_statement : Text → Text
trim_statement [] = []
trim_statement (c ∷ s) =
    let rest = trim_statement s in if cut_off c && is_empty rest then [] else c ∷ rest

unfoldable pub clean_statements : List Text → List Text
unfolding trim_statement
clean_statements [] = []
clean_statements (stmt ∷ stmts) =
    let rest = clean_statements stmts in
    let clean = trim_space (trim_statement stmt) in if is_empty clean then rest else clean ∷ rest

abbrev statement_line : Text → Text
statement_line stmt = stmt ++ codes ";\n"

unfoldable pub render_custom_sql : ResourcePlan → Text
unfolding clean_statements
render_custom_sql p = elim (clean_statements p.custom_sql) [
  | [] ↦ []
  | _ ∷ _ ↦
      codes "\n-- custom_sql — caller-supplied escape hatch; keep statements idempotent\n"
      ++ concat (map statement_line (clean_statements p.custom_sql))
]
