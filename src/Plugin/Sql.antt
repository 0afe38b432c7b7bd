-- ===== src/Plugin/Sql.antt =====
-- cmd/protoc-gen-go-jet/emit_sql.go: renderSchemaSQL, the file ddl.sql of a table, part by part.
pub mod Table
pub mod Index
pub mod Notes
pub mod Order
pub mod Quote
pub mod Ident
use protoc_gen_go_jet.Common.{Text, codes, [], ◌∷◌, is_empty, if◌then◌else◌}
use protoc_gen_go_jet.Aip.Errors.{Result, ok, ◌>>=◌}
use protoc_gen_go_jet.Plugin.Plan.{ResourcePlan}
use protoc_gen_go_jet.Plugin.Identifier.{concat}
use protoc_gen_go_jet.Plugin.Sql.Table.{render_create_table}
use protoc_gen_go_jet.Plugin.Sql.Index.{
  render_supplemental_uniques, render_indexes, render_unique_column_indexes,
  render_jsonb_path_indexes, render_jsonb_gin_indexes, render_foreign_key_indexes,
}
use protoc_gen_go_jet.Plugin.Sql.Notes.{
  render_rename_directives, render_rls, render_comments, render_custom_sql,
}

-- The comment lines at the top of the file.
abbrev resource_lines : ResourcePlan → Text
resource_lines p =
    if is_empty p.resource_fqn
    then []
    else concat (codes "-- Resource: " ∷ p.resource_fqn ∷ codes "\n--\n" ∷ [])

unfoldable pub file_header : ResourcePlan → Text
file_header p = concat (
    codes "-- Code generated from "
    ∷ p.proto_file
    ∷ codes " by protoc-gen-go-jet. DO NOT EDIT.\n--\n"
    ∷ resource_lines p
    ∷ codes "-- Canonical SQL schema for this resource. Regenerated from proto on\n"
    ∷ codes "-- every `buf generate`. This file is a reference document; it is\n"
    ∷ codes "-- not applied to the database. Your migrations directory holds the\n"
    ∷ codes "-- deploy mechanism — hand-authored forward-only SQL.\n--\n"
    ∷ codes "-- Authoring a migration: `protoc-gen-go-jet diff` scaffolds an LLM brief\n"
    ∷ codes "-- with a structural DELTA and the concatenated TARGET. The patterns live\n"
    ∷ codes "-- in .claude/skills/protoc-gen-go-jet/SKILL.md. `protoc-gen-go-jet check`\n"
    ∷ codes "-- is the machine-verified guardrail at the end of the flow.\n\n"
    ∷ [])

unfoldable pub render_schema_sql : ResourcePlan → Result Text
render_schema_sql p = do
  indexes ← render_indexes p
  comments ← render_comments p
  ok (
      concat (
        file_header p
        ∷ render_create_table p
        ∷ render_rename_directives p
        ∷ render_supplemental_uniques p
        ∷ indexes
        ∷ render_unique_column_indexes p
        ∷ render_jsonb_path_indexes p
        ∷ render_jsonb_gin_indexes p
        ∷ render_foreign_key_indexes p
        ∷ render_rls p
        ∷ comments
        ∷ render_custom_sql p
        ∷ []))
