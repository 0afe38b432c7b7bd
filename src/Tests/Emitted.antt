-- ===== src/Tests/Emitted.antt =====
-- The theorems on the SQL of a table, on names and on the check, at concrete inputs.
use mathlib.Core.List.{Perm}
use protoc_gen_go_jet.Common.{
  Text, codes, true, false, not, List, [], ◌∷◌, ◌++◌, some, has_prefix, contains_byte, text_eq,
  utf8_length, filterb, All, ◌≡◌, refl, ◌↔◌,
}
use protoc_gen_go_jet.Aip.Errors.{ok}
use protoc_gen_go_jet.Plugin.Plan.{ColumnPlan, IndexPlan, ResourcePlan}
use protoc_gen_go_jet.Plugin.Identifier.{
  sql_dollar_quote, pg_ident, validate_sql_ident, ident_characters, join_texts,
}
use protoc_gen_go_jet.Plugin.Sql.Quote.{
  read_dollar, open_end, all_x, sql_dollar_quote_total, sql_dollar_quote-read_dollar,
  sql_dollar_quote-open_end,
}
use protoc_gen_go_jet.Plugin.Sql.Ident.{read_ident, pg_ident-read_ident}
use protoc_gen_go_jet.Plugin.Sql.Table.{ordered_columns}
use protoc_gen_go_jet.Plugin.Sql.Notes.{render_rename_directives, renamed}
use protoc_gen_go_jet.Plugin.Sql.Order.{IsSorted, ordered_columns-Perm}
use protoc_gen_go_jet.Plugin.Sql.{render_schema_sql}
use protoc_gen_go_jet.Plugin.Validate.{claim_name, member}
use protoc_gen_go_jet.Plugin.Resolve.{
  IndexOption, resolve_index, resolve_directions, check_direction, check_repeats, val_or, to_snake,
}
use protoc_gen_go_jet.Plugin.Resolve.Index.{
  IsIndex, Returns, resolve_index-IsIndex, render_schema_sql-Returns,
}
use protoc_gen_go_jet.Plugin.Resolve.Words.{Piece, spelled, words_of, to_snake-spelled}
use protoc_gen_go_jet.Plugin.Check.{parse_rename_directives, strip_outer_parens}
use protoc_gen_go_jet.Plugin.Check.Rename.{
  declared, AreNamed, parse_rename_directives-render_rename_directives,
}
use protoc_gen_go_jet.Plugin.Check.Nesting.{IsEnclosed, Unwraps, open_after, step}
use protoc_gen_go_jet.Plugin.Check.Parens.{strip_outer_parens-Unwraps}
use protoc_gen_go_jet.Plugin.Delta.{TableSnapshot, compute_table_delta}
use protoc_gen_go_jet.Plugin.Delta.Same.{IsSame, compute_table_delta_iff}
use protoc_gen_go_jet.Tests.Plans.{plain_column, providers}

sql_dollar_quote_total_example : (q : Text) × (sql_dollar_quote (codes "a$$b$x$c$") ≡ ok q)
sql_dollar_quote_total_example = sql_dollar_quote_total (codes "a$$b$x$c$")

sql_dollar_quote-read_dollar_example :
    (q : Text) × (sql_dollar_quote (codes "costs $$5") ≡ ok q)
    × (read_dollar (q ++ codes ";\n") ≡ some (codes "costs $$5", codes ";\n"))
sql_dollar_quote-read_dollar_example =
    sql_dollar_quote-read_dollar (codes "costs $$5") (codes ";\n") (unfold open_end all_x in refl)

sql_dollar_quote-open_end_example :
    (q : Text) × (sql_dollar_quote (codes "price in US" ++ 36 ∷ []) ≡ ok q)
    × (read_dollar (q ++ codes ";\n") ≡ some (codes "price in US", 36 ∷ codes ";\n"))
sql_dollar_quote-open_end_example =
    sql_dollar_quote-open_end (codes "price in US") (codes ";\n") (unfold contains_byte in refl)

pg_ident-read_ident_example :
    read_ident (pg_ident (codes "app-\"tenant") ++ codes "\n")
    ≡ some (codes "app-\"tenant", codes "\n")
pg_ident-read_ident_example =
    pg_ident-read_ident (codes "app-\"tenant") (codes "\n") (unfold has_prefix in refl)

ordered_columns-Perm_example :
    Perm (ordered_columns providers) providers.columns
    × ((synthesized : List ColumnPlan) × (ordered_columns providers
          ≡ synthesized ++ filterb (λ c. not c.synthesized) providers.columns)
        × All (λ c. c.synthesized ≡ true) synthesized
        × IsSorted synthesized)
ordered_columns-Perm_example = ordered_columns-Perm providers

abbrev by_name : IndexOption
by_name = record {
  name = [];
  columns = codes "tenant_id" ∷ codes "name" ∷ [];
  order = codes "DESC" ∷ [];
  is_unique = true;
  where_clause = codes "name <> ''";
}

abbrev by_name_index : IndexPlan
by_name_index = record {
  name = codes "idx_providers_tenant_id_name";
  columns = codes "tenant_id" ∷ codes "name" ∷ [];
  order = codes "DESC" ∷ codes "ASC" ∷ [];
  is_unique = true;
  where_clause = codes "name <> ''";
}

by_name_resolved : resolve_index (λ c. c) (codes "providers") by_name ≡ ok by_name_index
unfolding resolve_index resolve_directions check_direction check_repeats claim_name member val_or
    validate_sql_ident ident_characters utf8_length contains_byte text_eq join_texts
by_name_resolved = refl

resolve_index-IsIndex_example : IsIndex by_name_index
resolve_index-IsIndex_example =
    resolve_index-IsIndex (λ c. c) (codes "providers") by_name by_name_resolved

abbrev indexed_providers : ResourcePlan
indexed_providers = record providers { indexes = by_name_index ∷ [] }

render_schema_sql-Returns_example : Returns (render_schema_sql indexed_providers)
render_schema_sql-Returns_example =
    render_schema_sql-Returns indexed_providers
      (resolve_index-IsIndex (λ c. c) (codes "providers") by_name by_name_resolved, tt)

-- OAuthHTTPProviderID
abbrev provider_pieces : List Piece
provider_pieces =
    record { acronym = codes "O"; first = 65; small = codes "uth" }
    ∷ record { acronym = codes "HTTP"; first = 80; small = codes "rovider" }
    ∷ []

spells : spelled provider_pieces (codes "ID") ≡ codes "OAuthHTTPProviderID"
spells = refl

to_snake-spelled_example :
    to_snake (spelled provider_pieces (codes "ID"))
    ≡ join_texts (codes "_") (words_of provider_pieces (codes "ID"))
to_snake-spelled_example =
    to_snake-spelled provider_pieces (codes "ID")
      (
        ((refl, tt), refl, refl, (refl, (refl, (refl, tt)))),
        (
          (
            (refl, (refl, (refl, (refl, tt)))),
            refl,
            refl,
            (refl, (refl, (refl, (refl, (refl, (refl, (refl, tt))))))),
          ),
          tt,
        ),
      )
      (refl, (refl, tt))

snake_case_read :
    join_texts (codes "_") (words_of provider_pieces (codes "ID")) ≡ codes "o_auth_http_provider_id"
unfolding join_texts
snake_case_read = refl

abbrev renamed_providers : ResourcePlan
renamed_providers = record providers {
  columns =
      plain_column (codes "id")
      ∷ record (plain_column (codes "title")) { rename_from = codes "name" }
      ∷ [];
}

renamed_providers-AreNamed : AreNamed renamed_providers
unfolding validate_sql_ident ident_characters utf8_length
renamed_providers-AreNamed = (refl, ((refl, refl), tt))

parse_rename_directives-render_rename_directives_example :
    parse_rename_directives (render_rename_directives renamed_providers)
    ≡ declared (codes "providers") (renamed renamed_providers.columns)
parse_rename_directives-render_rename_directives_example =
    parse_rename_directives-render_rename_directives renamed_providers renamed_providers-AreNamed

strip_outer_parens-Unwraps_example :
    Unwraps (codes "((a) AND (b))") (strip_outer_parens (codes "((a) AND (b))"))
    × (¬ IsEnclosed (strip_outer_parens (codes "((a) AND (b))")))
strip_outer_parens-Unwraps_example =
    strip_outer_parens-Unwraps (codes "((a) AND (b))") (unfold open_after step in refl)

abbrev before_migration : TableSnapshot
before_migration = record {
  columns =
      record {
        name = codes "id";
        sql_type = codes "TEXT";
        not_null = true;
        default_expr = [];
        comment = [];
      }
      ∷ [];
  primary_key = codes "id" ∷ [];
  check_constraint = [];
  index =
      record { name = codes "by_id"; sql = codes "CREATE INDEX by_id ON t USING btree (id)" } ∷ [];
  rls_enabled = false;
  policy = [];
  table_comment = [];
  foreign_key = [];
}

abbrev after_migration : TableSnapshot
after_migration = record before_migration { index = [] }

compute_table_delta_iff_example :
    (compute_table_delta (codes "t") before_migration after_migration ≡ [])
    ↔ IsSame before_migration after_migration
compute_table_delta_iff_example =
    compute_table_delta_iff (codes "t") before_migration after_migration
