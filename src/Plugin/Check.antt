-- ===== src/Plugin/Check.antt =====
-- cmd/protoc-gen-go-jet/check.go: what the check reads out of a ddl.sql file, and how it brings what
-- PostgreSQL reports to one form. Text in upper case is what strings.ToUpper makes of it, a parameter.
pub mod Rename
pub mod Parens
pub mod Nesting
use protoc_gen_go_jet.Common.{
  ℕ, zero, suc, ◌+◌, ◌-◌, ◌≤◌, Text, codes, Bool, true, false, not, ◌&&◌, ◌||◌, List, [], ◌∷◌, ◌++◌,
  Option, none, some, map, is_empty, length, drop, take, text_eq, trim_space, trim_right, fields,
  split, has_prefix, has_suffix, if◌then◌else◌, leb, ltb, ◌==◌,
}
use protoc_gen_go_jet.Aip.Errors.{Result, ok, err, fail, plain, ◌>>=◌}
use protoc_gen_go_jet.Plugin.Identifier.{concat, join_texts}

-- strings.Index and the two slices around what is found.
unfoldable pub cut_text : Text → Text → Option (Text × Text)
cut_text [] d = if is_empty d then some ([], []) else none
cut_text (c ∷ s) d =
    let rest = cut_text s d in
    if has_prefix (c ∷ s) d
    then some ([], drop (length d) (c ∷ s))
    else elim rest [ none ↦ none | some (before, after) ↦ some (c ∷ before, after) ]

pub record RenameDirective : Type 0 where
  pub table : Text
  pub from : Text
  pub to : Text

-- The table and the old name, and the new one.
unfoldable pub directive_of : List Text → Text → Option RenameDirective
directive_of (table ∷ from ∷ []) tail =
    if is_empty tail then none else some (record { table = table; from = from; to = tail })
directive_of _ tail = none

unfoldable pub directive_at : Option (Text × Text) → Option RenameDirective
directive_at none = none
directive_at (some (head, tail)) = directive_of (fields head) (trim_space tail)

unfoldable pub parse_body : Text → Option RenameDirective
parse_body body = directive_at (cut_text body (codes " -> "))

abbrev pub rename_prefix : Text
rename_prefix = codes "-- PLUGIN-RENAME:"

unfoldable pub parse_rename_line : Text → Option RenameDirective
parse_rename_line l =
    let line = trim_space l in
    if not (has_prefix line rename_prefix) then none else parse_body (trim_space (drop 17 line))

abbrev pub keep_some {ℓ} : {A : Type ℓ} → Option A → List A → List A
keep_some none xs = xs
keep_some (some x) xs = x ∷ xs

unfoldable pub parse_rename_lines : List Text → List RenameDirective
parse_rename_lines [] = []
parse_rename_lines (l ∷ lines) = keep_some (parse_rename_line l) (parse_rename_lines lines)

unfoldable pub parse_rename_directives : Text → List RenameDirective
parse_rename_directives ddl = parse_rename_lines (split ddl 10)

-- strings.TrimSuffix for a suffix of one code point
abbrev trim_suffix : Text → ℕ → Text
trim_suffix s c = if has_suffix s c then take (length s - 1) s else s

unfoldable pub table_name_in : (Text → Text) → List Text → Result Text
table_name_in to_upper [] = fail [] plain
table_name_in to_upper (l ∷ lines) =
    let rest = table_name_in to_upper lines in
    let line = trim_space l in
    if has_prefix (to_upper line) (codes "CREATE TABLE ")
    then ok (trim_space (trim_suffix (trim_space (drop 13 line)) 40))
    else rest

-- The file is read by the caller.
unfoldable pub extract_table_name : (Text → Text) → Text → Result Text
extract_table_name to_upper ddl = table_name_in to_upper (split ddl 10)

-- The loop ends at the first line that is no comment.
unfoldable pub resource_fqn_in : List Text → Text
resource_fqn_in [] = []
resource_fqn_in (l ∷ lines) =
    let rest = resource_fqn_in lines in
    let line = trim_space l in
    if has_prefix line (codes "-- Resource:")
    then trim_space (drop 12 line)
    else if not (is_empty line) && not (has_prefix line (codes "--"))
    then []
    else rest

unfoldable pub extract_resource_fqn : Text → Text
extract_resource_fqn ddl = resource_fqn_in (split ddl 10)

-- The first entry with the key.
unfoldable pub choose : Text → List (Text × Text) → Text → Text
choose k [] other = other
choose k ((j, v) ∷ entries) other =
    let rest = choose k entries other in if text_eq k j then v else rest

abbrev array_types : List (Text × Text)
array_types =
    (codes "_text", codes "TEXT[]")
    ∷ (codes "_bool", codes "BOOLEAN[]")
    ∷ (codes "_int4", codes "INTEGER[]")
    ∷ (codes "_int8", codes "BIGINT[]")
    ∷ (codes "_float4", codes "REAL[]")
    ∷ (codes "_float8", codes "DOUBLE PRECISION[]")
    ∷ (codes "_bytea", codes "BYTEA[]")
    ∷ (codes "_timestamptz", codes "TIMESTAMPTZ[]")
    ∷ []

abbrev scalar_types : List (Text × Text)
scalar_types =
    (codes "text", codes "TEXT")
    ∷ (codes "jsonb", codes "JSONB")
    ∷ (codes "timestamp with time zone", codes "TIMESTAMPTZ")
    ∷ (codes "boolean", codes "BOOLEAN")
    ∷ (codes "integer", codes "INTEGER")
    ∷ (codes "bigint", codes "BIGINT")
    ∷ (codes "bytea", codes "BYTEA")
    ∷ (codes "real", codes "REAL")
    ∷ (codes "double precision", codes "DOUBLE PRECISION")
    ∷ []

unfoldable pub normalise_sql_type : (Text → Text) → Text → Text → Text
unfolding choose
normalise_sql_type to_upper data_type udt_name =
    let scalar = choose data_type scalar_types (to_upper data_type) in
    if text_eq data_type (codes "ARRAY") then choose udt_name array_types scalar else scalar

unfoldable pub normalise_default : Text → Text
normalise_default s = elim (cut_text s (codes "::")) [
  | none ↦ trim_space s
  | some (before, after) ↦ trim_space before
]

-- The scan of one round, over all characters but the last: whether the first parenthesis is closed
-- before the end. The depth is an int, which is not negative here: the text begins with a parenthesis,
-- and the scan ends when the depth comes back to 0.
unfoldable pub closed_early : ℕ → Text → Bool
closed_early depth [] = false
closed_early depth (c ∷ []) = false
closed_early depth (c ∷ d ∷ s) =
    let next : ℕ = if c == 40 then suc depth else if c == 41 then depth - 1 else depth in
    let rest = closed_early next (d ∷ s) in if c == 41 && next == 0 then true else rest

abbrev pub is_wrapped : Text → Bool
is_wrapped s = leb 2 (length s) && (has_prefix s (40 ∷ []) && has_suffix s 41)

-- The loop: each round that goes on makes the text shorter.
unfoldable pub strip_parens : ℕ → Text → Text
strip_parens zero s = s
strip_parens (suc fuel) s =
    let inner = strip_parens fuel (trim_space (take (length s - 2) (drop 1 s))) in
    if not (is_wrapped s) then s else if closed_early 0 s then s else inner

-- As many rounds as the text has characters are enough.
unfoldable pub strip_outer_parens : Text → Text
strip_outer_parens s = strip_parens (length s) s

-- strings.ReplaceAll(s, " public.", " "): the number is how many characters of a match are left.
unfoldable pub drop_schema : ℕ → Text → Text
drop_schema n [] = []
drop_schema (suc n) (c ∷ s) = drop_schema n s
drop_schema zero (c ∷ s) =
    let matched = drop_schema 7 s in
    let rest = drop_schema 0 s in
    if has_prefix (c ∷ s) (codes " public.") then 32 ∷ matched else c ∷ rest

unfoldable pub normalise_index_def : Text → Text
normalise_index_def s = join_texts (codes " ") (fields (drop_schema 0 s))

-- strings.TrimRight(s, "\n")
abbrev trim_newlines : Text → Text
trim_newlines [] = []
trim_newlines (c ∷ s) =
    let rest = trim_newlines s in if c == 10 && is_empty rest then [] else c ∷ rest

unfoldable pub indent : Text → Text → Text
indent s prefix = trim_newlines (concat (map (λ line. prefix ++ (line ++ (10 ∷ []))) (split s 10)))
