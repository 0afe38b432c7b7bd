-- ===== src/Plugin/Validate/Names.antt =====
-- The names of the indexes that ddl.sql creates for an accepted plan.
use protoc_gen_go_jet.Common.{
  ◌≤◌, Text, Bool, true, false, not, List, [], ◌∷◌, ◌++◌, Option, map, utf8_length, if◌then◌else◌,
  ◌≡◌, subst, All, All-append, arith,
}
use protoc_gen_go_jet.Aip.Errors.{Result, ok, fail, plain, >>=-eq-ok, ok-injective}
use protoc_gen_go_jet.Plugin.Plan.{
  ColumnPlan, OneofColumnPlan, IndexPlan, TenancyPlan, ResourcePlan,
}
use protoc_gen_go_jet.Plugin.Identifier.{check_synth_ident_len, jsonb_path_index_name, pg_name_max}
use protoc_gen_go_jet.Plugin.Validate.{
  Names, claim_name, check_each, require_known, check_index_scope, claim_indexes, claim_synth,
  claim_paths, claim_column_paths, claim_oneof_paths, claim_gin, claim_unique, claim_column_indexes,
  check_check_name, gin_name, unique_name, sole_key, validate_plan,
}
use protoc_gen_go_jet.Plugin.Validate.Accepted.{
  AreDistinct, Claimed, claim_name-Claimed, Claimed-none, Claimed-then, column_names,
  validate_plan-HasPassed,
}

-- The names of the indexes that ddl.sql creates, in the order in which they are collected.
abbrev pub path_names : Text → Text → List Text → Names
path_names table col paths = map (jsonb_path_index_name table col) paths

abbrev pub column_path_names : Text → List ColumnPlan → Names
column_path_names table [] = []
column_path_names table (c ∷ cs) =
    path_names table c.db_name c.jsonb_indexed_paths ++ column_path_names table cs

abbrev pub oneof_path_names : Text → List OneofColumnPlan → Names
oneof_path_names table [] = []
oneof_path_names table (oc ∷ ocs) =
    path_names table oc.json_column oc.jsonb_indexed_paths ++ oneof_path_names table ocs

abbrev pub gin_and_unique_names : Text → List ColumnPlan → Names
gin_and_unique_names table [] = []
gin_and_unique_names table (c ∷ cs) =
    ((if c.jsonb_gin_index then gin_name table c ∷ [] else [])
      ++ (if c.is_unique then unique_name table c ∷ [] else []))
    ++ gin_and_unique_names table cs

abbrev pub synthesized_names : ResourcePlan → Names
synthesized_names p =
    column_path_names p.table_name p.columns
    ++ (oneof_path_names p.table_name p.oneof_columns
        ++ gin_and_unique_names p.table_name p.columns)

abbrev pub index_names : ResourcePlan → Names
index_names p = map (λ idx. idx.name) p.indexes ++ synthesized_names p

-- PostgreSQL does not cut the name.
abbrev pub IsShort : Text → Type 0
IsShort s = utf8_length s ≤ pg_name_max

-- A claim of names that are all short.
abbrev ClaimedShort : Names → Names → Names → Type 0
ClaimedShort added before after = Claimed added before after × All IsShort added

short_then :
    (a b before middle after : Names)
    → ClaimedShort a before middle
    → ClaimedShort b middle after
    → ClaimedShort (a ++ b) before after
short_then a b before middle after (x, s) (y, t) =
    (Claimed-then a b before middle after x y, All-append IsShort a b s t)

short_none : (names after : Names) → ok names ≡ ok after → ClaimedShort [] names after
short_none names after h = (subst (Claimed [] names) (ok-injective h) (Claimed-none names), tt)

check_synth_ident_len-IsShort : (s : Text) → check_synth_ident_len s ≡ ok tt → IsShort s
unfolding check_synth_ident_len
check_synth_ident_len-IsShort s h = ground arith

claim_synth-ClaimedShort :
    (s : Text) (names after : Names)
    → claim_synth s names ≡ ok after
    → ClaimedShort (s ∷ []) names after
unfolding claim_synth
claim_synth-ClaimedShort s names after h =
    let (u, e, rest) = >>=-eq-ok (check_synth_ident_len s) _ h in
    (claim_name-Claimed s names rest, (check_synth_ident_len-IsShort s e, tt))

claim_paths-ClaimedShort :
    (table col : Text) (paths : List Text) (seen names after : Names)
    → claim_paths table col paths seen names ≡ ok after
    → ClaimedShort (path_names table col paths) names after
unfolding claim_paths
claim_paths-ClaimedShort table col [] seen names after h = short_none names after h
claim_paths-ClaimedShort table col (path ∷ paths) seen names after h =
    let (more_seen, e, r) = >>=-eq-ok (claim_name path seen) _ h in
    let (more, f, rest) =
      >>=-eq-ok (claim_synth (jsonb_path_index_name table col path) names) _ r in
    short_then (jsonb_path_index_name table col path ∷ []) (path_names table col paths) names more
      after (claim_synth-ClaimedShort (jsonb_path_index_name table col path) names more f)
      (claim_paths-ClaimedShort table col paths more_seen more after rest)

claim_column_paths-ClaimedShort :
    (table : Text) (cs : List ColumnPlan) (names after : Names)
    → claim_column_paths table cs names ≡ ok after
    → ClaimedShort (column_path_names table cs) names after
unfolding claim_column_paths
claim_column_paths-ClaimedShort table [] names after h = short_none names after h
claim_column_paths-ClaimedShort table (c ∷ cs) names after h =
    let (more, e, rest) =
      >>=-eq-ok (claim_paths table c.db_name c.jsonb_indexed_paths [] names) _ h in
    short_then (path_names table c.db_name c.jsonb_indexed_paths) (column_path_names table cs) names
      more after (claim_paths-ClaimedShort table c.db_name c.jsonb_indexed_paths [] names more e)
      (claim_column_paths-ClaimedShort table cs more after rest)

claim_oneof_paths-ClaimedShort :
    (table : Text) (ocs : List OneofColumnPlan) (names after : Names)
    → claim_oneof_paths table ocs names ≡ ok after
    → ClaimedShort (oneof_path_names table ocs) names after
unfolding claim_oneof_paths
claim_oneof_paths-ClaimedShort table [] names after h = short_none names after h
claim_oneof_paths-ClaimedShort table (oc ∷ ocs) names after h =
    let (more, e, rest) =
      >>=-eq-ok (claim_paths table oc.json_column oc.jsonb_indexed_paths [] names) _ h in
    short_then (path_names table oc.json_column oc.jsonb_indexed_paths) (oneof_path_names table ocs)
      names more after
      (claim_paths-ClaimedShort table oc.json_column oc.jsonb_indexed_paths [] names more e)
      (claim_oneof_paths-ClaimedShort table ocs more after rest)

-- A name under a flag.
flagged-ClaimedShort :
    (flag : Bool) (s : Text) (names after : Names)
    → (if flag then claim_synth s names else ok names) ≡ ok after
    → ClaimedShort (if flag then s ∷ [] else []) names after
flagged-ClaimedShort true s names after h = claim_synth-ClaimedShort s names after h
flagged-ClaimedShort false s names after h = short_none names after h

not_refused :
    (flag redundant : Bool) (r after : Names) (claim : Result Names)
    → (if not flag then ok r else if redundant then fail [] plain else claim) ≡ ok after
    → (if flag then claim else ok r) ≡ ok after
not_refused true true r after claim h = absurd (cc h)
not_refused true false r after claim h = h
not_refused false redundant r after claim h = h

claim_column_indexes-ClaimedShort :
    (p : ResourcePlan) (cs : List ColumnPlan) (names after : Names)
    → claim_column_indexes p cs names ≡ ok after
    → ClaimedShort (gin_and_unique_names p.table_name cs) names after
unfolding claim_column_indexes claim_gin claim_unique
claim_column_indexes-ClaimedShort p [] names after h = short_none names after h
claim_column_indexes-ClaimedShort p (c ∷ cs) names after h =
    let (with_gin, e, r) = >>=-eq-ok (claim_gin p.table_name c names) _ h in
    let (with_unique, f, r') = >>=-eq-ok (claim_unique p c with_gin) _ r in
    let (u, g, rest) = >>=-eq-ok (check_check_name p.table_name c) _ r' in
    let gin : Names = if c.jsonb_gin_index then gin_name p.table_name c ∷ [] else [] in
    let unique : Names = if c.is_unique then unique_name p.table_name c ∷ [] else [] in
    let second =
      flagged-ClaimedShort c.is_unique (unique_name p.table_name c) with_gin with_unique
        (not_refused c.is_unique (sole_key p.primary_key c.db_name) with_gin with_unique _ f) in
    let both =
      short_then gin unique names with_gin with_unique
        (flagged-ClaimedShort c.jsonb_gin_index (gin_name p.table_name c) names with_gin e)
        second in
    short_then (gin ++ unique) (gin_and_unique_names p.table_name cs) names with_unique after both
      (claim_column_indexes-ClaimedShort p cs with_unique after rest)

claim_indexes-Claimed :
    (known : Names) (tenancy : Option TenancyPlan) (indexes : List IndexPlan) (names after : Names)
    → claim_indexes known tenancy indexes names ≡ ok after
    → Claimed (map (λ idx. idx.name) indexes) names after
unfolding claim_indexes
claim_indexes-Claimed known tenancy [] names after h =
    subst (Claimed [] names) (ok-injective h) (Claimed-none names)
claim_indexes-Claimed known tenancy (idx ∷ indexes) names after h =
    let (more, e, r) = >>=-eq-ok (claim_name idx.name names) _ h in
    let (u, f, r') = >>=-eq-ok (check_each (require_known known) idx.columns) _ r in
    let (v, g, rest) = >>=-eq-ok (check_index_scope tenancy idx) _ r' in
    Claimed-then (idx.name ∷ []) (map (λ x. x.name) indexes) names more after
      (claim_name-Claimed idx.name names e)
      (claim_indexes-Claimed known tenancy indexes more after rest)

-- Of an accepted plan, no two of the indexes that the author declares or the plugin makes up for JSON
-- paths, GIN and unique columns have one name, and PostgreSQL keeps each made-up name whole.
pub validate_plan-index_names :
    (p : ResourcePlan)
    → validate_plan p ≡ ok tt
    → AreDistinct (index_names p) × All IsShort (synthesized_names p)
validate_plan-index_names p h =
    let (distinct, key, part, (a, b, c, d, ea, eb, ec, ed), kinds, order, ties) =
      validate_plan-HasPassed p h in
    let declared = claim_indexes-Claimed (column_names p) p.tenancy p.indexes [] a ea in
    let paths = claim_column_paths-ClaimedShort p.table_name p.columns a b eb in
    let oneofs = claim_oneof_paths-ClaimedShort p.table_name p.oneof_columns b c ec in
    let others = claim_column_indexes-ClaimedShort p p.columns c d ed in
    let (made_up, short) = short_then (column_path_names p.table_name p.columns) _ a b d paths (
      short_then (oneof_path_names p.table_name p.oneof_columns)
        (gin_and_unique_names p.table_name p.columns) b c d oneofs others) in
    let (all, keeps) =
      Claimed-then (map (λ idx. idx.name) p.indexes) (synthesized_names p) [] a d declared
        made_up in
    (subst AreDistinct all (keeps tt), short)
