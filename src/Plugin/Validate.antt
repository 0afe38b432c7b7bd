-- ===== src/Plugin/Validate.antt =====
-- cmd/protoc-gen-go-jet/resolve.go: validatePlan, the checks on the plan of one table. A Go map that is
-- a set of names is the list of them, in the order in which they were added.
pub mod Accepted
pub mod Names
pub mod Scope
pub mod Sound
use protoc_gen_go_jet.Common.{
  Text, codes, Bool, true, false, not, ◌&&◌, ◌||◌, List, [], ◌∷◌, ◌++◌, Option, none, some, map,
  is_empty, filterb, text_eq, if◌then◌else◌,
}
use protoc_gen_go_jet.Aip.Errors.{Result, ok, err, panic, fail, plain, ◌>>=◌, ◌>>◌}
use protoc_gen_go_jet.Plugin.Plan.{
  ColumnPlan, OneofColumnPlan, IndexPlan, PartitionPlan, TenancyPlan, OrderPart, ResourcePlan,
}
use protoc_gen_go_jet.Plugin.Identifier.{concat, check_synth_ident_len, jsonb_path_index_name}

abbrev pub Names : Type 0
Names = List Text

unfoldable pub member : Text → Names → Bool
member s [] = false
member s (t ∷ ts) = text_eq s t || member s ts

-- A name that is not yet in the set is put into it.
unfoldable pub claim_name : Text → Names → Result Names
claim_name s names = if member s names then fail [] plain else ok (names ++ s ∷ [])

-- for _, x := range xs { check(x) }
unfoldable pub check_each {ℓ} : {A : Type ℓ} → (A → Result (Unit {0})) → List A → Result (Unit {0})
check_each check [] = ok tt
check_each check (x ∷ xs) = do check x; check_each check xs

-- The loops that fill the set of the known columns.
unfoldable pub claim_columns : List ColumnPlan → Names → Result Names
claim_columns [] known = ok known
claim_columns (c ∷ cs) known = do more ← claim_name c.db_name known; claim_columns cs more

-- Both columns are looked up before they are put in.
unfoldable pub claim_pair : OneofColumnPlan → Names → Result Names
claim_pair oc known =
    if member oc.kind_column known
    then fail [] plain
    else if member oc.json_column known
    then fail [] plain
    else ok (known ++ oc.kind_column ∷ oc.json_column ∷ [])

unfoldable pub claim_oneofs : List OneofColumnPlan → Names → Result Names
claim_oneofs [] known = ok known
claim_oneofs (oc ∷ ocs) known = do more ← claim_pair oc known; claim_oneofs ocs more

-- Without `orderable`, the synthesized columns are those of the tenancy.
abbrev pub orderable_columns : List ColumnPlan → Names
orderable_columns cs = map (λ c. c.db_name) (filterb (λ c. c.orderable || c.synthesized) cs)

unfoldable pub require_known : Names → Text → Result (Unit {0})
require_known known s = if member s known then ok tt else fail [] plain

-- requireColumnInPK and requireColumnInIndex, on the columns that they are given.
unfoldable pub require_column : Names → Text → Result (Unit {0})
require_column columns col = if member col columns then ok tt else fail [] plain

unfoldable pub require_scope : Names → TenancyPlan → Result (Unit {0})
require_scope columns t = do
  require_column columns t.column
  if t.user_scoped then require_column columns t.user_column else ok tt

unfoldable pub check_tenancy : Names → Option TenancyPlan → Result (Unit {0})
check_tenancy key none = ok tt
check_tenancy key (some t) = require_scope key t

unfoldable pub check_key : Names → ResourcePlan → Result (Unit {0})
check_key known p = do
  if is_empty p.primary_key then fail [] plain else ok tt
  check_each (require_known known) p.primary_key
  check_tenancy p.primary_key p.tenancy

unfoldable pub check_partition : Names → ResourcePlan → Result (Unit {0})
check_partition known p = elim p.partition [
  | none ↦ ok tt
  | some part ↦
      check_each (λ c. require_known known c >> require_column p.primary_key c) part.columns
]

unfoldable pub check_index_scope : Option TenancyPlan → IndexPlan → Result (Unit {0})
check_index_scope none idx = ok tt
check_index_scope (some t) idx =
    if idx.is_unique && is_empty idx.where_clause then require_scope idx.columns t else ok tt

unfoldable pub claim_indexes : Names → Option TenancyPlan → List IndexPlan → Names → Result Names
claim_indexes known tenancy [] names = ok names
claim_indexes known tenancy (idx ∷ indexes) names = do
  more ← claim_name idx.name names
  check_each (require_known known) idx.columns
  check_index_scope tenancy idx
  claim_indexes known tenancy indexes more

-- A synthesized name: its length, then that it is new.
unfoldable pub claim_synth : Text → Names → Result Names
claim_synth name names = check_synth_ident_len name >> claim_name name names

-- The loop over the JSON paths of one column; the paths that it has seen are the second set.
unfoldable pub claim_paths : Text → Text → List Text → Names → Names → Result Names
claim_paths table col [] seen names = ok names
claim_paths table col (path ∷ paths) seen names = do
  more_seen ← claim_name path seen
  more ← claim_synth (jsonb_path_index_name table col path) names
  claim_paths table col paths more_seen more

unfoldable pub claim_column_paths : Text → List ColumnPlan → Names → Result Names
claim_column_paths table [] names = ok names
claim_column_paths table (c ∷ cs) names = do
  more ← claim_paths table c.db_name c.jsonb_indexed_paths [] names
  claim_column_paths table cs more

unfoldable pub claim_oneof_paths : Text → List OneofColumnPlan → Names → Result Names
claim_oneof_paths table [] names = ok names
claim_oneof_paths table (oc ∷ ocs) names = do
  more ← claim_paths table oc.json_column oc.jsonb_indexed_paths [] names
  claim_oneof_paths table ocs more

abbrev pub gin_name : Text → ColumnPlan → Text
gin_name table c = concat (codes "idx_" ∷ table ∷ codes "_" ∷ c.db_name ∷ codes "_gin" ∷ [])

abbrev pub unique_name : Text → ColumnPlan → Text
unique_name table c = concat (codes "idx_" ∷ table ∷ codes "_" ∷ c.db_name ∷ codes "_unique" ∷ [])

abbrev pub check_name : Text → ColumnPlan → Text
check_name table c = concat (table ∷ codes "_" ∷ c.db_name ∷ codes "_check" ∷ [])

abbrev pub kind_name : Text → OneofColumnPlan → Text
kind_name table oc = concat (table ∷ codes "_" ∷ oc.base_name ∷ codes "_kind_valid" ∷ [])

abbrev pub sole_key : List Text → Text → Bool
sole_key [] col = false
sole_key (k ∷ ks) col = is_empty ks && text_eq k col

unfoldable pub claim_gin : Text → ColumnPlan → Names → Result Names
claim_gin table c names =
    if c.jsonb_gin_index then claim_synth (gin_name table c) names else ok names

unfoldable pub claim_unique : ResourcePlan → ColumnPlan → Names → Result Names
claim_unique p c names =
    if not c.is_unique
    then ok names
    else if sole_key p.primary_key c.db_name
    then fail [] plain
    else claim_synth (unique_name p.table_name c) names

unfoldable pub check_check_name : Text → ColumnPlan → Result (Unit {0})
check_check_name table c =
    if is_empty c.check then ok tt else check_synth_ident_len (check_name table c)

unfoldable pub claim_column_indexes : ResourcePlan → List ColumnPlan → Names → Result Names
claim_column_indexes p [] names = ok names
claim_column_indexes p (c ∷ cs) names = do
  with_gin ← claim_gin p.table_name c names
  with_unique ← claim_unique p c with_gin
  check_check_name p.table_name c
  claim_column_indexes p cs with_unique

unfoldable pub check_order_part : Names → Names → OrderPart → Result (Unit {0})
check_order_part known orderable part =
    if not (member part.field_path known)
    then fail [] plain
    else if member part.field_path orderable
    then ok tt
    else fail [] plain

-- The checks behind the loops that fill the set of the known columns.
unfoldable pub validate_known : ResourcePlan → Names → Result (Unit {0})
validate_known p known = do
  check_key known p
  check_partition known p
  declared ← claim_indexes known p.tenancy p.indexes []
  with_paths ← claim_column_paths p.table_name p.columns declared
  with_oneofs ← claim_oneof_paths p.table_name p.oneof_columns with_paths
  all_names ← claim_column_indexes p p.columns with_oneofs
  check_each (λ oc. check_synth_ident_len (kind_name p.table_name oc)) p.oneof_columns
  check_each (check_order_part known (orderable_columns p.columns)) p.default_order
  check_each (check_order_part known (orderable_columns p.columns)) p.tie_breaker

unfoldable pub validate_plan : ResourcePlan → Result (Unit {0})
validate_plan p = do
  of_columns ← claim_columns p.columns []
  known ← claim_oneofs p.oneof_columns of_columns
  validate_known p known
