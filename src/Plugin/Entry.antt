-- ===== src/Plugin/Entry.antt =====
-- cmd/protoc-gen-go-jet/main.go: pendingEmit and detectDuplicateTables. Of a report, the two places and
-- the table that it names.
pub mod Duplicates
use protoc_gen_go_jet.Common.{Text, List, [], ◌∷◌, ◌++◌, Option, none, some, lookup}
use protoc_gen_go_jet.Plugin.Plan.{ResourcePlan}

pub record PendingEmit : Type 0 where
  pub source : Text
  pub plan : ResourcePlan

-- One error of detectDuplicateTables.
pub record DuplicateTable : Type 0 where
  pub source : Text
  pub table_name : Text
  pub previous : Text

-- The key of a table: its directory, a bar and its name.
unfoldable pub table_key : PendingEmit → Text
table_key pe = pe.plan.go_dir ++ 124 ∷ pe.plan.table_name

-- What the map has for the key decides: a report, or a new entry.
unfoldable pub report : Option Text → PendingEmit → List DuplicateTable → List DuplicateTable
report (some previous) pe errs =
    record { source = pe.source; table_name = pe.plan.table_name; previous = previous } ∷ errs
report none pe errs = errs

unfoldable pub see : Option Text → PendingEmit → List (Text × Text) → List (Text × Text)
see (some previous) pe seen = seen
see none pe seen = (table_key pe, pe.source) ∷ seen

unfoldable pub duplicates_from : List PendingEmit → List (Text × Text) → List DuplicateTable
duplicates_from [] seen = []
duplicates_from (pe ∷ pending) seen =
    let found = lookup (table_key pe) seen in
    report found pe (duplicates_from pending (see found pe seen))

unfoldable pub detect_duplicate_tables : List PendingEmit → List DuplicateTable
detect_duplicate_tables pending = duplicates_from pending []
