-- ===== src/Plugin/Delta.antt =====
-- cmd/protoc-gen-go-jet/migration_scaffold.go: the delta of a table between two snapshots, and the
-- header of a first migration. A snapshot (check.go) is what the check reads of a table.
pub mod Same
use protoc_gen_go_jet.Common.{
  ℕ, Text, codes, Bool, true, false, not, ◌&&◌, ◌||◌, List, [], ◌∷◌, ◌++◌, Option, none, some, map,
  is_empty, text_eq, bool_eq, trim_space, split, has_prefix, lookup, if◌then◌else◌, ◌==◌,
}
use protoc_gen_go_jet.Plugin.Identifier.{concat, join_texts}
use protoc_gen_go_jet.Plugin.Sql.Table.{text_lt}

pub record Column : Type 0 where
  pub name : Text
  pub sql_type : Text
  pub not_null : Bool
  pub default_expr : Text
  pub comment : Text

pub record CheckConstraint : Type 0 where
  pub name : Text
  pub body : Text

pub record Index : Type 0 where
  pub name : Text
  pub sql : Text

pub record Policy : Type 0 where
  pub name : Text
  pub role : Text
  pub using : Text
  pub with_check : Text
  pub for_cmd : Text

pub record TableForeignKey : Type 0 where
  pub name : Text
  pub body : Text
  pub validated : Bool
  pub has_backing_index : Bool

pub record TableSnapshot : Type 0 where
  pub columns : List Column
  pub primary_key : List Text
  pub check_constraint : List CheckConstraint
  pub index : List Index
  pub rls_enabled : Bool
  pub policy : List Policy
  pub table_comment : Text
  pub foreign_key : List TableForeignKey

-- ==, field by field.
abbrev pub column_eq : Column → Column → Bool
column_eq a b =
    text_eq a.name b.name
    && (text_eq a.sql_type b.sql_type
        && (bool_eq a.not_null b.not_null
            && (text_eq a.default_expr b.default_expr && text_eq a.comment b.comment)))

abbrev pub check_eq : CheckConstraint → CheckConstraint → Bool
check_eq a b = text_eq a.name b.name && text_eq a.body b.body

abbrev pub index_eq : Index → Index → Bool
index_eq a b = text_eq a.name b.name && text_eq a.sql b.sql

abbrev pub policy_eq : Policy → Policy → Bool
policy_eq a b =
    text_eq a.name b.name
    && (text_eq a.role b.role
        && (text_eq a.using b.using
            && (text_eq a.with_check b.with_check && text_eq a.for_cmd b.for_cmd)))

abbrev pub foreign_key_eq : TableForeignKey → TableForeignKey → Bool
foreign_key_eq a b =
    text_eq a.name b.name
    && (text_eq a.body b.body
        && (bool_eq a.validated b.validated && bool_eq a.has_backing_index b.has_backing_index))

-- The union of the keys, sorted: each key once.
unfoldable pub insert_name : Text → List Text → List Text
insert_name n [] = n ∷ []
insert_name n (m ∷ ms) =
    let rest = insert_name n ms in
    if text_eq n m then m ∷ ms else if text_lt n m then n ∷ m ∷ ms else m ∷ rest

unfoldable pub sorted_names : List Text → List Text
unfolding insert_name
sorted_names [] = []
sorted_names (n ∷ ns) = insert_name n (sorted_names ns)

-- The entries of the map that indexBy makes; of two items with one key the last counts.
unfoldable pub index_by : {T : Type 0} → (T → Text) → List T → List (Text × T)
index_by key [] = []
index_by key (x ∷ items) = index_by key items ++ (key x, x) ∷ []

abbrev pub keys : {T : Type 0} → List (Text × T) → List Text
keys [] = []
keys ((k, x) ∷ m) = k ∷ keys m

abbrev pub delta_line : Text → Text → Text → Text → Text
delta_line sign table kind n =
    concat (sign ∷ codes " " ∷ kind ∷ codes " " ∷ table ∷ codes "." ∷ n ∷ [])

module _ {T : Type 0} (eq : T → T → Bool) where
  -- The line of one name, if its two sides differ.
  unfoldable pub diff_entry : Text → Text → Text → Option T → Option T → List Text
  diff_entry table kind n none (some t) = delta_line (codes "+") table kind n ∷ []
  diff_entry table kind n (some c) none = delta_line (codes "-") table kind n ∷ []
  diff_entry table kind n none none = []
  diff_entry table kind n (some c) (some t) =
      if eq c t then [] else delta_line (codes "~") table kind n ∷ []

  unfoldable pub diff_names :
      Text → Text → List (Text × T) → List (Text × T) → List Text → List Text
  unfolding diff_entry
  diff_names table kind cur tgt [] = []
  diff_names table kind cur tgt (n ∷ ns) =
      diff_entry table kind n (lookup n cur) (lookup n tgt) ++ diff_names table kind cur tgt ns

  unfoldable pub diff_named : Text → Text → List (Text × T) → List (Text × T) → List Text
  unfolding diff_names
  diff_named table kind cur tgt =
      diff_names table kind cur tgt (sorted_names (keys cur ++ keys tgt))

abbrev hazard : Text → Text
hazard table = concat (
    codes "  HAZARD: "
    ∷ table
    ∷ codes " — ADD CONSTRAINT takes ACCESS EXCLUSIVE + full table scan. Author as `ALTER TABLE "
    ∷ table
    ∷ codes " ADD CONSTRAINT <name> FOREIGN KEY ... NOT VALID;` then `ALTER TABLE "
    ∷ table
    ∷ codes " VALIDATE CONSTRAINT <name>;` in a follow-up migration."
    ∷ [])

unfoldable pub with_hazards : Text → List Text → List Text
with_hazards table [] = []
with_hazards table (l ∷ lines) =
    let rest = with_hazards table lines in
    if has_prefix l (codes "+ fk ") then l ∷ hazard table ∷ rest else l ∷ rest

abbrev pub changed : Bool → Text → Text → List Text
changed true what table = concat (codes "~ " ∷ what ∷ codes " " ∷ table ∷ []) ∷ []
changed false what table = []

unfoldable pub column_delta : Text → TableSnapshot → TableSnapshot → List Text
column_delta table cur tgt =
    diff_named column_eq table (codes "column") (index_by (λ c. c.name) cur.columns)
      (index_by (λ c. c.name) tgt.columns)

unfoldable pub check_delta : Text → TableSnapshot → TableSnapshot → List Text
check_delta table cur tgt =
    diff_named check_eq table (codes "check") (index_by (λ c. c.name) cur.check_constraint)
      (index_by (λ c. c.name) tgt.check_constraint)

unfoldable pub index_delta : Text → TableSnapshot → TableSnapshot → List Text
index_delta table cur tgt =
    diff_named index_eq table (codes "index") (index_by (λ c. c.name) cur.index)
      (index_by (λ c. c.name) tgt.index)

unfoldable pub policy_delta : Text → TableSnapshot → TableSnapshot → List Text
policy_delta table cur tgt =
    diff_named policy_eq table (codes "policy") (index_by (λ c. c.name) cur.policy)
      (index_by (λ c. c.name) tgt.policy)

unfoldable pub foreign_key_delta : Text → TableSnapshot → TableSnapshot → List Text
foreign_key_delta table cur tgt =
    diff_named foreign_key_eq table (codes "fk") (index_by (λ c. c.name) cur.foreign_key)
      (index_by (λ c. c.name) tgt.foreign_key)

unfoldable pub compute_table_delta : Text → TableSnapshot → TableSnapshot → List Text
unfolding with_hazards
compute_table_delta table cur tgt =
    column_delta table cur tgt
    ++ (check_delta table cur tgt
        ++ (index_delta table cur tgt
            ++ (policy_delta table cur tgt
                ++ (with_hazards table (foreign_key_delta table cur tgt)
                    ++ (changed
                          (not (
                            text_eq (join_texts (codes ",") cur.primary_key)
                              (join_texts (codes ",") tgt.primary_key)))
                          (codes "primary_key") table
                        ++ (changed (not (bool_eq cur.rls_enabled tgt.rls_enabled)) (codes "rls")
                              table
                            ++ changed (not (text_eq cur.table_comment tgt.table_comment))
                                (codes "table_comment") table))))))

-- The lines from the first one that is neither blank nor a comment.
unfoldable pub drop_header : List Text → List Text
drop_header [] = []
drop_header (l ∷ lines) =
    let rest = drop_header lines in
    let line = trim_space l in
    if is_empty line then rest else if has_prefix line (codes "--") then rest else l ∷ lines

unfoldable pub strip_ddl_header : Text → Text
strip_ddl_header s = join_texts (codes "\n") (drop_header (split s 10))
