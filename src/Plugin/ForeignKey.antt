-- ===== src/Plugin/ForeignKey.antt =====
-- cmd/protoc-gen-go-jet/resolve_fk.go: the foreign keys of one column, and the questions that the
-- pass over all messages asks of a target.
pub mod Local
pub mod Unique
pub mod Pass
pub mod Keys
pub mod Backed
pub mod UserScope
use protoc_gen_go_jet.Common.{
  ℕ, zero, suc, Text, codes, Bool, true, false, not, ◌&&◌, ◌||◌, List, [], ◌∷◌, ◌++◌, Option, none,
  some, is_empty, length, drop, text_eq, trim_space, has_prefix, has_suffix, contains_byte,
  if◌then◌else◌, leb, ◌==◌,
}
use protoc_gen_go_jet.Aip.Errors.{Result, ok, err, panic, fail, plain, ◌>>=◌, ◌>>◌}
use protoc_gen_go_jet.Plugin.Plan.{
  ForeignKeyPlan, SupplementalUniqueConstraint, ColumnPlan, ResourcePlan, IndexPlan,
}

-- The proto enumeration; `unknown_action` is a number that it does not name.
pub data Action : Type 0 where
  action_unspecified action_restrict action_cascade action_set_null action_set_default
        action_no_action :
      Action
  unknown_action : Action

pub record ForeignKey : Type 0 where
  pub target : Text
  pub on_delete : Action
  pub on_update : Action
  pub index : Option Bool

unfoldable pub fk_action_sql : Action → (is_delete : Bool) → Text
fk_action_sql action_unspecified is_delete =
    if is_delete then codes "RESTRICT" else codes "NO ACTION"
fk_action_sql action_restrict is_delete = codes "RESTRICT"
fk_action_sql action_cascade is_delete = codes "CASCADE"
fk_action_sql action_set_null is_delete = codes "SET NULL"
fk_action_sql action_set_default is_delete = codes "SET DEFAULT"
fk_action_sql action_no_action is_delete = codes "NO ACTION"
fk_action_sql unknown_action is_delete = codes "NO ACTION"

-- One round of the loop over the two actions.
unfoldable pub check_action : Text → ColumnPlan → Result (Unit {0})
check_action action c =
    if text_eq action (codes "SET NULL")
    then (if c.not_null then fail [] plain else ok tt)
    else if text_eq action (codes "SET DEFAULT")
    then (if is_empty c.default_expr then fail [] plain else ok tt)
    else ok tt

unfoldable pub validate_fk_actions_against_column : ForeignKeyPlan → ColumnPlan → Result (Unit {0})
validate_fk_actions_against_column fk c = do
  check_action fk.on_delete c
  check_action fk.on_update c

-- What stands before and behind the last dot.
unfoldable pub cut_last_dot : Text → Option (Text × Text)
cut_last_dot [] = none
cut_last_dot (c ∷ s) =
    let rest = cut_last_dot s in
    elim rest [
      | some (before, after) ↦ some (c ∷ before, after)
      | none ↦ if c == 46 then some ([], s) else none
    ]

unfoldable pub field_character : (first : Bool) → ℕ → Bool
field_character first r =
    r == 95 || leb 97 r && leb r 122 || (leb 48 r && leb r 57) && not first || leb 65 r && leb r 90

unfoldable pub field_valid : (first : Bool) → Text → Bool
field_valid first [] = true
field_valid first (r ∷ s) = field_character first r && field_valid false s

unfoldable pub check_message : Text → Result (Unit {0})
check_message msg =
    if has_prefix msg (codes ".")
    then (if is_empty (drop 1 msg) || has_suffix (drop 1 msg) 46 then fail [] plain else ok tt)
    else if contains_byte msg 46
    then fail [] plain
    else ok tt

unfoldable pub check_target : Option (Text × Text) → Result (Unit {0})
check_target none = fail [] plain
check_target (some (msg, field)) =
    if is_empty msg
    then fail [] plain
    else if is_empty field
    then fail [] plain
    else if not (field_valid true field)
    then fail [] plain
    else check_message msg

unfoldable pub validate_fk_target_syntax : Text → Result (Unit {0})
validate_fk_target_syntax target =
    if is_empty target
    then fail [] plain
    else if contains_byte target 32
        || contains_byte target 9
        || contains_byte target 10
        || contains_byte target 13
    then fail [] plain
    else check_target (cut_last_dot target)

-- The plan before the pass over all messages.
unfoldable pub local_plan : ForeignKey → Text → ForeignKeyPlan
local_plan fk target = record {
  raw_target = target;
  target_table = [];
  target_column = [];
  tenant_composite = false;
  local_tenant_column = [];
  target_tenant_column = [];
  on_delete = fk_action_sql fk.on_delete true;
  on_update = fk_action_sql fk.on_update false;
  backing_index = elim fk.index [ none ↦ true | some b ↦ b ];
  constraint_name = [];
  index_name = [];
}

unfoldable pub parse_fk_annotation : ForeignKey → ColumnPlan → Result ForeignKeyPlan
parse_fk_annotation fk c =
    let target = trim_space fk.target in
    if is_empty target then fail [] plain else (do
      validate_fk_target_syntax target
      validate_fk_actions_against_column (local_plan fk target) c
      ok (local_plan fk target))

abbrev pub is_some {ℓ} : {A : Type ℓ} → Option A → Bool
is_some none = false
is_some (some a) = true

-- The package of the referring message in front of a simple name.
unfoldable pub qualify : Text → Text → Text
qualify self_fqn msg = elim (cut_last_dot self_fqn) [
  | none ↦ msg
  | some (pkg, _) ↦ if is_empty pkg then msg else pkg ++ (46 ∷ msg)
]

-- Without a dot, the slice up to -1 panics.
unfoldable pub split_fk_target : Text → Text → Result (Text × Text)
split_fk_target raw self_fqn = elim (cut_last_dot raw) [
  | none ↦ panic
  | some (msg, field) ↦
      ok (if has_prefix msg (codes ".") then drop 1 msg else qualify self_fqn msg, field)
]

unfoldable pub find_column : List ColumnPlan → Text → Option ColumnPlan
find_column [] name = none
find_column (c ∷ cs) name =
    let rest = find_column cs name in
    if c.synthesized then rest else if text_eq c.proto_field_name name then some c else rest

unfoldable pub is_fk_eligible_target : ResourcePlan → ColumnPlan → Bool
is_fk_eligible_target p c =
    elim p.primary_key [ [] ↦ false | k ∷ ks ↦ is_empty ks && text_eq k c.db_name ] || c.is_unique

unfoldable pub mentions : Text → List Text → Bool
mentions k [] = false
mentions k (w ∷ want) = text_eq w k || mentions k want

unfoldable pub delete : Text → List Text → List Text
delete k [] = []
delete k (w ∷ want) = let rest = delete k want in if text_eq w k then rest else w ∷ rest

-- Each key column is wanted, and taken out of the set; none is left in the end.
unfoldable pub covers : List Text → List Text → Bool
covers want [] = is_empty want
covers want (k ∷ key) =
    let rest = covers (delete k want) key in if not (mentions k want) then false else rest

unfoldable pub target_pk_covers_tenant_composite : ResourcePlan → Text → Bool
target_pk_covers_tenant_composite target target_col = elim target.tenancy [
  | none ↦ false
  | some t ↦
      if not (length target.primary_key == 2)
      then false
      else covers
          (if text_eq t.column target_col then t.column ∷ [] else t.column ∷ target_col ∷ [])
          target.primary_key
]

-- The first column of an index is this one.
unfoldable pub leads : Text → List Text → Bool
leads col [] = false
leads col (c ∷ cs) = text_eq c col

unfoldable pub leads_index : Text → List IndexPlan → Bool
unfolding leads
leads_index col [] = false
leads_index col (idx ∷ indexes) = leads col idx.columns || leads_index col indexes

-- The last loop: only without tenancy does the index of a unique column start with it.
unfoldable pub unique_column : Text → Bool → List ColumnPlan → Bool
unique_column col has_tenancy [] = false
unique_column col has_tenancy (c ∷ cs) =
    text_eq c.db_name col && c.is_unique && not has_tenancy || unique_column col has_tenancy cs

unfoldable pub column_already_covered : ResourcePlan → Text → Bool
unfolding leads leads_index unique_column
column_already_covered p col =
    leads col p.primary_key
    || leads_index col p.indexes
    || unique_column col (is_some p.tenancy) p.columns

unfoldable pub has_constraint : Text → List SupplementalUniqueConstraint → Bool
has_constraint name [] = false
has_constraint name (u ∷ us) = text_eq u.name name || has_constraint name us

unfoldable pub add_supplemental_unique : ResourcePlan → SupplementalUniqueConstraint → ResourcePlan
add_supplemental_unique p uq =
    if has_constraint uq.name p.supplemental_uniques
    then p
    else record p { supplemental_uniques = p.supplemental_uniques ++ uq ∷ [] }
