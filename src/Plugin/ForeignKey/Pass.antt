-- ===== src/Plugin/ForeignKey/Pass.antt =====
-- cmd/protoc-gen-go-jet/resolve_fk.go: completeFK and resolveForeignKeys, the pass over all tables of
-- a run. The plans are shared, so they are a store: a target is the index of its plan.
use protoc_gen_go_jet.Common.{
  ℕ, zero, suc, Text, codes, true, false, not, ◌&&◌, List, [], ◌∷◌, ◌++◌, Option, none, some,
  get_elem?, text_eq, if◌then◌else◌,
}
use protoc_gen_go_jet.Aip.Errors.{Result, ok, err, panic, fail, plain, ◌>>=◌, ◌>>◌}
use protoc_gen_go_jet.Plugin.Plan.{
  ForeignKeyPlan, SupplementalUniqueConstraint, ColumnPlan, TenancyPlan, ResourcePlan,
}
use protoc_gen_go_jet.Plugin.Identifier.{check_synth_ident_len}
use protoc_gen_go_jet.Plugin.ForeignKey.{
  split_fk_target, find_column, is_fk_eligible_target, target_pk_covers_tenant_composite,
  column_already_covered, add_supplemental_unique,
}

abbrev pub Store : Type 0
Store = List ResourcePlan

-- byFQN[fqn], with the index of the plan: of two plans with one name the last is meant.
unfoldable pub find_plan : Text → ℕ → Store → Option (ℕ × ResourcePlan)
find_plan fqn i [] = none
find_plan fqn i (p ∷ ps) =
    let later = find_plan fqn (suc i) ps in
    elim later [
      | some found ↦ some found
      | none ↦ if text_eq p.resource_fqn fqn then some (i, p) else none
    ]

-- What completeFK writes: the foreign key, and a constraint on the plan of the target.
pub record Completion : Type 0 where
  pub foreign_key : ForeignKeyPlan
  pub target : ℕ
  pub supplemental : Option SupplementalUniqueConstraint

abbrev pub constraint_name_of : ResourcePlan → ColumnPlan → Text
constraint_name_of p c = p.table_name ++ (95 ∷ (c.db_name ++ codes "_fkey"))

abbrev pub index_name_of : ResourcePlan → ColumnPlan → Text
index_name_of p c = codes "idx_" ++ (p.table_name ++ (95 ∷ (c.db_name ++ codes "_fk")))

abbrev pub pair_constraint : ResourcePlan → TenancyPlan → Text → SupplementalUniqueConstraint
pair_constraint target t col = record {
  name = codes "uq_" ++ (target.table_name ++ (95 ∷ (t.column ++ (95 ∷ col))));
  columns = t.column ∷ col ∷ [];
}

-- The constraint that a composite foreign key needs on its target, if nothing covers the pair.
unfoldable pub needed_constraint :
    ResourcePlan → TenancyPlan → ColumnPlan → Option SupplementalUniqueConstraint
needed_constraint target t target_col =
    if not (target_pk_covers_tenant_composite target target_col.db_name) && not target_col.is_unique
    then some (pair_constraint target t target_col.db_name)
    else none

-- The names of the target, and of the constraint.
abbrev pub named :
    ResourcePlan → ColumnPlan → ResourcePlan → ColumnPlan → ForeignKeyPlan → ForeignKeyPlan
named p c target target_col fk = record fk {
  target_table = target.table_name;
  target_column = target_col.db_name;
  constraint_name = constraint_name_of p c;
}

-- The last two steps: the index behind the key, and the lengths of the names.
unfoldable pub with_backing_index :
    ResourcePlan → ColumnPlan → ForeignKeyPlan → Result ForeignKeyPlan
with_backing_index p c fk =
    if not fk.backing_index
    then ok fk
    else if column_already_covered p c.db_name
    then ok (record fk { backing_index = false })
    else (do
      check_synth_ident_len (index_name_of p c)
      ok (record fk { index_name = index_name_of p c }))

unfoldable pub finish_fk :
    ResourcePlan
    → ColumnPlan
    → ℕ
    → Option SupplementalUniqueConstraint
    → ForeignKeyPlan
    → Result Completion
finish_fk p c ti supplemental fk = do
  done ← with_backing_index p c fk
  check_synth_ident_len (constraint_name_of p c)
  ok (record { foreign_key = done; target = ti; supplemental = supplemental })

-- The branches on the tenancy of the two tables.
unfoldable pub complete_scoped :
    ResourcePlan
    → ColumnPlan
    → ForeignKeyPlan
    → ℕ
    → ResourcePlan
    → ColumnPlan
    → Option TenancyPlan
    → Option TenancyPlan
    → Result Completion
complete_scoped p c fk ti target target_col none (some t) = fail [] plain
complete_scoped p c fk ti target target_col (some t) none = fail [] plain
complete_scoped p c fk ti target target_col none none =
    if is_fk_eligible_target target target_col
    then finish_fk p c ti none (named p c target target_col fk)
    else fail [] plain
complete_scoped p c fk ti target target_col (some self) (some t) =
    finish_fk p c ti (needed_constraint target t target_col)
      (record (named p c target target_col fk) {
        tenant_composite = true;
        local_tenant_column = self.column;
        target_tenant_column = t.column;
      })

unfoldable pub complete_found :
    ResourcePlan
    → ColumnPlan
    → ForeignKeyPlan
    → Text
    → Option (ℕ × ResourcePlan)
    → Result Completion
complete_found p c fk field none = fail [] plain
complete_found p c fk field (some (ti, target)) = elim (find_column target.columns field) [
  | none ↦ fail [] plain
  | some target_col ↦ complete_scoped p c fk ti target target_col p.tenancy target.tenancy
]

unfoldable pub complete_fk : Store → ResourcePlan → ColumnPlan → ForeignKeyPlan → Result Completion
complete_fk plans p c fk = do
  (fqn, field) ← split_fk_target fk.raw_target p.resource_fqn
  complete_found p c fk field (find_plan fqn 0 plans)

unfoldable pub update {ℓ} : {A : Type ℓ} → ℕ → (A → A) → List A → List A
update i f [] = []
update zero f (x ∷ xs) = f x ∷ xs
update (suc i) f (x ∷ xs) = x ∷ update i f xs

abbrev pub set_foreign_key : ℕ → ForeignKeyPlan → ResourcePlan → ResourcePlan
set_foreign_key ci fk p = record p {
  columns = update ci (λ c. record c { foreign_key = some fk }) p.columns;
}

abbrev pub add_needed : Option SupplementalUniqueConstraint → ResourcePlan → ResourcePlan
add_needed none p = p
add_needed (some uq) p = add_supplemental_unique p uq

-- The writes of one completed key: column `ci` of plan `pi`, and the target.
unfoldable pub write_completion : ℕ → ℕ → Completion → Store → Store
write_completion pi ci done plans =
    update done.target (add_needed done.supplemental)
      (update pi (set_foreign_key ci done.foreign_key) plans)

-- One column of the loop. A failure is counted; what it wrote before it failed is never emitted,
-- since a pass with a failure returns no plans.
unfoldable pub resolve_column : ℕ → ℕ → Store × ℕ → Result (Store × ℕ)
resolve_column pi ci (plans, failures) = elim (get_elem? plans pi) [
  | none ↦ panic
  | some p ↦ elim (get_elem? p.columns ci) [
    | none ↦ panic
    | some c ↦ elim c.foreign_key [
      | none ↦ ok (plans, failures)
      | some fk ↦ elim (complete_fk plans p c fk) [
        | ok done ↦ ok (write_completion pi ci done plans, failures)
        | err e ↦ ok (plans, suc failures)
        | panic ↦ panic
      ]
    ]
  ]
]

-- The two loops visit these positions in this order.
unfoldable pub columns_from : ℕ → ℕ → List ColumnPlan → List (ℕ × ℕ)
columns_from pi ci [] = []
columns_from pi ci (c ∷ cs) = (pi, ci) ∷ columns_from pi (suc ci) cs

unfoldable pub positions_from : ℕ → Store → List (ℕ × ℕ)
positions_from pi [] = []
positions_from pi (p ∷ ps) = columns_from pi 0 p.columns ++ positions_from (suc pi) ps

unfoldable pub resolve_all : List (ℕ × ℕ) → Store × ℕ → Result (Store × ℕ)
resolve_all [] st = ok st
resolve_all ((pi, ci) ∷ rest) st = do next ← resolve_column pi ci st; resolve_all rest next

unfoldable pub resolve_foreign_keys : Store → Result Store
resolve_foreign_keys plans = do
  (resolved, failures) ← resolve_all (positions_from 0 plans) (plans, 0)
  elim failures [ zero ↦ ok resolved | suc n ↦ fail [] plain ]
