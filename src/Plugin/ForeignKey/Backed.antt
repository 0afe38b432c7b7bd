-- ===== src/Plugin/ForeignKey/Backed.antt =====
-- What a completed foreign key can rely on: a unique key of its target on the columns it references.
use protoc_gen_go_jet.Common.{
  ℕ, suc, ◌+◌, Text, Bool, true, false, not, List, [], ◌∷◌, Option, none, some, get_elem?, text_eq,
  ◌≡◌, refl, sym, ap, subst, ◌∙◌, ◌⊎◌, inl, inr, Bool-cases, Option-cases, Has, All, All-Has,
  get_elem?-Has, if◌then◌else◌, arith,
}
use protoc_gen_go_jet.Aip.Errors.{Result, ok, fail, plain, ◌>>◌, >>=-eq-ok, ok-injective}
use protoc_gen_go_jet.Plugin.Plan.{
  ForeignKeyPlan, SupplementalUniqueConstraint, ColumnPlan, TenancyPlan, ResourcePlan,
}
use protoc_gen_go_jet.Plugin.ForeignKey.{
  find_column, is_fk_eligible_target, split_fk_target, column_already_covered,
}
use protoc_gen_go_jet.Plugin.ForeignKey.Pass.{
  Store, Completion, find_plan, needed_constraint, complete_fk, complete_found, complete_scoped,
  finish_fk, with_backing_index, add_needed, named, index_name_of, constraint_name_of,
}
use protoc_gen_go_jet.Plugin.Identifier.{check_synth_ident_len}
use protoc_gen_go_jet.Plugin.Sql.Table.{target_columns}
use protoc_gen_go_jet.Plugin.ForeignKey.Keys.{
  IsReferable, IsTenantScoped, ArePairs, eligible-IsReferable, pair-IsReferable,
}

picked :
    (b k : Bool) (d : ColumnPlan) (rest : Option ColumnPlan) {c : ColumnPlan}
    → (if b then rest else if k then some d else rest) ≡ some c
    → ((b ≡ false) × (k ≡ true) × (d ≡ c)) ⊎ (rest ≡ some c)
picked true k d rest h = inr h
picked false true d rest h = inl (refl, refl, cc)
picked false false d rest h = inr h

find_column-Has :
    (cs : List ColumnPlan) (field : Text) {c : ColumnPlan}
    → find_column cs field ≡ some c
    → Has c cs × (c.synthesized ≡ false) × (text_eq c.proto_field_name field ≡ true)
unfolding find_column
find_column-Has [] field h = absurd (cc h)
find_column-Has (d ∷ cs) field {c} h =
    elim (picked d.synthesized (text_eq d.proto_field_name field) d (find_column cs field) h) [
      | inl (e, k, q) ↦ (
        inl (sym q),
        subst (λ x. x.synthesized ≡ false) q e,
        subst (λ x. text_eq x.proto_field_name field ≡ true) q k,
      )
      | inr r ↦ let (m, a, b) = find_column-Has cs field r in (inr m, a, b)
    ]

found_injective :
    {i j : ℕ} {p q : ResourcePlan}
    → ◌≡◌ {A = Option (ℕ × ResourcePlan)} (some (i, q)) (some (j, p))
    → (i ≡ j) × (q ≡ p)
found_injective h = (cc, cc)

none_found : {f : ℕ × ResourcePlan} → none ≡ some f → ⊥
none_found h = cc

find_plan-get_elem? :
    (fqn : Text) (i : ℕ) (ps : Store) {j : ℕ} {p : ResourcePlan}
    → find_plan fqn i ps ≡ some (j, p)
    → (k : ℕ) × (j ≡ i + k) × (get_elem? ps k ≡ some p) × (text_eq p.resource_fqn fqn ≡ true)
unfolding find_plan
find_plan-get_elem? fqn i [] h = absurd (cc h)
find_plan-get_elem? fqn i (q ∷ ps) {j} {p} h = elim (Option-cases (find_plan fqn (suc i) ps)) [
  | inl e ↦ elim (Bool-cases (text_eq q.resource_fqn fqn)) [
    | inl k ↦
        let (r, u) = found_injective (rw (e, k) at h) in
        (0, omega (arith, r), ap some u, subst (λ x. text_eq x.resource_fqn fqn ≡ true) u k)
    | inr k ↦ absurd (none_found (rw (e, k) at h))
  ]
  | inr (found, e) ↦
      let (k, le, at_k, named_so) = find_plan-get_elem? fqn (suc i) ps (e ∙ (rw e at h)) in
      (suc k, omega (arith, le), at_k, named_so)
]

-- What holds of each result of a test holds of the one that is taken.
taken :
    (a b : Bool) (check : Result (Unit {0})) {x y z d : ForeignKeyPlan}
    (P : ForeignKeyPlan → Type 0)
    → P x
    → P y
    → P z
    → (if not a then ok x else if b then ok y else check >> ok z) ≡ ok d
    → P d
taken false b check P px py pz h = subst P (ok-injective h) px
taken true true check P px py pz h = subst P (ok-injective h) py
taken true false check P px py pz h =
    let (u, done, same) = >>=-eq-ok check _ h in subst P (ok-injective same) pz

-- The columns and the table that a completion references.
abbrev References : ForeignKeyPlan → ForeignKeyPlan → Type 0
References fk done =
    (target_columns done ≡ target_columns fk) × (done.target_table ≡ fk.target_table)

with_backing_index-References :
    (p : ResourcePlan) (c : ColumnPlan) (fk : ForeignKeyPlan) {done : ForeignKeyPlan}
    → with_backing_index p c fk ≡ ok done
    → References fk done
unfolding with_backing_index target_columns
with_backing_index-References p c fk {done} h =
    taken fk.backing_index (column_already_covered p c.db_name)
      (check_synth_ident_len (index_name_of p c)) (References fk) (refl, refl) (refl, refl)
      (refl, refl) h

finish_fk-References :
    (p : ResourcePlan) (c : ColumnPlan) (ti : ℕ) (uq : Option SupplementalUniqueConstraint)
    (fk : ForeignKeyPlan) {done : Completion}
    → finish_fk p c ti uq fk ≡ ok done
    → (done.target ≡ ti) × (done.supplemental ≡ uq) × References fk done.foreign_key
unfolding finish_fk
finish_fk-References p c ti uq fk {done} h =
    let (made, backed, rest) = >>=-eq-ok (with_backing_index p c fk) _ h in
    let (u, short, same) = >>=-eq-ok (check_synth_ident_len (constraint_name_of p c)) _ rest in
    subst (λ x. (x.target ≡ ti) × (x.supplemental ≡ uq) × References fk x.foreign_key)
      (ok-injective same) (refl, refl, with_backing_index-References p c fk backed)

-- The target of a completion, and a key of it on the columns that the foreign key references.
abbrev pub IsBacked : Store → Completion → Type 0
IsBacked plans done =
    (target : ResourcePlan) × (get_elem? plans done.target ≡ some target)
    × (done.foreign_key.target_table ≡ target.table_name)
    × IsReferable (add_needed done.supplemental target) (target_columns done.foreign_key)

finish_fk-IsBacked :
    (plans : Store) (p : ResourcePlan) (c : ColumnPlan) (ti : ℕ)
    (uq : Option SupplementalUniqueConstraint) (fk : ForeignKeyPlan) (target : ResourcePlan)
    {done : Completion}
    → get_elem? plans ti ≡ some target
    → fk.target_table ≡ target.table_name
    → IsReferable (add_needed uq target) (target_columns fk)
    → finish_fk p c ti uq fk ≡ ok done
    → IsBacked plans done
finish_fk-IsBacked plans p c ti uq fk target {done} at named_so key h =
    let (i, u, refs) = finish_fk-References p c ti uq fk h in
    (
      target,
      subst (λ k. get_elem? plans k ≡ some target) (sym i) at,
      refs.1 ∙ named_so,
      subst (λ x. IsReferable (add_needed x target) (target_columns done.foreign_key)) (sym u)
          (subst (λ l. IsReferable (add_needed uq target) l) (sym refs.0) key),
    )

-- What the pass knows of a target that it finds.
abbrev IsTarget : Store → ℕ → ResourcePlan → ColumnPlan → Type 0
IsTarget plans ti target target_col =
    (get_elem? plans ti ≡ some target)
    × IsTenantScoped target
    × ArePairs target
    × Has target_col target.columns
    × (target_col.synthesized ≡ false)

complete_scoped-IsBacked :
    (plans : Store) (p : ResourcePlan) (c : ColumnPlan) (fk : ForeignKeyPlan) (ti : ℕ)
    (target : ResourcePlan) (target_col : ColumnPlan) (self scope : Option TenancyPlan)
    {done : Completion}
    → fk.tenant_composite ≡ false
    → IsTarget plans ti target target_col
    → target.tenancy ≡ scope
    → complete_scoped p c fk ti target target_col self scope ≡ ok done
    → IsBacked plans done
unfolding complete_scoped target_columns
complete_scoped-IsBacked plans p c fk ti target target_col none (some t) simple found e h =
    absurd (cc h)
complete_scoped-IsBacked plans p c fk ti target target_col (some t) none simple found e h =
    absurd (cc h)
complete_scoped-IsBacked plans p c fk ti target target_col none none simple
      (at, single, pairs, m, proto) e h =
    elim (Bool-cases (is_fk_eligible_target target target_col)) [
      | inl yes_it_is ↦
          finish_fk-IsBacked plans p c ti none (named p c target target_col fk) target at refl
            (rw simple (eligible-IsReferable target target_col e m yes_it_is)) (rw yes_it_is at h)
      | inr not_it ↦ absurd (refused (rw not_it at h))
    ]
  where
    refused : {d : Completion} → fail [] plain ≡ ok d → ⊥
    refused g = cc
complete_scoped-IsBacked plans p c fk ti target target_col (some self) (some t) simple
      (at, single, pairs, m, proto) e h =
    finish_fk-IsBacked plans p c ti (needed_constraint target t target_col) _ target at refl
      (pair-IsReferable target t target_col e single pairs m proto) h

complete_found-IsBacked :
    (plans : Store) (p : ResourcePlan) (c : ColumnPlan) (fk : ForeignKeyPlan) (fqn field : Text)
    {done : Completion}
    → fk.tenant_composite ≡ false
    → All IsTenantScoped plans
    → All ArePairs plans
    → complete_found p c fk field (find_plan fqn 0 plans) ≡ ok done
    → IsBacked plans done
unfolding complete_found
complete_found-IsBacked plans p c fk fqn field simple scoped pairs h =
    elim (Option-cases (find_plan fqn 0 plans)) [
      | inl e ↦ absurd (refused (rw e at h))
      | inr ((ti, target), e) ↦
          let (k, le, at, named_so) = find_plan-get_elem? fqn 0 plans e in
          elim (Option-cases (find_column target.columns field)) [
            | inl d ↦ absurd (refused (rw (e, complete_found, d) at h))
            | inr (target_col, d) ↦
                let (m, proto, name) = find_column-Has target.columns field d in
                let same : ti ≡ k = omega (arith, le) in
                let at' = subst (λ x. get_elem? plans x ≡ some target) (sym same) at in
                let m' = get_elem?-Has plans ti at' in
                complete_scoped-IsBacked plans p c fk ti target target_col p.tenancy target.tenancy
                  simple
                  (
                    at',
                    All-Has IsTenantScoped target plans scoped m',
                    All-Has ArePairs target plans pairs m',
                    m,
                    proto,
                  )
                  refl (rw (e, complete_found, d) at h)
          ]
    ]
  where
    refused : {d : Completion} → fail [] plain ≡ ok d → ⊥
    refused g = cc

-- A foreign key that the pass completes names the table of its target, and the target, with the constraint that the pass adds to it, has a unique key on exactly the columns
-- that are referenced. The key is not yet completed, no table of the run is user-scoped or has a message
-- field in its tenant column, and its supplemental constraints are those of the pass.
pub complete_fk-IsBacked :
    (plans : Store) (p : ResourcePlan) (c : ColumnPlan) (fk : ForeignKeyPlan) {done : Completion}
    → fk.tenant_composite ≡ false
    → All IsTenantScoped plans
    → All ArePairs plans
    → complete_fk plans p c fk ≡ ok done
    → IsBacked plans done
unfolding complete_fk
complete_fk-IsBacked plans p c fk simple scoped pairs h =
    let ((fqn, field), split, rest) =
      >>=-eq-ok (split_fk_target fk.raw_target p.resource_fqn) _ h in
    complete_found-IsBacked plans p c fk fqn field simple scoped pairs rest
