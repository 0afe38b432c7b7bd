-- ===== src/Plugin/Validate/Accepted.antt =====
-- The checks that an accepted plan has passed, and the names that they have collected.
use protoc_gen_go_jet.Common.{
  Text, false, ◌||◌, List, [], ◌∷◌, ◌++◌, map, text_eq, text_eq_iff, ◌≡◌, refl, sym, ◌∙◌, subst,
  All, append_assoc, append-nil, arith, Bool-cases, inl, inr,
}
use protoc_gen_go_jet.Aip.Errors.{Result, ok, fail, plain, >>=-eq-ok, ok-injective}
use protoc_gen_go_jet.Plugin.Plan.{ColumnPlan, OneofColumnPlan, ResourcePlan}
use protoc_gen_go_jet.Plugin.Identifier.{check_synth_ident_len}
use protoc_gen_go_jet.Plugin.Validate.{
  Names, member, claim_name, check_each, claim_columns, claim_pair, claim_oneofs, check_key,
  check_partition, claim_indexes, claim_column_paths, claim_oneof_paths, claim_column_indexes,
  check_order_part, orderable_columns, kind_name, validate_plan, validate_known,
}

-- The columns of a table: those of the message, and a pair for each oneof.
abbrev pub pair_names : List OneofColumnPlan → Names
pair_names [] = []
pair_names (oc ∷ ocs) = oc.kind_column ∷ oc.json_column ∷ pair_names ocs

abbrev pub column_names : ResourcePlan → Names
column_names p = map (λ c. c.db_name) p.columns ++ pair_names p.oneof_columns

-- No name stands twice.
abbrev pub AreDistinct : Names → Type 0
AreDistinct [] = Unit
AreDistinct (s ∷ ss) = (member s ss ≡ false) × AreDistinct ss

member-last : (s t : Text) (ss : Names) → member s (ss ++ t ∷ []) ≡ (member s ss || text_eq s t)
unfolding member
member-last s t [] = ground arith
member-last s t (u ∷ ss) = rw (member-last s t ss) (ground arith)

text_eq_swapped : (s t : Text) → text_eq s t ≡ false → text_eq t s ≡ false
text_eq_swapped s t h = ground (arith, text_eq_iff s t, text_eq_iff t s)

last-AreDistinct :
    (ss : Names) (s : Text) → AreDistinct ss → member s ss ≡ false → AreDistinct (ss ++ s ∷ [])
unfolding member
last-AreDistinct [] s d h = (refl, tt)
last-AreDistinct (u ∷ ss) s (e, d) h = (
  member-last u s ss ∙ rw (e, text_eq_swapped s u (ground arith)) refl,
  last-AreDistinct ss s d (ground arith),
)

-- What a claim of names does: it puts these names in, and keeps the set free of repetitions.
abbrev pub Claimed : Names → Names → Names → Type 0
Claimed added before after = (after ≡ before ++ added) × (AreDistinct before → AreDistinct after)

pub claim_name-Claimed :
    (s : Text) (names : Names) {after : Names}
    → claim_name s names ≡ ok after
    → Claimed (s ∷ []) names after
unfolding claim_name
claim_name-Claimed s names {after} h = elim (Bool-cases (member s names)) [
  | inl e ↦ absurd (refused (rw e at h))
  | inr e ↦ (
    sym (ok-injective (rw e at h)),
    λ d. subst AreDistinct (ok-injective (rw e at h)) (last-AreDistinct names s d e),
  )
]
  where
    refused : fail [] plain ≡ ok after → ⊥
    refused g = cc

pub Claimed-none : (names : Names) → Claimed [] names names
Claimed-none names = (sym (append-nil names), λ d. d)

pub Claimed-then :
    (a b before middle after : Names)
    → Claimed a before middle
    → Claimed b middle after
    → Claimed (a ++ b) before after
Claimed-then a b before middle after (e, d) (e', d') =
    (e' ∙ (rw e (append_assoc before a b)), λ x. d' (d x))

pub check_each-All {ℓ} :
    {A : Type ℓ} (check : A → Result (Unit {0})) (xs : List A)
    → check_each check xs ≡ ok tt
    → All (λ x. check x ≡ ok tt) xs
unfolding check_each
check_each-All check [] h = tt
check_each-All check (x ∷ xs) h =
    let (u, e, rest) = >>=-eq-ok (check x) _ h in (e, check_each-All check xs rest)

claim_columns-Claimed :
    (cs : List ColumnPlan) (known : Names) {after : Names}
    → claim_columns cs known ≡ ok after
    → Claimed (map (λ c. c.db_name) cs) known after
unfolding claim_columns
claim_columns-Claimed [] known {after} h =
    subst (Claimed [] known) (ok-injective h) (Claimed-none known)
claim_columns-Claimed (c ∷ cs) known {after} h =
    let (more, e, rest) = >>=-eq-ok (claim_name c.db_name known) _ h in
    Claimed-then (c.db_name ∷ []) (map (λ d. d.db_name) cs) known more after
      (claim_name-Claimed c.db_name known e) (claim_columns-Claimed cs more rest)

claim_pair_lem :
    (oc : OneofColumnPlan) (known : Names) {after : Names}
    → claim_pair oc known ≡ ok after
    → after ≡ known ++ oc.kind_column ∷ oc.json_column ∷ []
unfolding claim_pair
claim_pair_lem oc known h = ground arith

claim_oneofs_lem :
    (ocs : List OneofColumnPlan) (known : Names) {after : Names}
    → claim_oneofs ocs known ≡ ok after
    → after ≡ known ++ pair_names ocs
unfolding claim_oneofs
claim_oneofs_lem [] known h = sym (ok-injective h) ∙ sym (append-nil known)
claim_oneofs_lem (oc ∷ ocs) known h =
    let (more, e, rest) = >>=-eq-ok (claim_pair oc known) _ h in
    claim_oneofs_lem ocs more rest
    ∙ rw (claim_pair_lem oc known e)
        (append_assoc known (oc.kind_column ∷ oc.json_column ∷ []) (pair_names ocs))

-- Every check, on the columns of the table.
abbrev pub HasPassed : ResourcePlan → Type 0
HasPassed p =
    AreDistinct (map (λ c. c.db_name) p.columns)
    × (check_key (column_names p) p ≡ ok tt)
    × (check_partition (column_names p) p ≡ ok tt)
    × ((a b c d : Names) × (claim_indexes (column_names p) p.tenancy p.indexes [] ≡ ok a)
        × (claim_column_paths p.table_name p.columns a ≡ ok b)
        × (claim_oneof_paths p.table_name p.oneof_columns b ≡ ok c)
        × (claim_column_indexes p p.columns c ≡ ok d))
    × All (λ oc. check_synth_ident_len (kind_name p.table_name oc) ≡ ok tt) p.oneof_columns
    × All (λ o. check_order_part (column_names p) (orderable_columns p.columns) o ≡ ok tt)
        p.default_order
    × All (λ o. check_order_part (column_names p) (orderable_columns p.columns) o ≡ ok tt)
        p.tie_breaker

validate_known-HasPassed :
    (p : ResourcePlan)
    → AreDistinct (map (λ c. c.db_name) p.columns)
    → validate_known p (column_names p) ≡ ok tt
    → HasPassed p
unfolding validate_known
validate_known-HasPassed p distinct h =
    let known = column_names p in
    let (u, key, r1) = >>=-eq-ok (check_key known p) _ h in
    let (v, part, r2) = >>=-eq-ok (check_partition known p) _ r1 in
    let (a, ea, r3) = >>=-eq-ok (claim_indexes known p.tenancy p.indexes []) _ r2 in
    let (b, eb, r4) = >>=-eq-ok (claim_column_paths p.table_name p.columns a) _ r3 in
    let (c, ec, r5) = >>=-eq-ok (claim_oneof_paths p.table_name p.oneof_columns b) _ r4 in
    let (d, ed, r6) = >>=-eq-ok (claim_column_indexes p p.columns c) _ r5 in
    let (w, kinds, r7) =
      >>=-eq-ok
        (check_each (λ oc. check_synth_ident_len (kind_name p.table_name oc)) p.oneof_columns) _
        r6 in
    let (x, order, ties) =
      >>=-eq-ok (check_each (check_order_part known (orderable_columns p.columns)) p.default_order)
        _ r7 in
    (
      distinct,
      key,
      part,
      (a, b, c, d, ea, eb, ec, ed),
      check_each-All (λ oc. check_synth_ident_len (kind_name p.table_name oc)) p.oneof_columns
          kinds,
      check_each-All (check_order_part known (orderable_columns p.columns)) p.default_order order,
      check_each-All (check_order_part known (orderable_columns p.columns)) p.tie_breaker ties,
    )

pub validate_plan-HasPassed : (p : ResourcePlan) → validate_plan p ≡ ok tt → HasPassed p
unfolding validate_plan
validate_plan-HasPassed p h =
    let (cols, e1, r1) = >>=-eq-ok (claim_columns p.columns []) _ h in
    let (known, e2, r2) = >>=-eq-ok (claim_oneofs p.oneof_columns cols) _ r1 in
    let (same, distinct) = claim_columns-Claimed p.columns [] e1 in
    let shape : known ≡ column_names p = claim_oneofs_lem p.oneof_columns cols e2 ∙ rw same refl in
    validate_known-HasPassed p (subst AreDistinct same (distinct tt))
      (subst (λ k. validate_known p k ≡ ok tt) shape r2)
