-- ===== src/Plugin/ForeignKey/Keys.antt =====
-- The unique keys of a table, and when one stands on the columns that a foreign key references.
use protoc_gen_go_jet.Common.{
  Text, codes, Bool, true, false, not, ◌&&◌, List, [], ◌∷◌, ◌++◌, Option, none, some, is_empty,
  length, text_eq, text_eq_iff, ◌≡◌, refl, sym, ap, subst, ◌∙◌, ◌⊎◌, inl, inr, Bool-cases, Has,
  Has-last, if◌then◌else◌, ◌==◌, arith,
}
use mathlib.Core.List.{Perm}
use mathlib.Core.List.Perm
use protoc_gen_go_jet.Plugin.Plan.{
  SupplementalUniqueConstraint, ColumnPlan, TenancyPlan, ResourcePlan,
}
use protoc_gen_go_jet.Plugin.ForeignKey.{
  is_fk_eligible_target, target_pk_covers_tenant_composite, covers, mentions, delete,
  add_supplemental_unique, has_constraint,
}
use protoc_gen_go_jet.Plugin.ForeignKey.Pass.{pair_constraint, needed_constraint, add_needed}
use protoc_gen_go_jet.Plugin.Sql.Index.{unique_index_columns, scope_columns}

-- The unique keys that ddl.sql declares without a predicate of the author's: the primary key, the index
-- of a column with `unique: true`, and the supplemental constraints.
abbrev pub IsKey : ResourcePlan → List Text → Type 0
IsKey p key =
    (p.primary_key ≡ key)
    ⊎ ((c : ColumnPlan) × Has c p.columns
        × (c.is_unique ≡ true)
        × (unique_index_columns p c.db_name ≡ key))
    ⊎ ((uq : SupplementalUniqueConstraint) × Has uq p.supplemental_uniques × (uq.columns ≡ key))

-- PostgreSQL takes a key for the referenced columns in any order.
abbrev pub IsReferable : ResourcePlan → List Text → Type 0
IsReferable p cols = (key : List Text) × IsKey p key × Perm key cols

-- The scope of a unique column is the tenant alone, and the tenant's column is not one of the message.
abbrev pub IsTenantScoped : ResourcePlan → Type 0
IsTenantScoped p =
    (t : TenancyPlan)
    → p.tenancy ≡ some t
    → (t.user_scoped ≡ false)
      × ((c : ColumnPlan)
          → Has c p.columns
          → c.synthesized ≡ false
          → text_eq t.column c.db_name ≡ false)

-- The constraints are those that the pass adds.
abbrev pub ArePairs : ResourcePlan → Type 0
ArePairs p =
    (uq : SupplementalUniqueConstraint)
    → Has uq p.supplemental_uniques
    → (t : TenancyPlan) × (col : Text) × (p.tenancy ≡ some t) × (uq ≡ pair_constraint p t col)

-- What is left of the wanted columns after the first column of the key.
left_of_pair :
    (a b k : Text) (key : List Text)
    → text_eq a b ≡ false
    → covers (a ∷ b ∷ []) (k ∷ key) ≡ true
    → ((k ≡ a) × (covers (b ∷ []) key ≡ true)) ⊎ ((k ≡ b) × (covers (a ∷ []) key ≡ true))
unfolding covers mentions delete
left_of_pair a b k key apart h = elim (Bool-cases (text_eq a k)) [
  | inl e ↦
      let q : a ≡ k = (text_eq_iff a k).0 e in
      let other : text_eq b k ≡ false = rw (sym q) (swapped a b apart) in
      inl (sym q, ground (arith, e, other, h))
  | inr e ↦ elim (Bool-cases (text_eq b k)) [
    | inl f ↦ inr (sym ((text_eq_iff b k).0 f), ground (arith, e, f, h))
    | inr f ↦ absurd (ground (arith, e, f, h))
  ]
]
  where
    swapped : (s t : Text) → text_eq s t ≡ false → text_eq t s ≡ false
    swapped s t d = ground (arith, text_eq_iff s t, text_eq_iff t s)

covers-one : (a : Text) (key : List Text) → covers (a ∷ []) key ≡ true → key ≡ a ∷ []
unfolding covers mentions delete
covers-one a [] h = absurd (cc h)
covers-one a (k ∷ key) h = elim (Bool-cases (text_eq a k)) [
  | inl e ↦ rw (covers-none key (rw e at h), (text_eq_iff a k).0 e) refl
  | inr e ↦ absurd (ground (arith, e, h))
]
  where
    covers-none : (l : List Text) → covers [] l ≡ true → l ≡ []
    covers-none [] g = refl
    covers-none (x ∷ l) g = absurd (cc g)

pair_left : (a b : Text) → covers (a ∷ b ∷ []) [] ≡ true → ⊥
unfolding covers
pair_left a b h = cc

-- A key that covers two columns consists of them.
covers-Perm :
    (a b : Text) (key : List Text)
    → text_eq a b ≡ false
    → covers (a ∷ b ∷ []) key ≡ true
    → Perm key (a ∷ b ∷ [])
covers-Perm a b [] apart h = absurd (pair_left a b h)
covers-Perm a b (k ∷ key) apart h = elim (left_of_pair a b k key apart h) [
  | inl (q, c) ↦ rw (q, covers-one b key c) (Perm.refl (a ∷ b ∷ []))
  | inr (q, c) ↦ rw (q, covers-one a key c) (Perm.swap a b [])
]

sole :
    (key : List Text) (n : Text)
    → (elim key [ [] ↦ false | k ∷ ks ↦ is_empty ks && text_eq k n ]) ≡ true
    → key ≡ n ∷ []
sole [] n h = absurd (cc h)
sole (k ∷ []) n h = rw ((text_eq_iff k n).0 h) refl
sole (k ∷ l ∷ ks) n h = absurd (cc h)

unscoped-unique_index_columns :
    (p : ResourcePlan) (col : Text) → p.tenancy ≡ none → unique_index_columns p col ≡ col ∷ []
unfolding unique_index_columns scope_columns
unscoped-unique_index_columns p col h = rw h refl

tenant-unique_index_columns :
    (p : ResourcePlan) (t : TenancyPlan) (col : Text)
    → p.tenancy ≡ some t
    → t.user_scoped ≡ false
    → text_eq t.column col ≡ false
    → unique_index_columns p col ≡ t.column ∷ col ∷ []
unfolding unique_index_columns scope_columns
tenant-unique_index_columns p t col h single apart = rw (h, single, apart) refl

-- A sole key column, or a unique one, of a table without tenancy.
pub eligible-IsReferable :
    (p : ResourcePlan) (c : ColumnPlan)
    → p.tenancy ≡ none
    → Has c p.columns
    → is_fk_eligible_target p c ≡ true
    → IsReferable p (c.db_name ∷ [])
unfolding is_fk_eligible_target
eligible-IsReferable p c untenanted m h = elim (Bool-cases c.is_unique) [
  | inl u ↦ (
    c.db_name ∷ [],
    inr (inl (c, m, u, unscoped-unique_index_columns p c.db_name untenanted)),
    Perm.refl (c.db_name ∷ []),
  )
  | inr u ↦ (
    c.db_name ∷ [],
    inl (sole p.primary_key c.db_name (ground (arith, h, u))),
    Perm.refl (c.db_name ∷ []),
  )
]

covered_pair :
    (p : ResourcePlan) (t : TenancyPlan) (col : Text)
    → p.tenancy ≡ some t
    → text_eq t.column col ≡ false
    → target_pk_covers_tenant_composite p col ≡ true
    → Perm p.primary_key (t.column ∷ col ∷ [])
unfolding target_pk_covers_tenant_composite
covered_pair p t col scoped apart h =
    covers-Perm t.column col p.primary_key apart
      (second (length p.primary_key == 2) (rw (scoped, apart) at h))
  where
    second : (b : Bool) {c : Bool} → (if not b then false else c) ≡ true → c ≡ true
    second true g = g
    second false g = absurd (cc g)

has_constraint-Has :
    (name : Text) (us : List SupplementalUniqueConstraint)
    → has_constraint name us ≡ true
    → (uq : SupplementalUniqueConstraint) × Has uq us × (uq.name ≡ name)
unfolding has_constraint
has_constraint-Has name [] h = absurd (cc h)
has_constraint-Has name (u ∷ us) h = elim (Bool-cases (text_eq u.name name)) [
  | inl e ↦ (u, inl refl, (text_eq_iff u.name name).0 e)
  | inr e ↦ let (v, m, q) = has_constraint-Has name us (ground (arith, e, h)) in (v, inr m, q)
]

append_injective : (a b c : Text) → a ++ b ≡ a ++ c → b ≡ c
append_injective [] b c h = h
append_injective (x ∷ a) b c h = append_injective a b c (tail h)
  where
    tail : {y z : Text} → x ∷ y ≡ x ∷ z → y ≡ z
    tail g = cc

-- Of the constraints of one table, the name tells the column.
one_name :
    (p : ResourcePlan) (t : TenancyPlan) (a b : Text)
    → (pair_constraint p t a).name ≡ (pair_constraint p t b).name
    → a ≡ b
one_name p t a b h = append_injective (codes "_") a b (
    append_injective t.column (95 ∷ a) (95 ∷ b) (
      append_injective (codes "_") _ _ (
        append_injective p.table_name (95 ∷ (t.column ++ (95 ∷ a))) (95 ∷ (t.column ++ (95 ∷ b)))
          (append_injective (codes "uq_") _ _ h))))

same_columns :
    (p : ResourcePlan) (t t' : TenancyPlan) (uq : SupplementalUniqueConstraint) (col col' : Text)
    → p.tenancy ≡ some t
    → p.tenancy ≡ some t'
    → uq ≡ pair_constraint p t' col'
    → uq.name ≡ (pair_constraint p t col).name
    → uq.columns ≡ t.column ∷ col ∷ []
same_columns p t t' uq col col' h h' made q =
    let one : t' ≡ t = one_tenancy h h' in
    let made' : uq ≡ pair_constraint p t col' =
      subst (λ x. uq ≡ pair_constraint p x col') one made in
    ap (λ x. x.columns) made'
    ∙ ap (λ x. t.column ∷ x ∷ []) (one_name p t col' col (sym (ap (λ x. x.name) made') ∙ q))
  where
    one_tenancy : {o : Option TenancyPlan} {a b : TenancyPlan} → o ≡ some a → o ≡ some b → b ≡ a
    one_tenancy x y = cc

supplemental-IsKey :
    (p : ResourcePlan) (t : TenancyPlan) (col : Text)
    → p.tenancy ≡ some t
    → ArePairs p
    → IsKey (add_supplemental_unique p (pair_constraint p t col)) (t.column ∷ col ∷ [])
unfolding add_supplemental_unique
supplemental-IsKey p t col scoped pairs =
    elim (Bool-cases (has_constraint (pair_constraint p t col).name p.supplemental_uniques)) [
      | inr e ↦ rw e (
          inr (
            inr (
              pair_constraint p t col,
              Has-last (pair_constraint p t col) p.supplemental_uniques,
              refl,
            )))
      | inl e ↦
          let (uq, m, q) =
            has_constraint-Has (pair_constraint p t col).name p.supplemental_uniques e in
          let (t', col', scoped', made) = pairs uq m in
          rw e (inr (inr (uq, m, same_columns p t t' uq col col' scoped scoped' made q)))
    ]

-- The pair of the tenant and a column, once the constraint that is needed is added.
pub pair-IsReferable :
    (p : ResourcePlan) (t : TenancyPlan) (c : ColumnPlan)
    → p.tenancy ≡ some t
    → IsTenantScoped p
    → ArePairs p
    → Has c p.columns
    → c.synthesized ≡ false
    → IsReferable (add_needed (needed_constraint p t c) p) (t.column ∷ c.db_name ∷ [])
unfolding needed_constraint
pair-IsReferable p t c scoped single pairs m proto =
    let (narrow, apart_all) = single t scoped in
    let apart = apart_all c m proto in
    elim (Bool-cases (target_pk_covers_tenant_composite p c.db_name)) [
      | inl e ↦ rw e (p.primary_key, inl refl, covered_pair p t c.db_name scoped apart e)
      | inr e ↦ elim (Bool-cases c.is_unique) [
        | inl u ↦
            rw (e, u)
              (
                t.column ∷ c.db_name ∷ [],
                inr (inl (c, m, u, tenant-unique_index_columns p t c.db_name scoped narrow apart)),
                Perm.refl (t.column ∷ c.db_name ∷ []),
              )
        | inr u ↦
            rw (e, u)
              (
                t.column ∷ c.db_name ∷ [],
                supplemental-IsKey p t c.db_name scoped pairs,
                Perm.refl (t.column ∷ c.db_name ∷ []),
              )
      ]
    ]
