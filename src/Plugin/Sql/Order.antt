-- ===== src/Plugin/Sql/Order.antt =====
-- The order in which ddl.sql declares the columns of a table.
use protoc_gen_go_jet.Common.{
  Text, Bool, true, false, not, List, [], ◌∷◌, ◌++◌, filterb, ◌≡◌, refl, Bool-cases, inl, inr, All,
  arith,
}
use mathlib.Core.List.{Perm, perm_middle}
use mathlib.Core.List.Perm
use protoc_gen_go_jet.Plugin.Plan.{ColumnPlan, ResourcePlan}
use protoc_gen_go_jet.Plugin.Sql.Table.{text_lt, insert_column, sort_columns, ordered_columns}

insert_column-Perm : (c : ColumnPlan) (cs : List ColumnPlan) → Perm (insert_column c cs) (c ∷ cs)
unfolding insert_column
insert_column-Perm c [] = Perm.refl (c ∷ [])
insert_column-Perm c (d ∷ cs) = elim (Bool-cases (text_lt d.db_name c.db_name)) [
  | inl e ↦ rw e (Perm.trans (Perm.cons d (insert_column-Perm c cs)) (Perm.swap c d cs))
  | inr e ↦ rw e (Perm.refl (c ∷ d ∷ cs))
]

sort_columns-Perm : (cs : List ColumnPlan) → Perm (sort_columns cs) cs
unfolding sort_columns
sort_columns-Perm [] = Perm.refl []
sort_columns-Perm (c ∷ cs) =
    Perm.trans (insert_column-Perm c (sort_columns cs)) (Perm.cons c (sort_columns-Perm cs))

-- The columns with the property, and those without.
parts-Perm :
    (p : ColumnPlan → Bool) (cs : List ColumnPlan)
    → Perm (filterb p cs ++ filterb (λ c. not (p c)) cs) cs
parts-Perm p [] = Perm.refl []
parts-Perm p (c ∷ cs) = elim (Bool-cases (p c)) [
  | inl e ↦ rw e (Perm.cons c (parts-Perm p cs))
  | inr e ↦ rw e (
      Perm.trans (perm_middle (filterb p cs) (filterb (λ d. not (p d)) cs))
        (Perm.cons c (parts-Perm p cs)))
]

-- No column comes before one of a smaller name.
abbrev pub IsSorted : List ColumnPlan → Type 0
IsSorted [] = Unit
IsSorted (c ∷ cs) = All (λ d. text_lt d.db_name c.db_name ≡ false) cs × IsSorted cs

text_lt_asymmetric : (s t : Text) → text_lt s t ≡ true → text_lt t s ≡ false
unfolding text_lt
text_lt_asymmetric s [] h = absurd (cc h)
text_lt_asymmetric [] (d ∷ t) h = refl
text_lt_asymmetric (c ∷ s) (d ∷ t) h = let ih = text_lt_asymmetric s t in ground (arith, ih)

text_lt_through : (s t u : Text) → text_lt t s ≡ false → text_lt u t ≡ false → text_lt u s ≡ false
unfolding text_lt
text_lt_through [] t u h k = refl
text_lt_through (c ∷ s) [] u h k = absurd (cc h)
text_lt_through (c ∷ s) (d ∷ t) [] h k = absurd (cc k)
text_lt_through (c ∷ s) (d ∷ t) (e ∷ u) h k = let ih = text_lt_through s t u in ground (arith, ih)

insert_column-All :
    (P : ColumnPlan → Type 0) (c : ColumnPlan) (cs : List ColumnPlan)
    → P c
    → All P cs
    → All P (insert_column c cs)
unfolding insert_column
insert_column-All P c [] pc h = (pc, tt)
insert_column-All P c (d ∷ cs) pc (pd, h) =
    let rest = insert_column-All P c cs pc h in
    elim (Bool-cases (text_lt d.db_name c.db_name)) [
      | inl e ↦ rw e (pd, rest)
      | inr e ↦ rw e (pc, (pd, h))
    ]

sort_columns-All :
    (P : ColumnPlan → Type 0) (cs : List ColumnPlan) → All P cs → All P (sort_columns cs)
unfolding sort_columns
sort_columns-All P [] h = tt
sort_columns-All P (c ∷ cs) (p, h) =
    insert_column-All P c (sort_columns cs) p (sort_columns-All P cs h)

All-through :
    (c d : ColumnPlan) (cs : List ColumnPlan)
    → text_lt d.db_name c.db_name ≡ false
    → All (λ x. text_lt x.db_name d.db_name ≡ false) cs
    → All (λ x. text_lt x.db_name c.db_name ≡ false) cs
All-through c d [] h all = tt
All-through c d (x ∷ cs) h (k, all) =
    (text_lt_through c.db_name d.db_name x.db_name h k, All-through c d cs h all)

insert_column-IsSorted :
    (c : ColumnPlan) (cs : List ColumnPlan) → IsSorted cs → IsSorted (insert_column c cs)
unfolding insert_column
insert_column-IsSorted c [] h = (tt, tt)
insert_column-IsSorted c (d ∷ cs) (below, h) =
    let rest = insert_column-IsSorted c cs h in
    elim (Bool-cases (text_lt d.db_name c.db_name)) [
      | inl e ↦
          let bound =
            insert_column-All (λ x. text_lt x.db_name d.db_name ≡ false) c cs
              (text_lt_asymmetric d.db_name c.db_name e) below in
          rw e (bound, rest)
      | inr e ↦ let bound = All-through c d cs e below in rw e ((e, bound), (below, h))
    ]

sort_columns-IsSorted : (cs : List ColumnPlan) → IsSorted (sort_columns cs)
unfolding sort_columns
sort_columns-IsSorted [] = tt
sort_columns-IsSorted (c ∷ cs) =
    insert_column-IsSorted c (sort_columns cs) (sort_columns-IsSorted cs)

filterb-All : (p : ColumnPlan → Bool) (cs : List ColumnPlan) → All (λ c. p c ≡ true) (filterb p cs)
filterb-All p [] = tt
filterb-All p (c ∷ cs) = elim (Bool-cases (p c)) [
  | inl e ↦ rw e (e, filterb-All p cs)
  | inr e ↦ rw e (filterb-All p cs)
]

-- The columns of a plan are declared each exactly once: first the synthesized ones, by name, then those
-- of the message, in the order of the plan.
pub ordered_columns-Perm :
    (p : ResourcePlan)
    → Perm (ordered_columns p) p.columns
      × ((synthesized : List ColumnPlan) × (ordered_columns p
            ≡ synthesized ++ filterb (λ c. not c.synthesized) p.columns)
          × All (λ c. c.synthesized ≡ true) synthesized
          × IsSorted synthesized)
unfolding ordered_columns
ordered_columns-Perm p =
    let first = filterb (λ c. c.synthesized) p.columns in
    (
      Perm.trans
          (Perm.append_right (filterb (λ c. not c.synthesized) p.columns) (sort_columns-Perm first))
          (parts-Perm (λ c. c.synthesized) p.columns),
      (
        sort_columns first,
        refl,
        sort_columns-All (λ c. c.synthesized ≡ true) first
            (filterb-All (λ c. c.synthesized) p.columns),
        sort_columns-IsSorted first,
      ),
    )
