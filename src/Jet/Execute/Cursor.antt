-- ===== src/Jet/Execute/Cursor.antt =====
-- The condition that is built from the cursor of a row exists, and holds of the rows behind it.
use protoc_gen_go_jet.Common.{
  true, false, List, [], ◌∷◌, ◌++◌, some, ◌≡◌, refl, ap, suc, length, All, Bool-cases, inl, inr,
  ◌==◌, arith,
}
use protoc_gen_go_jet.Aip.Errors.{ok}
use protoc_gen_go_jet.Aip.Order.{OrderField, is_uniform_direction}
use protoc_gen_go_jet.Aip.Runtime.{Go, Value}
use protoc_gen_go_jet.Jet.Sql.{Jet, Postgres, timestamp_expression}
use protoc_gen_go_jet.Jet.Schema.{Schema}
use protoc_gen_go_jet.Jet.Keyset.{
  column_of, equality_expr, tuple_condition, build_tuple_comparison, equalities,
  lexicographic_terms, build_lexicographic_fallback, build_keyset_condition,
}
use protoc_gen_go_jet.Jet.Keyset.Meaning.{values}
use protoc_gen_go_jet.Jet.Execute.Faithful.{
  IsFaithful, raw_values, texts, decoded_values, column_found, parts,
}

module _ {g : Go} {Model : Type 0} {j : Jet g Model} (p : Postgres g Model j)
    (s : Schema g Model j) where
  pub zoned_columns :
      (order : List OrderField) (cs : List j.Column)
      → IsFaithful p s order cs
      → All (λ c. j.implements c timestamp_expression ≡ false) cs
  zoned_columns [] [] h = tt
  zoned_columns (f ∷ order) (c ∷ cs) (k, h) = (k.zoned, zoned_columns order cs h)
  zoned_columns [] (c ∷ cs) h = elim h [ ]
  zoned_columns (f ∷ order) [] h = elim h [ ]

  pub lengths :
      (order : List OrderField) (cs : List j.Column) (h : IsFaithful p s order cs) (r : Model)
      → (length (raw_values p s order cs h r) ≡ length order)
        × (length (texts p s order cs h r) ≡ length order)
        × (length (decoded_values p s order cs h r) ≡ length order)
  lengths [] [] h r = (refl, refl, refl)
  lengths (f ∷ order) (c ∷ cs) (k, h) r =
      let (a, b, d) = lengths order cs h r in (ap suc a, ap suc b, ap suc d)
  lengths [] (c ∷ cs) h r = elim h [ ]
  lengths (f ∷ order) [] h r = elim h [ ]

  -- Each pair of a field and a value can be compared for equality.
  abbrev Comparable : List (OrderField × Value g) → Type 0
  Comparable [] = Unit
  Comparable ((f, v) ∷ before) =
      ((c : j.Column) × (e : j.Condition) × (column_of j s.fields f.path ≡ ok c)
        × (equality_expr j c v ≡ ok e))
      × Comparable before

  Comparable-concat :
      (before : List (OrderField × Value g)) (f : OrderField) (v : Value g)
      → Comparable before
      → Comparable ((f, v) ∷ [])
      → Comparable (before ++ (f, v) ∷ [])
  Comparable-concat [] f v h k = k
  Comparable-concat (q ∷ before) f v h k = (h.0, Comparable-concat before f v h.1 k)

  equalities_built :
      (before : List (OrderField × Value g))
      → Comparable before
      → (es : List j.Condition) × (equalities j s.fields before ≡ ok es)
  unfolding equalities
  equalities_built [] h = ([], refl)
  equalities_built ((f, v) ∷ before) ((c, e, at_c, built), h) =
      let (es, rest) = equalities_built before h in (e ∷ es, rw (at_c, built, rest))

  terms_built :
      (order : List OrderField) (cs : List j.Column) (h : IsFaithful p s order cs) (r : Model)
      (before : List (OrderField × Value g))
      → Comparable before
      → (ts : List j.Condition) × (lexicographic_terms j s.fields before order
            (decoded_values p s order cs h r)
          ≡ ok ts)
  unfolding lexicographic_terms
  terms_built [] [] h r before k = ([], refl)
  terms_built (f ∷ order) (c ∷ cs) (q, h) r before k =
      let v = q.decoded r in
      let at_c = column_found p s q in
      let stands = q.stands_for r in
      let (chain, built) = equalities_built before k in
      let (ts, rest) =
        terms_built order cs h r (before ++ (f, v) ∷ []) (
          Comparable-concat before f v k ((c, stands.equality, at_c, stands.equality_built), tt)) in
      (
        j.and_of (chain ++ stands.comparison ∷ []) ∷ ts,
        rw (built, at_c, stands.comparison_built, rest),
      )
  terms_built [] (c ∷ cs) h r before k = elim h [ ]
  terms_built (f ∷ order) [] h r before k = elim h [ ]

  pub condition_built :
      (f : OrderField) (order : List OrderField) (c : j.Column) (cs : List j.Column)
      (h : IsFaithful p s (f ∷ order) (c ∷ cs)) (r : Model)
      → (cond : j.Condition) × (build_keyset_condition j s.fields
            (record { fields = f ∷ order })
            (decoded_values p s (f ∷ order) (c ∷ cs) h r)
          ≡ ok (some cond))
  unfolding build_keyset_condition build_tuple_comparison build_lexicographic_fallback
  condition_built f order c cs h r =
      let n = (lengths (f ∷ order) (c ∷ cs) h r).2 in
      let same : (length (f ∷ order) == length (decoded_values p s (f ∷ order) (c ∷ cs) h r))
          ≡ true =
        ground arith in
      elim (Bool-cases (is_uniform_direction (f ∷ order))) [
        | inl u ↦ (
          tuple_condition j (f ∷ order) (c ∷ cs) (values p (c ∷ cs) r),
          rw (same, u, parts p s (f ∷ order) (c ∷ cs) h r),
        )
        | inr u ↦
            let (ts, built) = terms_built (f ∷ order) (c ∷ cs) h r [] tt in
            (j.or_of ts, rw (same, u, built))
      ]
