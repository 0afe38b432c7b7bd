-- ===== src/Jet/Keyset/Resolve.antt =====
-- The columns and the literals that an ordering with its cursor values stands for, and what the
-- builders of conditions make of them.
use protoc_gen_go_jet.Common.{
  true, false, List, [], ◌∷◌, ◌++◌, some, ◌≡◌, refl, sym, ◌∙◌, ap, subst, arith, length, suc, ◌⊎◌,
  All, Bool-cases, inl, inr, ◌==◌, if◌then◌else◌,
}
use protoc_gen_go_jet.Aip.Errors.{Result, ok, err, ◌>>=◌, >>=-eq-ok, ok-injective}
use protoc_gen_go_jet.Aip.Order.{SortDirection, OrderField, is_uniform_direction}
use protoc_gen_go_jet.Aip.Runtime.{Go, Value, string, time}
use protoc_gen_go_jet.Jet.Sql.{Jet, timestamp_expression}
use protoc_gen_go_jet.Jet.Schema.{Fields}
use protoc_gen_go_jet.Jet.Keyset.{
  column_of, to_literal, equality_expr, direction_expr, beyond, tuple_parts, build_tuple_comparison,
  equalities, lexicographic_terms, build_lexicographic_fallback, build_keyset_condition,
}

-- The fields with their values.
abbrev pub zipped : {g : Go} → List OrderField → List (Value g) → List (OrderField × Value g)
zipped (f ∷ order) (v ∷ vals) = (f, v) ∷ zipped order vals
zipped _ _ = []

module _ {g : Go} {Model : Type 0} (j : Jet g Model) where
  -- Where a column is no plain timestamp, both helpers compare with the literal of the value.
  pub equality_expr_literal :
      (c : j.Column) (v : Value g) {x : j.Literal} {e : j.Condition}
      → j.implements c timestamp_expression ≡ false
      → to_literal j v ≡ ok x
      → equality_expr j c v ≡ ok e
      → e ≡ j.equal c x
  unfolding to_literal equality_expr
  equality_expr_literal c (string s) n h k = ground arith
  equality_expr_literal c (time t) n h k = ground arith
  equality_expr_literal c _ n h k = ground arith

  pub direction_expr_literal :
      (c : j.Column) (d : SortDirection) (v : Value g) {x : j.Literal} {e : j.Condition}
      → j.implements c timestamp_expression ≡ false
      → to_literal j v ≡ ok x
      → direction_expr j c d v ≡ ok e
      → e ≡ beyond j d c x
  unfolding to_literal direction_expr
  direction_expr_literal c d (string s) n h k = ground arith
  direction_expr_literal c d (time t) n h k = ground arith
  direction_expr_literal c d _ n h k = ground arith

  -- The columns and the literals that a list of fields and values stands for.
  abbrev pub Resolved :
      Fields g Model j → List (OrderField × Value g) → List j.Column → List j.Literal → Type 0
  Resolved fields [] [] [] = Unit
  Resolved fields ((f, v) ∷ ps) (c ∷ cs) (x ∷ xs) =
      (column_of j fields f.path ≡ ok c)
      × (to_literal j v ≡ ok x)
      × (j.implements c timestamp_expression ≡ false)
      × Resolved fields ps cs xs
  Resolved fields _ _ _ = ⊥

  pub Resolved-concat :
      (fields : Fields g Model j) (ps : List (OrderField × Value g)) (cs : List j.Column)
      (xs : List j.Literal) (f : OrderField) (v : Value g) (c : j.Column) (x : j.Literal)
      → Resolved fields ps cs xs
      → Resolved fields ((f, v) ∷ []) (c ∷ []) (x ∷ [])
      → Resolved fields (ps ++ (f, v) ∷ []) (cs ++ c ∷ []) (xs ++ x ∷ [])
  Resolved-concat fields [] [] [] f v c x h k = k
  Resolved-concat fields (p ∷ ps) (d ∷ cs) (y ∷ xs) f v c x (a, b, n, h) k =
      (a, b, n, Resolved-concat fields ps cs xs f v c x h k)
  Resolved-concat fields [] [] (y ∷ xs) f v c x h k = elim h [ ]
  Resolved-concat fields [] (d ∷ cs) xs f v c x h k = elim h [ ]
  Resolved-concat fields (p ∷ ps) [] xs f v c x h k = elim h [ ]
  Resolved-concat fields (p ∷ ps) (d ∷ cs) [] f v c x h k = elim h [ ]

  pub lexicographic_terms_inv :
      (fields : Fields g Model j) (before : List (OrderField × Value g)) (f : OrderField)
      (order : List OrderField) (v : Value g) (vals : List (Value g)) (c : j.Column) (x : j.Literal)
      {ts : List j.Condition}
      → column_of j fields f.path ≡ ok c
      → to_literal j v ≡ ok x
      → j.implements c timestamp_expression ≡ false
      → lexicographic_terms j fields before (f ∷ order) (v ∷ vals) ≡ ok ts
      → (chain more : List j.Condition) × (equalities j fields before ≡ ok chain)
        × (lexicographic_terms j fields (before ++ (f, v) ∷ []) order vals ≡ ok more)
        × (j.and_of (chain ++ beyond j f.direction c x ∷ []) ∷ more ≡ ts)
  unfolding lexicographic_terms
  lexicographic_terms_inv fields before f order v vals c x at_c at_x plain h =
      let (chain, equal_before, h₁) = >>=-eq-ok (equalities j fields before) _ h in
      let (cmp, made, h₂) = >>=-eq-ok (direction_expr j c f.direction v) _ (rw at_c at h₁) in
      let (more, others, h₃) =
        >>=-eq-ok (lexicographic_terms j fields (before ++ (f, v) ∷ []) order vals) _ h₂ in
      (
        chain,
        more,
        equal_before,
        others,
        ap (λ e. j.and_of (chain ++ e ∷ []) ∷ more)
              (sym (direction_expr_literal c f.direction v plain at_x made))
            ∙ ok-injective h₃,
      )

  -- The lists of a tuple comparison are resolved, and of the ordering's length.
  pub tuple_parts-Resolved :
      (fields : Fields g Model j) (order : List OrderField) (vals : List (Value g))
      {q : List j.Column × List j.Literal}
      → tuple_parts j fields order vals ≡ ok q
      → length order ≡ length vals
      → All (λ c. j.implements c timestamp_expression ≡ false) q.0
      → Resolved fields (zipped order vals) q.0 q.1
        × (length order ≡ length q.0)
        × (length order ≡ length q.1)
  unfolding tuple_parts
  tuple_parts-Resolved fields [] [] h n =
      subst
        (λ q.
          All (λ c. j.implements c timestamp_expression ≡ false) q.0
          → Resolved fields [] q.0 q.1 × (0 ≡ length q.0) × (0 ≡ length q.1))
        (ok-injective h) (λ _. (tt, refl, refl))
  tuple_parts-Resolved fields (f ∷ order) (v ∷ vals) h n =
      let (c, at_c, h₁) = >>=-eq-ok (column_of j fields f.path) _ h in
      let (x, at_x, h₂) = >>=-eq-ok (to_literal j v) _ h₁ in
      let (q, rest, h₃) = >>=-eq-ok (tuple_parts j fields order vals) _ h₂ in
      subst
        (λ q.
          All (λ c. j.implements c timestamp_expression ≡ false) q.0
          → Resolved fields ((f, v) ∷ zipped order vals) q.0 q.1
            × (suc (length order) ≡ length q.0)
            × (suc (length order) ≡ length q.1))
        (ok-injective h₃)
        (λ plain.
          let (m, a, b) = tuple_parts-Resolved fields order vals rest (omega arith) plain.1 in
          ((at_c, at_x, plain.0, m), ap suc a, ap suc b))
  tuple_parts-Resolved fields [] (v ∷ vals) h n = absurd (omega arith)
  tuple_parts-Resolved fields (f ∷ order) [] h n = absurd (omega arith)

  -- The two ways to build a condition for a cursor that is there.
  pub build_keyset_condition_inv :
      (fields : Fields g Model j) (order : List OrderField) (vals : List (Value g))
      {cond : j.Condition}
      → build_keyset_condition j fields (record { fields = order }) vals ≡ ok (some cond)
      → (length order ≡ length vals)
        × ((is_uniform_direction order ≡ true)
              × (build_tuple_comparison j fields order vals ≡ ok cond)
            ⊎ (build_lexicographic_fallback j fields order vals ≡ ok cond))
  unfolding build_keyset_condition
  build_keyset_condition_inv fields order [] h = cc
  build_keyset_condition_inv fields [] (v ∷ vals) h = cc
  build_keyset_condition_inv fields (f ∷ order) (v ∷ vals) {cond} h =
      elim (Bool-cases (length (f ∷ order) == length (v ∷ vals))) [
        | inr e ↦ absurd (let no_cond : err _ ≡ ok (some cond) = rw e at h in cc)
        | inl e ↦ (ground arith, ways (rw e at h))
      ]
    where
      built : (m : Result j.Condition) → (m >>= λ c. ok (some c)) ≡ ok (some cond) → m ≡ ok cond
      built m k = let (c, a, b) = >>=-eq-ok m _ k in ground arith

      ways :
          (if is_uniform_direction (f ∷ order)
              then (do c ← build_tuple_comparison j fields (f ∷ order) (v ∷ vals); ok (some c))
              else (do
                c ← build_lexicographic_fallback j fields (f ∷ order) (v ∷ vals)
                ok (some c)))
            ≡ ok (some cond)
          → (is_uniform_direction (f ∷ order) ≡ true)
              × (build_tuple_comparison j fields (f ∷ order) (v ∷ vals) ≡ ok cond)
            ⊎ (build_lexicographic_fallback j fields (f ∷ order) (v ∷ vals) ≡ ok cond)
      ways k = elim (Bool-cases (is_uniform_direction (f ∷ order))) [
        | inl u ↦ inl (u, built _ (rw u at k))
        | inr u ↦ inr (built _ (rw u at k))
      ]
