-- ===== src/Jet/Keyset/Meaning.antt =====
-- The keyset condition holds of exactly the rows behind the cursor, by tuple comparison and by the
-- chain of disjunctions alike.
use protoc_gen_go_jet.Common.{
  Bool, true, false, ◌&&◌, ◌||◌, List, [], ◌∷◌, ◌++◌, some, map, ◌≡◌, refl, ◌∙◌, ap, subst, arith,
  length, length-append, suc, All, inl, inr, if◌then◌else◌,
}
use protoc_gen_go_jet.Aip.Errors.{ok, >>=-eq-ok, ok-injective}
use protoc_gen_go_jet.Aip.Order.{
  SortDirection, asc, desc, is_desc, OrderField, is_uniform_direction,
}
use protoc_gen_go_jet.Aip.Runtime.{Go, Value}
use protoc_gen_go_jet.Jet.Sql.{Jet, Postgres, timestamp_expression, is_eq, all, any, compare_rows}
use protoc_gen_go_jet.Jet.Schema.{Fields}
use protoc_gen_go_jet.Jet.Keyset.{
  equality_expr, beyond, tuple_parts, tuple_condition, build_tuple_comparison, equalities,
  lexicographic_terms, build_lexicographic_fallback, build_keyset_condition,
}
use protoc_gen_go_jet.Jet.Keyset.Resolve.{
  zipped, Resolved, Resolved-concat, equality_expr_literal, lexicographic_terms_inv,
  tuple_parts-Resolved, build_keyset_condition_inv,
}
use protoc_gen_go_jet.Jet.Keyset.After.{
  directions, is_beyond, after, AllDirection, compare_rows-after, is_uniform_direction_iff,
}

module _ {g : Go} {Model : Type 0} {j : Jet g Model} (p : Postgres g Model j) where
  abbrev pub values : List j.Column → Model → List j.Literal
  values cs r = map (λ c. p.value c r) cs

  -- The row agrees with the cursor on some columns.
  abbrev agrees : Model → List j.Column → List j.Literal → Bool
  agrees r (c ∷ cs) (x ∷ xs) = is_eq (p.compare (p.value c r) x) && agrees r cs xs
  agrees r _ _ = true

  equalities_hold :
      (fields : Fields g Model j) (ps : List (OrderField × Value g)) (cs : List j.Column)
      (xs : List j.Literal) (r : Model) {es : List j.Condition}
      → Resolved j fields ps cs xs
      → equalities j fields ps ≡ ok es
      → all (λ e. p.holds e r) es ≡ agrees r cs xs
  unfolding equalities
  equalities_hold fields [] [] [] r k h =
      subst (λ es. all (λ e. p.holds e r) es ≡ true) (ok-injective h) refl
  equalities_hold fields ((f, v) ∷ ps) (c ∷ cs) (x ∷ xs) r (at_c, at_x, plain, k) h =
      let (e, made, h') = >>=-eq-ok (equality_expr j c v) _ (rw at_c at h) in
      let (rest, others, h'') = >>=-eq-ok (equalities j fields ps) _ h' in
      subst (λ es. all (λ e. p.holds e r) es ≡ agrees r (c ∷ cs) (x ∷ xs)) (ok-injective h'')
        (rw (
          equality_expr_literal j c v plain at_x made,
          p.holds-equal c x r,
          equalities_hold fields ps cs xs r k others,
        ))
  equalities_hold fields [] [] (y ∷ xs) r k h = elim k [ ]
  equalities_hold fields [] (d ∷ cs) xs r k h = elim k [ ]
  equalities_hold fields (q ∷ ps) [] xs r k h = elim k [ ]
  equalities_hold fields (q ∷ ps) (d ∷ cs) [] r k h = elim k [ ]

  all-append :
      (r : Model) (es fs : List j.Condition)
      → all (λ e. p.holds e r) (es ++ fs) ≡ (all (λ e. p.holds e r) es && all (λ e. p.holds e r) fs)
  all-append r [] fs = refl
  all-append r (e ∷ es) fs = rw (all-append r es fs) (ground arith)

  holds-beyond :
      (d : SortDirection) (c : j.Column) (x : j.Literal) (r : Model)
      → p.holds (beyond j d c x) r ≡ is_beyond d (p.compare (p.value c r) x)
  holds-beyond asc c x r = p.holds-greater c x r
  holds-beyond desc c x r = p.holds-less c x r

  agrees-concat :
      (r : Model) (cs : List j.Column) (xs : List j.Literal) (c : j.Column) (x : j.Literal)
      → length cs ≡ length xs
      → agrees r (cs ++ c ∷ []) (xs ++ x ∷ [])
        ≡ (agrees r cs xs && is_eq (p.compare (p.value c r) x))
  agrees-concat r [] [] c x h = ground arith
  agrees-concat r (d ∷ cs) (y ∷ xs) c x h =
      rw (agrees-concat r cs xs c x (omega arith)) (ground arith)
  agrees-concat r [] (y ∷ xs) c x h = absurd (omega arith)
  agrees-concat r (d ∷ cs) [] c x h = absurd (omega arith)

  -- A term of the disjunction: the row agrees on the fields before, and is beyond on this one.
  term_holds :
      (d : SortDirection) (c : j.Column) (x : j.Literal) (r : Model) (chain : List j.Condition)
      → p.holds (j.and_of (chain ++ beyond j d c x ∷ [])) r
        ≡ (all (λ e. p.holds e r) chain && is_beyond d (p.compare (p.value c r) x))
  term_holds d c x r chain =
      rw
        (
          p.holds-and_of (chain ++ beyond j d c x ∷ []) r,
          all-append r chain (beyond j d c x ∷ []),
          holds-beyond d c x r,
        )
        (ground arith)

  lengths :
      (cs : List j.Column) (xs : List j.Literal) (c : j.Column) (x : j.Literal)
      → length cs ≡ length xs
      → length (cs ++ c ∷ []) ≡ length (xs ++ x ∷ [])
  lengths cs xs c x h = omega (arith, length-append cs (c ∷ []), length-append xs (x ∷ []))

  first_or_later :
      (before beyond_here here rest : Bool) {term chain later concat : Bool}
      → term ≡ (chain && beyond_here)
      → chain ≡ before
      → later ≡ (concat && rest)
      → concat ≡ (before && here)
      → (term || later) ≡ (before && (beyond_here || (here && rest)))
  first_or_later before b here rest e₁ e₂ e₃ e₄ = rw (e₁, e₂, e₃, e₄) (table before b here rest)
    where
      table : (a b h r : Bool) → ((a && b) || ((a && h) && r)) ≡ (a && (b || (h && r)))
      table true b h r = ground arith
      table false b h r = ground arith

  -- The disjunction of the terms behind `before`: the row agrees on the fields before, and is
  -- behind on the rest.
  terms_hold :
      (fields : Fields g Model j) (before : List (OrderField × Value g)) (bcs : List j.Column)
      (bxs : List j.Literal) (order : List OrderField) (vals : List (Value g)) (cs : List j.Column)
      (xs : List j.Literal) (r : Model) {ts : List j.Condition}
      → Resolved j fields before bcs bxs
      → length bcs ≡ length bxs
      → Resolved j fields (zipped order vals) cs xs
      → lexicographic_terms j fields before order vals ≡ ok ts
      → any (λ t. p.holds t r) ts
        ≡ (agrees r bcs bxs && after p.compare (directions order) (values cs r) xs)
  unfolding lexicographic_terms
  terms_hold fields before bcs bxs [] vals cs xs r k n m h =
      subst (λ ts. any (λ t. p.holds t r) ts ≡ (agrees r bcs bxs && false)) (ok-injective h)
        (ground arith)
  terms_hold fields before bcs bxs (f ∷ order) [] cs xs r k n m h = cc
  terms_hold fields before bcs bxs (f ∷ order) (v ∷ vals) [] xs r k n m h = elim m [ ]
  terms_hold fields before bcs bxs (f ∷ order) (v ∷ vals) (c ∷ cs) [] r k n m h = elim m [ ]
  terms_hold fields before bcs bxs (f ∷ order) (v ∷ vals) (c ∷ cs) (x ∷ xs) r k n
        (at_c, at_x, plain, m) h =
      let (chain, more, equal_before, others, shape) =
        lexicographic_terms_inv j fields before f order v vals c x at_c at_x plain h in
      subst
        (λ ts. any (λ t. p.holds t r) ts ≡ (
          agrees r bcs bxs
          && after p.compare (directions (f ∷ order)) (values (c ∷ cs) r) (x ∷ xs)))
        shape
        (first_or_later (agrees r bcs bxs) (is_beyond f.direction (p.compare (p.value c r) x))
          (is_eq (p.compare (p.value c r) x)) (after p.compare (directions order) (values cs r) xs)
          (term_holds f.direction c x r chain)
          (equalities_hold fields before bcs bxs r k equal_before)
          (terms_hold fields (before ++ (f, v) ∷ []) (bcs ++ c ∷ []) (bxs ++ x ∷ []) order vals cs
            xs r (Resolved-concat j fields before bcs bxs f v c x k (at_c, at_x, plain, tt))
            (lengths bcs bxs c x n) m others)
          (agrees-concat r bcs bxs c x n))

  length-values : (cs : List j.Column) (r : Model) → length (values cs r) ≡ length cs
  length-values [] r = refl
  length-values (c ∷ cs) r = ap suc (length-values cs r)

  length-directions : (fs : List OrderField) → length (directions fs) ≡ length fs
  length-directions [] = refl
  length-directions (f ∷ fs) = ap suc (length-directions fs)

  rows_after :
      (f : OrderField) (order : List OrderField) (cs : List j.Column) (xs : List j.Literal)
      (r : Model) (d : SortDirection)
      → AllDirection d (directions (f ∷ order))
      → length (f ∷ order) ≡ length cs
      → length (f ∷ order) ≡ length xs
      → is_beyond d (compare_rows p.compare (values cs r) xs)
        ≡ after p.compare (directions (f ∷ order)) (values cs r) xs
  rows_after f order cs xs r d u n o =
      let ds = length-directions (f ∷ order) in
      compare_rows-after p.compare d (directions (f ∷ order)) (values cs r) xs u
        (omega (arith, length-values cs r, ds)) (omega (arith, ds))

  tuple_condition_holds :
      (f : OrderField) (order : List OrderField) (cs : List j.Column) (xs : List j.Literal)
      (r : Model) (d : SortDirection)
      → f.direction ≡ d
      → AllDirection d (directions (f ∷ order))
      → length (f ∷ order) ≡ length cs
      → length (f ∷ order) ≡ length xs
      → p.holds (tuple_condition j (f ∷ order) cs xs) r
        ≡ after p.compare (directions (f ∷ order)) (values cs r) xs
  tuple_condition_holds f order cs xs r asc e u n o =
      ap (λ d. p.holds (if is_desc d then j.row_less cs xs else j.row_greater cs xs) r) e
      ∙ p.holds-row_greater cs xs r (omega arith)
      ∙ rows_after f order cs xs r asc u n o
  tuple_condition_holds f order cs xs r desc e u n o =
      ap (λ d. p.holds (if is_desc d then j.row_less cs xs else j.row_greater cs xs) r) e
      ∙ p.holds-row_less cs xs r (omega arith)
      ∙ rows_after f order cs xs r desc u n o

  tuple_comparison_holds :
      (fields : Fields g Model j) (f : OrderField) (order : List OrderField) (vals : List (Value g))
      (cs : List j.Column) (xs : List j.Literal) (r : Model) {cond : j.Condition}
      → is_uniform_direction (f ∷ order) ≡ true
      → tuple_parts j fields (f ∷ order) vals ≡ ok (cs, xs)
      → length (f ∷ order) ≡ length cs
      → length (f ∷ order) ≡ length xs
      → build_tuple_comparison j fields (f ∷ order) vals ≡ ok cond
      → p.holds cond r ≡ after p.compare (directions (f ∷ order)) (values cs r) xs
  unfolding build_tuple_comparison
  tuple_comparison_holds fields f order vals cs xs r u parts n o built =
      subst (λ c. p.holds c r ≡ after p.compare (directions (f ∷ order)) (values cs r) xs)
        (ok-injective (rw parts at built))
        (tuple_condition_holds f order cs xs r f.direction refl
          ((is_uniform_direction_iff f order).0 u) n o)

  fallback_holds :
      (fields : Fields g Model j) (order : List OrderField) (vals : List (Value g))
      (cs : List j.Column) (xs : List j.Literal) (r : Model) {cond : j.Condition}
      → Resolved j fields (zipped order vals) cs xs
      → build_lexicographic_fallback j fields order vals ≡ ok cond
      → p.holds cond r ≡ after p.compare (directions order) (values cs r) xs
  unfolding build_lexicographic_fallback
  fallback_holds fields order vals cs xs r m built =
      let (ts, terms, e) = >>=-eq-ok (lexicographic_terms j fields [] order vals) _ built in
      subst (λ c. p.holds c r ≡ after p.compare (directions order) (values cs r) xs)
        (ok-injective e)
        (p.holds-or_of ts r ∙ terms_hold fields [] [] [] order vals cs xs r tt refl m terms)

  -- The keyset condition holds of a row exactly if the row comes behind the cursor: in the first
  -- column where the row's value and the cursor's differ, it is larger where that column ascends
  -- and smaller where it descends. This is so for orderings of one direction and for mixed ones.
  -- No column is a timestamp without time zone.
  pub build_keyset_condition-after :
      (fields : Fields g Model j) (order : List OrderField) (vals : List (Value g)) (r : Model)
      {cs : List j.Column} {xs : List j.Literal} {cond : j.Condition}
      → All (λ c. j.implements c timestamp_expression ≡ false) cs
      → tuple_parts j fields order vals ≡ ok (cs, xs)
      → build_keyset_condition j fields (record { fields = order }) vals ≡ ok (some cond)
      → p.holds cond r ≡ after p.compare (directions order) (values cs r) xs
  build_keyset_condition-after fields [] [] r plain parts h =
      absurd (unfold build_keyset_condition in cc h)
  build_keyset_condition-after fields [] (v ∷ vals) r plain parts h =
      absurd (unfold build_keyset_condition in cc h)
  build_keyset_condition-after fields (f ∷ order) vals r {cs} {xs} plain parts h =
      let (same_length, way) = build_keyset_condition_inv j fields (f ∷ order) vals h in
      let (m, n, o) = tuple_parts-Resolved j fields (f ∷ order) vals parts same_length plain in
      elim way [
        | inl (u, built) ↦ tuple_comparison_holds fields f order vals cs xs r u parts n o built
        | inr built ↦ fallback_holds fields (f ∷ order) vals cs xs r m built
      ]
