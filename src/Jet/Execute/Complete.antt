-- ===== src/Jet/Execute/Complete.antt =====
-- A client that follows the page tokens to the end is given every row once, in order.
use protoc_gen_go_jet.Common.{
  ℕ, zero, suc, ◌^◌, ◌<◌, ℤ, pos, Text, Bool, ◌&&◌, List, [], ◌∷◌, ◌++◌, Option, ◌≡◌, refl, ◌∙◌,
  subst, take, filterb, is_empty, if◌then◌else◌,
}
use protoc_gen_go_jet.Common.Sorted.{
  IsSorted, IsSorted-filterb, filterb-behind, filterb_and, filterb_same,
}
use protoc_gen_go_jet.Aip.Errors.{Result, ok, panic, ◌>>=◌, wrap_aip_error}
use protoc_gen_go_jet.Aip.Order.{OrderField, is_desc}
use protoc_gen_go_jet.Aip.Runtime.{Go, GoLaws, Value}
use protoc_gen_go_jet.Jet.Sql.{Jet, Postgres}
use protoc_gen_go_jet.Jet.Schema.{Schema}
use protoc_gen_go_jet.Jet.Plan.{Params, effective_page_size, build_plan}
use protoc_gen_go_jet.Jet.Keyset.{build_keyset_condition}
use protoc_gen_go_jet.Jet.Keyset.After.{directions, after, after_irrefl, after_asym}
use protoc_gen_go_jet.Jet.Keyset.Meaning.{values}
use protoc_gen_go_jet.Jet.Execute.{
  Query, rows, order_by_clauses, combine_conditions, finish_page, execute_with_condition,
}
use protoc_gen_go_jet.Jet.Execute.Faithful.{IsFaithful, column_found}
use protoc_gen_go_jet.Jet.Execute.Page.{query_limit_lem, satisfies, combine_conditions-and}
use protoc_gen_go_jet.Jet.Execute.Request.{plan_of}

-- The client: it sends the token of each page with the next request, until there is none. Request
-- `k` reads the clock at `validated k` and at `issued k`.
module _ {g : Go} {Model : Type 0} {j : Jet g Model} (s : Schema g Model j) (params : Params)
    (query : Query g Model j) (base : Option j.Condition) (validated issued : ℕ → ℤ) where
  unfoldable pub fetch_all : ℕ → ℕ → Text → Result (List Model)
  fetch_all zero k token = panic
  fetch_all (suc fuel) k token = do
    (page, next) ←
        execute_with_condition j (validated k) (issued k) s (record params { page_token = token })
          query base
    let more = fetch_all fuel (suc k) next
    if is_empty next then ok page else (do later ← more; ok (page ++ later))

module _ {g : Go} {Model : Type 0} {j : Jet g Model} (p : Postgres g Model j) where
  -- `x` comes behind `y` in an ordering with these columns.
  abbrev pub behind : List OrderField → List j.Column → Model → Model → Bool
  behind order cs x y = after p.compare (directions order) (values p cs x) (values p cs y)

  abbrev pub clauses_of : List OrderField → List j.Column → List j.Clause
  clauses_of (f ∷ order) (c ∷ cs) =
      (if is_desc f.direction then j.desc_clause c else j.asc_clause c) ∷ clauses_of order cs
  clauses_of _ _ = []

  order_by_clauses_built :
      (s : Schema g Model j) (order : List OrderField) (cs : List j.Column)
      → IsFaithful p s order cs
      → order_by_clauses j s.fields order ≡ ok (clauses_of order cs)
  unfolding order_by_clauses
  order_by_clauses_built s [] [] h = refl
  order_by_clauses_built s (f ∷ order) (c ∷ cs) (k, h) =
      rw (column_found p s k, order_by_clauses_built s order cs h)
  order_by_clauses_built s [] (c ∷ cs) h = elim h [ ]
  order_by_clauses_built s (f ∷ order) [] h = elim h [ ]

  module _ (l : GoLaws g) (s : Schema g Model j) (f : OrderField) (order : List OrderField)
      (c : j.Column) (cs : List j.Column) (h : IsFaithful p s (f ∷ order) (c ∷ cs))
      (query : Query g Model j) (base : Option j.Condition) (table : List Model) where
    -- The query answers from the table, which is in the order of the clauses.
    abbrev pub Answers : Type 0
    Answers =
        (m : ℕ) (w : Option j.Condition)
        → query (clauses_of (f ∷ order) (c ∷ cs)) (pos m) w
          ≡ rows (take m (filterb (satisfies p w) table))

    abbrev pub result : List Model
    result = filterb (satisfies p base) table

    filterb_combined :
        (w : Option j.Condition)
        → filterb (satisfies p (combine_conditions j (base ∷ w ∷ []))) table
          ≡ filterb (satisfies p w) result
    filterb_combined w =
        filterb_same _ (λ x. satisfies p base x && satisfies p w x) table
          (combine_conditions-and p base w)
        ∙ filterb_and (satisfies p base) (satisfies p w) table

    -- The rows behind the one at a position are those that follow it.
    pub filterb-drop :
        (front : List Model) (x : Model) (rest : List Model)
        → IsSorted (behind (f ∷ order) (c ∷ cs)) table
        → result ≡ front ++ x ∷ rest
        → filterb (λ y. behind (f ∷ order) (c ∷ cs) y x) result ≡ rest
    filterb-drop front x rest sorted e = rw e (
        filterb-behind (behind (f ∷ order) (c ∷ cs))
          (λ y.
            after_irrefl p.compare p.compare_self (directions (f ∷ order)) (values p (c ∷ cs) y))
          (λ y z.
            after_asym p.compare p.compare_flip (directions (f ∷ order)) (values p (c ∷ cs) y)
              (values p (c ∷ cs) z))
          front x rest
          (subst (IsSorted (behind (f ∷ order) (c ∷ cs))) e
            (IsSorted-filterb _ (satisfies p base) table sorted)))

    -- One request, from its plan and the condition of its cursor.
    pub executed :
        (validated issued : ℤ) (params : Params) (n : ℕ) (vals : List (Value g))
        (w : Option j.Condition)
        → build_plan validated s params ≡ ok (plan_of s params (record { fields = f ∷ order }) vals)
        → build_keyset_condition j s.fields (record { fields = f ∷ order }) vals ≡ ok w
        → Answers
        → effective_page_size s.default_page_size s.max_page_size params.page_size ≡ pos (suc n)
        → suc (suc n) < 2 ^ 31
        → execute_with_condition j validated issued s params query base
          ≡ finish_page j issued s
              (plan_of s params (record { fields = f ∷ order }) vals)
              (rows (take (suc (suc n)) (filterb (satisfies p w) result)))
    unfolding execute_with_condition wrap_aip_error
    executed validated issued params n vals w planned conditioned answers size small = rw (
      planned,
      conditioned,
      order_by_clauses_built s (f ∷ order) (c ∷ cs) h,
      size,
      query_limit_lem (suc n) small,
      answers (suc (suc n)) (combine_conditions j (base ∷ w ∷ [])),
      filterb_combined w,
    )
