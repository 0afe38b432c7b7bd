-- ===== src/Jet/Execute/Pages.antt =====
-- The pages of a query: each request continues where the previous one ended.
use protoc_gen_go_jet.Common.{
  ℕ, zero, suc, ◌^◌, ◌≤◌, ◌<◌, ℤ, pos, ◌-ℤ◌, ◌≤ℤ◌, Text, Bool, true, false, List, [], ◌∷◌, ◌++◌,
  Option, none, some, ◌≡◌, ◌≢◌, refl, sym, ◌∙◌, ap, ◌⊎◌, inl, inr, length, take, drop, filterb,
  is_empty, arith, take-append-drop, length-drop, append_assoc, leb, Bool-cases, All,
}
use protoc_gen_go_jet.Common.Sorted.{IsSorted, filterb_same, filterb_id, split_at}
use protoc_gen_go_jet.Aip.Errors.{ok}
use protoc_gen_go_jet.Aip.Order.{OrderField}
use protoc_gen_go_jet.Aip.Runtime.{Go, GoLaws, Value}
use protoc_gen_go_jet.Aip.Page.RoundTrip.{encode_token-ne-nil}
use protoc_gen_go_jet.Aip.Page.{token_max_age, encode_token}
use protoc_gen_go_jet.Jet.Sql.{Jet, Postgres}
use protoc_gen_go_jet.Jet.Schema.{Schema, effective_order_by}
use protoc_gen_go_jet.Jet.Plan.{Params, effective_page_size, build_plan}
use protoc_gen_go_jet.Jet.Keyset.{build_keyset_condition}
use protoc_gen_go_jet.Jet.Keyset.Meaning.{build_keyset_condition-after}
use protoc_gen_go_jet.Jet.Execute.{Query, rows, finish_page, execute_with_condition}
use protoc_gen_go_jet.Jet.Execute.Faithful.{
  IsFaithful, raw_values, decoded_values, extracted, parts,
}
use protoc_gen_go_jet.Jet.Execute.Cursor.{zoned_columns, condition_built}
use protoc_gen_go_jet.Jet.Execute.Page.{satisfies, finish_page-last, finish_page-more, token_issued}
use protoc_gen_go_jet.Jet.Execute.Request.{plan_of, build_plan-first, build_plan-next}
use protoc_gen_go_jet.Jet.Execute.Complete.{
  fetch_all, behind, Answers, result, filterb-drop, executed,
}

at_most_or_more : (a b : ℕ) → (a ≤ b) ⊎ (b < a)
at_most_or_more a b = elim (Bool-cases (leb a b)) [
  | inl e ↦ inl (ground arith)
  | inr e ↦ inr (ground arith)
]

module _ {g : Go} {Model : Type 0} {j : Jet g Model} (p : Postgres g Model j) (l : GoLaws g)
    (s : Schema g Model j) (f : OrderField) (order : List OrderField) (c : j.Column)
    (cs : List j.Column) (h : IsFaithful p s (f ∷ order) (c ∷ cs)) (params : Params)
    (query : Query g Model j) (base : Option j.Condition) (validated issued : ℕ → ℤ)
    (table : List Model) (n : ℕ) where
  -- Request `k` with this token is planned, and is left with these rows.
  record Position (k : ℕ) (token : Text) (rest : List Model) : Type 0 where
    vals : List (Value g)
    condition : Option j.Condition
    planned :
        build_plan (validated k) s (record params { page_token = token })
        ≡ ok (plan_of s params (record { fields = f ∷ order }) vals)
    conditioned :
        build_keyset_condition j s.fields (record { fields = f ∷ order }) vals ≡ ok condition
    left : filterb (satisfies p condition) (result p l s f order c cs h query base table) ≡ rest
    front : List Model
    suffix : result p l s f order c cs h query base table ≡ front ++ rest

  module _ (order_ok : effective_order_by s params.order_by ≡ ok (record { fields = f ∷ order }))
      (sorted : IsSorted (behind p (f ∷ order) (c ∷ cs)) table)
      (answers : Answers p l s f order c cs h query base table)
      (size : effective_page_size s.default_page_size s.max_page_size params.page_size
        ≡ pos (suc n))
      (small : suc (suc n) < 2 ^ 31)
      (fresh : (k : ℕ) → validated (suc k) -ℤ issued k ≤ℤ token_max_age) where
    no_condition : build_keyset_condition j s.fields (record { fields = f ∷ order }) [] ≡ ok none
    unfolding build_keyset_condition
    no_condition = refl

    at_start : Position 0 [] (result p l s f order c cs h query base table)
    at_start = record {
      vals = [];
      condition = none;
      planned =
          build_plan-first s (validated 0) (record params { page_token = [] })
            (record { fields = f ∷ order }) order_ok refl;
      conditioned = no_condition;
      left = filterb_id _ _ (always _);
      front = [];
      suffix = refl;
    }
      where
        always : (xs : List Model) → All (λ x. satisfies p none x ≡ true) xs
        always [] = tt
        always (x ∷ xs) = (refl, always xs)

    served :
        (k : ℕ) (token : Text) (rest : List Model) (q : Position k token rest)
        → execute_with_condition j
            (validated k)
            (issued k)
            s
            (record params { page_token = token })
            query
            base
          ≡ finish_page j
              (issued k)
              s
              (plan_of s params (record { fields = f ∷ order }) q.vals)
              (rows (take (suc (suc n)) rest))
    served k token rest q =
        executed p l s f order c cs h query base table (validated k) (issued k)
          (record params { page_token = token }) n q.vals q.condition q.planned q.conditioned
          answers size small
        ∙ ap
            (λ rs.
              finish_page j (issued k) s (plan_of s params (record { fields = f ∷ order }) q.vals)
                (rows (take (suc (suc n)) rs)))
            q.left

    continued :
        (k : ℕ) (x : Model) (token : Text) (front rest : List Model)
        → result p l s f order c cs h query base table ≡ front ++ x ∷ rest
        → encode_token g
            (issued k)
            s.resource_type
            (raw_values p s (f ∷ order) (c ∷ cs) h x)
            (record { fields = f ∷ order })
            params.filter
            s.cached_codecs
          ≡ ok token
        → Position (suc k) token rest
    continued k x token front rest e made =
        let (w, built) = condition_built p s f order c cs h x in
        let meaning : (r : Model) → p.holds w r ≡ behind p (f ∷ order) (c ∷ cs) r x = λ r.
          build_keyset_condition-after p s.fields (f ∷ order)
            (decoded_values p s (f ∷ order) (c ∷ cs) h x) r
            (zoned_columns p s (f ∷ order) (c ∷ cs) h) (parts p s (f ∷ order) (c ∷ cs) h x) built in
        record {
          vals = decoded_values p s (f ∷ order) (c ∷ cs) h x;
          condition = some w;
          planned =
              build_plan-next p l s (issued k) (validated (suc k))
                (record params { page_token = token }) f order (c ∷ cs) h x order_ok made (fresh k);
          conditioned = built;
          left =
              filterb_same _ _ _ meaning
              ∙ filterb-drop p l s f order c cs h query base table front x rest sorted e;
          front = front ++ x ∷ [];
          suffix = e ∙ sym (append_assoc front (x ∷ []) rest);
        }

    not_empty : (t : Text) → t ≢ [] → is_empty t ≡ false
    not_empty [] h = absurd (h refl)
    not_empty (b ∷ t) h = refl

    fetched :
        (fuel k : ℕ) (token : Text) (rest : List Model)
        → Position k token rest
        → length rest < fuel
        → fetch_all s params query base validated issued fuel k token ≡ ok rest
    unfolding fetch_all
    fetched zero k token rest q enough = absurd (omega arith)
    fetched (suc fuel) k token rest q enough = elim (at_most_or_more (length rest) (suc n)) [
      | inl fits ↦
          rw
            (
              served k token rest q,
              finish_page-last s (issued k)
                  (plan_of s params (record { fields = f ∷ order }) q.vals) n rest size fits,
            )
            refl
      | inr more ↦
          let (x, at_n, e) = split_at n rest (omega arith) in
          let (next, made) = token_issued p l s (issued k) (f ∷ order) (c ∷ cs) h x params.filter in
          let some_next = not_empty next (
            encode_token-ne-nil g l (issued k) s.resource_type params.filter _ _ s.cached_codecs
              made) in
          let further =
            fetched fuel (suc k) next (drop (suc n) rest)
              (continued k x next (q.front ++ take n rest) (drop (suc n) rest)
                (q.suffix
                  ∙ ap (λ rs. q.front ++ rs) e
                  ∙ sym (append_assoc q.front (take n rest) (x ∷ drop (suc n) rest)))
                made)
              (omega (arith, length-drop (suc n) rest)) in
          rw
            (
              served k token rest q,
              finish_page-more s (issued k)
                  (plan_of s params (record { fields = f ∷ order }) q.vals) n rest x _ size more
                  at_n (extracted p s (f ∷ order) (c ∷ cs) h x) made,
              some_next,
              further,
            )
            (ap ok (take-append-drop (suc n) rest))
    ]

length-filterb {ℓ} : {A : Type ℓ} (q : A → Bool) (xs : List A) → length (filterb q xs) ≤ length xs
length-filterb q [] = omega arith
length-filterb q (x ∷ xs) = elim (Bool-cases (q x)) [
  | inl e ↦ rw e (let n = length-filterb q xs in omega arith)
  | inr e ↦ rw e (let n = length-filterb q xs in omega arith)
]

-- A client that follows the page tokens to the end gets each row that matches the base condition
-- exactly once, in the order of the query, and more requests than the table has rows are enough
-- for it. The ordering of the requests is accepted and its fields are faithful: their getters,
-- codecs and columns agree. The database answers each query with the first rows, up to its limit,
-- of those that its condition keeps in a table whose rows the ordering sorts without ties. The page
-- size is positive and its successor is below 2^31, and each token is used within its life of 24
-- hours.
pub fetch_all_complete :
    {g : Go} {Model : Type 0} {j : Jet g Model} (p : Postgres g Model j) (l : GoLaws g)
    (s : Schema g Model j) (f : OrderField) (order : List OrderField) (c : j.Column)
    (cs : List j.Column) (h : IsFaithful p s (f ∷ order) (c ∷ cs)) (params : Params)
    (query : Query g Model j) (base : Option j.Condition) (validated issued : ℕ → ℤ)
    (table : List Model) (n fuel : ℕ)
    → effective_order_by s params.order_by ≡ ok (record { fields = f ∷ order })
    → IsSorted (behind p (f ∷ order) (c ∷ cs)) table
    → Answers p l s f order c cs h query base table
    → effective_page_size s.default_page_size s.max_page_size params.page_size ≡ pos (suc n)
    → suc (suc n) < 2 ^ 31
    → ((k : ℕ) → validated (suc k) -ℤ issued k ≤ℤ token_max_age)
    → length table < fuel
    → fetch_all s params query base validated issued fuel 0 []
      ≡ ok (filterb (satisfies p base) table)
fetch_all_complete p l s f order c cs h params query base validated issued table n fuel order_ok
      sorted answers size small fresh enough =
    fetched p l s f order c cs h params query base validated issued table n order_ok sorted answers
      size small fresh fuel 0 [] _
      (at_start p l s f order c cs h params query base validated issued table n order_ok sorted
        answers size small fresh)
      (let fewer = length-filterb (satisfies p base) table in omega arith)
