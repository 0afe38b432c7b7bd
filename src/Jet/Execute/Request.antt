-- ===== src/Jet/Execute/Request.antt =====
-- The plan of a request, for the first page and for the page behind a token.
use protoc_gen_go_jet.Common.{ℤ, ◌-ℤ◌, ◌≤ℤ◌, List, [], ◌∷◌, some, ◌≡◌, refl, sym, ◌∙◌, ap}
use protoc_gen_go_jet.Aip.Errors.{ok, ok-injective, wrap_aip_error}
use protoc_gen_go_jet.Aip.Order.{OrderField, OrderBy}
use protoc_gen_go_jet.Aip.Runtime.{Go, GoLaws, Value}
use protoc_gen_go_jet.Aip.Page.{
  token_max_age, make_token, encode_token, decode_token, validate_token,
}
use protoc_gen_go_jet.Aip.Page.RoundTrip.{decode_made, validate_token_iff}
use protoc_gen_go_jet.Jet.Sql.{Jet, Postgres}
use protoc_gen_go_jet.Jet.Schema.{Schema, effective_order_by}
use protoc_gen_go_jet.Jet.Cursor.{decode_cursor_values}
use protoc_gen_go_jet.Jet.Plan.{Params, Plan, effective_page_size, wrap_validation, build_plan}
use protoc_gen_go_jet.Jet.Execute.Faithful.{IsFaithful, raw_values, texts, decoded_values, encoded}
use protoc_gen_go_jet.Jet.Execute.Page.{cursor_decoded}

module _ {g : Go} {Model : Type 0} {j : Jet g Model} (s : Schema g Model j) where
  abbrev pub plan_of : Params → OrderBy → List (Value g) → Plan g
  plan_of params ob vals = record {
    page_size = effective_page_size s.default_page_size s.max_page_size params.page_size;
    filter = params.filter;
    order_by = ob;
    cursor_values = vals;
  }

  pub build_plan-first :
      (now : ℤ) (params : Params) (ob : OrderBy)
      → effective_order_by s params.order_by ≡ ok ob
      → params.page_token ≡ []
      → build_plan now s params ≡ ok (plan_of params ob [])
  unfolding build_plan wrap_aip_error wrap_validation decode_token validate_token
      decode_cursor_values
  build_plan-first now params ob order first = rw (order, first)

module _ {g : Go} {Model : Type 0} {j : Jet g Model} (p : Postgres g Model j) (l : GoLaws g)
    (s : Schema g Model j) where
  decoded :
      (issued : ℤ) (params : Params) (f : OrderField) (order : List OrderField) (cs : List j.Column)
      (h : IsFaithful p s (f ∷ order) cs) (r : Model)
      → encode_token g issued s.resource_type
          (raw_values p s (f ∷ order) cs h r)
          (record { fields = f ∷ order })
          params.filter
          s.cached_codecs
        ≡ ok params.page_token
      → decode_token g params.page_token
        ≡ ok (
            some (
              make_token g issued s.resource_type
                (texts p s (f ∷ order) cs h r)
                (f ∷ order)
                params.filter))
  decoded issued params f order cs h r token =
      let (ts, written, back) =
        decode_made g l issued s.resource_type _ _ params.filter s.cached_codecs token in
      let same : ts ≡ texts p s (f ∷ order) cs h r =
        ok-injective (sym written ∙ encoded p s (f ∷ order) cs h r) in
      back
      ∙ ap (λ ts. ok (some (make_token g issued s.resource_type ts (f ∷ order) params.filter))) same

  valid :
      (issued now : ℤ) (params : Params) (f : OrderField) (order : List OrderField)
      (cs : List j.Column) (h : IsFaithful p s (f ∷ order) cs) (r : Model)
      → now -ℤ issued ≤ℤ token_max_age
      → validate_token g now
          (some (
            make_token g issued s.resource_type
              (texts p s (f ∷ order) cs h r)
              (f ∷ order)
              params.filter))
          s.resource_type
          params.filter
        ≡ ok tt
  unfolding make_token
  valid issued now params f order cs h r fresh =
      (validate_token_iff g now
          (make_token g issued s.resource_type (texts p s (f ∷ order) cs h r) (f ∷ order)
            params.filter)
          s.resource_type params.filter).1
        (fresh, refl, refl)

  pub build_plan-next :
      (issued now : ℤ) (params : Params) (f : OrderField) (order : List OrderField)
      (cs : List j.Column) (h : IsFaithful p s (f ∷ order) cs) (r : Model)
      → effective_order_by s params.order_by ≡ ok (record { fields = f ∷ order })
      → encode_token g issued s.resource_type
          (raw_values p s (f ∷ order) cs h r)
          (record { fields = f ∷ order })
          params.filter
          s.cached_codecs
        ≡ ok params.page_token
      → now -ℤ issued ≤ℤ token_max_age
      → build_plan now s params
        ≡ ok (
            plan_of s params
              (record { fields = f ∷ order })
              (decoded_values p s (f ∷ order) cs h r))
  unfolding build_plan wrap_aip_error wrap_validation
  build_plan-next issued now params f order cs h r order_ok token fresh = rw (
    order_ok,
    decoded issued params f order cs h r token,
    valid issued now params f order cs h r fresh,
    cursor_decoded p l s issued f order cs h r params.filter,
  )
