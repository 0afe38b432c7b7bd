-- ===== src/Jet/Plan/Errors.antt =====
-- What a request that is refused is refused with.
use protoc_gen_go_jet.Common.{ℤ, Bool, true, ◌||◌, ◌≡◌, arith}
use protoc_gen_go_jet.Aip.Errors.{
  invalid_order_by, invalid_page_token, filter_mismatch, Error, Result, ok, err, panic, ◌>>=◌, is,
  wrap_aip_error,
}
use protoc_gen_go_jet.Aip.Runtime.{Go}
use protoc_gen_go_jet.Aip.Page.{decode_token, validate_token}
use protoc_gen_go_jet.Jet.Sql.{Jet}
use protoc_gen_go_jet.Jet.Schema.{Schema, effective_order_by}
use protoc_gen_go_jet.Jet.Cursor.{decode_cursor_values}
use protoc_gen_go_jet.Jet.Plan.{Params, wrap_validation, build_plan}

-- One of the three errors that the services map to InvalidArgument.
abbrev pub is_request_error : Error → Bool
is_request_error e = is e invalid_order_by || is e invalid_page_token || is e filter_mismatch

abbrev pub IsRequestError {ℓ} : {A : Type ℓ} → Result A → Type 0
IsRequestError (ok a) = Unit
IsRequestError (err e) = is_request_error e ≡ true
IsRequestError panic = Unit

bind-IsRequestError {ℓ κ} :
    {A : Type ℓ} {B : Type κ} (m : Result A) (f : A → Result B)
    → IsRequestError m
    → ((a : A) → IsRequestError (f a))
    → IsRequestError (m >>= f)
bind-IsRequestError panic f h k = tt
bind-IsRequestError (err e) f h k = h
bind-IsRequestError (ok a) f h k = k a

order_wrapped {ℓ} : {A : Type ℓ} (r : Result A) → IsRequestError (wrap_aip_error r invalid_order_by)
unfolding wrap_aip_error
order_wrapped (ok a) = tt
order_wrapped (err e) = ground arith
order_wrapped panic = tt

token_wrapped {ℓ} :
    {A : Type ℓ} (r : Result A) → IsRequestError (wrap_aip_error r invalid_page_token)
unfolding wrap_aip_error
token_wrapped (ok a) = tt
token_wrapped (err e) = ground arith
token_wrapped panic = tt

validation_wrapped {ℓ} : {A : Type ℓ} (r : Result A) → IsRequestError (wrap_validation r)
unfolding wrap_validation wrap_aip_error
validation_wrapped (ok a) = tt
validation_wrapped (err e) = ground arith
validation_wrapped panic = tt

-- A request that has no plan for an error has one of the three that `errors.Is` can tell: an invalid
-- ordering, an invalid page token, or a filter that is not the token's.
pub build_plan-IsRequestError :
    {g : Go} {Model : Type 0} {j : Jet g Model} (now : ℤ) (s : Schema g Model j) (params : Params)
    → IsRequestError (build_plan now s params)
unfolding build_plan
build_plan-IsRequestError now s params =
    bind-IsRequestError (wrap_aip_error (effective_order_by s params.order_by) invalid_order_by) _
      (order_wrapped (effective_order_by s params.order_by))
      (λ order. bind-IsRequestError _ _ (token_wrapped (decode_token _ params.page_token)) (λ tok.
        bind-IsRequestError _ _
          (validation_wrapped (validate_token _ now tok s.resource_type params.filter))
          (λ u.
            bind-IsRequestError _ _ (token_wrapped (decode_cursor_values s tok order))
              (λ vals. tt))))
