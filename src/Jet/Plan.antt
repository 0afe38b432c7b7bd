-- ===== src/Jet/Plan.antt =====
-- pkg/aip/jet/plan.go and pkg/aip/plan.go: from the parameters of a request to a validated plan.
pub mod Errors
pub mod Size
use protoc_gen_go_jet.Common.{ℤ, pos, ltb_ℤ, leb_ℤ, Text, List, if◌then◌else◌}
use protoc_gen_go_jet.Aip.Errors.{
  invalid_order_by, invalid_page_token, filter_mismatch, is, Result, ok, err, panic, ◌>>=◌, ◌>>◌,
  wrap_aip_error,
}
use protoc_gen_go_jet.Aip.Order.{OrderBy}
use protoc_gen_go_jet.Aip.Runtime.{Go, Value}
use protoc_gen_go_jet.Aip.Page.{decode_token, validate_token}
use protoc_gen_go_jet.Jet.Sql.{Jet}
use protoc_gen_go_jet.Jet.Schema.{Schema, effective_order_by}
use protoc_gen_go_jet.Jet.Cursor.{decode_cursor_values}

pub record Params : Type 0 where
  pub page_size : ℤ
  pub page_token : Text
  pub filter : Text
  pub order_by : Text

pub record Plan (g : Go) : Type 0 where
  pub page_size : ℤ
  pub filter : Text
  pub order_by : OrderBy
  pub cursor_values : List (Value g)

-- The default for a size that is not positive, then the bound.
unfoldable pub effective_page_size : ℤ → ℤ → ℤ → ℤ
effective_page_size default max requested =
    let size = if leb_ℤ requested (pos 0) then default else requested in
    if ltb_ℤ max size then max else size

-- A filter mismatch is passed on as it is; any other failure becomes an invalid page token.
unfoldable pub wrap_validation {ℓ} : {A : Type ℓ} → Result A → Result A
unfolding wrap_aip_error
wrap_validation (ok a) = ok a
wrap_validation (err e) =
    if is e filter_mismatch then err e else wrap_aip_error (err e) invalid_page_token
wrap_validation panic = panic

module _ {g : Go} {Model : Type 0} {j : Jet g Model} where
  unfoldable pub build_plan : ℤ → Schema g Model j → Params → Result (Plan g)
  build_plan now s params = do
    order_by ← wrap_aip_error (effective_order_by s params.order_by) invalid_order_by
    tok ← wrap_aip_error (decode_token g params.page_token) invalid_page_token
    wrap_validation (validate_token g now tok s.resource_type params.filter)
    values ← wrap_aip_error (decode_cursor_values s tok order_by) invalid_page_token
    ok (record {
      page_size = effective_page_size s.default_page_size s.max_page_size params.page_size;
      filter = params.filter;
      order_by = order_by;
      cursor_values = values;
    })
