-- ===== src/Jet/Execute.antt =====
-- pkg/aip/jet/execute.go: a paginated list query, from the parameters to a page and its next token.
pub mod Faithful
mod Cursor
pub mod Page
mod Request
pub mod Complete
pub mod Limit
pub mod Pages
use protoc_gen_go_jet.Common.{
  ℕ, zero, suc, ◌-◌, ℤ, pos, negsuc, pos_part, ◌+ℤ◌, leb_ℤ, ltb_ℤ, wrap_int32, Text, Bool, true,
  false, not, List, [], ◌∷◌, ◌++◌, Option, none, some, length, is_empty, get_elem?, take,
  if◌then◌else◌, leb, ltb,
}
use protoc_gen_go_jet.Aip.Errors.{
  Error, plain, invalid_page_token, Result, ok, err, panic, fail, ◌>>=◌, wrap_aip_error,
}
use protoc_gen_go_jet.Aip.Order.{OrderField, OrderBy, is_desc}
use protoc_gen_go_jet.Aip.Runtime.{Go, Value}
use protoc_gen_go_jet.Aip.Page.{encode_token}
use protoc_gen_go_jet.Jet.Sql.{Jet}
use protoc_gen_go_jet.Jet.Schema.{Fields, Schema}
use protoc_gen_go_jet.Jet.Cursor.{extract_cursor_values}
use protoc_gen_go_jet.Jet.Plan.{Params, Plan, build_plan}
use protoc_gen_go_jet.Jet.Keyset.{column_of, build_keyset_condition}

-- What a query comes back with: rows, `qrm.ErrNoRows`, or another error.
pub data QueryResult {ℓ} (Model : Type ℓ) : Type ℓ where
  rows : List Model → QueryResult Model
  no_rows failed : QueryResult Model

-- A base query on a database connection: it is given ORDER BY, LIMIT and, if there is one, WHERE.
abbrev pub Query : (g : Go) (Model : Type 0) → Jet g Model → Type 0
Query g Model j = List j.Clause → ℤ → Option j.Condition → QueryResult Model

-- int64(plan.PageSize + 1), the sum being an int32
unfoldable pub query_limit : ℤ → ℤ
query_limit page_size = wrap_int32 (page_size +ℤ pos 1)

-- rows[i]: out of range, a negative index included, panics
unfoldable pub row_at {ℓ} : {A : Type ℓ} → List A → ℤ → Result A
row_at rs (negsuc n) = panic
row_at rs (pos n) = elim (get_elem? rs n) [ none ↦ panic | some r ↦ ok r ]

-- rows[:size]
unfoldable pub first_rows {ℓ} : {A : Type ℓ} → List A → ℤ → Result (List A)
first_rows rs (negsuc n) = panic
first_rows rs (pos n) = if ltb (length rs) n then panic else ok (take n rs)

module _ {g : Go} {Model : Type 0} (j : Jet g Model) where
  unfoldable pub order_by_clauses : Fields g Model j → List OrderField → Result (List j.Clause)
  unfolding column_of
  order_by_clauses fields [] = ok []
  order_by_clauses fields (f ∷ order) = do
    c ← column_of j fields f.path
    rest ← order_by_clauses fields order
    ok ((if is_desc f.direction then j.desc_clause c else j.asc_clause c) ∷ rest)

  -- The loop keeps the conditions that are there.
  unfoldable pub present : List (Option j.Condition) → List j.Condition
  present [] = []
  present (none ∷ cs) = present cs
  present (some c ∷ cs) = c ∷ present cs

  unfoldable pub combine_conditions : List (Option j.Condition) → Option j.Condition
  unfolding present
  combine_conditions cs =
      let combined = present cs in if is_empty combined then none else some (j.and_of combined)

  unfoldable pub build_next_page_token : ℤ → Schema g Model j → Plan g → List Model → Result Text
  unfolding row_at extract_cursor_values
  build_next_page_token now s plan rs =
      if leb_ℤ (pos (length rs)) plan.page_size then ok [] else (do
        last ← row_at rs (plan.page_size +ℤ negsuc 0)
        values ← extract_cursor_values s.fields last plan.order_by.fields
        encode_token g now s.resource_type values plan.order_by plan.filter s.cached_codecs)

  -- What is done with the rows; `now` is the time of the new token.
  unfoldable pub finish_page :
      ℤ → Schema g Model j → Plan g → QueryResult Model → Result (List Model × Text)
  unfolding build_next_page_token first_rows
  finish_page now s plan no_rows = ok ([], [])
  finish_page now s plan failed = fail [] plain
  finish_page now s plan (rows rs) = do
    next ← build_next_page_token now s plan rs
    page ← (if ltb_ℤ plan.page_size (pos (length rs)) then first_rows rs plan.page_size else ok rs)
    ok (page, next)

  -- The request reads the clock twice: to validate its token, and to issue the next one.
  unfoldable pub execute_with_condition :
      (validated issued : ℤ)
      → Schema g Model j
      → Params
      → Query g Model j
      → Option j.Condition
      → Result (List Model × Text)
  execute_with_condition validated issued s params base_query base_condition = do
    plan ← build_plan validated s params
    cursor ←
        wrap_aip_error (build_keyset_condition j s.fields plan.order_by plan.cursor_values)
          invalid_page_token
    clauses ← order_by_clauses s.fields plan.order_by.fields
    finish_page issued s plan (
        base_query clauses (query_limit plan.page_size)
          (combine_conditions (base_condition ∷ cursor ∷ [])))

  unfoldable pub execute :
      (validated issued : ℤ)
      → Schema g Model j
      → Params
      → Query g Model j
      → Result (List Model × Text)
  execute validated issued s params base_query =
      execute_with_condition validated issued s params base_query none
