-- ===== src/Jet/Filter.antt =====
-- pkg/aip/jet/filter.go: an AIP-160 filter becomes a condition of the query. The parser of
-- go.einride.tech/aip, the builders of go-jet and the parsers of package `time` are parameters.
pub mod Handled
pub mod Like
pub mod Truth
use protoc_gen_go_jet.Common.{
  ℕ, ℤ, Text, Bool, true, false, not, ◌||◌, List, [], ◌∷◌, ◌++◌, Option, none, some, map, is_empty,
  text_eq, codes, trim_space, utf8_length, lookup, if◌then◌else◌, ltb, ◌==◌,
}
use protoc_gen_go_jet.Aip.Errors.{
  Result, ok, err, panic, fail, ◌>>=◌, plain, unsupported_filter, filter_too_long, malformed_filter,
}
use protoc_gen_go_jet.Aip.Runtime.{Go}

-- The function names of package `filtering`; `custom` is any other.
pub data Function : Type 0 where
  and_fn or_fn not_fn : Function
  equals not_equals less_than less_equals greater_than greater_equals has : Function
  timestamp_fn duration_fn : Function
  custom : Text → Function

pub data Constant (g : Go) : Type 0 where
  null_value other_value : Constant g
  bool_value : Bool → Constant g
  int64_value : ℤ → Constant g
  uint64_value : ℕ → Constant g
  double_value : g.Float64 → Constant g
  string_value : Text → Constant g

-- The expression tree of CEL. `other_expr` is a node of another kind, a nil one included.
mutual
  pub data Expr (g : Go) : Type 0 where
    const_expr : Constant g → Expr g
    ident_expr : Text → Expr g
    select_expr : Expr g → Text → Expr g
    call_expr : Function → Args g → Expr g
    other_expr : Expr g

  pub data Args (g : Go) : Type 0 where
    no_args : Args g
    arg : Expr g → Args g → Args g

-- The interfaces of go-jet that the type switch tells apart.
pub data Interface : Type 0 where
  column_string_array column_string column_bool column_integer column_float column_timestampz :
      Interface
  string_interface bool_interface integer_interface float_interface timestampz_interface : Interface

-- The comparison methods of go-jet's typed expressions.
pub data Comparison : Type 0 where
  eq not_eq lt lt_eq gt gt_eq : Comparison

-- What the translator calls. A nil BoolExpression is `none`.
pub record Sql (g : Go) : Type 1 where
  pub Expression : Type 0
  pub Literal : Type 0
  pub Condition : Type 0
  pub implements : Expression → Interface → Bool
  pub string_of : Text → Literal
  pub bool_of : Bool → Literal
  pub int_of : ℤ → Literal
  pub float_of : g.Float64 → Literal
  pub timestampz_of : g.Time → Literal
  pub is_null : Expression → Condition
  pub is_not_null : Expression → Condition
  pub compare_with : Comparison → Expression → Literal → Condition
  pub equals_any : Literal → Expression → Condition
  pub lower_like : Expression → Literal → Condition
  pub negation : Option Condition → Condition
  pub conjunction : Condition → Option Condition → Condition
  pub disjunction : Condition → Option Condition → Condition
  pub parse_filter : Text → Option (Expr g)
  pub parse_duration : Text → Option ℤ
  pub float_of_int : ℤ → g.Float64
  pub float_of_uint : ℕ → g.Float64

abbrev pub unsupported {ℓ} : {A : Type ℓ} → Result A
unsupported = fail (unsupported_filter ∷ []) plain

abbrev pub max_filter_length : ℕ
max_filter_length = 4096

-- strings.ReplaceAll(s, c, `\c`)
abbrev pub escape : ℕ → Text → Text
escape c [] = []
escape c (d ∷ s) = if d == c then 92 ∷ d ∷ escape c s else d ∷ escape c s

-- Backslash, percent sign, underscore.
unfoldable pub escape_like : Text → Text
escape_like s = escape 95 (escape 37 (escape 92 s))

-- The first error of the source carries no sentinel; its caller adds it.
unfoldable pub flatten_ident : {g : Go} → Expr g → Option Text
flatten_ident (ident_expr name) = some name
flatten_ident (select_expr operand field) =
    let head = flatten_ident operand in
    elim head [
      | none ↦ none
      | some h ↦ if is_empty field then none else some (h ++ codes "." ++ field)
    ]
flatten_ident _ = none

unfoldable pub is_null_literal : {g : Go} → Expr g → Bool
is_null_literal (const_expr null_value) = true
is_null_literal (ident_expr name) = text_eq name (codes "null")
is_null_literal _ = false

abbrev pub is_comparator : Function → Bool
is_comparator equals = true
is_comparator not_equals = true
is_comparator less_than = true
is_comparator less_equals = true
is_comparator greater_than = true
is_comparator greater_equals = true
is_comparator has = true
is_comparator _ = false

unfoldable pub string_literal : {g : Go} → Expr g → Result Text
string_literal (const_expr (string_value s)) = ok s
string_literal _ = unsupported

unfoldable pub bool_literal : {g : Go} → Expr g → Result Bool
bool_literal (ident_expr name) =
    if text_eq name (codes "true")
    then ok true
    else if text_eq name (codes "false")
    then ok false
    else unsupported
bool_literal (const_expr (bool_value b)) = ok b
bool_literal _ = unsupported

abbrev pub or_unsupported {ℓ} : {A : Type ℓ} → Option A → Result A
or_unsupported none = unsupported
or_unsupported (some a) = ok a

-- The comparators that the ordered types share.
abbrev pub comparison_of : Function → Option Comparison
comparison_of equals = some eq
comparison_of not_equals = some not_eq
comparison_of less_than = some lt
comparison_of less_equals = some lt_eq
comparison_of greater_than = some gt
comparison_of greater_equals = some gt_eq
comparison_of _ = none

module _ {g : Go} (q : Sql g) where
  unfoldable pub integer_literal : Expr g → Result ℤ
  unfolding string_literal
  integer_literal (call_expr duration_fn (arg a no_args)) = do
    s ← string_literal a
    or_unsupported (q.parse_duration s)
  integer_literal (const_expr (int64_value i)) = ok i
  integer_literal _ = unsupported

  unfoldable pub timestamp_literal : Expr g → Result g.Time
  unfolding string_literal
  timestamp_literal (call_expr timestamp_fn (arg a no_args)) = do
    s ← string_literal a
    or_unsupported (g.parse_time s)
  timestamp_literal _ = unsupported

  unfoldable pub float_literal : Expr g → Result g.Float64
  float_literal (const_expr (double_value x)) = ok x
  float_literal (const_expr (int64_value i)) = ok (q.float_of_int i)
  float_literal (const_expr (uint64_value n)) = ok (q.float_of_uint n)
  float_literal _ = unsupported

  -- The switch of the integer, float and timestamp columns.
  abbrev pub ordered_op : Function → q.Expression → q.Literal → Result q.Condition
  ordered_op fn col x = elim (comparison_of fn) [
    | none ↦ unsupported
    | some c ↦ ok (q.compare_with c col x)
  ]

  unfoldable pub integer_op : Function → q.Expression → Expr g → Result q.Condition
  unfolding integer_literal
  integer_op fn col rhs = do n ← integer_literal rhs; ordered_op fn col (q.int_of n)

  unfoldable pub float_op : Function → q.Expression → Expr g → Result q.Condition
  unfolding float_literal
  float_op fn col rhs = do x ← float_literal rhs; ordered_op fn col (q.float_of x)

  unfoldable pub timestampz_op : Function → q.Expression → Expr g → Result q.Condition
  unfolding timestamp_literal
  timestampz_op fn col rhs = do t ← timestamp_literal rhs; ordered_op fn col (q.timestampz_of t)

  abbrev pub bool_compare : Function → q.Expression → Bool → Result q.Condition
  bool_compare equals col b = ok (q.compare_with eq col (q.bool_of b))
  bool_compare not_equals col b = ok (q.compare_with not_eq col (q.bool_of b))
  bool_compare _ col b = unsupported

  unfoldable pub bool_op : Function → q.Expression → Expr g → Result q.Condition
  unfolding bool_literal
  bool_op fn col rhs = do b ← bool_literal rhs; bool_compare fn col b

  abbrev pub like_pattern : Text → Text
  like_pattern s = codes "%" ++ escape_like (map g.unicode.to_lower s) ++ codes "%"

  abbrev pub string_compare : Function → q.Expression → Text → Result q.Condition
  string_compare has col s = ok (q.lower_like col (q.string_of (like_pattern s)))
  string_compare fn col s = ordered_op fn col (q.string_of s)

  unfoldable pub string_op : Function → q.Expression → Expr g → Result q.Condition
  string_op fn col rhs = do s ← string_literal rhs; string_compare fn col s

  abbrev pub array_compare : Function → q.Expression → Text → Result q.Condition
  array_compare equals col s = ok (q.equals_any (q.string_of s) col)
  array_compare has col s = ok (q.equals_any (q.string_of s) col)
  array_compare not_equals col s = ok (q.negation (some (q.equals_any (q.string_of s) col)))
  array_compare _ col s = unsupported

  unfoldable pub string_array_op : Function → q.Expression → Expr g → Result q.Condition
  string_array_op fn col rhs = do s ← string_literal rhs; array_compare fn col s

  -- A nil expression panics when it is asked for IS_NULL or IS_NOT_NULL.
  abbrev pub null_predicate : Function → Option q.Expression → Result q.Condition
  null_predicate equals (some col) = ok (q.is_null col)
  null_predicate equals none = panic
  null_predicate not_equals (some col) = ok (q.is_not_null col)
  null_predicate not_equals none = panic
  null_predicate _ col = unsupported

  -- The switch on the type of the expression.
  unfoldable pub apply_typed : Function → q.Expression → Expr g → Result q.Condition
  apply_typed fn col rhs =
      if q.implements col column_string_array
      then string_array_op fn col rhs
      else if q.implements col column_string
      then string_op fn col rhs
      else if q.implements col column_bool
      then bool_op fn col rhs
      else if q.implements col column_integer
      then integer_op fn col rhs
      else if q.implements col column_float
      then float_op fn col rhs
      else if q.implements col column_timestampz
      then timestampz_op fn col rhs
      else if q.implements col string_interface
      then string_op fn col rhs
      else if q.implements col bool_interface
      then bool_op fn col rhs
      else if q.implements col integer_interface
      then integer_op fn col rhs
      else if q.implements col float_interface
      then float_op fn col rhs
      else if q.implements col timestampz_interface
      then timestampz_op fn col rhs
      else unsupported

  -- The type switch takes a nil expression to its default.
  unfoldable pub apply_comparator : Function → Option q.Expression → Expr g → Result q.Condition
  unfolding apply_typed
  apply_comparator fn col rhs =
      if is_null_literal rhs
      then null_predicate fn col
      else elim col [ none ↦ unsupported | some c ↦ apply_typed fn c rhs ]

  -- The fields that a filter may name; a nil expression is `none`.
  module _ (fields : List (Text × Option q.Expression)) where
    unfoldable pub comparison : Function → Args g → Result q.Condition
    comparison fn (arg lhs (arg rhs no_args)) = elim (flatten_ident lhs) [
      | none ↦ unsupported
      | some key ↦ elim (lookup key fields) [
        | none ↦ unsupported
        | some col ↦ apply_comparator fn col rhs
      ]
    ]
    comparison fn _ = unsupported

    -- One round of the loops: `acc` is nil before the first.
    abbrev pub join :
        (q.Condition → Option q.Condition → q.Condition)
        → Option q.Condition
        → Option q.Condition
        → Option q.Condition
    join op none term = term
    join op (some acc) term = some (op acc term)

    unfoldable mutual
      pub translate : Expr g → Result (Option q.Condition)
      translate (call_expr and_fn args) = and_of args none
      translate (call_expr or_fn args) = or_of args none
      translate (call_expr not_fn (arg a no_args)) = do
        inner ← translate a
        ok (some (q.negation inner))
      translate (call_expr not_fn _) = unsupported
      translate (call_expr fn args) =
          if is_comparator fn then (do c ← comparison fn args; ok (some c)) else unsupported
      translate _ = unsupported

      pub and_of : Args g → Option q.Condition → Result (Option q.Condition)
      and_of no_args acc = ok acc
      and_of (arg a args) acc = do term ← translate a; and_of args (join q.conjunction acc term)

      pub or_of : Args g → Option q.Condition → Result (Option q.Condition)
      or_of no_args acc = ok acc
      or_of (arg a args) acc = do term ← translate a; or_of args (join q.disjunction acc term)

    unfoldable pub filter_to_condition : Text → Result (Option q.Condition)
    filter_to_condition filter =
        let trimmed = trim_space filter in
        if is_empty trimmed
        then ok none
        else if ltb max_filter_length (utf8_length trimmed)
        then fail (unsupported_filter ∷ []) filter_too_long
        else elim (q.parse_filter trimmed) [
          | none ↦ fail (unsupported_filter ∷ []) malformed_filter
          | some e ↦ translate e
        ]
