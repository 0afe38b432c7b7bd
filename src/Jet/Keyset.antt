-- ===== src/Jet/Keyset.antt =====
-- pkg/aip/jet/execute.go: the condition that skips the rows already seen.
pub mod After
mod Resolve
pub mod Meaning
use protoc_gen_go_jet.Common.{
  Text, Bool, true, false, not, List, [], ◌∷◌, ◌++◌, Option, none, some, ◌==◌, length, is_empty,
  lookup, if◌then◌else◌,
}
use protoc_gen_go_jet.Aip.Errors.{
  Error, no_order_fields, cursor_count_mismatch, wrong_column_type, unsupported_literal, Result, ok,
  err, panic, fail, ◌>>=◌,
}
use protoc_gen_go_jet.Aip.Order.{
  SortDirection, asc, desc, is_desc, OrderField, OrderBy, is_uniform_direction,
}
use protoc_gen_go_jet.Aip.Runtime.{
  Go, Value, string, bool, int32, int64, float32, float64, time, other,
}
use protoc_gen_go_jet.Jet.Sql.{
  Jet, Expression, string_expression, bool_expression, integer_expression, float_expression,
  timestampz_expression, timestamp_expression,
}
use protoc_gen_go_jet.Jet.Schema.{Field, Fields}

module _ {g : Go} {Model : Type 0} (j : Jet g Model) where
  -- `fields[path].Column`. A nil column stands for a failure at once; the source makes an error of it in
  -- a type assertion, or fails when ROW is written. A validated schema has no nil column.
  unfoldable pub column_of : Fields g Model j → Text → Result j.Column
  unfolding lookup
  column_of fields path = elim (lookup path fields) [
    | none ↦ panic
    | some f ↦ (elim f.column [ none ↦ panic | some c ↦ ok c ])
  ]

  unfoldable pub to_literal : Value g → Result j.Literal
  to_literal (string s) = ok (j.string_literal s)
  to_literal (bool b) = ok (j.bool_literal b)
  to_literal (int32 i) = ok (j.int64_literal i)
  to_literal (int64 i) = ok (j.int64_literal i)
  to_literal (float32 x) = ok (j.float_literal (g.widen x))
  to_literal (float64 x) = ok (j.float_literal x)
  to_literal (time t) = ok (j.timestampz_literal t)
  to_literal other = fail [] (unsupported_literal [])

  -- `col.(I)`, then an expression of the column.
  abbrev asserted : j.Column → Expression → j.Condition → Result j.Condition
  asserted c e cond = if j.implements c e then ok cond else fail [] (wrong_column_type [])

  unfoldable pub equality_expr : j.Column → Value g → Result j.Condition
  equality_expr c (string s) = asserted c string_expression (j.equal c (j.string_literal s))
  equality_expr c (bool b) = asserted c bool_expression (j.equal c (j.bool_literal b))
  equality_expr c (int32 i) = asserted c integer_expression (j.equal c (j.int64_literal i))
  equality_expr c (int64 i) = asserted c integer_expression (j.equal c (j.int64_literal i))
  equality_expr c (float32 x) =
      asserted c float_expression (j.equal c (j.float_literal (g.widen x)))
  equality_expr c (float64 x) = asserted c float_expression (j.equal c (j.float_literal x))
  equality_expr c (time t) =
      if j.implements c timestampz_expression
      then ok (j.equal c (j.timestampz_literal t))
      else asserted c timestamp_expression (j.equal c (j.timestamp_literal t))
  equality_expr c other = fail [] (unsupported_literal [])

  -- `>` for ascending, `<` for descending
  abbrev pub beyond : SortDirection → j.Column → j.Literal → j.Condition
  beyond asc c x = j.greater c x
  beyond desc c x = j.less c x

  -- There is no case for a bool.
  unfoldable pub direction_expr : j.Column → SortDirection → Value g → Result j.Condition
  direction_expr c d (string s) = asserted c string_expression (beyond d c (j.string_literal s))
  direction_expr c d (int32 i) = asserted c integer_expression (beyond d c (j.int64_literal i))
  direction_expr c d (int64 i) = asserted c integer_expression (beyond d c (j.int64_literal i))
  direction_expr c d (float32 x) =
      asserted c float_expression (beyond d c (j.float_literal (g.widen x)))
  direction_expr c d (float64 x) = asserted c float_expression (beyond d c (j.float_literal x))
  direction_expr c d (time t) =
      if j.implements c timestampz_expression
      then ok (beyond d c (j.timestampz_literal t))
      else asserted c timestamp_expression (beyond d c (j.timestamp_literal t))
  direction_expr c d (bool b) = fail [] (unsupported_literal [])
  direction_expr c d other = fail [] (unsupported_literal [])

  -- The columns and the literals of a tuple comparison, in one loop over two lists of one length.
  unfoldable pub tuple_parts :
      Fields g Model j → List OrderField → List (Value g) → Result (List j.Column × List j.Literal)
  unfolding column_of to_literal
  tuple_parts fields [] vals = ok ([], [])
  tuple_parts fields (f ∷ order) [] = panic
  tuple_parts fields (f ∷ order) (v ∷ vals) = do
    c ← column_of fields f.path
    x ← to_literal v
    (cs, xs) ← tuple_parts fields order vals
    ok (c ∷ cs, x ∷ xs)

  -- The direction of the first field decides.
  abbrev pub tuple_condition : List OrderField → List j.Column → List j.Literal → j.Condition
  tuple_condition [] cs xs = j.row_greater cs xs
  tuple_condition (f ∷ order) cs xs =
      if is_desc f.direction then j.row_less cs xs else j.row_greater cs xs

  unfoldable pub build_tuple_comparison :
      Fields g Model j → List OrderField → List (Value g) → Result j.Condition
  unfolding tuple_parts
  build_tuple_comparison fields order vals = do
    (cs, xs) ← tuple_parts fields order vals
    ok (tuple_condition order cs xs)

  -- The inner loop: equality on the fields before the current one.
  unfoldable pub equalities :
      Fields g Model j → List (OrderField × Value g) → Result (List j.Condition)
  unfolding column_of equality_expr
  equalities fields [] = ok []
  equalities fields ((f, v) ∷ before) = do
    c ← column_of fields f.path
    e ← equality_expr c v
    rest ← equalities fields before
    ok (e ∷ rest)

  -- The outer loop: one conjunction for each field; `before` holds the fields passed.
  unfoldable pub lexicographic_terms :
      Fields g Model j
      → List (OrderField × Value g)
      → List OrderField
      → List (Value g)
      → Result (List j.Condition)
  unfolding equalities direction_expr
  lexicographic_terms fields before [] vals = ok []
  lexicographic_terms fields before (f ∷ order) [] = panic
  lexicographic_terms fields before (f ∷ order) (v ∷ vals) = do
    chain ← equalities fields before
    c ← column_of fields f.path
    cmp ← direction_expr c f.direction v
    more ← lexicographic_terms fields (before ++ (f, v) ∷ []) order vals
    ok (j.and_of (chain ++ cmp ∷ []) ∷ more)

  unfoldable pub build_lexicographic_fallback :
      Fields g Model j → List OrderField → List (Value g) → Result j.Condition
  unfolding lexicographic_terms
  build_lexicographic_fallback fields order vals = do
    terms ← lexicographic_terms fields [] order vals
    ok (j.or_of terms)

  -- No cursor values: no condition.
  unfoldable pub build_keyset_condition :
      Fields g Model j → OrderBy → List (Value g) → Result (Option j.Condition)
  unfolding build_tuple_comparison build_lexicographic_fallback is_uniform_direction
  build_keyset_condition fields order vals =
      if is_empty vals
      then ok none
      else if is_empty order.fields
      then fail [] no_order_fields
      else if not (length order.fields == length vals)
      then fail [] cursor_count_mismatch
      else if is_uniform_direction order.fields
      then (do c ← build_tuple_comparison fields order.fields vals; ok (some c))
      else (do c ← build_lexicographic_fallback fields order.fields vals; ok (some c))
