-- ===== src/Jet/Filter/Handled.antt =====
-- Every failure of the filter translator is the sentinel error.
use protoc_gen_go_jet.Common.{
  Text, Bool, true, false, List, [], ◌∷◌, Option, none, some, is_empty, trim_space, utf8_length,
  lookup, if◌then◌else◌, ltb, ◌≡◌, ◌≢◌, refl, arith,
}
use protoc_gen_go_jet.Aip.Errors.{
  Result, ok, err, panic, ◌>>=◌, is, fail, unsupported_filter, malformed_filter,
}
use protoc_gen_go_jet.Aip.Runtime.{Go}
use protoc_gen_go_jet.Jet.Filter.{
  Function, and_fn, or_fn, not_fn, equals, not_equals, less_than, less_equals, greater_than,
  greater_equals, has, timestamp_fn, duration_fn, custom, Expr, Args, const_expr, ident_expr,
  select_expr, call_expr, other_expr, no_args, arg, Sql, max_filter_length, unsupported,
  or_unsupported, flatten_ident, is_comparator, string_literal, bool_literal, integer_literal,
  timestamp_literal, float_literal, ordered_op, bool_compare, string_compare, array_compare,
  integer_op, float_op, timestampz_op, bool_op, string_op, string_array_op, null_predicate,
  apply_typed, apply_comparator, is_null_literal, comparison, join, translate, and_of, or_of,
  filter_to_condition,
}

-- A value, or an error that is ErrUnsupportedFilter; no panic.
abbrev pub IsHandled {ℓ} : {A : Type ℓ} → Result A → Type 0
IsHandled (ok a) = Unit
IsHandled (err e) = is e unsupported_filter ≡ true
IsHandled panic = ⊥

bind-IsHandled {ℓ κ} :
    {A : Type ℓ} {B : Type κ} (m : Result A) (f : A → Result B)
    → IsHandled m
    → ((a : A) → IsHandled (f a))
    → IsHandled (m >>= f)
bind-IsHandled (ok a) f h k = k a
bind-IsHandled (err e) f h k = h
bind-IsHandled panic f h k = h

if-IsHandled {ℓ} :
    {A : Type ℓ} (b : Bool) (x y : Result A)
    → IsHandled x
    → IsHandled y
    → IsHandled (if b then x else y)
if-IsHandled true x y h k = h
if-IsHandled false x y h k = k

or_unsupported-IsHandled {ℓ} : {A : Type ℓ} (o : Option A) → IsHandled (or_unsupported o)
or_unsupported-IsHandled none = refl
or_unsupported-IsHandled (some a) = tt

string_literal-IsHandled : {g : Go} (e : Expr g) → IsHandled (string_literal e)
unfolding string_literal
string_literal-IsHandled e = ground arith

bool_literal-IsHandled : {g : Go} (e : Expr g) → IsHandled (bool_literal e)
unfolding bool_literal
bool_literal-IsHandled e = ground arith

module _ {g : Go} (q : Sql g) where
  parsed-IsHandled {ℓ} :
      {A : Type ℓ} (e : Expr g) (parse : Text → Option A)
      → IsHandled (string_literal e >>= λ s. or_unsupported (parse s))
  parsed-IsHandled e parse =
      bind-IsHandled (string_literal e) _ (string_literal-IsHandled e)
        (λ s. or_unsupported-IsHandled (parse s))

  integer_literal-IsHandled : (e : Expr g) → IsHandled (integer_literal q e)
  unfolding integer_literal
  integer_literal-IsHandled (call_expr duration_fn (arg a no_args)) =
      parsed-IsHandled a q.parse_duration
  integer_literal-IsHandled e = ground arith

  timestamp_literal-IsHandled : (e : Expr g) → IsHandled (timestamp_literal q e)
  unfolding timestamp_literal
  timestamp_literal-IsHandled (call_expr timestamp_fn (arg a no_args)) =
      parsed-IsHandled a g.parse_time
  timestamp_literal-IsHandled e = ground arith

  float_literal-IsHandled : (e : Expr g) → IsHandled (float_literal q e)
  unfolding float_literal
  float_literal-IsHandled e = ground arith

  ordered_op-IsHandled :
      (fn : Function) (col : q.Expression) (x : q.Literal) → IsHandled (ordered_op q fn col x)
  ordered_op-IsHandled fn col x = ground arith

  bool_compare-IsHandled :
      (fn : Function) (col : q.Expression) (x : Bool) → IsHandled (bool_compare q fn col x)
  bool_compare-IsHandled fn col x = ground arith

  string_compare-IsHandled :
      (fn : Function) (col : q.Expression) (s : Text) → IsHandled (string_compare q fn col s)
  string_compare-IsHandled fn col x = ground arith

  array_compare-IsHandled :
      (fn : Function) (col : q.Expression) (s : Text) → IsHandled (array_compare q fn col s)
  array_compare-IsHandled fn col x = ground arith

  null_predicate-IsHandled :
      (fn : Function) (col : q.Expression) → IsHandled (null_predicate q fn (some col))
  null_predicate-IsHandled fn col = ground arith

  module _ (fn : Function) (col : q.Expression) (rhs : Expr g) where
    integer_op-IsHandled : IsHandled (integer_op q fn col rhs)
    unfolding integer_op
    integer_op-IsHandled =
        bind-IsHandled (integer_literal q rhs) _ (integer_literal-IsHandled rhs)
          (λ n. ordered_op-IsHandled fn col (q.int_of n))

    float_op-IsHandled : IsHandled (float_op q fn col rhs)
    unfolding float_op
    float_op-IsHandled =
        bind-IsHandled (float_literal q rhs) _ (float_literal-IsHandled rhs)
          (λ x. ordered_op-IsHandled fn col (q.float_of x))

    timestampz_op-IsHandled : IsHandled (timestampz_op q fn col rhs)
    unfolding timestampz_op
    timestampz_op-IsHandled =
        bind-IsHandled (timestamp_literal q rhs) _ (timestamp_literal-IsHandled rhs)
          (λ t. ordered_op-IsHandled fn col (q.timestampz_of t))

    bool_op-IsHandled : IsHandled (bool_op q fn col rhs)
    unfolding bool_op
    bool_op-IsHandled =
        bind-IsHandled (bool_literal rhs) _ (bool_literal-IsHandled rhs)
          (bool_compare-IsHandled fn col)

    string_op-IsHandled : IsHandled (string_op q fn col rhs)
    unfolding string_op
    string_op-IsHandled =
        bind-IsHandled (string_literal rhs) _ (string_literal-IsHandled rhs)
          (string_compare-IsHandled fn col)

    string_array_op-IsHandled : IsHandled (string_array_op q fn col rhs)
    unfolding string_array_op
    string_array_op-IsHandled =
        bind-IsHandled (string_literal rhs) _ (string_literal-IsHandled rhs)
          (array_compare-IsHandled fn col)

    apply_typed-IsHandled : IsHandled (apply_typed q fn col rhs)
    unfolding apply_typed
    apply_typed-IsHandled = ground (
      arith, string_array_op-IsHandled, string_op-IsHandled, bool_op-IsHandled,
      integer_op-IsHandled, float_op-IsHandled, timestampz_op-IsHandled,
    )

    apply_comparator-IsHandled : IsHandled (apply_comparator q fn (some col) rhs)
    unfolding apply_comparator
    apply_comparator-IsHandled =
        if-IsHandled (is_null_literal rhs) _ _ (null_predicate-IsHandled fn col)
          apply_typed-IsHandled

  -- No field of the map has a nil expression.
  abbrev pub HasColumns : List (Text × Option q.Expression) → Type 0
  HasColumns fields = (k : Text) → lookup k fields ≢ some none

  module _ (fields : List (Text × Option q.Expression)) (present : HasColumns fields) where
    column_of-IsHandled :
        (fn : Function) (rhs : Expr g) (found : Option (Option q.Expression))
        → found ≢ some none
        → IsHandled {A = q.Condition}
            (elim found [ none ↦ unsupported | some col ↦ apply_comparator q fn col rhs ])
    column_of-IsHandled fn rhs none h = refl
    column_of-IsHandled fn rhs (some none) h = absurd (h refl)
    column_of-IsHandled fn rhs (some (some col)) h = apply_comparator-IsHandled fn col rhs

    key_of-IsHandled :
        (fn : Function) (rhs : Expr g) (key : Option Text)
        → IsHandled {A = q.Condition} (elim key [
          | none ↦ unsupported
          | some k ↦ elim (lookup k fields) [
            | none ↦ unsupported
            | some col ↦ apply_comparator q fn col rhs
          ]
        ])
    key_of-IsHandled fn rhs none = refl
    key_of-IsHandled fn rhs (some k) = column_of-IsHandled fn rhs (lookup k fields) (present k)

    comparison-IsHandled : (fn : Function) (args : Args g) → IsHandled (comparison q fields fn args)
    unfolding comparison
    comparison-IsHandled fn (arg lhs (arg rhs no_args)) =
        key_of-IsHandled fn rhs (flatten_ident lhs)
    comparison-IsHandled fn no_args = refl
    comparison-IsHandled fn (arg a no_args) = refl
    comparison-IsHandled fn (arg a (arg b (arg c args))) = refl

    compared-IsHandled :
        (fn : Function) (args : Args g)
        → IsHandled (
            if is_comparator fn
            then (do c ← comparison q fields fn args; ok (some c))
            else unsupported)
    compared-IsHandled fn args =
        if-IsHandled (is_comparator fn) _ _
          (bind-IsHandled (comparison q fields fn args) _ (comparison-IsHandled fn args) (λ c. tt))
          refl

    mutual
      unfolding translate

      pub translate-IsHandled : (e : Expr g) → IsHandled (translate q fields e)
      translate-IsHandled (call_expr and_fn args) = and_of-IsHandled args none
      translate-IsHandled (call_expr or_fn args) = or_of-IsHandled args none
      translate-IsHandled (call_expr not_fn (arg a no_args)) =
          bind-IsHandled (translate q fields a) _ (translate-IsHandled a) (λ c. tt)
      translate-IsHandled (call_expr not_fn no_args) = refl
      translate-IsHandled (call_expr not_fn (arg a (arg b args))) = refl
      translate-IsHandled (call_expr equals args) = compared-IsHandled equals args
      translate-IsHandled (call_expr not_equals args) = compared-IsHandled not_equals args
      translate-IsHandled (call_expr less_than args) = compared-IsHandled less_than args
      translate-IsHandled (call_expr less_equals args) = compared-IsHandled less_equals args
      translate-IsHandled (call_expr greater_than args) = compared-IsHandled greater_than args
      translate-IsHandled (call_expr greater_equals args) = compared-IsHandled greater_equals args
      translate-IsHandled (call_expr has args) = compared-IsHandled has args
      translate-IsHandled (call_expr timestamp_fn args) = refl
      translate-IsHandled (call_expr duration_fn args) = refl
      translate-IsHandled (call_expr (custom name) args) = refl
      translate-IsHandled (const_expr c) = refl
      translate-IsHandled (ident_expr name) = refl
      translate-IsHandled (select_expr e name) = refl
      translate-IsHandled other_expr = refl

      and_of-IsHandled :
          (args : Args g) (acc : Option q.Condition) → IsHandled (and_of q fields args acc)
      and_of-IsHandled no_args acc = tt
      and_of-IsHandled (arg a args) acc =
          bind-IsHandled (translate q fields a) _ (translate-IsHandled a)
            (λ c. and_of-IsHandled args (join q fields q.conjunction acc c))

      or_of-IsHandled :
          (args : Args g) (acc : Option q.Condition) → IsHandled (or_of q fields args acc)
      or_of-IsHandled no_args acc = tt
      or_of-IsHandled (arg a args) acc =
          bind-IsHandled (translate q fields a) _ (translate-IsHandled a)
            (λ c. or_of-IsHandled args (join q fields q.disjunction acc c))

    parse_filter-IsHandled :
        (parsed : Option (Expr g))
        → IsHandled {A = Option q.Condition} (elim parsed [
          | none ↦ fail (unsupported_filter ∷ []) malformed_filter
          | some e ↦ translate q fields e
        ])
    parse_filter-IsHandled none = refl
    parse_filter-IsHandled (some e) = translate-IsHandled e

-- Whatever the filter and the parser, over fields none of which has a nil expression: the translation
-- ends in a condition, in none, or in an error that is ErrUnsupportedFilter, and does not panic.
pub filter_to_condition-IsHandled :
    {g : Go} (q : Sql g) (fields : List (Text × Option q.Expression)) (filter : Text)
    → HasColumns q fields
    → IsHandled (filter_to_condition q fields filter)
unfolding filter_to_condition
filter_to_condition-IsHandled q fields filter present =
    if-IsHandled (is_empty (trim_space filter)) _ _ tt (
      if-IsHandled (ltb max_filter_length (utf8_length (trim_space filter))) _ _ refl
        (parse_filter-IsHandled q fields present (q.parse_filter (trim_space filter))))
