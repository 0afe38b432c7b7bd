-- ===== src/Tests/Filters.antt =====
-- The theorems on the filter translator, at a table of one text column.
use protoc_gen_go_jet.Common.{
  Text, codes, Bool, true, false, List, [], ◌∷◌, ◌++◌, Option, none, some, lookup, text_eq,
  if◌then◌else◌, ◌≡◌, ◌↔◌, refl, Bool-cases, inl, inr,
}
use protoc_gen_go_jet.Aip.Errors.{ok, panic}
use protoc_gen_go_jet.Jet.Filter.{
  Expr, const_expr, ident_expr, call_expr, string_value, null_value, arg, no_args, and_fn, not_fn,
  equals, Sql, Interface, column_string, Comparison, eq, translate, comparison, apply_comparator,
  apply_typed, string_op, string_literal, flatten_ident, is_null_literal, escape_like,
  filter_to_condition,
}
use protoc_gen_go_jet.Jet.Filter.Handled.{IsHandled, HasColumns, filter_to_condition-IsHandled}
use protoc_gen_go_jet.Jet.Filter.Like.{like, escape_like-contains}
use protoc_gen_go_jet.Jet.Filter.Truth.{
  Truth, yes, no, unknown, not₃, and₃, or₃, Logic, truth, IsParsed, translate-truth,
}
use protoc_gen_go_jet.Tests.Runtime.{go}

abbrev truth_of : Bool → Truth
truth_of true = yes
truth_of false = no

abbrev is_string : Interface → Bool
is_string column_string = true
is_string _ = false

abbrev compared : Comparison → Text → Text → Truth
compared eq t x = truth_of (text_eq t x)
compared _ t x = unknown

abbrev nullable : (Text → Truth) → Option (Text → Truth) → Text → Truth
nullable f none t = unknown
nullable f (some c) t = f t

abbrev name_is : Text → Expr go
name_is s =
    call_expr equals (arg (ident_expr (codes "name")) (arg (const_expr (string_value s)) no_args))

-- name = "amy" AND NOT name = "bob"
abbrev amy_not_bob : Expr go
amy_not_bob = call_expr and_fn (
    arg (name_is (codes "amy"))
      (arg (call_expr not_fn (arg (name_is (codes "bob")) no_args)) no_args))

abbrev negated : Option (Text → Truth) → Text → Truth
negated none t = unknown
negated (some c) t = not₃ (c t)

abbrev both : (Text → Truth) → Option (Text → Truth) → Text → Truth
both c none t = unknown
both c (some d) t = and₃ (c t) (d t)

abbrev either : (Text → Truth) → Option (Text → Truth) → Text → Truth
either c none t = unknown
either c (some d) t = or₃ (c t) (d t)

abbrev sql : Sql go
sql = record {
  Expression = Text;
  Literal = Text;
  Condition = Text → Truth;
  implements = λ e i. is_string i;
  string_of = λ s. s;
  bool_of = λ b. if b then codes "true" else codes "false";
  int_of = λ i. [];
  float_of = λ x. x ∷ [];
  timestampz_of = λ t. t ∷ [];
  is_null = λ e t. no;
  is_not_null = λ e t. yes;
  compare_with = λ c e x t. compared c t x;
  equals_any = λ x e t. unknown;
  lower_like = λ e x t. truth_of (like x t);
  negation = negated;
  conjunction = both;
  disjunction = either;
  parse_filter = λ t. some amy_not_bob;
  parse_duration = λ t. none;
  float_of_int = λ i. 0;
  float_of_uint = λ n. n;
}

abbrev logic : Logic sql Text
logic = record {
  means = λ c t. c t;
  means-negation = λ c r. refl;
  means-conjunction = λ c d r. refl;
  means-disjunction = λ c d r. refl;
}

abbrev columns : List (Text × Option Text)
columns = (codes "name", some (codes "name")) ∷ []

translated :
    translate sql columns amy_not_bob
    ≡ ok (
        some (
          both
            (λ t. compared eq t (codes "amy"))
            (some (negated (some (λ t. compared eq t (codes "bob")))))))
unfolding translate comparison apply_comparator apply_typed string_op string_literal flatten_ident
    is_null_literal lookup text_eq
translated = refl

parsed : IsParsed amy_not_bob
unfolding IsParsed
parsed = ((tt, (tt, tt)), (((tt, (tt, tt)), tt), tt))

translate-truth_example :
    (c : Text → Truth) × (some (
        both
          (λ t. compared eq t (codes "amy"))
          (some (negated (some (λ t. compared eq t (codes "bob"))))))
      ≡ some c)
    × (c (codes "amy") ≡ truth logic columns (codes "amy") amy_not_bob)
translate-truth_example = translate-truth logic columns (codes "amy") amy_not_bob parsed translated

escape_like-contains_example :
    (like (codes "%" ++ escape_like (codes "5%") ++ codes "%") (codes "a 15% share") ≡ true)
    ↔ ((before : Text) × (after : Text) × (codes "a 15% share" ≡ before ++ (codes "5%" ++ after)))
escape_like-contains_example = escape_like-contains (codes "5%") (codes "a 15% share")

present : HasColumns sql columns
unfolding lookup
present k = elim (Bool-cases (text_eq (codes "name") k)) [
  | inl e ↦ λ h. absurd (let g : some (some (codes "name")) ≡ some none = rw e at h in cc)
  | inr e ↦ λ h. absurd (let g : none ≡ some none = rw e at h in cc)
]

filter_to_condition-IsHandled_example :
    IsHandled (filter_to_condition sql columns (codes "name = 1"))
filter_to_condition-IsHandled_example =
    filter_to_condition-IsHandled sql columns (codes "name = 1") present

-- A nil expression is asked for IS NULL.
nil_column :
    translate sql
      ((codes "name", none) ∷ [])
      (call_expr equals (arg (ident_expr (codes "name")) (arg (const_expr null_value) no_args)))
    ≡ panic
unfolding translate comparison apply_comparator flatten_ident is_null_literal lookup text_eq
nil_column = refl
