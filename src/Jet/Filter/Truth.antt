-- ===== src/Jet/Filter/Truth.antt =====
-- What a translated filter means on a row, in the three-valued logic of SQL.
use protoc_gen_go_jet.Common.{
  Text, Bool, true, false, List, Option, none, some, if◌then◌else◌, ◌≡◌, refl, sym, ◌∙◌, ap, subst,
  arith,
}
use protoc_gen_go_jet.Aip.Errors.{Result, ok, err, panic, ◌>>=◌, >>=-eq-ok, ok-injective}
use protoc_gen_go_jet.Aip.Runtime.{Go}
use protoc_gen_go_jet.Jet.Filter.{
  Function, and_fn, or_fn, not_fn, equals, not_equals, less_than, less_equals, greater_than,
  greater_equals, has, timestamp_fn, duration_fn, custom, Expr, Args, const_expr, ident_expr,
  select_expr, call_expr, other_expr, no_args, arg, Sql, unsupported, is_comparator, comparison,
  join, translate, and_of, or_of,
}

pub data Truth : Type 0 where
  yes no unknown : Truth

abbrev pub not₃ : Truth → Truth
not₃ yes = no
not₃ no = yes
not₃ unknown = unknown

abbrev pub and₃ : Truth → Truth → Truth
and₃ no b = no
and₃ a no = no
and₃ yes b = b
and₃ unknown b = unknown

abbrev pub or₃ : Truth → Truth → Truth
or₃ yes b = yes
or₃ a yes = yes
or₃ no b = b
or₃ unknown b = unknown

-- PostgreSQL's manual, section 9.1.
pub record Logic {g : Go} (q : Sql g) (Row : Type 0) : Type 0 where
  pub means : q.Condition → Row → Truth
  pub means-negation :
      (c : q.Condition) (r : Row) → means (q.negation (some c)) r ≡ not₃ (means c r)
  pub means-conjunction :
      (c d : q.Condition) (r : Row)
      → means (q.conjunction c (some d)) r ≡ and₃ (means c r) (means d r)
  pub means-disjunction :
      (c d : q.Condition) (r : Row)
      → means (q.disjunction c (some d)) r ≡ or₃ (means c r) (means d r)

module _ {g : Go} {q : Sql g} {Row : Type 0} (l : Logic q Row)
    (fields : List (Text × Option q.Expression)) (r : Row) where
  -- The truth of one comparison; a filter that is refused has none, and stands as unknown.
  abbrev atom : Function → Args g → Truth
  atom fn args = elim (comparison q fields fn args) [
    | ok c ↦ l.means c r
    | err e ↦ unknown
    | panic ↦ unknown
  ]

  -- The truth of a filter, by its connectives.
  mutual
    pub truth : Expr g → Truth
    truth (call_expr and_fn args) = all_true args
    truth (call_expr or_fn args) = any_true args
    truth (call_expr not_fn (arg a no_args)) = not₃ (truth a)
    truth (call_expr not_fn args) = unknown
    truth (call_expr fn args) = atom fn args
    truth _ = unknown

    all_true : Args g → Truth
    all_true no_args = yes
    all_true (arg a args) = and₃ (truth a) (all_true args)

    any_true : Args g → Truth
    any_true no_args = no
    any_true (arg a args) = or₃ (truth a) (any_true args)

-- Every AND and OR in the tree has an argument, as the parser's have.
unfoldable mutual
  pub IsParsed : {g : Go} → Expr g → Type 0
  IsParsed (call_expr and_fn no_args) = ⊥
  IsParsed (call_expr or_fn no_args) = ⊥
  IsParsed (call_expr fn args) = AreParsed args
  IsParsed _ = Unit

  AreParsed : {g : Go} → Args g → Type 0
  AreParsed no_args = Unit
  AreParsed (arg a args) = IsParsed a × AreParsed args

and₃_yes : (a : Truth) → and₃ a yes ≡ a
and₃_yes a = ground arith

and₃_assoc : (a b c : Truth) → and₃ (and₃ a b) c ≡ and₃ a (and₃ b c)
and₃_assoc a b c = ground arith

or₃_no : (a : Truth) → or₃ a no ≡ a
or₃_no a = ground arith

or₃_assoc : (a b c : Truth) → or₃ (or₃ a b) c ≡ or₃ a (or₃ b c)
or₃_assoc a b c = ground arith

module _ {g : Go} {q : Sql g} {Row : Type 0} (l : Logic q Row)
    (fields : List (Text × Option q.Expression)) (r : Row) where
  -- The outcome is a condition with this truth.
  abbrev Means : Option q.Condition → Truth → Type 0
  Means o t = (c : q.Condition) × (o ≡ some c) × (l.means c r ≡ t)

  decided :
      (b : Bool) (m : Result q.Condition) {o : Option q.Condition}
      → (if b then (do c ← m; ok (some c)) else unsupported) ≡ ok o
      → Means o (elim m [ ok c ↦ l.means c r | err e ↦ unknown | panic ↦ unknown ])
  decided true (ok c) h = (c, sym (ok-injective h), refl)
  decided true (err e) h = absurd (cc h)
  decided true panic h = absurd (cc h)
  decided false m h = absurd (cc h)

  atom-Means :
      (fn : Function) (args : Args g) {o : Option q.Condition}
      → (if is_comparator fn
          then (do c ← comparison q fields fn args; ok (some c))
          else unsupported)
        ≡ ok o
      → Means o (atom l fields r fn args)
  atom-Means fn args h = decided (is_comparator fn) (comparison q fields fn args) h

  mutual
    unfolding translate truth IsParsed

    translate-truth_at :
        (e : Expr g) (o : Option q.Condition)
        → IsParsed e
        → translate q fields e ≡ ok o
        → Means o (truth l fields r e)
    translate-truth_at (call_expr and_fn (arg a args)) o w h =
        let (t, first, rest) = >>=-eq-ok (translate q fields a) _ h in
        let (c, is_c, m) = translate-truth_at a t w.0 first in
        let (d, is_d, k) = and_of-Means args c o w.1 (
          subst (λ t. and_of q fields args (join q fields q.conjunction none t) ≡ ok o) is_c
            rest) in
        (d, is_d, k ∙ ap (λ t. and₃ t (all_true l fields r args)) m)
    translate-truth_at (call_expr or_fn (arg a args)) o w h =
        let (t, first, rest) = >>=-eq-ok (translate q fields a) _ h in
        let (c, is_c, m) = translate-truth_at a t w.0 first in
        let (d, is_d, k) = or_of-Means args c o w.1 (
          subst (λ t. or_of q fields args (join q fields q.disjunction none t) ≡ ok o) is_c rest) in
        (d, is_d, k ∙ ap (λ t. or₃ t (any_true l fields r args)) m)
    translate-truth_at (call_expr not_fn (arg a no_args)) o w h =
        let (t, first, rest) = >>=-eq-ok (translate q fields a) _ h in
        let (c, is_c, m) = translate-truth_at a t w.0 first in
        (
          q.negation (some c),
          sym (ok-injective rest) ∙ ap (λ t. some (q.negation t)) is_c,
          l.means-negation c r ∙ ap not₃ m,
        )
    translate-truth_at (call_expr not_fn no_args) o w h = absurd (cc h)
    translate-truth_at (call_expr not_fn (arg a (arg b args))) o w h = absurd (cc h)
    translate-truth_at (call_expr and_fn no_args) o w h = elim w [ ]
    translate-truth_at (call_expr or_fn no_args) o w h = elim w [ ]
    translate-truth_at (call_expr equals args) o w h = atom-Means equals args h
    translate-truth_at (call_expr not_equals args) o w h = atom-Means not_equals args h
    translate-truth_at (call_expr less_than args) o w h = atom-Means less_than args h
    translate-truth_at (call_expr less_equals args) o w h = atom-Means less_equals args h
    translate-truth_at (call_expr greater_than args) o w h = atom-Means greater_than args h
    translate-truth_at (call_expr greater_equals args) o w h = atom-Means greater_equals args h
    translate-truth_at (call_expr has args) o w h = atom-Means has args h
    translate-truth_at (call_expr timestamp_fn args) o w h = absurd (cc h)
    translate-truth_at (call_expr duration_fn args) o w h = absurd (cc h)
    translate-truth_at (call_expr (custom name) args) o w h = absurd (cc h)
    translate-truth_at (const_expr c) o w h = absurd (cc h)
    translate-truth_at (ident_expr name) o w h = absurd (cc h)
    translate-truth_at (select_expr e name) o w h = absurd (cc h)
    translate-truth_at other_expr o w h = absurd (cc h)

    and_of-Means :
        (args : Args g) (c : q.Condition) (o : Option q.Condition)
        → AreParsed args
        → and_of q fields args (some c) ≡ ok o
        → Means o (and₃ (l.means c r) (all_true l fields r args))
    and_of-Means no_args c o w h = (c, sym (ok-injective h), sym (and₃_yes (l.means c r)))
    and_of-Means (arg a args) c o w h =
        let (t, first, rest) = >>=-eq-ok (translate q fields a) _ h in
        let (d, is_d, m) = translate-truth_at a t w.0 first in
        let (b, is_b, k) = and_of-Means args (q.conjunction c (some d)) o w.1 (
          subst (λ t. and_of q fields args (join q fields q.conjunction (some c) t) ≡ ok o) is_d
            rest) in
        (
          b,
          is_b,
          k
              ∙ ap (λ t. and₃ t (all_true l fields r args))
                  (l.means-conjunction c d r ∙ ap (and₃ (l.means c r)) m)
              ∙ and₃_assoc (l.means c r) (truth l fields r a) (all_true l fields r args),
        )

    or_of-Means :
        (args : Args g) (c : q.Condition) (o : Option q.Condition)
        → AreParsed args
        → or_of q fields args (some c) ≡ ok o
        → Means o (or₃ (l.means c r) (any_true l fields r args))
    or_of-Means no_args c o w h = (c, sym (ok-injective h), sym (or₃_no (l.means c r)))
    or_of-Means (arg a args) c o w h =
        let (t, first, rest) = >>=-eq-ok (translate q fields a) _ h in
        let (d, is_d, m) = translate-truth_at a t w.0 first in
        let (b, is_b, k) = or_of-Means args (q.disjunction c (some d)) o w.1 (
          subst (λ t. or_of q fields args (join q fields q.disjunction (some c) t) ≡ ok o) is_d
            rest) in
        (
          b,
          is_b,
          k
              ∙ ap (λ t. or₃ t (any_true l fields r args))
                  (l.means-disjunction c d r ∙ ap (or₃ (l.means c r)) m)
              ∙ or₃_assoc (l.means c r) (truth l fields r a) (any_true l fields r args),
        )

-- A filter that is translated becomes a condition, never nil, whose three-valued truth on a row is
-- that of the filter: its connectives are SQL's AND, OR and NOT, over any number of arguments, on the
-- truths of its comparisons. The filter's tree has no AND or OR without arguments.
pub translate-truth :
    {g : Go} {q : Sql g} {Row : Type 0} (l : Logic q Row)
    (fields : List (Text × Option q.Expression)) (r : Row) (e : Expr g) {o : Option q.Condition}
    → IsParsed e
    → translate q fields e ≡ ok o
    → (c : q.Condition) × (o ≡ some c) × (l.means c r ≡ truth l fields r e)
translate-truth l fields r e {o} w h = translate-truth_at l fields r e o w h
