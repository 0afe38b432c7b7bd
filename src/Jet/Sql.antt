-- ===== src/Jet/Sql.antt =====
-- What pkg/aip/jet takes from go-jet (the builders of SQL expressions) and from PostgreSQL (what
-- the expressions mean on a row). Neither is part of the program: both are parameters.
use Prim.Native.Nat.{Ordering}
use protoc_gen_go_jet.Common.{
  ℤ, Text, Bool, true, false, ◌&&◌, ◌||◌, List, [], ◌∷◌, ◌≡◌, map, length,
}
use protoc_gen_go_jet.Aip.Runtime.{Go}

-- The interfaces of go-jet that a type assertion asks a column for.
pub data Expression : Type 0 where
  string_expression bool_expression integer_expression float_expression : Expression
  timestampz_expression timestamp_expression : Expression

-- `Model` is the row type of a resource.
pub record Jet (g : Go) (Model : Type 0) : Type 1 where
  pub Column : Type 0
  pub Literal : Type 0
  pub Condition : Type 0
  pub Clause : Type 0
  pub implements : Column → Expression → Bool
  pub string_literal : Text → Literal
  pub bool_literal : Bool → Literal
  pub int64_literal : ℤ → Literal
  pub float_literal : g.Float64 → Literal
  pub timestampz_literal : g.Time → Literal
  pub timestamp_literal : g.Time → Literal
  pub equal : Column → Literal → Condition
  pub greater : Column → Literal → Condition
  pub less : Column → Literal → Condition
  pub row_greater : List Column → List Literal → Condition
  pub row_less : List Column → List Literal → Condition
  pub and_of : List Condition → Condition
  pub or_of : List Condition → Condition
  pub asc_clause : Column → Clause
  pub desc_clause : Column → Clause

abbrev pub is_lt : Ordering → Bool
is_lt Ordering.lt = true
is_lt _ = false

abbrev pub is_eq : Ordering → Bool
is_eq Ordering.eq = true
is_eq _ = false

abbrev pub is_gt : Ordering → Bool
is_gt Ordering.gt = true
is_gt _ = false

abbrev pub flip : Ordering → Ordering
flip Ordering.lt = Ordering.gt
flip Ordering.eq = Ordering.eq
flip Ordering.gt = Ordering.lt

abbrev pub all {ℓ} : {A : Type ℓ} → (A → Bool) → List A → Bool
all p [] = true
all p (x ∷ xs) = p x && all p xs

abbrev pub any {ℓ} : {A : Type ℓ} → (A → Bool) → List A → Bool
any p [] = false
any p (x ∷ xs) = p x || any p xs

-- The comparison of two rows: the first pair of elements that differ decides.
abbrev pub compare_rows : {L : Type 0} → (L → L → Ordering) → List L → List L → Ordering
compare_rows cmp (x ∷ xs) (y ∷ ys) = elim (cmp x y) [
  | Ordering.lt ↦ Ordering.lt
  | Ordering.eq ↦ compare_rows cmp xs ys
  | Ordering.gt ↦ Ordering.gt
]
compare_rows cmp _ _ = Ordering.eq

-- PostgreSQL on columns that hold no NULL: each type has a total order; conditions mean what the
-- manual says (sections 9.1, 9.2 and 9.24.5).
pub record Postgres (g : Go) (Model : Type 0) (j : Jet g Model) : Type 0 where
  pub value : j.Column → Model → j.Literal
  pub compare : j.Literal → j.Literal → Ordering
  pub holds : j.Condition → Model → Bool
  pub compare_self : (x : j.Literal) → compare x x ≡ Ordering.eq
  pub compare_flip : (x y : j.Literal) → compare y x ≡ flip (compare x y)
  pub holds-equal :
      (c : j.Column) (x : j.Literal) (r : Model)
      → holds (j.equal c x) r ≡ is_eq (compare (value c r) x)
  pub holds-greater :
      (c : j.Column) (x : j.Literal) (r : Model)
      → holds (j.greater c x) r ≡ is_gt (compare (value c r) x)
  pub holds-less :
      (c : j.Column) (x : j.Literal) (r : Model)
      → holds (j.less c x) r ≡ is_lt (compare (value c r) x)
  pub holds-row_greater :
      (cs : List j.Column) (xs : List j.Literal) (r : Model)
      → length cs ≡ length xs
      → holds (j.row_greater cs xs) r ≡ is_gt (compare_rows compare (map (λ c. value c r) cs) xs)
  pub holds-row_less :
      (cs : List j.Column) (xs : List j.Literal) (r : Model)
      → length cs ≡ length xs
      → holds (j.row_less cs xs) r ≡ is_lt (compare_rows compare (map (λ c. value c r) cs) xs)
  pub holds-and_of :
      (cs : List j.Condition) (r : Model) → holds (j.and_of cs) r ≡ all (λ c. holds c r) cs
  pub holds-or_of :
      (cs : List j.Condition) (r : Model) → holds (j.or_of cs) r ≡ any (λ c. holds c r) cs
