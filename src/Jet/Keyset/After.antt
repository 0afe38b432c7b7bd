-- ===== src/Jet/Keyset/After.antt =====
-- When a row comes behind another in an ordering, independently of the conditions that test it.
use Prim.Native.Nat.{Ordering}
use protoc_gen_go_jet.Common.{
  Bool, true, false, ◌&&◌, ◌||◌, List, [], ◌∷◌, map, ◌≡◌, ◌↔◌, refl, arith, length, All, bool_eq,
}
use protoc_gen_go_jet.Aip.Order.{
  SortDirection, asc, desc, is_desc, OrderField, all_direction, is_uniform_direction,
}
use protoc_gen_go_jet.Jet.Sql.{is_lt, is_eq, is_gt, flip, compare_rows}

abbrev pub directions : List OrderField → List SortDirection
directions = map (λ f. f.direction)

-- Behind, by one column alone.
abbrev pub is_beyond : SortDirection → Ordering → Bool
is_beyond asc o = is_gt o
is_beyond desc o = is_lt o

abbrev pub AllDirection : SortDirection → List SortDirection → Type 0
AllDirection d = All (λ e. e ≡ d)

module _ {L : Type 0} (cmp : L → L → Ordering) where
  -- The first column in which the rows differ decides, by its direction.
  abbrev pub after : List SortDirection → List L → List L → Bool
  after (d ∷ ds) (x ∷ xs) (y ∷ ys) = is_beyond d (cmp x y) || (is_eq (cmp x y) && after ds xs ys)
  after _ _ _ = false

  -- Where all columns have one direction, the comparison of rows is the same order.
  pub compare_rows-after :
      (d : SortDirection) (ds : List SortDirection) (xs ys : List L)
      → AllDirection d ds
      → length ds ≡ length xs
      → length ds ≡ length ys
      → is_beyond d (compare_rows cmp xs ys) ≡ after ds xs ys
  compare_rows-after asc [] [] [] _ _ _ = refl
  compare_rows-after desc [] [] [] _ _ _ = refl
  compare_rows-after asc (e ∷ ds) (x ∷ xs) (y ∷ ys) (same, h) n m =
      rw same (ground (arith, compare_rows-after asc ds xs ys h (omega arith) (omega arith)))
  compare_rows-after desc (e ∷ ds) (x ∷ xs) (y ∷ ys) (same, h) n m =
      rw same (ground (arith, compare_rows-after desc ds xs ys h (omega arith) (omega arith)))
  compare_rows-after d _ _ _ h n m = absurd (omega arith)

  -- No row comes behind itself.
  pub after_irrefl :
      ((x : L) → cmp x x ≡ Ordering.eq)
      → (ds : List SortDirection) (xs : List L) → after ds xs xs ≡ false
  after_irrefl same [] xs = refl
  after_irrefl same (d ∷ ds) [] = refl
  after_irrefl same (asc ∷ ds) (x ∷ xs) = rw (same x, after_irrefl same ds xs)
  after_irrefl same (desc ∷ ds) (x ∷ xs) = rw (same x, after_irrefl same ds xs)

  -- Of two rows at most one comes behind the other.
  pub after_asym :
      ((x y : L) → cmp y x ≡ flip (cmp x y))
      → (ds : List SortDirection) (xs ys : List L) → after ds xs ys ≡ true
      → after ds ys xs ≡ false
  after_asym turn [] xs ys h = refl
  after_asym turn (d ∷ ds) [] [] h = refl
  after_asym turn (d ∷ ds) [] (y ∷ ys) h = refl
  after_asym turn (d ∷ ds) (x ∷ xs) [] h = refl
  after_asym turn (asc ∷ ds) (x ∷ xs) (y ∷ ys) h =
      rw (turn x y) (ground (arith, after_asym turn ds xs ys))
  after_asym turn (desc ∷ ds) (x ∷ xs) (y ∷ ys) h =
      rw (turn x y) (ground (arith, after_asym turn ds xs ys))

all_direction→AllDirection :
    (d : SortDirection) (fs : List OrderField)
    → all_direction d fs ≡ true
    → AllDirection d (directions fs)
unfolding all_direction
all_direction→AllDirection d [] h = tt
all_direction→AllDirection d (f ∷ fs) h =
    (same_direction f.direction d (ground arith), all_direction→AllDirection d fs (ground arith))
  where
    same_direction : (a b : SortDirection) → bool_eq (is_desc a) (is_desc b) ≡ true → a ≡ b
    same_direction asc asc _ = refl
    same_direction asc desc h = cc
    same_direction desc asc h = cc
    same_direction desc desc _ = refl

AllDirection→all_direction :
    (d : SortDirection) (fs : List OrderField)
    → AllDirection d (directions fs)
    → all_direction d fs ≡ true
unfolding all_direction
AllDirection→all_direction d [] h = refl
AllDirection→all_direction asc (f ∷ fs) (e, h) = rw (e, AllDirection→all_direction asc fs h)
AllDirection→all_direction desc (f ∷ fs) (e, h) = rw (e, AllDirection→all_direction desc fs h)

-- An ordering is uniform exactly if every field has the direction of the first.
pub is_uniform_direction_iff :
    (f : OrderField) (fs : List OrderField)
    → (is_uniform_direction (f ∷ fs) ≡ true) ↔ AllDirection f.direction (directions (f ∷ fs))
unfolding is_uniform_direction
is_uniform_direction_iff f [] = (λ _. (refl, tt), λ _. refl)
is_uniform_direction_iff f (g ∷ fs) = (
  λ h. (refl, all_direction→AllDirection f.direction (g ∷ fs) h),
  λ h. AllDirection→all_direction f.direction (g ∷ fs) h.1,
)
