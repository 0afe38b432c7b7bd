-- ===== src/Plugin/Check/Parens.antt =====
-- cmd/protoc-gen-go-jet/check.go: stripOuterParens, its loop and its result.
use protoc_gen_go_jet.Common.{
  ℕ, zero, suc, ◌-◌, ◌≤◌, leb, Text, true, false, not, ◌&&◌, [], ◌∷◌, ◌++◌, some, length, take,
  drop, trim_left, trim_right, trim_space, has_prefix, has_suffix, length-append, length-drop,
  &&_both, ◌≡◌, refl, sym, ◌∙◌, ap, subst, Bool-cases, inl, inr, arith,
}
use protoc_gen_go_jet.Plugin.Check.{closed_early, is_wrapped, strip_parens, strip_outer_parens}
use protoc_gen_go_jet.Plugin.Check.Nesting.{
  step, next_depth, IsBalanced, wrap, IsEnclosed, Unwraps, bare, unwrap, skip,
  IsBalanced-trim_space, closed_early-step, balanced_inside, not_closed_early,
}

-- The text between the first character and the last one.
unfoldable inside : Text → Text
inside s = take (length s - 2) (drop 1 s)

trim_left_le : (s : Text) → length (trim_left s) ≤ length s
unfolding trim_left
trim_left_le [] = omega arith
trim_left_le (c ∷ s) = let ih = trim_left_le s in ground (arith, ih)

trim_right_le : (s : Text) → length (trim_right s) ≤ length s
unfolding trim_right
trim_right_le [] = omega arith
trim_right_le (c ∷ s) = let ih = trim_right_le s in ground (arith, ih)

trim_space_le : (s : Text) → length (trim_space s) ≤ length s
unfolding trim_space
trim_space_le s = omega (arith, trim_right_le (trim_left s), trim_left_le s)

length-take-le : (n : ℕ) (s : Text) → length (take n s) ≤ length s
length-take-le zero s = omega arith
length-take-le (suc n) [] = omega arith
length-take-le (suc n) (c ∷ s) = omega (arith, length-take-le n s)

inside_le : (s : Text) → length (trim_space (inside s)) ≤ length s - 1
unfolding inside
inside_le s = omega (
  arith,
  trim_space_le (take (length s - 2) (drop 1 s)),
  length-take-le (length s - 2) (drop 1 s),
  length-drop 1 s,
)

last_split : (t : Text) → has_suffix t 41 ≡ true → t ≡ take (length t - 1) t ++ 41 ∷ []
unfolding has_suffix
last_split [] h = absurd (cc h)
last_split (c ∷ []) h = let e : c ≡ 41 = ground arith in rw e refl
last_split (c ∷ d ∷ t) h =
    let ih = last_split (d ∷ t) h in
    let n : length (c ∷ d ∷ t) - 1 ≡ suc (length (d ∷ t) - 1) = omega arith in
    rw n (ap (λ u. c ∷ u) ih)

wrapped : (s : Text) → is_wrapped s ≡ true → s ≡ wrap (inside s)
unfolding inside has_prefix has_suffix
wrapped [] h = absurd (cc h)
wrapped (c ∷ []) h = absurd (cc h)
wrapped (c ∷ d ∷ t) h =
    let (long, both) = &&_both (leb 2 (length (c ∷ d ∷ t))) _ h in
    let (first, last) = &&_both (has_prefix (c ∷ d ∷ t) (40 ∷ [])) _ both in
    let e : c ≡ 40 = ground arith in
    let n : length (c ∷ d ∷ t) - 2 ≡ length (d ∷ t) - 1 = omega arith in
    rw (n, e) (ap (λ u. 40 ∷ u) (last_split (d ∷ t) last))

ends_closed : (m : Text) → has_suffix (m ++ 41 ∷ []) 41 ≡ true
unfolding has_suffix
ends_closed [] = refl
ends_closed (c ∷ []) = refl
ends_closed (c ∷ d ∷ m) = ends_closed (d ∷ m)

wrap-is_wrapped : (m : Text) → is_wrapped (wrap m) ≡ true
unfolding has_prefix
wrap-is_wrapped m =
    let long : leb 2 (length (wrap m)) ≡ true = ground (arith, length-append m (41 ∷ [])) in
    let ends = ends_closed (40 ∷ m) in rw (long, ends) refl

wrap-closed_early : (m : Text) → closed_early 0 (wrap m) ≡ closed_early 1 (m ++ 41 ∷ [])
wrap-closed_early m = closed_early-step 0 40 m ∙ (unfold next_depth in refl)

IsBalanced-wrap : (m : Text) → IsBalanced (wrap m) → closed_early 0 (wrap m) ≡ false → IsBalanced m
IsBalanced-wrap m h k =
    let first : step 0 40 ≡ some 1 = (unfold step in refl) in
    balanced_inside 0 m (sym (skip _ _ _ _ first) ∙ h) (sym (wrap-closed_early m) ∙ k)

-- A text that the loop leaves is not enclosed.
kept : (s : Text) → (is_wrapped s && not (closed_early 0 s)) ≡ false → ¬ IsEnclosed s
kept s h (m, b, e) =
    let open_pair : (is_wrapped (wrap m) && not (closed_early 0 (wrap m))) ≡ false =
      subst (λ x. (is_wrapped x && not (closed_early 0 x)) ≡ false) e h in
    let goes_on = wrap-closed_early m ∙ not_closed_early 0 m b in
    let g : true ≡ false = rw (wrap-is_wrapped m, goes_on) at open_pair in cc

strip_parens-Unwraps :
    (fuel : ℕ) (s : Text)
    → length s ≤ fuel
    → IsBalanced s
    → Unwraps s (strip_parens fuel s) × (¬ IsEnclosed (strip_parens fuel s))
unfolding strip_parens inside
strip_parens-Unwraps zero [] le b = (bare, λ (m, x, e). absurd (cc e))
strip_parens-Unwraps zero (c ∷ s) le b = absurd (omega arith)
strip_parens-Unwraps (suc fuel) s le b = elim (Bool-cases (is_wrapped s)) [
  | inr w ↦ rw w (bare, kept s (rw w refl))
  | inl w ↦ elim (Bool-cases (closed_early 0 s)) [
    | inl k ↦ rw (w, k) (bare, kept s (rw (w, k) refl))
    | inr k ↦
        let e = wrapped s w in
        let balanced =
          IsBalanced-wrap (inside s) (subst IsBalanced e b)
            (subst (λ x. closed_early 0 x ≡ false) e k) in
        let (rest, free) =
          strip_parens-Unwraps fuel (trim_space (inside s)) (omega (arith, inside_le s, le))
            (IsBalanced-trim_space (inside s) balanced) in
        let result = strip_parens fuel (trim_space (inside s)) in
        let whole : Unwraps s result =
          subst (λ x. Unwraps x result) (sym e) (unwrap (inside s) balanced rest) in
        rw (w, k) (whole, free)
  ]
]

-- A body whose parentheses are balanced loses exactly enclosing pairs: in each round the first and the
-- last character, which are partners of one another, and the white space inside of them; and what is
-- left is not enclosed by a pair of partners.
pub strip_outer_parens-Unwraps :
    (s : Text)
    → IsBalanced s
    → Unwraps s (strip_outer_parens s) × (¬ IsEnclosed (strip_outer_parens s))
unfolding strip_outer_parens
strip_outer_parens-Unwraps s b = strip_parens-Unwraps (length s) s (omega arith) b
