-- ===== src/Jet/Filter/Like.antt =====
-- What PostgreSQL's LIKE makes of the pattern that the substring operator builds (manual, section
-- 9.7.1, with the backslash as escape character).
use protoc_gen_go_jet.Common.{
  ℕ, Text, codes, Bool, true, false, List, [], ◌∷◌, ◌++◌, map, if◌then◌else◌, ◌==◌, ◌&&◌, ◌||◌, ◌≡◌,
  refl, sym, ◌∙◌, ap, subst, ◌↔◌, Bool-cases, &&_both, inl, inr, arith,
}
use protoc_gen_go_jet.Jet.Filter.{escape_like}

-- The parts of a pattern.
pub data LikePart : Type 0 where
  char : ℕ → LikePart
  any_char any_text : LikePart

-- The flag says that a backslash stands in front.
abbrev pub like_parts : Bool → Text → List LikePart
like_parts escaped [] = []
like_parts true (c ∷ p) = char c ∷ like_parts false p
like_parts false (c ∷ p) =
    if c == 92
    then like_parts true p
    else if c == 37
    then any_text ∷ like_parts false p
    else if c == 95
    then any_char ∷ like_parts false p
    else char c ∷ like_parts false p

-- A suffix passes the test.
abbrev any_suffix : (Text → Bool) → Text → Bool
any_suffix f [] = f []
any_suffix f (c ∷ t) = f (c ∷ t) || any_suffix f t

-- The first character passes the test, and the rest the other one.
abbrev first_then : (ℕ → Bool) → (Text → Bool) → Text → Bool
first_then f k [] = false
first_then f k (c ∷ t) = f c && k t

abbrev pub matches : List LikePart → Text → Bool
matches [] [] = true
matches [] (c ∷ t) = false
matches (char c ∷ ps) t = first_then (λ d. d == c) (matches ps) t
matches (any_char ∷ ps) t = first_then (λ d. true) (matches ps) t
matches (any_text ∷ ps) t = any_suffix (matches ps) t

unfoldable pub like : Text → Text → Bool
like pattern t = matches (like_parts false pattern) t

equal_codes : (c d : ℕ) → (c == d) ≡ true → c ≡ d
equal_codes c d h = ground arith

like_parts-escape_like_cons :
    (c : ℕ) (s r : Text)
    → like_parts false (escape_like (c ∷ s) ++ r) ≡ char c ∷ like_parts false (escape_like s ++ r)
unfolding escape_like
like_parts-escape_like_cons c s r = elim (Bool-cases (c == 92)) [
  | inl e ↦ rw (equal_codes c 92 e) refl
  | inr e ↦ elim (Bool-cases (c == 37)) [
    | inl d ↦ rw (equal_codes c 37 d) refl
    | inr d ↦ elim (Bool-cases (c == 95)) [
      | inl b ↦ rw (equal_codes c 95 b) refl
      | inr b ↦ rw (e, d, b, e, d, b) refl
    ]
  ]
]

like_parts-escape_like :
    (s r : Text) → like_parts false (escape_like s ++ r) ≡ map char s ++ like_parts false r
unfolding escape_like
like_parts-escape_like [] r = refl
like_parts-escape_like (c ∷ s) r =
    like_parts-escape_like_cons c s r ∙ ap (λ ps. char c ∷ ps) (like_parts-escape_like s r)

any_rest : (t : Text) → any_suffix (matches []) t ≡ true
any_rest [] = refl
any_rest (c ∷ t) = any_rest t

prefix_matched :
    (s t : Text) → matches (map char s ++ any_text ∷ []) t ≡ true → (r : Text) × (t ≡ s ++ r)
prefix_matched [] t h = (t, refl)
prefix_matched (c ∷ s) [] h = absurd (cc h)
prefix_matched (c ∷ s) (d ∷ t) h =
    let (e, k) = &&_both (d == c) _ h in
    let (r, q) = prefix_matched s t k in
    (r, ap (λ x. x ∷ t) (equal_codes d c e) ∙ ap (λ u. c ∷ u) q)

prefix_matches : (s r : Text) → matches (map char s ++ any_text ∷ []) (s ++ r) ≡ true
prefix_matches [] r = any_rest r
prefix_matches (c ∷ s) r = rw (prefix_matches s r) (ground arith)

suffix_found :
    (f : Text → Bool) (t : Text)
    → any_suffix f t ≡ true
    → (u v : Text) × (t ≡ u ++ v) × (f v ≡ true)
suffix_found f [] h = ([], [], refl, h)
suffix_found f (c ∷ t) h = elim (Bool-cases (f (c ∷ t))) [
  | inl e ↦ ([], c ∷ t, refl, e)
  | inr e ↦ let (u, v, p, k) = suffix_found f t (rw e at h) in (c ∷ u, v, ap (λ w. c ∷ w) p, k)
]

suffix_finds : (f : Text → Bool) (u v : Text) → f v ≡ true → any_suffix f (u ++ v) ≡ true
suffix_finds f [] [] h = h
suffix_finds f [] (c ∷ v) h = rw h refl
suffix_finds f (c ∷ u) v h = rw (suffix_finds f u v h) (ground arith)

-- The pattern between two percent signs matches exactly the texts that contain the needle: no
-- character of the needle, be it `%`, `_` or a backslash, acts as a wildcard.
pub escape_like-contains :
    (s t : Text)
    → (like (codes "%" ++ escape_like s ++ codes "%") t ≡ true)
      ↔ ((before : Text) × (after : Text) × (t ≡ before ++ (s ++ after)))
unfolding like
escape_like-contains s t =
    let parts = like_parts-escape_like s (codes "%") in
    let found : Text → Bool = matches (like_parts false (escape_like s ++ codes "%")) in
    (
      λ h.
          let (u, v, p, k) = suffix_found found t h in
          let (r, q) = prefix_matched s v (subst (λ ps. matches ps v ≡ true) parts k) in
          (u, r, p ∙ ap (λ w. u ++ w) q),
      λ (u, r, e).
          subst (λ w. any_suffix found w ≡ true) (sym e)
            (suffix_finds found u (s ++ r)
              (subst (λ ps. matches ps (s ++ r) ≡ true) (sym parts) (prefix_matches s r))),
    )
