-- ===== src/Plugin/Check/Nesting.antt =====
-- The nesting of parentheses, and the depth that stripOuterParens of cmd/protoc-gen-go-jet/check.go
-- counts.
use protoc_gen_go_jet.Common.{
  ℕ, zero, suc, ◌-◌, ◌==◌, Text, true, false, not, ◌&&◌, [], ◌∷◌, ◌++◌, Option, none, some,
  is_empty, is_space, trim_left, trim_right, trim_space, &&_both, if◌then◌else◌, ◌≡◌, refl, sym,
  ◌∙◌, ap, ◌⊎◌, Bool-cases, inl, inr, arith,
}
use protoc_gen_go_jet.Plugin.Check.{closed_early}

-- How many parentheses are open behind a character; a closing one needs one that is open.
unfoldable pub step : ℕ → ℕ → Option ℕ
step d c =
    if c == 40
    then some (suc d)
    else if not (c == 41)
    then some d
    else if d == 0
    then none
    else some (d - 1)

-- How many are open behind a text.
unfoldable pub open_after : ℕ → Text → Option ℕ
open_after d [] = some d
open_after d (c ∷ s) = elim (step d c) [ none ↦ none | some e ↦ open_after e s ]

-- Every parenthesis has its partner.
abbrev pub IsBalanced : Text → Type 0
IsBalanced s = open_after 0 s ≡ some 0

abbrev pub wrap : Text → Text
wrap m = 40 ∷ (m ++ 41 ∷ [])

-- The outermost parentheses are partners.
abbrev pub IsEnclosed : Text → Type 0
IsEnclosed s = (m : Text) × IsBalanced m × (s ≡ wrap m)

-- What is left when such pairs are taken off, each with the white space inside of it.
pub data Unwraps : Text → Text → Type 0 where
  bare : {s : Text} → Unwraps s s
  unwrap : {t : Text} (m : Text) → IsBalanced m → Unwraps (trim_space m) t → Unwraps (wrap m) t

unfoldable pub next_depth : ℕ → ℕ → ℕ
next_depth d c = if c == 40 then suc d else if c == 41 then d - 1 else d

-- What a character does to the nesting, here and in the loop of the source.
abbrev Opens : ℕ → Type 0
Opens c = (d : ℕ) → (step d c ≡ some (suc d)) × (next_depth d c ≡ suc d) × ((c == 41) ≡ false)

abbrev Closes : ℕ → Type 0
Closes c =
    ((d : ℕ) → (step (suc d) c ≡ some d) × (next_depth (suc d) c ≡ d))
    × (step 0 c ≡ none)
    × ((c == 41) ≡ true)

abbrev Passes : ℕ → Type 0
Passes c = (d : ℕ) → (step d c ≡ some d) × (next_depth d c ≡ d) × ((c == 41) ≡ false)

not_zero : (d : ℕ) → (suc d == 0) ≡ false
not_zero d = ground arith

less_one : (d : ℕ) → suc d - 1 ≡ d
less_one d = omega arith

kinds : (c : ℕ) → Opens c ⊎ (Closes c ⊎ Passes c)
unfolding step next_depth
kinds c = elim (Bool-cases (c == 40)) [
  | inl e ↦ inl (λ d. (rw e refl, rw e refl, ground (arith, e)))
  | inr e ↦ elim (Bool-cases (c == 41)) [
    | inl f ↦ inr (
        inl (
          λ d. (rw (e, f, not_zero d, less_one d) refl, rw (e, f, less_one d) refl),
          rw (e, f) refl,
          f,
        ))
    | inr f ↦ inr (inr (λ d. (rw (e, f) refl, rw (e, f) refl, f)))
  ]
]

step-space : (d c : ℕ) → is_space c ≡ true → step d c ≡ some d
unfolding step is_space
step-space d c h = ground arith

pub skip : (d c e : ℕ) (s : Text) → step d c ≡ some e → open_after d (c ∷ s) ≡ open_after e s
unfolding open_after
skip d c e s h = rw (open_after, h) refl

open_after-trim_left : (d : ℕ) (s : Text) → open_after d (trim_left s) ≡ open_after d s
unfolding trim_left
open_after-trim_left d [] = refl
open_after-trim_left d (c ∷ s) = elim (Bool-cases (is_space c)) [
  | inl e ↦ rw e (open_after-trim_left d s ∙ sym (skip _ _ _ s (step-space d c e)))
  | inr e ↦ rw e refl
]

open_after-cons :
    (c : ℕ) (s t : Text)
    → ((d : ℕ) → open_after d s ≡ open_after d t)
    → (d : ℕ) → open_after d (c ∷ s) ≡ open_after d (c ∷ t)
unfolding open_after
open_after-cons c s t h d = go (step d c)
  where
    go :
        (o : Option ℕ)
        → (elim o [ none ↦ none | some e ↦ open_after e s ])
          ≡ (elim o [ none ↦ none | some e ↦ open_after e t ])
    go none = refl
    go (some e) = h e

empty : (s : Text) → is_empty s ≡ true → s ≡ []
empty [] h = refl
empty (c ∷ s) h = absurd (cc h)

open_after-trim_right : (s : Text) (d : ℕ) → open_after d (trim_right s) ≡ open_after d s
unfolding trim_right
open_after-trim_right [] d = refl
open_after-trim_right (c ∷ s) d = elim (Bool-cases (is_space c && is_empty (trim_right s))) [
  | inl e ↦
      let (space, none_left) = &&_both (is_space c) _ e in
      rw e (
        ap (open_after d) (sym (empty (trim_right s) none_left))
        ∙ open_after-trim_right s d
        ∙ sym (skip _ _ _ s (step-space d c space)))
  | inr e ↦ rw e (open_after-cons c (trim_right s) s (open_after-trim_right s) d)
]

pub IsBalanced-trim_space : (s : Text) → IsBalanced s → IsBalanced (trim_space s)
unfolding trim_space
IsBalanced-trim_space s h = open_after-trim_right (trim_left s) 0 ∙ open_after-trim_left 0 s ∙ h

pub closed_early-step :
    (d c : ℕ) (m : Text)
    → closed_early d (c ∷ (m ++ 41 ∷ [])) ≡ (
        if c == 41 && next_depth d c == 0
        then true
        else closed_early (next_depth d c) (m ++ 41 ∷ []))
unfolding closed_early next_depth
closed_early-step d c [] = refl
closed_early-step d c (e ∷ m) = refl

-- The pair around a text that is not closed early is one of partners.
pub balanced_inside :
    (e : ℕ) (m : Text)
    → open_after (suc e) (m ++ 41 ∷ []) ≡ some 0
    → closed_early (suc e) (m ++ 41 ∷ []) ≡ false
    → open_after e m ≡ some 0
balanced_inside e [] h k = (unfold open_after step in ground arith)
balanced_inside zero (c ∷ m) h k =
    let k' = sym (closed_early-step 1 c m) ∙ k in
    elim (kinds c) [
      | inl o ↦
          skip _ _ _ m (o 0).0
          ∙ (balanced_inside 1 m (sym (skip _ _ _ _ (o 1).0) ∙ h) (rw ((o 1).1, (o 1).2) at k'))
      | inr (inl (s, n, f)) ↦ absurd (let g : true ≡ false = rw ((s 0).1, f) at k' in cc)
      | inr (inr p) ↦
          skip _ _ _ m (p 0).0
          ∙ (balanced_inside 0 m (sym (skip _ _ _ _ (p 1).0) ∙ h) (rw ((p 1).1, (p 1).2) at k'))
    ]
balanced_inside (suc e) (c ∷ m) h k =
    let k' = sym (closed_early-step (suc (suc e)) c m) ∙ k in
    elim (kinds c) [
      | inl o ↦
          skip _ _ _ m (o (suc e)).0
          ∙ (balanced_inside (suc (suc e)) m (sym (skip _ _ _ _ (o (suc (suc e))).0) ∙ h)
              (rw ((o (suc (suc e))).1, (o (suc (suc e))).2) at k'))
      | inr (inl (s, n, f)) ↦
          skip _ _ _ m (s e).0
          ∙ (balanced_inside e m (sym (skip _ _ _ _ (s (suc e)).0) ∙ h)
              (rw ((s (suc e)).1, f, not_zero e) at k'))
      | inr (inr p) ↦
          skip _ _ _ m (p (suc e)).0
          ∙ (balanced_inside (suc e) m (sym (skip _ _ _ _ (p (suc (suc e))).0) ∙ h)
              (rw ((p (suc (suc e))).1, (p (suc (suc e))).2) at k'))
    ]

pub not_closed_early :
    (e : ℕ) (m : Text) → open_after e m ≡ some 0 → closed_early (suc e) (m ++ 41 ∷ []) ≡ false
unfolding open_after
not_closed_early e [] h = (unfold closed_early in refl)
not_closed_early zero (c ∷ m) h = closed_early-step 1 c m ∙ elim (kinds c) [
  | inl o ↦ rw ((o 1).1, (o 1).2) (not_closed_early 1 m (sym (skip _ _ _ _ (o 0).0) ∙ h))
  | inr (inl (s, n, f)) ↦ absurd (let g : none ≡ some 0 = rw (open_after, n) at h in cc)
  | inr (inr p) ↦ rw ((p 1).1, (p 1).2) (not_closed_early 0 m (sym (skip _ _ _ _ (p 0).0) ∙ h))
]
not_closed_early (suc e) (c ∷ m) h = closed_early-step (suc (suc e)) c m ∙ elim (kinds c) [
  | inl o ↦
      rw ((o (suc (suc e))).1, (o (suc (suc e))).2)
        (not_closed_early (suc (suc e)) m (sym (skip _ _ _ _ (o (suc e)).0) ∙ h))
  | inr (inl (s, n, f)) ↦
      rw ((s (suc e)).1, f, not_zero e) (not_closed_early e m (sym (skip _ _ _ _ (s e).0) ∙ h))
  | inr (inr p) ↦
      rw ((p (suc (suc e))).1, (p (suc (suc e))).2)
        (not_closed_early (suc e) m (sym (skip _ _ _ _ (p (suc e)).0) ∙ h))
]
