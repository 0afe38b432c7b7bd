-- ===== src/Aip/Filter/Panic.antt =====
-- The one filter on which the name filter's parser panics.
use protoc_gen_go_jet.Common.{
  ◌-◌, Text, true, [], ◌∷◌, ◌++◌, is_empty, length, has_prefix, has_suffix, contains_byte, ltb,
  ◌==◌, ◌≡◌, ◌↔◌, refl, ◌∙◌, ap, sym, subst, arith, Bool-cases, &&_both, inl, inr,
}
use protoc_gen_go_jet.Aip.Errors.{ok, err, panic, ◌>>=◌}
use protoc_gen_go_jet.Aip.Filter.{
  name_prefix, name_body, checked_body, parse_name_filter, parse_name_filter_panic,
}

has_prefix_split : (s p : Text) → has_prefix s p ≡ true → (r : Text) × (s ≡ p ++ r)
unfolding has_prefix
has_prefix_split s [] h = (s, refl)
has_prefix_split [] (d ∷ p) h = absurd (cc h)
has_prefix_split (c ∷ s) (d ∷ p) h =
    let (e, k) = &&_both (c == d) _ h in
    let (r, q) = has_prefix_split s p k in
    let same : c ≡ d = ground arith in (r, ap (λ x. x ∷ s) same ∙ ap (λ t. d ∷ t) q)

checked_body_ends : (body : Text) {P : Type 0} → checked_body body ≡ panic → P
checked_body_ends body h = elim (Bool-cases (contains_byte body 34)) [
  | inl e ↦ absurd (let ended : err _ ≡ panic = rw e at h in cc)
  | inr e ↦ absurd (let ended : ok body ≡ panic = rw e at h in cc)
]

short : (r : Text) → ltb (length (name_prefix ++ r) - 1) 6 ≡ true → r ≡ []
short [] h = refl
short (c ∷ r) h = absurd (ground arith)

name_body_panic :
    (f : Text)
    → has_prefix f name_prefix ≡ true
    → (name_body f >>= checked_body) ≡ panic
    → f ≡ name_prefix
unfolding name_body
name_body_panic f starts h = elim (Bool-cases (ltb (length f - 1) 6)) [
  | inl e ↦
      let (r, q) = has_prefix_split f name_prefix starts in
      q ∙ ap (λ t. name_prefix ++ t) (short r (subst (λ t. ltb (length t - 1) 6 ≡ true) q e))
  | inr e ↦ checked_body_ends _ (rw e at h)
]

panics : (f : Text) → parse_name_filter f ≡ panic → f ≡ name_prefix
unfolding parse_name_filter
panics f h = elim (Bool-cases (is_empty f)) [
  | inl e ↦ absurd (let ended : ok [] ≡ panic = rw e at h in cc)
  | inr e ↦ elim (Bool-cases (has_prefix f name_prefix)) [
    | inr s ↦ absurd (let ended : err _ ≡ panic = rw (e, s) at h in cc)
    | inl s ↦ elim (Bool-cases (has_suffix f 34)) [
      | inr t ↦ absurd (let ended : err _ ≡ panic = rw (e, s, t) at h in cc)
      | inl t ↦ name_body_panic f s (rw (e, s, t) at h)
    ]
  ]
]

-- The parser of the name filter panics on exactly one text, the prefix `name:"` with nothing behind
-- it, whose last quote is taken for the closing one.
pub parse_name_filter_panic_iff : (f : Text) → (parse_name_filter f ≡ panic) ↔ (f ≡ name_prefix)
parse_name_filter_panic_iff f =
    (panics f, λ e. subst (λ t. parse_name_filter t ≡ panic) (sym e) parse_name_filter_panic)
