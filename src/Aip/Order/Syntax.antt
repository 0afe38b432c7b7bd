-- ===== src/Aip/Order/Syntax.antt =====
-- What the order_by parser accepts.
use protoc_gen_go_jet.Common.{
  Text, true, List, [], ◌∷◌, ◌++◌, arith, ◌≡◌, refl, Bool-cases, inl, inr, All, All-append,
  is_empty, trim_space, split, fields, subst, All-zip₃,
}
use protoc_gen_go_jet.Common.Words.{
  trim_space-All, split-All, fields-All, split-Lacks, fields-IsWord, IsWord, Lacks,
}
use protoc_gen_go_jet.Aip.Errors.{ok, err, >>=-eq-ok}
use protoc_gen_go_jet.Aip.Order.{
  Unicode, OrderField, OrderBy, valid_character, check_characters, parse_parts, parse_spec,
  parse_specs, parse_order_by,
}
use protoc_gen_go_jet.Aip.Order.Distinct.{IsDistinct, parse_order_by-IsDistinct, parse_order_by_inv}

-- A path as the grammar has it: a word of valid characters with no comma.
abbrev pub IsPath : Unicode → Text → Type 0
IsPath u p = IsWord p × All (λ c. valid_character u c ≡ true) p × Lacks b',' p

abbrev pub IsWellFormed : Unicode → List OrderField → Type 0
IsWellFormed u fs = All (λ f. IsPath u f.path) fs × IsDistinct fs

check_characters-All :
    (u : Unicode) (s : Text)
    → check_characters u s ≡ ok tt
    → All (λ c. valid_character u c ≡ true) s
unfolding check_characters
check_characters-All u [] h = tt
check_characters-All u (c ∷ s) h =
    (unfold check_characters in ground arith, check_characters-All u s (ground arith))

pub All-check_characters :
    (u : Unicode) (s : Text)
    → All (λ c. valid_character u c ≡ true) s
    → check_characters u s ≡ ok tt
unfolding check_characters
All-check_characters u [] h = refl
All-check_characters u (c ∷ s) h = rw (h.0, All-check_characters u s h.1)

parse_parts_head :
    (u : Unicode) (spec : Text) (seen parts : List Text) {f : OrderField} (P : Text → Type 0)
    → All P parts
    → parse_parts u spec seen parts ≡ ok f
    → P f.path
unfolding parse_parts
parse_parts_head u spec seen [] P a h = absurd (cc)
parse_parts_head u spec seen (p ∷ parts) P a h = subst P (ground arith) a.0

parse_spec-IsPath :
    (u : Unicode) (seen : List Text) (raw : Text) {f : OrderField}
    → All (λ c. valid_character u c ≡ true) raw
    → Lacks b',' raw
    → parse_spec u seen raw ≡ ok f
    → IsPath u f.path
unfolding parse_spec
parse_spec-IsPath u seen raw {f} valid lacks h = elim (Bool-cases (is_empty (trim_space raw))) [
  | inl blank ↦ absurd (let e : err _ ≡ ok f = rw blank at h in cc)
  | inr some_text ↦
      let spec = trim_space raw in
      parse_parts_head u spec seen (fields spec) (IsPath u)
        (All-zip₃ _ _ _ (fields spec) (fields-IsWord spec)
          (fields-All _ spec (trim_space-All _ raw valid))
          (fields-All _ spec (trim_space-All _ raw lacks)))
        (rw some_text at h)
]

parse_specs-IsPath :
    (u : Unicode) (specs seen : List Text) (done : List OrderField) {out : List OrderField}
    → All (All (λ c. valid_character u c ≡ true)) specs
    → All (Lacks b',') specs
    → All (λ f. IsPath u f.path) done
    → parse_specs u specs seen done ≡ ok out
    → All (λ f. IsPath u f.path) out
unfolding parse_specs
parse_specs-IsPath u [] seen done {out} _ _ d h =
    subst (All (λ f. IsPath u f.path)) (ground arith) d
parse_specs-IsPath u (raw ∷ specs) seen done v l d h =
    let (f, parsed, rest) = >>=-eq-ok (parse_spec u seen raw) _ h in
    parse_specs-IsPath u specs (f.path ∷ seen) (done ++ f ∷ []) v.1 l.1
      (All-append _ done (f ∷ []) d (parse_spec-IsPath u seen raw v.0 l.0 parsed, tt)) rest

-- Whatever text is accepted as order_by: each path is a word of valid characters with no comma,
-- and no path occurs twice.
pub parse_order_by-IsWellFormed :
    (u : Unicode) (text : Text) {ob : OrderBy}
    → parse_order_by u text ≡ ok ob
    → IsWellFormed u ob.fields
parse_order_by-IsWellFormed u text {ob} h = (
  elim (parse_order_by_inv u text h) [
    | inl blank ↦ rw blank tt
    | inr (checked, p) ↦
        let valid = check_characters-All u (trim_space text) checked in
        parse_specs-IsPath u (split (trim_space text) b',') [] []
          (split-All _ (trim_space text) b',' valid) (split-Lacks (trim_space text) b',') tt p
  ],
  parse_order_by-IsDistinct u text h,
)
