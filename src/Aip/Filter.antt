-- ===== src/Aip/Filter.antt =====
-- pkg/aip/filter.go: the filter on a substring of the name.
pub mod Panic
use protoc_gen_go_jet.Common.{
  ℕ, suc, ◌-◌, Text, codes, Bool, true, false, not, ◌||◌, [], ◌∷◌, ◌++◌, is_empty, length, take,
  drop, has_prefix, has_suffix, contains_byte, if◌then◌else◌, ltb, ◌≡◌, ◌↔◌, refl, ◌∙◌, ap, arith,
  Bool-cases, inl, inr,
}
use protoc_gen_go_jet.Aip.Errors.{Result, ok, panic, fail, plain, ◌>>=◌}

abbrev pub name_prefix : Text
name_prefix = codes "name:\""

unfoldable pub make_name_filter : Text → Text
make_name_filter name_contains =
    if is_empty name_contains || contains_byte name_contains 34 || contains_byte name_contains 92
    then []
    else name_prefix ++ (name_contains ++ codes "\"")

-- filter[len(prefix) : len(filter)-1], which panics if the bounds cross
unfoldable pub name_body : Text → Result Text
name_body filter =
    if ltb (length filter - 1) (length name_prefix)
    then panic
    else ok (take (length filter - 1 - length name_prefix) (drop (length name_prefix) filter))

abbrev pub checked_body : Text → Result Text
checked_body body = if contains_byte body 34 then fail [] plain else ok body

unfoldable pub parse_name_filter : Text → Result Text
unfolding name_body
parse_name_filter filter =
    if is_empty filter
    then ok []
    else if not (has_prefix filter name_prefix) || not (has_suffix filter 34)
    then fail [] plain
    else (name_body filter >>= checked_body)

dropped : (n : Text) → drop 6 (name_prefix ++ n) ≡ n
dropped n = refl

taken : (n r : Text) → take (length n) (n ++ r) ≡ n
taken [] r = refl
taken (c ∷ n) r = ap (λ m. c ∷ m) (taken n r)

ends_quoted : (n : Text) → has_suffix (n ++ codes "\"") 34 ≡ true
unfolding has_suffix
ends_quoted [] = refl
ends_quoted (c ∷ []) = refl
ends_quoted (c ∷ d ∷ n) = ends_quoted (d ∷ n)

length-quoted : (n : Text) → length (n ++ codes "\"") ≡ suc (length n)
length-quoted [] = refl
length-quoted (c ∷ n) = ap suc (length-quoted n)

body_quoted : (n : Text) → name_body (name_prefix ++ (n ++ codes "\"")) ≡ ok n
unfolding name_body
body_quoted n =
    rw (length-quoted n, long (length n))
      (ap ok (ap (λ k. take k (n ++ codes "\"")) (left (length n)) ∙ taken n (codes "\"")))
  where
    long : (k : ℕ) → ltb (suc (suc (suc (suc (suc (suc (suc k)))))) - 1) 6 ≡ false
    long k = ground arith

    left : (k : ℕ) → suc (suc (suc (suc (suc (suc (suc k)))))) - 1 - 6 ≡ k
    left k = omega arith

prefixed : (n : Text) → has_prefix (name_prefix ++ n) name_prefix ≡ true
unfolding has_prefix
prefixed n = refl

parsed_name :
    (n : Text)
    → contains_byte n 34 ≡ false
    → parse_name_filter (name_prefix ++ (n ++ codes "\"")) ≡ ok n
unfolding parse_name_filter has_suffix
parsed_name n h = rw (prefixed (n ++ codes "\""), ends_quoted (34 ∷ n), body_quoted n, h)

read_back :
    (name : Text)
    → parse_name_filter (make_name_filter name)
      ≡ ok (if contains_byte name 34 || contains_byte name 92 then [] else name)
unfolding make_name_filter
read_back [] = unfold parse_name_filter contains_byte in refl
read_back (c ∷ n) = elim (Bool-cases (contains_byte (c ∷ n) 34)) [
  | inl e ↦ rw e (unfold parse_name_filter in refl)
  | inr e ↦ elim (Bool-cases (contains_byte (c ∷ n) 92)) [
    | inl d ↦ rw (e, d) (unfold parse_name_filter in refl)
    | inr d ↦ rw (e, d) (parsed_name (c ∷ n) e)
  ]
]

make_name_filter_iff :
    (name : Text)
    → (make_name_filter name ≡ [])
      ↔ ((is_empty name || contains_byte name 34 || contains_byte name 92) ≡ true)
unfolding make_name_filter
make_name_filter_iff name =
    by_test (is_empty name || contains_byte name 34 || contains_byte name 92)
  where
    by_test :
        (b : Bool) → ((if b then [] else name_prefix ++ (name ++ codes "\"")) ≡ []) ↔ (b ≡ true)
    by_test true = (λ h. refl, λ h. refl)
    by_test false = (λ h. absurd (cc h), λ h. absurd (cc h))

-- A name that has no quote and no backslash is read back from its filter, the empty one included; the
-- filter is empty exactly for the empty name and for a name with a quote or a backslash, and is then
-- read as the empty name.
pub parse_name_filter-make_name_filter :
    (name : Text)
    → (parse_name_filter (make_name_filter name)
        ≡ ok (if contains_byte name 34 || contains_byte name 92 then [] else name))
      × ((make_name_filter name ≡ [])
          ↔ ((is_empty name || contains_byte name 34 || contains_byte name 92) ≡ true))
parse_name_filter-make_name_filter name = (read_back name, make_name_filter_iff name)

-- The prefix alone ends in a quote, and the slice of its value panics.
pub parse_name_filter_panic : parse_name_filter name_prefix ≡ panic
unfolding parse_name_filter has_prefix has_suffix
parse_name_filter_panic = refl
