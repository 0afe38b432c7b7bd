-- ===== src/Plugin/Sql/Quote.antt =====
-- What PostgreSQL reads where emit_sql.go quotes: dollar-quoted literals (manual,
-- section 4.1.2.4).
use protoc_gen_go_jet.Common.{
  ℕ, zero, suc, ◌+◌, ◌≤◌, Text, Bool, true, false, ◌&&◌, ◌||◌, [], ◌∷◌, ◌++◌, Option, none, some,
  is_empty, length, length-append, drop, has_prefix, contains_byte, codes, if◌then◌else◌, ◌==◌, ◌≡◌,
  refl, ap, ◌∙◌, ◌⊎◌, inl, inr, Bool-cases, &&_both, ==_iff, append_assoc, arith,
}
use protoc_gen_go_jet.Aip.Errors.{ok}
use protoc_gen_go_jet.Plugin.Identifier.{contains_text, delimiter, find_tag, sql_dollar_quote}

-- A text cut at the first place where the separator stands.
unfoldable pub cut_at : Text → Text → Option (Text × Text)
cut_at d [] = if is_empty d then some ([], []) else none
cut_at d (c ∷ s) =
    let rest = cut_at d s in
    if has_prefix (c ∷ s) d
    then some ([], drop (length d) (c ∷ s))
    else elim rest [ none ↦ none | some (a, b) ↦ some (c ∷ a, b) ]

-- A dollar-quoted literal and what follows: the tag up to the second dollar, then the text up to the
-- first place where the delimiter stands again.
unfoldable pub read_dollar : Text → Option (Text × Text)
unfolding cut_at
read_dollar [] = none
read_dollar (c ∷ s) =
    if c == 36
    then elim (cut_at (36 ∷ []) s) [ none ↦ none | some (tag, body) ↦ cut_at (delimiter tag) body ]
    else none

unfoldable pub all_x : Text → Bool
all_x [] = true
all_x (c ∷ s) = c == 120 && all_x s

-- The text ends in a dollar, up to letters x behind it.
unfoldable pub open_end : Text → Bool
unfolding all_x
open_end [] = false
open_end (c ∷ s) = c == 36 && all_x s || open_end s

has_prefix_le : (s p : Text) → has_prefix s p ≡ true → length p ≤ length s
unfolding has_prefix
has_prefix_le s [] h = omega arith
has_prefix_le [] (d ∷ p) h = absurd (cc h)
has_prefix_le (c ∷ s) (d ∷ p) h =
    let (e, k) = &&_both (c == d) _ h in omega (arith, has_prefix_le s p k)

contains_text_le : (s p : Text) → contains_text s p ≡ true → length p ≤ length s
unfolding contains_text
contains_text_le [] [] h = omega arith
contains_text_le [] (d ∷ p) h = absurd (cc h)
contains_text_le (c ∷ s) p h = elim (Bool-cases (has_prefix (c ∷ s) p)) [
  | inl e ↦ has_prefix_le (c ∷ s) p e
  | inr e ↦ let k : contains_text s p ≡ true = rw e at h in omega (arith, contains_text_le s p k)
]

too_long : (s tag : Text) → contains_text s (delimiter tag) ≡ true → suc (length tag) ≤ length s
too_long s tag e =
    let l = contains_text_le s (delimiter tag) e in omega (arith, l, length-append tag (36 ∷ []))

-- The tag, once it is found.
abbrev Found : ℕ → Text → Text → Type 0
Found fuel s tag =
    (t : Text) × (find_tag fuel s tag ≡ ok t)
    × (all_x t ≡ true)
    × (contains_text s (delimiter t) ≡ false)

tag_here :
    (fuel : ℕ) (s tag : Text)
    → all_x tag ≡ true
    → contains_text s (delimiter tag) ≡ false
    → Found (suc fuel) s tag
unfolding find_tag
tag_here fuel s tag x e = (tag, rw e refl, x, e)

tag_later :
    (fuel : ℕ) (s tag : Text)
    → contains_text s (delimiter tag) ≡ true
    → Found fuel s (120 ∷ tag)
    → Found (suc fuel) s tag
unfolding find_tag
tag_later fuel s tag e (t, found, y, z) = (t, rw e found, y, z)

find_tag_lem :
    (fuel : ℕ) (s tag : Text)
    → length s ≤ fuel + length tag
    → all_x tag ≡ true
    → Found (suc fuel) s tag
unfolding all_x
find_tag_lem zero s tag enough x = elim (Bool-cases (contains_text s (delimiter tag))) [
  | inr e ↦ tag_here zero s tag x e
  | inl e ↦ absurd (let l = too_long s tag e in omega (arith, l, enough))
]
find_tag_lem (suc n) s tag enough x = elim (Bool-cases (contains_text s (delimiter tag))) [
  | inr e ↦ tag_here (suc n) s tag x e
  | inl e ↦
      tag_later (suc n) s tag e (find_tag_lem n s (120 ∷ tag) (omega (arith, enough)) (rw x refl))
]

-- Every text gets a delimiter: the loop that lengthens the tag ends within as many rounds as the text
-- has characters, and one.
pub sql_dollar_quote_total : (s : Text) → (q : Text) × (sql_dollar_quote s ≡ ok q)
unfolding sql_dollar_quote
sql_dollar_quote_total s =
    let (t, found, x, z) = find_tag_lem (length s) s [] (omega arith) (unfold all_x in refl) in
    (delimiter t ++ (s ++ delimiter t), rw found refl)

all_x-no_dollar : (t : Text) → all_x t ≡ true → contains_byte t 36 ≡ false
unfolding all_x contains_byte
all_x-no_dollar [] h = refl
all_x-no_dollar (c ∷ t) h =
    let (e, k) = &&_both (c == 120) _ h in let ih = all_x-no_dollar t k in ground (arith, ih)

-- A delimiter that begins in a text and ends behind it takes all of the text.
crossing :
    (tag s z : Text)
    → all_x tag ≡ true
    → has_prefix (s ++ (36 ∷ z)) (tag ++ 36 ∷ []) ≡ true
    → (has_prefix s (tag ++ 36 ∷ []) ≡ true) ⊎ (s ≡ tag)
unfolding has_prefix all_x
crossing [] [] z x h = inr refl
crossing (t ∷ tag) [] z x h = absurd (ground arith)
crossing [] (c ∷ s) z x h = inl (ground arith)
crossing (t ∷ tag) (c ∷ s) z x h =
    let (e, k) = &&_both (c == t) _ h in
    let (e', x') = &&_both (t == 120) _ x in
    elim (crossing tag s z x' k) [
      | inl l ↦ inl (rw (e, l) refl)
      | inr r ↦ inr (ap (λ u. u ∷ s) ((==_iff c t).0 e) ∙ ap (λ u. t ∷ u) r)
    ]

has_prefix_self : (p z : Text) → has_prefix (p ++ z) p ≡ true
unfolding has_prefix
has_prefix_self [] z = refl
has_prefix_self (c ∷ p) z = let ih = has_prefix_self p z in ground (arith, ih)

drop_self : (p z : Text) → drop (length p) (p ++ z) ≡ z
drop_self [] z = refl
drop_self (c ∷ p) z = drop_self p z

cut_at_here : (d z : Text) → is_empty d ≡ false → cut_at d (d ++ z) ≡ some ([], z)
unfolding cut_at
cut_at_here [] z h = absurd (cc h)
cut_at_here (c ∷ d) z h = rw (has_prefix_self (c ∷ d) z, drop_self d z) refl

no_crossing :
    (t : Text) (c : ℕ) (s z : Text)
    → all_x t ≡ true
    → has_prefix (c ∷ s) (delimiter t) ≡ false
    → (c == 36 && all_x s) ≡ false
    → has_prefix (c ∷ (s ++ (36 ∷ z))) (delimiter t) ≡ false
unfolding has_prefix
no_crossing t c s z x apart h = elim (Bool-cases (has_prefix (c ∷ (s ++ (36 ∷ z))) (delimiter t))) [
  | inr e ↦ e
  | inl e ↦ absurd (
      let (a, k) = &&_both (c == 36) _ e in
      elim (crossing t s z x k) [
        | inl l ↦
            (let apart' : (c == 36 && has_prefix s (t ++ 36 ∷ [])) ≡ false = apart in ground arith)
        | inr r ↦ (let y : all_x s ≡ true = rw r x in ground arith)
      ])
]

cut_at-cons :
    (d : Text) (c : ℕ) (s : Text) {a b : Text}
    → has_prefix (c ∷ s) d ≡ false
    → cut_at d s ≡ some (a, b)
    → cut_at d (c ∷ s) ≡ some (c ∷ a, b)
unfolding cut_at
cut_at-cons d c s e h = rw (e, h) refl

-- The text is read up to its end.
cut_at-delimiter :
    (t s z : Text)
    → all_x t ≡ true
    → contains_text s (delimiter t) ≡ false
    → open_end s ≡ false
    → cut_at (delimiter t) (s ++ (delimiter t ++ z)) ≡ some (s, z)
cut_at-delimiter t [] z x apart closed = cut_at_here (delimiter t) z refl
cut_at-delimiter t (c ∷ s) z x apart closed =
    let apart' : (has_prefix (c ∷ s) (delimiter t) || contains_text s (delimiter t)) ≡ false =
      unfold contains_text in apart in
    let closed' : (c == 36 && all_x s || open_end s) ≡ false = unfold open_end in closed in
    let ih = cut_at-delimiter t s z x (ground arith) (ground arith) in
    let step = no_crossing t c s ((t ++ 36 ∷ []) ++ z) x (ground arith) (ground arith) in
    cut_at-cons (delimiter t) c (s ++ (delimiter t ++ z)) step ih

cut_at_tag : (t z : Text) → all_x t ≡ true → cut_at (36 ∷ []) (t ++ (36 ∷ z)) ≡ some (t, z)
unfolding all_x cut_at has_prefix
cut_at_tag [] z x = refl
cut_at_tag (c ∷ t) z x =
    let (e, k) = &&_both (c == 120) _ x in
    let other : (c == 36) ≡ false = ground arith in rw (other, cut_at_tag t z k) refl

-- What is read of a quoted text, when its tag is known.
read_quoted :
    (t s z : Text)
    → all_x t ≡ true
    → read_dollar ((delimiter t ++ (s ++ delimiter t)) ++ z)
      ≡ cut_at (delimiter t) (s ++ (delimiter t ++ z))
unfolding read_dollar
read_quoted t s z x =
    let shape : (t ++ 36 ∷ []) ++ (s ++ delimiter t) ++ z ≡ t ++ (36 ∷ (s ++ (delimiter t ++ z))) =
      simp append_assoc refl in
    rw (shape, cut_at_tag t (s ++ (delimiter t ++ z)) x) refl

-- A text that does not end in a dollar, up to letters x behind it, is quoted so that PostgreSQL reads
-- that text and nothing of what follows the literal.
pub sql_dollar_quote-read_dollar :
    (s rest : Text)
    → open_end s ≡ false
    → (q : Text) × (sql_dollar_quote s ≡ ok q) × (read_dollar (q ++ rest) ≡ some (s, rest))
unfolding sql_dollar_quote
sql_dollar_quote-read_dollar s rest closed =
    let (t, found, x, apart) = find_tag_lem (length s) s [] (omega arith) (unfold all_x in refl) in
    (
      delimiter t ++ (s ++ delimiter t),
      rw found refl,
      read_quoted t s rest x ∙ cut_at-delimiter t s rest x apart closed,
    )

no_pair :
    (u : Text) → contains_byte u 36 ≡ false → contains_text (u ++ 36 ∷ []) (36 ∷ 36 ∷ []) ≡ false
unfolding contains_text contains_byte has_prefix
no_pair [] h = refl
no_pair (c ∷ u) h = let ih = no_pair u (ground arith) in ground (arith, ih)

cut_at-pair :
    (u z : Text)
    → contains_byte u 36 ≡ false
    → cut_at (36 ∷ 36 ∷ []) (u ++ (36 ∷ (36 ∷ z))) ≡ some (u, z)
unfolding cut_at contains_byte has_prefix
cut_at-pair [] z h = refl
cut_at-pair (c ∷ u) z h =
    let other : (c == 36) ≡ false = ground arith in rw (other, cut_at-pair u z (ground arith)) refl

-- A text that ends in its only dollar is not read back: PostgreSQL reads it without that dollar, and a
-- dollar is left behind the literal, where the statement should end.
pub sql_dollar_quote-open_end :
    (u rest : Text)
    → contains_byte u 36 ≡ false
    → (q : Text) × (sql_dollar_quote (u ++ 36 ∷ []) ≡ ok q)
      × (read_dollar (q ++ rest) ≡ some (u, 36 ∷ rest))
unfolding sql_dollar_quote find_tag
sql_dollar_quote-open_end u rest h =
    let shape : (u ++ 36 ∷ []) ++ (36 ∷ (36 ∷ rest)) ≡ u ++ (36 ∷ (36 ∷ (36 ∷ rest))) =
      append_assoc u _ _ in
    (
      codes "$$" ++ ((u ++ 36 ∷ []) ++ codes "$$"),
      rw (no_pair u h) refl,
      read_quoted [] (u ++ 36 ∷ []) rest (unfold all_x in refl)
          ∙ rw shape (cut_at-pair u (36 ∷ rest) h),
    )
