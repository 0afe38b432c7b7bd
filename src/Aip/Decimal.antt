-- ===== src/Aip/Decimal.antt =====
-- strconv.FormatInt(i, 10) and strconv.ParseInt(s, 10, 64), which the integer codec calls.
use protoc_gen_go_jet.Common.{
  ℕ, zero, suc, ◌+◌, ◌-◌, ◌*◌, ◌/◌, ◌%◌, ◌^◌, ◌≤◌, ◌<◌, ℤ, pos, negsuc, Text, ◌||◌, [], ◌∷◌, Option,
  none, some, ◌≡◌, refl, ◌∙◌, ◌==◌, ltb, if◌then◌else◌, arith, IsInt64, Bool-cases, inl, inr,
}

-- The digits of `n`, before those that are there already.
digits : ℕ → ℕ → Text → Text
digits zero n out = out
digits (suc fuel) n out =
    let rest = digits fuel (n / 10) ((b'0' + n % 10) ∷ out) in if n == 0 then out else rest

-- `suc n` rounds are enough: each divides by ten.
format_uint : ℕ → Text
unfolding digits
format_uint n = if n == 0 then b'0' ∷ [] else digits (suc n) n []

unfoldable pub format_int : ℤ → Text
unfolding format_uint
format_int (pos n) = format_uint n
format_int (negsuc n) = b'-' ∷ format_uint (suc n)

-- The number that digits spell behind `n`.
scan : Text → ℕ → Option ℕ
scan [] n = some n
scan (c ∷ s) n =
    let rest = scan s (n * 10 + (c - b'0')) in if ltb c b'0' || ltb b'9' c then none else rest

parse_uint : Text → Option ℕ
unfolding scan
parse_uint [] = none
parse_uint (c ∷ s) = scan (c ∷ s) 0

-- The range of an int64.
positive : Option ℕ → Option ℤ
positive none = none
positive (some n) = if ltb n (2 ^ 63) then some (pos n) else none

negative : Option ℕ → Option ℤ
negative none = none
negative (some zero) = some (pos 0)
negative (some (suc n)) = if ltb n (2 ^ 63) then some (negsuc n) else none

unfoldable pub parse_int : Text → Option ℤ
unfolding parse_uint positive negative
parse_int [] = none
parse_int (c ∷ s) =
    if c == b'-'
    then negative (parse_uint s)
    else if c == b'+'
    then positive (parse_uint s)
    else positive (parse_uint (c ∷ s))

scan-digits : (fuel n : ℕ) (out : Text) → n < fuel → scan (digits fuel n out) 0 ≡ scan out n
unfolding digits
scan-digits zero n out h = absurd (omega arith)
scan-digits (suc fuel) n out h = elim (Bool-cases (n == 0)) [
  | inl done ↦ rw done (ground arith)
  | inr more ↦
      rw (more, scan-digits fuel (n / 10) ((b'0' + n % 10) ∷ out) (ground arith))
        (unfold scan in ground arith)
]

abbrev StartsWithDigit : Text → Type 0
StartsWithDigit [] = ⊥
StartsWithDigit (c ∷ s) = (b'0' ≤ c) × (c ≤ b'9')

digits_keep : (fuel n : ℕ) (out : Text) → StartsWithDigit out → StartsWithDigit (digits fuel n out)
unfolding digits
digits_keep zero n out h = h
digits_keep (suc fuel) n out h = elim (Bool-cases (n == 0)) [
  | inl done ↦ rw done h
  | inr more ↦ rw more (digits_keep fuel (n / 10) ((b'0' + n % 10) ∷ out) (omega arith))
]

format_uint_first : (n : ℕ) → StartsWithDigit (format_uint n)
unfolding format_uint digits
format_uint_first n = elim (Bool-cases (n == 0)) [
  | inl done ↦ rw done (omega arith)
  | inr more ↦ rw more (digits_keep n (n / 10) ((b'0' + n % 10) ∷ []) (omega arith))
]

parse-format_uint : (n : ℕ) → parse_uint (format_uint n) ≡ some n
unfolding parse_uint format_uint digits
parse-format_uint n = elim (Bool-cases (n == 0)) [
  | inl done ↦ rw done (ground arith)
  | inr more ↦
      let last = (b'0' + n % 10) ∷ [] in
      rw more (
        parse_uint-scan (digits n (n / 10) last) (digits_keep n (n / 10) last (omega arith))
        ∙ scan-digits n (n / 10) last (ground arith)
        ∙ unfold scan in ground arith)
]
  where
    parse_uint-scan : (s : Text) → StartsWithDigit s → parse_uint s ≡ scan s 0
    parse_uint-scan [] h = elim h [ ]
    parse_uint-scan (c ∷ s) h = refl

-- A text that begins with a digit has no sign.
parse_int_unsigned : (s : Text) → StartsWithDigit s → parse_int s ≡ positive (parse_uint s)
unfolding parse_int
parse_int_unsigned [] h = elim h [ ]
parse_int_unsigned (c ∷ s) h = ground arith

-- Every int64 is read back from its decimal print.
pub parse_int-format_int : (i : ℤ) → IsInt64 i → parse_int (format_int i) ≡ some i
unfolding format_int
parse_int-format_int (pos n) h =
    rw (parse_int_unsigned (format_uint n) (format_uint_first n), parse-format_uint n)
      (unfold positive in ground arith)
parse_int-format_int (negsuc n) h =
    unfold parse_int in rw (parse-format_uint (suc n)) (ground arith)
