-- ===== src/Plugin/Apply/Count.antt =====
-- How often a number stands in a list, and sums over the numbers below a bound.
use native.Mathlib.Decide.{dec_lt, ℕ_discrete}
use protoc_gen_go_jet.Common.{
  ℕ, zero, suc, ◌+◌, ◌≤◌, ◌<◌, Bool, true, false, List, [], ◌∷◌, ◌++◌, length, ltb, ◌==◌, ◌≡◌, ◌≢◌,
  refl, sym, ◌∙◌, subst, arith,
}
use protoc_gen_go_jet.Plugin.Apply.{mem, insert, sort}

abbrev pub one_if : Bool → ℕ
one_if true = 1
one_if false = 0

abbrev pub mult : ℕ → List ℕ → ℕ
mult k [] = 0
mult k (i ∷ is) = one_if (k == i) + mult k is

pub mult-append : (k : ℕ) (is js : List ℕ) → mult k (is ++ js) ≡ mult k is + mult k js
mult-append k [] js = omega arith
mult-append k (i ∷ is) js = omega (arith, mult-append k is js)

pub mult-insert : (k i : ℕ) (is : List ℕ) → mult k (insert i is) ≡ one_if (k == i) + mult k is
mult-insert k i [] = refl
mult-insert k i (j ∷ is) = let ih = mult-insert k i is in ground (arith, ih)

pub mult-sort : (k : ℕ) (is : List ℕ) → mult k (sort is) ≡ mult k is
mult-sort k [] = refl
mult-sort k (i ∷ is) = mult-insert k i (sort is) ∙ rw (mult-sort k is) refl

pub mem-mult : (k : ℕ) (is : List ℕ) → mem k is ≡ ltb 0 (mult k is)
mem-mult k [] = refl
mem-mult k (i ∷ is) = let ih = mem-mult k is in ground (arith, ih)

-- The sum of f below n.
abbrev pub total : ℕ → (ℕ → ℕ) → ℕ
total zero f = 0
total (suc n) f = f n + total n f

pub total-same : (n : ℕ) (f g : ℕ → ℕ) → ((o : ℕ) → o < n → f o ≡ g o) → total n f ≡ total n g
total-same zero f g h = refl
total-same (suc n) f g h =
    omega (arith, h n (omega arith), total-same n f g (λ o l. h o (omega arith)))

-- Two functions that differ at one number.
pub total-change :
    (n i d : ℕ) (f g : ℕ → ℕ)
    → i < n
    → f i ≡ g i + d
    → ((o : ℕ) → o ≢ i → f o ≡ g o)
    → total n f ≡ total n g + d
total-change zero i d f g l e h = absurd (omega arith)
total-change (suc n) i d f g l e h = elim (ℕ_discrete n i) [
  | yes q ↦
      let rest = total-same n f g (λ o m. h o (λ r. omega arith)) in
      let e' : f n ≡ g n + d = subst (λ x. f x ≡ g x + d) (sym q) e in omega (arith, e', rest)
  | no q ↦ omega (arith, h n q, total-change n i d f g (omega arith) e h)
]

pub total_le : (n : ℕ) (f : ℕ → ℕ) → ((o : ℕ) → f o ≤ 1) → total n f ≤ n
total_le zero f h = omega arith
total_le (suc n) f h = omega (arith, h n, total_le n f h)

-- A sum that reaches its bound.
pub total-full :
    (n : ℕ) (f : ℕ → ℕ) → ((o : ℕ) → f o ≤ 1) → total n f ≡ n → (o : ℕ) → o < n → f o ≡ 1
total-full zero f h e o l = absurd (omega arith)
total-full (suc n) f h e o l =
    let le = total_le n f h in
    let hn = h n in
    elim (ℕ_discrete o n) [
      | yes q ↦ rw q (omega arith)
      | no q ↦ total-full n f h (omega arith) o (omega arith)
    ]

pub total-zero : (n : ℕ) → total n (λ o. 0) ≡ 0
total-zero zero = refl
total-zero (suc n) = omega (arith, total-zero n)

-- The length of a list of numbers below n.
pub length-total :
    (n : ℕ) (is : List ℕ) → ((k : ℕ) → n ≤ k → mult k is ≡ 0) → length is ≡ total n (λ k. mult k is)
length-total n [] h = sym (total-zero n)
length-total n (i ∷ is) h =
    let below : i < n = elim (dec_lt i n) [
      | yes l ↦ l
      | no l ↦ absurd (let e = h i (omega arith) in ground (arith, e))
    ] in
    let ih = length-total n is (λ k l. let e = h k l in omega (arith, e)) in
    let step =
      total-change n i 1 (λ k. mult k (i ∷ is)) (λ k. mult k is) below (ground arith)
        (λ o q. ground (arith, q)) in
    omega (arith, ih, step)

-- A positive sum has a positive term.
pub total-positive : (n : ℕ) (f : ℕ → ℕ) → 0 < total n f → (o : ℕ) × (o < n) × (0 < f o)
total-positive zero f h = absurd (omega arith)
total-positive (suc n) f h = elim (dec_lt 0 (f n)) [
  | yes l ↦ (n, omega arith, l)
  | no l ↦ let (o, m, p) = total-positive n f (omega arith) in (o, omega arith, p)
]

pub total-none : (n : ℕ) (f : ℕ → ℕ) → total n f ≡ 0 → (o : ℕ) → o < n → f o ≡ 0
total-none zero f e o l = absurd (omega arith)
total-none (suc n) f e o l = elim (ℕ_discrete o n) [
  | yes q ↦ rw q (omega arith)
  | no q ↦ total-none n f (omega arith) o (omega arith)
]

-- A sum that does not reach its bound.
pub total-gap :
    (n : ℕ) (f : ℕ → ℕ) → ((o : ℕ) → f o ≤ 1) → total n f ≢ n → (o : ℕ) × (o < n) × (f o ≡ 0)
total-gap zero f h e = absurd (e refl)
total-gap (suc n) f h e = elim (ℕ_discrete (f n) 0) [
  | yes q ↦ (n, omega arith, q)
  | no q ↦
      let hn = h n in let (o, l, z) = total-gap n f h (λ r. e (omega arith)) in (o, omega arith, z)
]
