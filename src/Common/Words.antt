-- ===== src/Common/Words.antt =====
-- What trimming, splitting and the words of a text keep, and when they change nothing.
use protoc_gen_go_jet.Common.{
  ℕ, Text, true, false, ◌&&◌, List, [], ◌∷◌, ◌++◌, ◌==◌, arith, ◌≡◌, ◌≢◌, refl, is_empty, is_space,
  trim_left, trim_right, trim_space, split, push_head, fields, starts_word, All, Bool-cases, inl,
  inr,
}

module _ {ℓ} (P : ℕ → Type ℓ) where
  trim_left-All : (s : Text) → All P s → All P (trim_left s)
  unfolding trim_left
  trim_left-All [] h = tt
  trim_left-All (c ∷ s) h = elim (Bool-cases (is_space c)) [
    | inl e ↦ rw e (trim_left-All s h.1)
    | inr e ↦ rw e h
  ]

  trim_right-All : (s : Text) → All P s → All P (trim_right s)
  unfolding trim_right
  trim_right-All [] h = tt
  trim_right-All (c ∷ s) h = elim (Bool-cases (is_space c && is_empty (trim_right s))) [
    | inl e ↦ rw e tt
    | inr e ↦ rw e (h.0, trim_right-All s h.1)
  ]

  pub trim_space-All : (s : Text) → All P s → All P (trim_space s)
  unfolding trim_space
  trim_space-All s h = trim_right-All (trim_left s) (trim_left-All s h)

  push_head-All : (c : ℕ) (ws : List Text) → P c → All (All P) ws → All (All P) (push_head c ws)
  push_head-All c [] p h = ((p, tt), tt)
  push_head-All c (w ∷ ws) p h = ((p, h.0), h.1)

  pub split-All : (s : Text) (sep : ℕ) → All P s → All (All P) (split s sep)
  unfolding split
  split-All [] sep h = (tt, tt)
  split-All (c ∷ s) sep h = elim (Bool-cases (c == sep)) [
    | inl e ↦ rw e (tt, split-All s sep h.1)
    | inr e ↦ rw e (push_head-All c (split s sep) h.0 (split-All s sep h.1))
  ]

  pub fields-All : (s : Text) → All P s → All (All P) (fields s)
  unfolding fields
  fields-All [] h = tt
  fields-All (c ∷ s) h = elim (Bool-cases (is_space c)) [
    | inl e ↦ rw e (fields-All s h.1)
    | inr e ↦ rw e (elim (Bool-cases (starts_word s)) [
      | inl w ↦ rw w (push_head-All c (fields s) h.0 (fields-All s h.1))
      | inr w ↦ rw w ((h.0, tt), fields-All s h.1)
    ])
  ]

abbrev pub Lacks : ℕ → Text → Type 0
Lacks sep = All (λ c. c ≢ sep)

push_head-Lacks :
    (sep c : ℕ) (ws : List Text) → c ≢ sep → All (Lacks sep) ws → All (Lacks sep) (push_head c ws)
push_head-Lacks sep c [] p h = ((p, tt), tt)
push_head-Lacks sep c (w ∷ ws) p h = ((p, h.0), h.1)

pub split-Lacks : (s : Text) (sep : ℕ) → All (Lacks sep) (split s sep)
unfolding split
split-Lacks [] sep = (tt, tt)
split-Lacks (c ∷ s) sep = elim (Bool-cases (c == sep)) [
  | inl e ↦ rw e (tt, split-Lacks s sep)
  | inr e ↦ rw e (push_head-Lacks sep c (split s sep) (ground arith) (split-Lacks s sep))
]

-- A word: not empty, with no white space.
abbrev pub IsWord : Text → Type 0
IsWord w = (w ≢ []) × All (λ c. is_space c ≡ false) w

push_head-IsWord :
    (c : ℕ) (ws : List Text) → is_space c ≡ false → All IsWord ws → All IsWord (push_head c ws)
push_head-IsWord c [] p h = (((cc), (p, tt)), tt)
push_head-IsWord c (w ∷ ws) p h = (((cc), (p, h.0.1)), h.1)

pub fields-IsWord : (s : Text) → All IsWord (fields s)
unfolding fields
fields-IsWord [] = tt
fields-IsWord (c ∷ s) = elim (Bool-cases (is_space c)) [
  | inl e ↦ rw e (fields-IsWord s)
  | inr e ↦ rw e (elim (Bool-cases (starts_word s)) [
    | inl w ↦ rw w (push_head-IsWord c (fields s) e (fields-IsWord s))
    | inr w ↦ rw w (((cc), (e, tt)), fields-IsWord s)
  ])
]

-- The last character is no white space.
abbrev pub EndsWord : Text → Type 0
EndsWord [] = ⊥
EndsWord (c ∷ []) = is_space c ≡ false
EndsWord (c ∷ d ∷ s) = EndsWord (d ∷ s)

pub EndsWord-append : (s t : Text) → EndsWord t → EndsWord (s ++ t)
EndsWord-append [] t h = h
EndsWord-append (c ∷ []) [] h = elim h [ ]
EndsWord-append (c ∷ []) (d ∷ t) h = h
EndsWord-append (c ∷ d ∷ s) t h = EndsWord-append (d ∷ s) t h

pub IsWord-EndsWord : (w : Text) → IsWord w → EndsWord w
IsWord-EndsWord [] h = h.0 refl
IsWord-EndsWord (c ∷ []) h = h.1.0
IsWord-EndsWord (c ∷ d ∷ s) h = IsWord-EndsWord (d ∷ s) ((cc), h.1.1)

trim_right_id : (s : Text) → EndsWord s → trim_right s ≡ s
unfolding trim_right
trim_right_id [] h = refl
trim_right_id (c ∷ []) h = rw h
trim_right_id (c ∷ d ∷ s) h = rw (trim_right_id (d ∷ s) h) (ground arith)

-- A text that begins and ends with a word is trimmed already; leading blanks go.
pub trim_space_id : (s : Text) → starts_word s ≡ true → EndsWord s → trim_space s ≡ s
unfolding trim_space trim_left
trim_space_id [] h e = refl
trim_space_id (c ∷ s) h e = rw (not_space, trim_right_id (c ∷ s) e)
  where
    not_space : is_space c ≡ false
    not_space = ground arith

pub trim_space_blank : (s : Text) → starts_word s ≡ true → EndsWord s → trim_space (b' ' ∷ s) ≡ s
unfolding trim_space trim_left is_space
trim_space_blank s h e = trim_space_id s h e

pub IsWord-starts_word : (w rest : Text) → IsWord w → starts_word (w ++ rest) ≡ true
IsWord-starts_word [] rest h = absurd (h.0 refl)
IsWord-starts_word (c ∷ w) rest h = rw (h.1.0)

pub split-word : (w : Text) (sep : ℕ) → Lacks sep w → split w sep ≡ w ∷ []
unfolding split
split-word [] sep h = refl
split-word (c ∷ w) sep h = rw (split-word w sep h.1) (ground (arith, h.0))

pub split-cons :
    (w rest : Text) (sep : ℕ) → Lacks sep w → split (w ++ sep ∷ rest) sep ≡ w ∷ split rest sep
unfolding split
split-cons [] rest sep h = ground arith
split-cons (c ∷ w) rest sep h = rw (split-cons w rest sep h.1) (ground (arith, h.0))

-- A word that no word follows directly is read as one.
pub fields-word :
    (w rest : Text) → IsWord w → starts_word rest ≡ false → fields (w ++ rest) ≡ w ∷ fields rest
unfolding fields
fields-word [] rest h n = absurd (h.0 refl)
fields-word (c ∷ []) rest h n = rw (h.1.0, n)
fields-word (c ∷ d ∷ w) rest h n =
    rw (
      h.1.0,
      IsWord-starts_word (d ∷ w) rest ((cc), h.1.1),
      fields-word (d ∷ w) rest ((cc), h.1.1) n,
    )
