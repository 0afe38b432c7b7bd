-- ===== src/Common/Sorted.antt =====
-- Lists whose elements each come behind all before them, and what a filter leaves of them.
use protoc_gen_go_jet.Common.{
  ℕ, zero, suc, ◌≤◌, ◌<◌, Bool, true, false, ◌&&◌, List, [], ◌∷◌, ◌++◌, some, ◌≡◌, refl, ap, length,
  get_elem?, take, drop, filterb, All, Bool-cases, inl, inr, arith,
}

module _ {ℓ} {A : Type ℓ} where
  pub filterb_id : (q : A → Bool) (xs : List A) → All (λ x. q x ≡ true) xs → filterb q xs ≡ xs
  filterb_id q [] h = refl
  filterb_id q (x ∷ xs) h = rw (h.0, filterb_id q xs h.1)

  pub filterb-All : (P : A → Type 0) (q : A → Bool) (xs : List A) → All P xs → All P (filterb q xs)
  filterb-All P q [] h = tt
  filterb-All P q (x ∷ xs) h = elim (Bool-cases (q x)) [
    | inl e ↦ rw e (h.0, filterb-All P q xs h.1)
    | inr e ↦ rw e (filterb-All P q xs h.1)
  ]

  pub filterb_and :
      (q r : A → Bool) (xs : List A) → filterb (λ x. q x && r x) xs ≡ filterb r (filterb q xs)
  filterb_and q r [] = refl
  filterb_and q r (x ∷ xs) = elim (Bool-cases (q x)) [
    | inl e ↦ rw (e, filterb_and q r xs)
    | inr e ↦ rw (e, filterb_and q r xs)
  ]

  pub filterb_same :
      (q r : A → Bool) (xs : List A) → ((x : A) → q x ≡ r x) → filterb q xs ≡ filterb r xs
  filterb_same q r [] h = refl
  filterb_same q r (x ∷ xs) h = rw (h x, filterb_same q r xs h)

  pub take_all : (n : ℕ) (xs : List A) → length xs ≤ n → take n xs ≡ xs
  take_all zero [] h = refl
  take_all zero (x ∷ xs) h = absurd (omega arith)
  take_all (suc n) [] h = refl
  take_all (suc n) (x ∷ xs) h = ap (λ ys. x ∷ ys) (take_all n xs (omega arith))

  pub take-take : (n : ℕ) (xs : List A) → take n (take (suc n) xs) ≡ take n xs
  take-take zero xs = refl
  take-take (suc n) [] = refl
  take-take (suc n) (x ∷ xs) = ap (λ ys. x ∷ ys) (take-take n xs)

  -- The element at a position, and the list around it.
  pub split_at :
      (n : ℕ) (xs : List A)
      → n < length xs
      → (x : A) × (get_elem? xs n ≡ some x) × (xs ≡ take n xs ++ x ∷ drop (suc n) xs)
  split_at n [] h = absurd (omega arith)
  split_at zero (x ∷ xs) h = (x, refl, refl)
  split_at (suc n) (y ∷ xs) h =
      let (x, at_n, e) = split_at n xs (omega arith) in (x, at_n, ap (λ ys. y ∷ ys) e)

  pub get_elem?-take : (n m : ℕ) (xs : List A) → n < m → get_elem? (take m xs) n ≡ get_elem? xs n
  get_elem?-take n zero xs h = absurd (omega arith)
  get_elem?-take zero (suc m) [] h = refl
  get_elem?-take zero (suc m) (x ∷ xs) h = refl
  get_elem?-take (suc n) (suc m) [] h = refl
  get_elem?-take (suc n) (suc m) (x ∷ xs) h = get_elem?-take n m xs (omega arith)

module _ {ℓ} {A : Type ℓ} (behind : A → A → Bool) where
  abbrev pub IsSorted : List A → Type 0
  IsSorted [] = Unit
  IsSorted (x ∷ xs) = All (λ y. behind y x ≡ true) xs × IsSorted xs

  pub IsSorted-filterb : (q : A → Bool) (xs : List A) → IsSorted xs → IsSorted (filterb q xs)
  IsSorted-filterb q [] h = tt
  IsSorted-filterb q (x ∷ xs) h = elim (Bool-cases (q x)) [
    | inl e ↦ rw e (filterb-All (λ y. behind y x ≡ true) q xs h.0, IsSorted-filterb q xs h.1)
    | inr e ↦ rw e (IsSorted-filterb q xs h.1)
  ]

  All-head :
      (front : List A) (x : A) (rest : List A) (P : A → Type 0) → All P (front ++ x ∷ rest) → P x
  All-head [] x rest P h = h.0
  All-head (y ∷ front) x rest P h = All-head front x rest P h.1

  -- Filtering by "behind `x`" leaves what follows `x`.
  pub filterb-behind :
      ((x : A) → behind x x ≡ false)
      → ((x y : A) → behind x y ≡ true → behind y x ≡ false)
      → (front : List A) (x : A) (rest : List A) → IsSorted (front ++ x ∷ rest)
      → filterb (λ y. behind y x) (front ++ x ∷ rest) ≡ rest
  filterb-behind irrefl asym [] x rest h = rw (irrefl x) (filterb_id (λ y. behind y x) rest h.0)
  filterb-behind irrefl asym (y ∷ front) x rest h =
      rw (asym x y (All-head front x rest (λ z. behind z y ≡ true) h.0))
        (filterb-behind irrefl asym front x rest h.1)
