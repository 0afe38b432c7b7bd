-- ===== src/Plugin/Apply/Kahn.antt =====
-- The loop of Kahn's algorithm: what it keeps, and that as many rounds as there are files are enough.
use native.Mathlib.Decide.{dec_lt, ℕ_discrete}
use protoc_gen_go_jet.Common.{
  ℕ, zero, suc, ◌+◌, ◌-◌, ◌≤◌, ◌<◌, false, ◌&&◌, ◌||◌, List, [], ◌∷◌, ◌++◌, some, length,
  length-append, if◌then◌else◌, ltb, ◌==◌, ◌≡◌, ◌≢◌, refl, sym, ap, subst, arith, append_assoc,
  append-nil,
}
use protoc_gen_go_jet.Plugin.Apply.{mem, sort, release, kahn}
use protoc_gen_go_jet.Plugin.Apply.Count.{
  one_if, mult, mult-append, mult-sort, mem-mult, total, total-change, length-total, total_le,
}

-- How many edges of a file come from files that are not put out.
abbrev pub waiting : ℕ → (ℕ → List ℕ) → List ℕ → ℕ → ℕ
waiting n adj out k = total n (λ o. if mem o out then 0 else mult k (adj o))

-- A file is ready or put out exactly if it is one of the files and waits for none; never both, and
-- never twice. The degrees count what the files wait for.
abbrev pub IsKept : ℕ → (ℕ → List ℕ) → (ℕ → ℕ) → List ℕ → List ℕ → Type 0
IsKept n adj deg ready out =
    (k : ℕ)
    → (deg k ≡ waiting n adj out k) × (mult k ready + mult k out ≡ one_if (deg k == 0 && ltb k n))

-- Only files wait.
abbrev pub AreFiles : ℕ → (ℕ → List ℕ) → Type 0
AreFiles n adj = (o k : ℕ) → 0 < mult k (adj o) → k < n

-- Each file is put out when it waits for none of those that are not yet out.
abbrev pub IsOrdered : ℕ → (ℕ → List ℕ) → List ℕ → List ℕ → Type 0
IsOrdered n adj before [] = Unit
IsOrdered n adj before (k ∷ ks) =
    (waiting n adj before k ≡ 0) × IsOrdered n adj (before ++ k ∷ []) ks

IsOrdered-last :
    (n : ℕ) (adj : ℕ → List ℕ) (before ks : List ℕ) (k : ℕ)
    → IsOrdered n adj before ks
    → waiting n adj (before ++ ks) k ≡ 0
    → IsOrdered n adj before (ks ++ k ∷ [])
IsOrdered-last n adj before [] k h e =
    (subst (λ l. waiting n adj l k ≡ 0) (append-nil before) e, tt)
IsOrdered-last n adj before (j ∷ ks) k (w, h) e = (
  w,
  IsOrdered-last n adj (before ++ j ∷ []) ks k h
      (subst (λ l. waiting n adj l k ≡ 0) (sym (append_assoc before (j ∷ []) ks)) e),
)

-- The loop over the waiting files takes off each edge, and adds a file once, when its last edge goes.
abbrev Released : List ℕ → (ℕ → ℕ) → List ℕ → (ℕ → ℕ) → List ℕ → ℕ → Type 0
Released js deg ready deg' ready' k =
    (deg' k + mult k js ≡ deg k)
    × (mult k ready' ≡ mult k ready + one_if (ltb 0 (mult k js) && deg k == mult k js))

one_edge_off :
    (j k : ℕ) (js ready ready' : List ℕ) (deg deg' : ℕ → ℕ)
    → mult k (j ∷ js) ≤ deg k
    → Released js
        (λ i. if i == j then deg i - 1 else deg i)
        (if deg j - 1 == 0 then ready ++ j ∷ [] else ready)
        deg'
        ready'
        k
    → Released (j ∷ js) deg ready deg' ready' k
one_edge_off j k js ready ready' deg deg' le (e, m) = elim (ℕ_discrete k j) [
  | yes q ↦
      (let app = mult-append k ready (j ∷ []) in
        let le' : one_if (k == j) + mult k js ≤ deg k = le in
        let dj : deg j ≡ deg k = ap deg (sym q) in
        (ground (arith, e, le', q), ground (arith, m, app, le', q, dj)))
  | no q ↦
      (let app = mult-append k ready (j ∷ []) in (ground (arith, e, q), ground (arith, m, app, q)))
]

release-Released :
    (js : List ℕ) (deg : ℕ → ℕ) (ready : List ℕ)
    → ((k : ℕ) → mult k js ≤ deg k)
    → (k : ℕ) → Released js deg ready (release js deg ready).0 (release js deg ready).1 k
unfolding release
release-Released [] deg ready h k = (omega arith, ground arith)
release-Released (j ∷ js) deg ready h k =
    let deg₁ : ℕ → ℕ = λ i. if i == j then deg i - 1 else deg i in
    let ready₁ : List ℕ = if deg j - 1 == 0 then ready ++ j ∷ [] else ready in
    let next = release js deg₁ ready₁ in
    one_edge_off j k js ready next.1 deg next.0 (h k)
      (release-Released js deg₁ ready₁ (λ i. let le = h i in ground (arith, le)) k)

mem-last : (o i : ℕ) (out : List ℕ) → mem o (out ++ i ∷ []) ≡ (mem o out || o == i)
mem-last o i [] = ground arith
mem-last o i (j ∷ out) = let ih = mem-last o i out in ground (arith, ih)

-- Putting a file out takes off its edges.
waiting-last :
    (n : ℕ) (adj : ℕ → List ℕ) (out : List ℕ) (i k : ℕ)
    → i < n
    → mem i out ≡ false
    → waiting n adj out k ≡ waiting n adj (out ++ i ∷ []) k + mult k (adj i)
waiting-last n adj out i k l h =
    total-change n i (mult k (adj i)) (λ o. if mem o out then 0 else mult k (adj o))
      (λ o. if mem o (out ++ i ∷ []) then 0 else mult k (adj o)) l here other
  where
    here :
        (if mem i out then 0 else mult k (adj i))
        ≡ (if mem i (out ++ i ∷ []) then 0 else mult k (adj i)) + mult k (adj i)
    here = let e = mem-last i i out in ground (arith, e, h)

    other :
        (o : ℕ)
        → o ≢ i
        → (if mem o out then 0 else mult k (adj o))
          ≡ (if mem o (out ++ i ∷ []) then 0 else mult k (adj o))
    other o q = let e = mem-last o i out in ground (arith, e, q)

-- The first of the ready files is a file, is not out, and waits for none.
first_ready :
    (n : ℕ) (adj : ℕ → List ℕ) (deg : ℕ → ℕ) (i : ℕ) (ready out : List ℕ)
    → IsKept n adj deg (i ∷ ready) out
    → (i < n) × (mem i out ≡ false) × (deg i ≡ 0) × (mult i ready ≡ 0)
first_ready n adj deg i ready out inv =
    let (e, m) = inv i in
    let s = mem-mult i out in
    (ground (arith, m), ground (arith, m, s), ground (arith, m), ground (arith, m))

released_kept :
    (k i d d' w w' t r r' o n : ℕ)
    → d ≡ w
    → w ≡ w' + t
    → d' + t ≡ d
    → r' ≡ r + one_if (ltb 0 t && d == t)
    → (one_if (k == i) + r) + o ≡ one_if (d == 0 && ltb k n)
    → (0 < t → k < n)
    → (d' ≡ w') × (r' + (o + one_if (k == i)) ≡ one_if (d' == 0 && ltb k n))
released_kept k i d d' w w' t r r' o n a b c e f g = elim (dec_lt 0 t) [
  | yes p ↦ let l = g p in (omega arith, ground (arith, a, b, c, e, f, l, p))
  | no p ↦ (omega arith, ground (arith, a, b, c, e, f, p))
]

step-IsKept :
    (n : ℕ) (adj : ℕ → List ℕ) (deg : ℕ → ℕ) (i : ℕ) (ready out : List ℕ)
    → AreFiles n adj
    → IsKept n adj deg (i ∷ ready) out
    → IsKept n adj
        (release (adj i) deg ready).0
        (sort (release (adj i) deg ready).1)
        (out ++ i ∷ [])
step-IsKept n adj deg i ready out files inv k =
    let (below, not_out, zero_deg, once) = first_ready n adj deg i ready out inv in
    let next = release (adj i) deg ready in
    let enough : (j : ℕ) → mult j (adj i) ≤ deg j = λ j.
      (let w = waiting-last n adj out i j below not_out in
        let e = (inv j).0 in omega (arith, w, e)) in
    let (e, m) = release-Released (adj i) deg ready enough k in
    let (a, f) = inv k in
    let (x, y) =
      released_kept k i (deg k) (next.0 k) _ _ (mult k (adj i)) (mult k ready) (mult k next.1)
        (mult k out) n a (waiting-last n adj out i k below not_out) e m f (files i k) in
    let so = mult-sort k next.1 in
    let la = mult-append k out (i ∷ []) in (x, omega (arith, y, so, la))

-- Never more files are ready or out than there are.
room :
    (n : ℕ) (adj : ℕ → List ℕ) (deg : ℕ → ℕ) (ready out : List ℕ)
    → IsKept n adj deg ready out
    → length ready + length out ≤ n
room n adj deg ready out inv =
    let all = ready ++ out in
    let len = length-append ready out in
    let sum =
      length-total n all
        (λ k l. let e = (inv k).1 in let a = mult-append k ready out in ground (arith, e, a, l)) in
    let le =
      total_le n (λ k. mult k all)
        (λ k. let e = (inv k).1 in let a = mult-append k ready out in ground (arith, e, a)) in
    omega (arith, len, sum, le)

-- The loop ends within as many rounds as files are not yet out, and keeps all of this.
pub kahn_lem :
    (fuel n : ℕ) (adj : ℕ → List ℕ) (deg : ℕ → ℕ) (ready out : List ℕ)
    → AreFiles n adj
    → IsKept n adj deg ready out
    → IsOrdered n adj [] out
    → n ≤ fuel + length out
    → (deg' : ℕ → ℕ) × (out' : List ℕ) × (kahn fuel adj deg ready out ≡ some (deg', out'))
      × IsKept n adj deg' [] out'
      × IsOrdered n adj [] out'
unfolding kahn
kahn_lem fuel n adj deg [] out files inv order enough = (deg, out, refl, inv, order)
kahn_lem zero n adj deg (i ∷ ready) out files inv order enough =
    absurd (let le = room n adj deg (i ∷ ready) out inv in omega (arith, le))
kahn_lem (suc fuel) n adj deg (i ∷ ready) out files inv order enough =
    let (below, not_out, zero_deg, once) = first_ready n adj deg i ready out inv in
    let next = release (adj i) deg ready in
    let free : waiting n adj out i ≡ 0 = (let e = (inv i).0 in omega (arith, e, zero_deg)) in
    kahn_lem fuel n adj next.0 (sort next.1) (out ++ i ∷ []) files
      (step-IsKept n adj deg i ready out files inv) (IsOrdered-last n adj [] out i order free)
      (let la = length-append out (i ∷ []) in omega (arith, la))
