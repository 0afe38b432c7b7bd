-- ===== src/Plugin/Apply/Correct.antt =====
-- What topoSortDDL returns.
use native.Mathlib.Decide.{dec_lt, ℕ_discrete}
use protoc_gen_go_jet.Common.{
  ℕ, suc, ◌+◌, ◌≤◌, ◌<◌, Text, Bool, true, false, not, ◌&&◌, List, [], ◌∷◌, ◌++◌, some, length,
  get_elem?, if◌then◌else◌, ltb, leb, ◌==◌, ==_iff, ◌≡◌, ◌≢◌, sym, ◌∙◌, ap, subst, arith,
  Bool-cases, inl, inr, Has, All, All-from, append-nil, append_assoc,
}
use protoc_gen_go_jet.Plugin.Apply.{
  FileContent, owners, find_owner, mem, Edges, those_from, sort, edges_of, sorted, cycle,
  out_of_fuel, finish, topo_sort_ddl,
}
use protoc_gen_go_jet.Plugin.Apply.Count.{
  one_if, mult, mult-sort, mem-mult, total, total-full, total-none, total-positive, length-total,
  total-gap,
}
use protoc_gen_go_jet.Plugin.Apply.Graph.{edges_of-HasEdges, owners-below, IsBuilt}
use protoc_gen_go_jet.Plugin.Apply.Kahn.{IsKept, IsOrdered, kahn_lem}

-- File `k` references a table that file `o`, another one, creates last.
abbrev pub DependsOn : (created referenced : Text → List Text) → List FileContent → ℕ → ℕ → Type 0
DependsOn created referenced files k o =
    (f : FileContent) × (t : Text) × (get_elem? files k ≡ some f)
    × Has t (referenced f.content)
    × (find_owner t (owners created 0 files) ≡ some o)
    × (o ≢ k)

mult-those_from :
    (p : ℕ → Bool) (i k : ℕ) (files : List FileContent)
    → mult k (those_from p i files) ≡ one_if (p k && (leb i k && ltb k (i + length files)))
mult-those_from p i k [] = ground arith
mult-those_from p i k (f ∷ files) =
    let ih = mult-those_from p (suc i) k files in
    elim (ℕ_discrete k i) [
      | yes q ↦ (let pk : p k ≡ p i = ap p q in ground (arith, ih, q, pk))
      | no q ↦ ground (arith, ih, q)
    ]

start-IsKept :
    (files : List FileContent) (g : Edges)
    → IsBuilt (length files) g
    → IsKept (length files) g.adj g.in_deg (sort (those_from (λ k. g.in_deg k == 0) 0 files)) []
start-IsKept files g (count, bounded) k = (
  count k,
  (let s = mult-sort k (those_from (λ k. g.in_deg k == 0) 0 files) in
      let m = mult-those_from (λ k. g.in_deg k == 0) 0 k files in ground (arith, s, m)),
)

-- The loop on the edges of the files.
abbrev Ran : (created referenced : Text → List Text) → List FileContent → Type 0
Ran created referenced files =
    let g = edges_of created referenced files in
    let n = length files in
    (deg : ℕ → ℕ) × (out : List ℕ) × (topo_sort_ddl created referenced files
      ≡ finish files (some (deg, out)))
    × IsKept n g.adj deg [] out
    × IsOrdered n g.adj [] out

topo_sort_ddl-Ran :
    (created referenced : Text → List Text) (files : List FileContent)
    → Ran created referenced files
unfolding topo_sort_ddl
topo_sort_ddl-Ran created referenced files =
    let g = edges_of created referenced files in
    let n = length files in
    let (built, edges) = edges_of-HasEdges created referenced files in
    let (deg, out, e, kept, order) =
      kahn_lem n n g.adj g.in_deg (sort (those_from (λ k. g.in_deg k == 0) 0 files)) [] built.1
        (start-IsKept files g built) tt (omega arith) in
    (deg, out, ap (finish files) e, kept, order)

-- Whatever the files reference, the loop comes to its end in as many rounds as there are files.
pub topo_sort_ddl_ends :
    (created referenced : Text → List Text) (files : List FileContent)
    → topo_sort_ddl created referenced files ≢ out_of_fuel
unfolding finish
topo_sort_ddl_ends created referenced files h =
    let (deg, out, e, kept, order) = topo_sort_ddl-Ran created referenced files in
    ended (length out == length files) _ _ (sym e ∙ h)
  where
    ended : (b : Bool) (a c : List ℕ) → (if not b then cycle a else sorted c) ≡ out_of_fuel → ⊥
    ended true a c x = cc
    ended false a c x = cc

-- In an order, what a file waits for stands in front of it.
waited_for :
    (n : ℕ) (adj : ℕ → List ℕ) (before ks after : List ℕ) (k o : ℕ)
    → IsOrdered n adj before (ks ++ (k ∷ after))
    → o < n
    → 0 < mult k (adj o)
    → mem o (before ++ ks) ≡ true
waited_for n adj before [] after k o (w, rest) l h =
    let z = total-none n (λ p. if mem p before then 0 else mult k (adj p)) w o l in
    rw (append-nil before) (ground (arith, z, h))
waited_for n adj before (j ∷ ks) after k o (w, rest) l h =
    subst (λ x. mem o x ≡ true) (append_assoc before (j ∷ []) ks)
      (waited_for n adj (before ++ j ∷ []) ks after k o rest l h)

-- What an outcome says of the loop.
sorted_inv :
    (files : List FileContent) (deg : ℕ → ℕ) (out : List ℕ) {result : List ℕ}
    → finish files (some (deg, out)) ≡ sorted result
    → (out ≡ result) × (length out ≡ length files)
unfolding finish
sorted_inv files deg out h = elim (Bool-cases (length out == length files)) [
  | inl e ↦ (let q = rw e at h in same q, (==_iff (length out) (length files)).0 e)
  | inr e ↦ absurd (other (rw e at h))
]
  where
    same : {a b : List ℕ} → sorted a ≡ sorted b → a ≡ b
    same q = cc

    other : {a b : List ℕ} → cycle a ≡ sorted b → ⊥
    other q = cc

cycle_inv :
    (files : List FileContent) (deg : ℕ → ℕ) (out : List ℕ) {result : List ℕ}
    → finish files (some (deg, out)) ≡ cycle result
    → (those_from (λ k. ltb 0 (deg k)) 0 files ≡ result) × (length out ≢ length files)
unfolding finish
cycle_inv files deg out h = elim (Bool-cases (length out == length files)) [
  | inl e ↦ absurd (other (rw e at h))
  | inr e ↦ (same (rw e at h), λ q. (let f = (==_iff (length out) (length files)).1 q in cc))
]
  where
    same : {a b : List ℕ} → cycle a ≡ cycle b → a ≡ b
    same q = cc

    other : {a b : List ℕ} → sorted a ≡ cycle b → ⊥
    other q = cc

kept_once :
    (n : ℕ) (adj : ℕ → List ℕ) (deg : ℕ → ℕ) (out : List ℕ)
    → IsKept n adj deg [] out
    → ((k : ℕ) → mult k out ≤ 1) × ((k : ℕ) → n ≤ k → mult k out ≡ 0)
kept_once n adj deg out kept = (
  λ k. (let e = (kept k).1 in ground (arith, e)),
  λ k l. (let e = (kept k).1 in ground (arith, e, l)),
)

-- A sorted outcome has each of the files exactly once, and nothing else.
pub topo_sort_ddl-sorted :
    (created referenced : Text → List Text) (files : List FileContent) {out : List ℕ}
    → topo_sort_ddl created referenced files ≡ sorted out
    → (k : ℕ) → mult k out ≡ one_if (ltb k (length files))
topo_sort_ddl-sorted created referenced files {out} h k =
    let (deg, ran, e, kept, order) = topo_sort_ddl-Ran created referenced files in
    let (same, len) = sorted_inv files deg ran (sym e ∙ h) in
    let n = length files in
    let (once, out_of_range) = kept_once n (edges_of created referenced files).adj deg ran kept in
    let sum : total n (λ j. mult j ran) ≡ n = sym (length-total n ran out_of_range) ∙ len in
    subst (λ x. mult k x ≡ one_if (ltb k n)) same
      (elim (dec_lt k n) [
        | yes l ↦
            (let full = total-full n (λ j. mult j ran) once sum k l in ground (arith, full, l))
        | no l ↦ (let none_there = out_of_range k (omega arith) in ground (arith, none_there, l))
      ])

-- In a sorted outcome a file stands behind every other file that owns a table it references; the last
-- file that creates a table owns it.
pub topo_sort_ddl-DependsOn :
    (created referenced : Text → List Text) (files : List FileContent) (before after : List ℕ)
    (k o : ℕ)
    → topo_sort_ddl created referenced files ≡ sorted (before ++ (k ∷ after))
    → DependsOn created referenced files k o
    → mem o before ≡ true
topo_sort_ddl-DependsOn created referenced files before after k o h (f, t, at, m, owner, other) =
    let (deg, ran, e, kept, order) = topo_sort_ddl-Ran created referenced files in
    let (same, len) = sorted_inv files deg ran (sym e ∙ h) in
    let (built, edges) = edges_of-HasEdges created referenced files in
    let g = edges_of created referenced files in
    let n = length files in
    let edge = edges k f at t m o owner other in
    let order' = subst (λ x. IsOrdered n g.adj [] x) same order in
    elim (dec_lt o n) [
      | yes l ↦ waited_for n g.adj [] before after k o order' l edge
      | no l ↦ absurd (l (owner_below t o owner))
    ]
  where
    owner_below :
        (t : Text) (o : ℕ) → find_owner t (owners created 0 files) ≡ some o → o < length files
    owner_below t o e = let b = (owners-below created t 0 files e).1 in omega (arith, b)

mem-those_from :
    (p : ℕ → Bool) (k : ℕ) (files : List FileContent)
    → mem k (those_from p 0 files) ≡ (p k && ltb k (length files))
mem-those_from p k files =
    let a = mem-mult k (those_from p 0 files) in
    let b = mult-those_from p 0 k files in ground (arith, a, b)

Has-mem : (k : ℕ) (is : List ℕ) → Has k is → mem k is ≡ true
Has-mem k [] m = elim m [ ]
Has-mem k (i ∷ is) (inl q) = ground (arith, q)
Has-mem k (i ∷ is) (inr m) = let ih = Has-mem k is m in ground (arith, ih)

-- What is left over waits for something that is left over.
waits_within :
    (files : List FileContent) (adj : ℕ → List ℕ) (deg : ℕ → ℕ) (out : List ℕ) (k : ℕ)
    → IsKept (length files) adj deg [] out
    → mem k (those_from (λ j. ltb 0 (deg j)) 0 files) ≡ true
    → (o : ℕ) × (mem o (those_from (λ j. ltb 0 (deg j)) 0 files) ≡ true) × (0 < mult k (adj o))
waits_within files adj deg out k kept m =
    let n = length files in
    let is_left = mem-those_from (λ j. ltb 0 (deg j)) k files in
    let (e, once) = kept k in
    let positive : 0 < total n (λ o. if mem o out then 0 else mult k (adj o)) =
      ground (arith, e, is_left, m) in
    let (o, l, p) = total-positive n (λ o. if mem o out then 0 else mult k (adj o)) positive in
    let there = (kept o).1 in
    let a = mem-mult o out in
    let b = mem-those_from (λ j. ltb 0 (deg j)) o files in
    (o, ground (arith, p, there, a, b, l), ground (arith, p))

-- A file is left over if not all are put out.
some_left :
    (files : List FileContent) (adj : ℕ → List ℕ) (deg : ℕ → ℕ) (out : List ℕ)
    → IsKept (length files) adj deg [] out
    → length out ≢ length files
    → (k : ℕ) × (mem k (those_from (λ j. ltb 0 (deg j)) 0 files) ≡ true)
some_left files adj deg out kept short =
    let n = length files in
    let (once, out_of_range) = kept_once n adj deg out kept in
    let sum = length-total n out out_of_range in
    let (k, l, z) = total-gap n (λ j. mult j out) once (λ e. short (sum ∙ e)) in
    let is_left = mem-those_from (λ j. ltb 0 (deg j)) k files in
    let there = (kept k).1 in (k, ground (arith, is_left, there, z, l))

-- A cycle that is reported is one: there is a file in it, and each file of it has an edge from a file
-- of it, so none of them can be applied before the others.
pub topo_sort_ddl-cycle :
    (created referenced : Text → List Text) (files : List FileContent) {left : List ℕ}
    → topo_sort_ddl created referenced files ≡ cycle left
    → ((k : ℕ) × (mem k left ≡ true))
      × All
          (λ k.
            (o : ℕ) × (mem o left ≡ true)
            × (0 < mult k ((edges_of created referenced files).adj o)))
          left
topo_sort_ddl-cycle created referenced files {left} h =
    let (deg, ran, e, kept, order) = topo_sort_ddl-Ran created referenced files in
    let (same, short) = cycle_inv files deg ran (sym e ∙ h) in
    let adj = (edges_of created referenced files).adj in
    subst
      (λ l.
        ((k : ℕ) × (mem k l ≡ true))
        × All (λ k. (o : ℕ) × (mem o l ≡ true) × (0 < mult k (adj o))) l)
      same
      (
        some_left files adj deg ran kept short,
        All-from _ (those_from (λ j. ltb 0 (deg j)) 0 files)
            (λ k m. waits_within files adj deg ran k kept (Has-mem k _ m)),
      )
