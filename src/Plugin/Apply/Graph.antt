-- ===== src/Plugin/Apply/Graph.antt =====
-- The edges that topoSortDDL builds from the files.
use native.Mathlib.Decide.{dec_lt}
use protoc_gen_go_jet.Common.{
  ℕ, zero, suc, ◌+◌, ◌≤◌, ◌<◌, Text, true, ◌&&◌, List, [], ◌∷◌, ◌++◌, Option, none, some, map,
  length, get_elem?, text_eq, ◌==◌, ==_iff, ◌≡◌, ◌≢◌, refl, sym, ◌∙◌, ◌⊎◌, subst, arith, Bool-cases,
  Option-cases, inl, inr, Has,
}
use protoc_gen_go_jet.Plugin.Apply.{
  FileContent, owners, find_owner, mem, Edges, no_edges, add_edge, add_owner, add_references, build,
  edges_of,
}
use protoc_gen_go_jet.Plugin.Apply.Count.{
  one_if, mult, mult-append, total, total-change, total-zero,
}
use protoc_gen_go_jet.Plugin.Apply.Kahn.{AreFiles}

-- The degrees count the edges, which lead to files.
abbrev pub IsBuilt : ℕ → Edges → Type 0
IsBuilt n g = ((k : ℕ) → g.in_deg k ≡ total n (λ o. mult k (g.adj o))) × AreFiles n g.adj

add_edge-mult :
    (o i : ℕ) (g : Edges) (k p : ℕ)
    → mult k ((add_edge o i g).adj p) ≡ mult k (g.adj p) + one_if (p == o && k == i)
add_edge-mult o i g k p = elim (Bool-cases (p == o)) [
  | inl e ↦ rw e (let a = mult-append k (g.adj p) (i ∷ []) in ground (arith, a))
  | inr e ↦ rw e (omega arith)
]

add_edge-IsBuilt :
    (n o i : ℕ) (g : Edges) → o < n → i < n → IsBuilt n g → IsBuilt n (add_edge o i g)
add_edge-IsBuilt n o i g lo li (count, files) = (counted, bounded)
  where
    counted : (k : ℕ) → (add_edge o i g).in_deg k ≡ total n (λ p. mult k ((add_edge o i g).adj p))
    counted k =
        let at = add_edge-mult o i g k in
        let change =
          total-change n o (one_if (k == i)) (λ p. mult k ((add_edge o i g).adj p))
            (λ p. mult k (g.adj p)) lo (let e = at o in ground (arith, e))
            (λ p q. let e = at p in ground (arith, e, q)) in
        let c = count k in ground (arith, change, c)

    bounded : AreFiles n (add_edge o i g).adj
    bounded p k h =
        let e = add_edge-mult o i g k p in
        elim (dec_lt 0 (mult k (g.adj p))) [
          | yes l ↦ files p k l
          | no l ↦ ground (arith, e, h, l, li)
        ]

-- What the loop over the references of file `i` keeps: the owners that it has seen have their edge,
-- and no edge goes away.
abbrev IsSeen : ℕ → ℕ → List ℕ → Edges → Edges → Type 0
IsSeen n i seen before g =
    IsBuilt n g
    × ((o : ℕ) → mem o seen ≡ true → 0 < mult i (g.adj o))
    × ((o k : ℕ) → mult k (before.adj o) ≤ mult k (g.adj o))

-- Every owner in the map is a file.
abbrev OwnersBelow : ℕ → List (Text × ℕ) → Type 0
OwnersBelow n entries = (t : Text) (o : ℕ) → find_owner t entries ≡ some o → o < n

-- The edge from an owner is there.
abbrev HasEdge : Option ℕ → ℕ → Edges → Type 0
HasEdge found i g = (o : ℕ) → found ≡ some o → o ≢ i → 0 < mult i (g.adj o)

some_one : {o p : ℕ} → some o ≡ some p → o ≡ p
some_one h = cc

no_owner : {o : ℕ} → none ≡ some o → ⊥
no_owner h = cc

add_owner-IsSeen :
    (n i : ℕ) (found : Option ℕ) (seen : List ℕ) (before g : Edges)
    → i < n
    → ((o : ℕ) → found ≡ some o → o < n)
    → IsSeen n i seen before g
    → IsSeen n i (add_owner i found (seen, g)).0 before (add_owner i found (seen, g)).1
      × HasEdge found i (add_owner i found (seen, g)).1
unfolding add_owner
add_owner-IsSeen n i none seen before g li below kept = (kept, λ o f. absurd (no_owner f))
add_owner-IsSeen n i (some o) seen before g li below kept = elim (Bool-cases (o == i)) [
  | inl f ↦ rw f (kept, λ p q r. absurd (r (sym (some_one q) ∙ (==_iff o i).0 f)))
  | inr f ↦ elim (Bool-cases (mem o seen)) [
    | inl m ↦ rw (f, m) (kept, λ p q r. subst (λ x. 0 < mult i (g.adj x)) (some_one q) (kept.1 o m))
    | inr m ↦
        rw (f, m)
          (
            (
              add_edge-IsBuilt n o i g (below o refl) li kept.0,
              λ p q.
                  (let a = add_edge-mult o i g i p in
                    elim (Bool-cases (mem p seen)) [
                      | inl x ↦ (let y = kept.1 p x in omega (arith, a, y))
                      | inr x ↦ ground (arith, a, q, x)
                    ]),
              λ p k. (let a = add_edge-mult o i g k p in let y = kept.2 p k in omega (arith, a, y)),
            ),
            λ p q r.
                (let a = add_edge-mult o i g i p in let s = some_one q in ground (arith, a, s)),
          )
  ]
]

-- The edges grow.
abbrev pub IsGrown : Edges → Edges → Type 0
IsGrown before g = (o k : ℕ) → mult k (before.adj o) ≤ mult k (g.adj o)

-- Each reference of a file to another one has its edge.
abbrev pub HasEdges : List (Text × ℕ) → ℕ → List Text → Edges → Type 0
HasEdges entries i ts g = (t : Text) → Has t ts → HasEdge (find_owner t entries) i g

grown_edge :
    (found : Option ℕ) (i : ℕ) (before g : Edges)
    → IsGrown before g
    → HasEdge found i before
    → HasEdge found i g
grown_edge found i before g grown edge o e q =
    let a = edge o e q in let b = grown o i in omega (arith, a, b)

add_references-HasEdges :
    (n i : ℕ) (entries : List (Text × ℕ)) (ts : List Text) (seen : List ℕ) (g : Edges)
    → i < n
    → OwnersBelow n entries
    → IsBuilt n g
    → ((o : ℕ) → mem o seen ≡ true → 0 < mult i (g.adj o))
    → IsBuilt n (add_references i entries ts (seen, g)).1
      × IsGrown g (add_references i entries ts (seen, g)).1
      × HasEdges entries i ts (add_references i entries ts (seen, g)).1
unfolding add_references
add_references-HasEdges n i entries [] seen g li below built edges =
    (built, λ o k. omega arith, λ t m. elim m [ ])
add_references-HasEdges n i entries (t ∷ ts) seen g li below built edges =
    let next = add_owner i (find_owner t entries) (seen, g) in
    let ((built', edges', grown), edge) =
      add_owner-IsSeen n i (find_owner t entries) seen g g li (below t)
        (built, edges, λ o k. omega arith) in
    let (built'', grown', rest) =
      add_references-HasEdges n i entries ts next.0 next.1 li below built' edges' in
    let last = (add_references i entries ts next).1 in
    (
      built'',
      λ o k. (let a = grown o k in let b = grown' o k in omega (arith, a, b)),
      λ u m. (elim m [
        | inl q ↦
            subst (λ x. HasEdge (find_owner x entries) i last) (sym q)
              (grown_edge (find_owner t entries) i next.1 last grown' edge)
        | inr m' ↦ rest u m'
      ]),
    )

-- All edges of the files from index `i` on.
build-HasEdges :
    (n : ℕ) (referenced : Text → List Text) (entries : List (Text × ℕ)) (i : ℕ)
    (files : List FileContent) (g : Edges)
    → i + length files ≤ n
    → OwnersBelow n entries
    → IsBuilt n g
    → IsBuilt n (build referenced entries i files g)
      × IsGrown g (build referenced entries i files g)
      × ((j : ℕ) (f : FileContent)
          → get_elem? files j ≡ some f
          → HasEdges entries (i + j) (referenced f.content) (build referenced entries i files g))
unfolding build
build-HasEdges n referenced entries i [] g le below built =
    (built, λ o k. omega arith, λ j f e. absurd (cc e))
build-HasEdges n referenced entries i (f ∷ files) g le below built =
    let next = (add_references i entries (referenced f.content) ([], g)).1 in
    let (built', grown, edges) =
      add_references-HasEdges n i entries (referenced f.content) [] g (omega arith) below built
        (λ o m. absurd (cc m)) in
    let (built'', grown', rest) =
      build-HasEdges n referenced entries (suc i) files next (omega arith) below built' in
    let last = build referenced entries (suc i) files next in
    (
      built'',
      λ o k. (let a = grown o k in let b = grown' o k in omega (arith, a, b)),
      λ j h e.
          at_index j h e last
            (λ t m. grown_edge (find_owner t entries) i next last grown' (edges t m)) rest,
    )
  where
    at_index :
        (j : ℕ) (h : FileContent)
        → get_elem? (f ∷ files) j ≡ some h
        → (last : Edges) → HasEdges entries i (referenced f.content) last
        → ((k : ℕ) (x : FileContent)
            → get_elem? files k ≡ some x
            → HasEdges entries (suc i + k) (referenced x.content) last)
        → HasEdges entries (i + j) (referenced h.content) last
    at_index zero h e last here rest =
        let q : f ≡ h = cc in
        let z : i ≡ i + 0 = omega arith in
        subst (λ x. HasEdges entries (i + 0) (referenced x.content) last) q
          (subst (λ x. HasEdges entries x (referenced f.content) last) z here)
    at_index (suc j) h e last here rest =
        let z : suc i + j ≡ i + suc j = omega arith in
        subst (λ x. HasEdges entries x (referenced h.content) last) z (rest j h e)

map_owner :
    (t : Text) (i : ℕ) (ts : List Text) (rest : List (Text × ℕ)) {o : ℕ}
    → find_owner t (map (λ u. (u, i)) ts ++ rest) ≡ some o
    → (o ≡ i) ⊎ (find_owner t rest ≡ some o)
unfolding find_owner
map_owner t i [] rest h = inr h
map_owner t i (u ∷ ts) rest {o} h =
    elim (Option-cases (find_owner t (map (λ u. (u, i)) ts ++ rest))) [
      | inr (p, e) ↦ map_owner t i ts rest (e ∙ rw e at h)
      | inl e ↦ elim (Bool-cases (text_eq u t)) [
        | inl k ↦ inl (sym (some_one (rw (e, k) at h)))
        | inr k ↦ absurd (no_owner (rw (e, k) at h))
      ]
    ]

no_table : (t : Text) {o : ℕ} → find_owner t [] ≡ some o → ⊥
unfolding find_owner
no_table t h = cc

pub owners-below :
    (created : Text → List Text) (t : Text) (i : ℕ) (files : List FileContent) {o : ℕ}
    → find_owner t (owners created i files) ≡ some o
    → (i ≤ o) × (o < i + length files)
unfolding owners
owners-below created t i [] {o} h = absurd (no_table t h)
owners-below created t i (f ∷ files) h =
    elim (map_owner t i (created f.content) (owners created (suc i) files) h) [
      | inl q ↦ (omega (arith, q), omega (arith, q))
      | inr r ↦
          let (a, b) = owners-below created t (suc i) files r in
          (omega (arith, a), omega (arith, b))
    ]

-- The edges of all files.
pub edges_of-HasEdges :
    (created referenced : Text → List Text) (files : List FileContent)
    → IsBuilt (length files) (edges_of created referenced files)
      × ((j : ℕ) (f : FileContent)
          → get_elem? files j ≡ some f
          → HasEdges
              (owners created 0 files)
              j
              (referenced f.content)
              (edges_of created referenced files))
unfolding edges_of
edges_of-HasEdges created referenced files =
    let n = length files in
    let below : OwnersBelow n (owners created 0 files) =
      λ t o e. (let b = (owners-below created t 0 files e).1 in omega (arith, b)) in
    let (built, grown, edges) =
      build-HasEdges n referenced (owners created 0 files) 0 files no_edges (omega arith) below
        (λ k. sym (total-zero n), λ o k h. absurd (omega arith)) in
    (
      built,
      λ j f e.
          (let z : 0 + j ≡ j = omega arith in
            subst
              (λ x.
                HasEdges (owners created 0 files) x (referenced f.content)
                  (build referenced (owners created 0 files) 0 files no_edges))
              z (edges j f e)),
    )
