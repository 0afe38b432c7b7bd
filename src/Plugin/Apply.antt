-- ===== src/Plugin/Apply.antt =====
-- cmd/protoc-gen-go-jet/apply_ddl.go: topoSortDDL, the order in which the ddl.sql files are applied.
-- The matches of the two regular expressions in a file are parameters: the tables that it creates, and
-- those that it references. An array that is indexed by files is a function of the index.
pub mod Count
pub mod Graph
pub mod Kahn
pub mod Correct
use protoc_gen_go_jet.Common.{
  ℕ, zero, suc, ◌+◌, ◌-◌, Text, Bool, true, false, not, ◌&&◌, ◌||◌, List, [], ◌∷◌, ◌++◌, Option,
  none, some, map, length, text_eq, if◌then◌else◌, ltb, leb, ◌==◌,
}

pub record FileContent : Type 0 where
  pub path : Text
  pub content : Text

-- The entries of the map from tables to files, in the order in which they are written.
unfoldable pub owners : (Text → List Text) → ℕ → List FileContent → List (Text × ℕ)
owners created i [] = []
owners created i (f ∷ files) = map (λ t. (t, i)) (created f.content) ++ owners created (suc i) files

-- The last entry of a table counts.
unfoldable pub find_owner : Text → List (Text × ℕ) → Option ℕ
find_owner t [] = none
find_owner t ((u, i) ∷ entries) =
    let later = find_owner t entries in
    elim later [ some j ↦ some j | none ↦ if text_eq u t then some i else none ]

abbrev pub mem : ℕ → List ℕ → Bool
mem k [] = false
mem k (i ∷ is) = k == i || mem k is

pub record Edges : Type 0 where
  pub adj : ℕ → List ℕ
  pub in_deg : ℕ → ℕ

abbrev pub no_edges : Edges
no_edges = record { adj = λ k. []; in_deg = λ k. 0 }

abbrev pub add_edge : ℕ → ℕ → Edges → Edges
add_edge owner i g = record {
  adj = λ k. if k == owner then g.adj k ++ i ∷ [] else g.adj k;
  in_deg = λ k. if k == i then g.in_deg k + 1 else g.in_deg k;
}

-- One reference of file `i`, by its owner, with the owners that the file has an edge from already.
unfoldable pub add_owner : ℕ → Option ℕ → List ℕ × Edges → List ℕ × Edges
add_owner i none (seen, g) = (seen, g)
add_owner i (some owner) (seen, g) =
    if owner == i
    then (seen, g)
    else if mem owner seen
    then (seen, g)
    else (owner ∷ seen, add_edge owner i g)

unfoldable pub add_references : ℕ → List (Text × ℕ) → List Text → List ℕ × Edges → List ℕ × Edges
add_references i entries [] st = st
add_references i entries (t ∷ ts) st =
    add_references i entries ts (add_owner i (find_owner t entries) st)

unfoldable pub build : (Text → List Text) → List (Text × ℕ) → ℕ → List FileContent → Edges → Edges
build referenced entries i [] g = g
build referenced entries i (f ∷ files) g =
    build referenced entries (suc i) files
      ((add_references i entries (referenced f.content) ([], g)).1)

-- sort.Ints
abbrev pub insert : ℕ → List ℕ → List ℕ
insert k [] = k ∷ []
insert k (i ∷ is) = let rest = insert k is in if leb k i then k ∷ i ∷ is else i ∷ rest

abbrev pub sort : List ℕ → List ℕ
sort [] = []
sort (k ∷ ks) = insert k (sort ks)

-- The files, from index `i` on, whose test holds.
abbrev pub those_from : (ℕ → Bool) → ℕ → List FileContent → List ℕ
those_from p i [] = []
those_from p i (f ∷ files) = let rest = those_from p (suc i) files in if p i then i ∷ rest else rest

-- The loop over the files that wait for the one that is put out.
unfoldable pub release : List ℕ → (ℕ → ℕ) → List ℕ → (ℕ → ℕ) × List ℕ
release [] deg ready = (deg, ready)
release (j ∷ js) deg ready =
    release js (λ k. if k == j then deg k - 1 else deg k)
      (if deg j - 1 == 0 then ready ++ j ∷ [] else ready)

-- The loop of Kahn's algorithm: `none` without fuel, else the degrees and the files in their order.
unfoldable pub kahn : ℕ → (ℕ → List ℕ) → (ℕ → ℕ) → List ℕ → List ℕ → Option ((ℕ → ℕ) × List ℕ)
kahn fuel adj deg [] out = some (deg, out)
kahn zero adj deg (i ∷ ready) out = none
kahn (suc fuel) adj deg (i ∷ ready) out =
    let (deg', ready') = release (adj i) deg ready in
    kahn fuel adj deg' (sort ready') (out ++ i ∷ [])

pub data Outcome : Type 0 where
  sorted : List ℕ → Outcome
  cycle : List ℕ → Outcome
  out_of_fuel : Outcome

unfoldable pub finish : List FileContent → Option ((ℕ → ℕ) × List ℕ) → Outcome
finish files none = out_of_fuel
finish files (some (deg, out)) =
    if not (length out == length files)
    then cycle (those_from (λ k. ltb 0 (deg k)) 0 files)
    else sorted out

unfoldable pub edges_of : (created referenced : Text → List Text) → List FileContent → Edges
edges_of created referenced files = build referenced (owners created 0 files) 0 files no_edges

-- The files of the outcome, by index. As many rounds as there are files are enough.
unfoldable pub topo_sort_ddl : (created referenced : Text → List Text) → List FileContent → Outcome
topo_sort_ddl created referenced files =
    let g = edges_of created referenced files in
    finish files
      (kahn (length files) g.adj g.in_deg (sort (those_from (λ k. g.in_deg k == 0) 0 files)) [])
