-- ===== src/Plugin/Resolve/Comment.antt =====
-- cmd/protoc-gen-go-jet/resolve.go: normaliseProtoComment.
use protoc_gen_go_jet.Common.{
  Text, Bool, true, false, List, [], ◌∷◌, ◌++◌, is_empty, trim_space, split, if◌then◌else◌, ◌≢◌,
  Bool-cases, inl, inr, All, All-append, arith,
}
use protoc_gen_go_jet.Common.Words.{Lacks, split-Lacks, trim_space-All}
use protoc_gen_go_jet.Plugin.Resolve.{join_lines, normalise_proto_comment}

join_lines-Lacks :
    (b : Text) (lines : List Text)
    → Lacks 10 b
    → All (Lacks 10) lines
    → Lacks 10 (join_lines b lines)
unfolding join_lines
join_lines-Lacks b [] hb h = hb
join_lines-Lacks b (s ∷ lines) hb (hs, h) =
    let line = trim_space-All (λ c. c ≢ 10) s hs in
    join_lines-Lacks
      (if is_empty (trim_space s)
        then b
        else if is_empty b
        then trim_space s
        else b ++ (32 ∷ trim_space s))
      lines (joined (is_empty (trim_space s)) (is_empty b) (trim_space s) line) h
  where
    joined :
        (x y : Bool) (l : Text)
        → Lacks 10 l
        → Lacks 10 (if x then b else if y then l else b ++ (32 ∷ l))
    joined true y l hl = hb
    joined false true l hl = hl
    joined false false l hl = All-append (λ c. c ≢ 10) b (32 ∷ l) hb (omega arith, hl)

-- The comment that goes into the SQL stands on one line.
pub normalise_proto_comment-Lacks : (raw : Text) → Lacks 10 (normalise_proto_comment raw)
unfolding normalise_proto_comment
normalise_proto_comment-Lacks raw = elim (Bool-cases (is_empty raw)) [
  | inl e ↦ rw e tt
  | inr e ↦ rw e (join_lines-Lacks [] (split raw 10) tt (split-Lacks raw 10))
]
