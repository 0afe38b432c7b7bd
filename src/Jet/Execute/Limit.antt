-- ===== src/Jet/Execute/Limit.antt =====
-- The limit of the query, and the int32 sum that it is computed with.
use protoc_gen_go_jet.Common.{
  ℕ, suc, ◌^◌, ◌<◌, ◌-◌, pos, negsuc, ◌≡◌, ◌↔◌, inl, inr, Bool-cases, ltb, arith,
}
use protoc_gen_go_jet.Jet.Execute.{query_limit}
use protoc_gen_go_jet.Jet.Execute.Page.{query_limit_lem}

wrapped : (n : ℕ) → suc n ≡ 2 ^ 31 → query_limit (pos n) ≡ negsuc (2 ^ 31 - 1)
unfolding query_limit
wrapped n h = ground arith

-- For a page size that is an int32 and not negative, the query asks for one row more than the page
-- holds exactly if the page size is not the largest int32.
pub query_limit_iff : (n : ℕ) → n < 2 ^ 31 → (query_limit (pos n) ≡ pos (suc n)) ↔ (suc n < 2 ^ 31)
query_limit_iff n small = (below, query_limit_lem n)
  where
    below : query_limit (pos n) ≡ pos (suc n) → suc n < 2 ^ 31
    below e = elim (Bool-cases (ltb (suc n) (2 ^ 31))) [
      | inl b ↦ ground arith
      | inr b ↦ absurd (let w = wrapped n (ground arith) in cc)
    ]
