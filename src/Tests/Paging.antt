-- ===== src/Tests/Paging.antt =====
-- The theorems on paging at the schema, the table and the clock of this folder.
use protoc_gen_go_jet.Common.{
  ℕ, suc, ℤ, pos, ◌-ℤ◌, ◌≤ℤ◌, codes, List, [], ◌∷◌, Option, some, filterb, ◌≡◌, refl, arith,
  text_eq, lookup, not, Bool, ◌*◌, ◌^◌,
}
use protoc_gen_go_jet.Aip.Errors.{ok}
use protoc_gen_go_jet.Aip.Order.{parse_order_by}
use protoc_gen_go_jet.Aip.Page.{token_max_age}
use protoc_gen_go_jet.Jet.Schema.{effective_order_by}
use protoc_gen_go_jet.Jet.Plan.{Params, effective_page_size}
use protoc_gen_go_jet.Jet.Execute.Page.{satisfies}
use protoc_gen_go_jet.Jet.Execute.Complete.{fetch_all}
use protoc_gen_go_jet.Jet.Execute.Pages.{fetch_all_complete}
use protoc_gen_go_jet.Aip.Order.{is_uniform_direction}
use protoc_gen_go_jet.Aip.Runtime.{Value, string}
use protoc_gen_go_jet.Jet.Keyset.{
  build_keyset_condition, build_lexicographic_fallback, lexicographic_terms, equalities, column_of,
  equality_expr, direction_expr, tuple_parts, to_literal,
}
use protoc_gen_go_jet.Jet.Keyset.After.{directions, after}
use protoc_gen_go_jet.Jet.Keyset.Meaning.{values, build_keyset_condition-after}
use protoc_gen_go_jet.Tests.Runtime.{go, go_laws}
use protoc_gen_go_jet.Tests.Database.{
  User, jet, postgres, users, both-IsFaithful, by_group, by_name, group_column, name_column, table,
  run_query, compare_texts,
}

abbrev pub two_per_page : Params
two_per_page = record { page_size = pos 2; page_token = []; filter = codes "active"; order_by = [] }

-- All but the users of group "b".
abbrev not_b : Option (User → Bool)
not_b = some (λ u. not (text_eq u.group (codes "b")))

-- A request per minute.
abbrev clock : ℕ → ℤ
clock k = pos (k * (60 * 10 ^ 9))

users_order : effective_order_by users (codes "") ≡ ok (record { fields = by_group ∷ by_name ∷ [] })
unfolding effective_order_by parse_order_by
users_order = refl

two : effective_page_size users.default_page_size users.max_page_size two_per_page.page_size ≡ pos 2
unfolding effective_page_size
two = refl

fresh : (k : ℕ) → clock (suc k) -ℤ clock k ≤ℤ token_max_age
fresh k = ground arith

fetch_all_complete_example :
    fetch_all users two_per_page run_query not_b clock clock 6 0 []
    ≡ ok (filterb (satisfies postgres not_b) table)
fetch_all_complete_example =
    fetch_all_complete postgres go_laws users by_group (by_name ∷ []) group_column
      (name_column ∷ []) both-IsFaithful two_per_page run_query not_b clock clock table 1 6
      users_order
      (
        (refl, (refl, (refl, (refl, tt)))),
        ((refl, (refl, (refl, tt))), ((refl, (refl, tt)), ((refl, tt), (tt, tt)))),
      )
      (λ m w. refl) two (omega arith) fresh (omega arith)

-- The condition behind the user "amy" of group "a".
abbrev keyset : User → Bool
keyset = jet.or_of (
    jet.and_of (jet.greater group_column (codes "a") ∷ [])
    ∷ jet.and_of (jet.equal group_column (codes "a") ∷ jet.less name_column (codes "amy") ∷ [])
    ∷ [])

abbrev amy : List (Value go)
amy = string (codes "a") ∷ string (codes "amy") ∷ []

keyset_built :
    build_keyset_condition jet users.fields (record { fields = by_group ∷ by_name ∷ [] }) amy
    ≡ ok (some keyset)
unfolding build_keyset_condition build_lexicographic_fallback lexicographic_terms equalities
    column_of equality_expr direction_expr is_uniform_direction lookup text_eq
keyset_built = refl

keyset_parts :
    tuple_parts jet users.fields (by_group ∷ by_name ∷ []) amy
    ≡ ok (group_column ∷ name_column ∷ [], codes "a" ∷ codes "amy" ∷ [])
unfolding tuple_parts column_of to_literal lookup text_eq
keyset_parts = refl

abbrev bob : User
bob = record { group = codes "b"; name = codes "bob" }

build_keyset_condition-after_example :
    keyset bob
    ≡ after compare_texts
        (directions (by_group ∷ by_name ∷ []))
        (values postgres (group_column ∷ name_column ∷ []) bob)
        (codes "a" ∷ codes "amy" ∷ [])
build_keyset_condition-after_example =
    build_keyset_condition-after postgres users.fields (by_group ∷ by_name ∷ []) amy bob
      (refl, (refl, tt)) keyset_parts keyset_built
