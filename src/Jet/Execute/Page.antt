-- ===== src/Jet/Execute/Page.antt =====
-- One page: what is returned, and which token is issued.
use protoc_gen_go_jet.Common.{
  ℕ, suc, ◌^◌, ◌≤◌, ◌<◌, ℤ, pos, negsuc, ◌+ℤ◌, leb_ℤ, ltb_ℤ, Text, Bool, true, false, ◌&&◌, List,
  [], ◌∷◌, Option, none, some, map, ◌≡◌, refl, ◌∙◌, ap, length, length-take_le, take, get_elem?,
  ◌==◌, arith, text_eq_refl,
}
use protoc_gen_go_jet.Common.Sorted.{take_all, take-take, get_elem?-take}
use protoc_gen_go_jet.Aip.Errors.{ok}
use protoc_gen_go_jet.Aip.Order.{OrderField}
use protoc_gen_go_jet.Aip.Runtime.{Go, GoLaws, Value}
use protoc_gen_go_jet.Aip.Page.{to_token_order, make_token, encode_token}
use protoc_gen_go_jet.Jet.Sql.{Jet, Postgres}
use protoc_gen_go_jet.Jet.Schema.{Schema}
use protoc_gen_go_jet.Jet.Cursor.{same_order, decode_cursor_values, extract_cursor_values}
use protoc_gen_go_jet.Jet.Plan.{Plan}
use protoc_gen_go_jet.Jet.Execute.{
  rows, combine_conditions, query_limit, row_at, first_rows, build_next_page_token, finish_page,
}
use protoc_gen_go_jet.Jet.Execute.Faithful.{
  IsFaithful, raw_values, texts, decoded_values, encoded, decoded_back,
}
use protoc_gen_go_jet.Jet.Execute.Cursor.{lengths}

-- The limit asks for one row more than the page holds, unless the int32 sum wraps around.
pub query_limit_lem : (n : ℕ) → suc n < 2 ^ 31 → query_limit (pos n) ≡ pos (suc n)
unfolding query_limit
query_limit_lem n h = ground arith

module _ {g : Go} {Model : Type 0} {j : Jet g Model} (p : Postgres g Model j) where
  -- The rows that an optional condition keeps.
  abbrev pub satisfies : Option j.Condition → Model → Bool
  satisfies none r = true
  satisfies (some c) r = p.holds c r

  pub combine_conditions-and :
      (a b : Option j.Condition) (r : Model)
      → satisfies (combine_conditions j (a ∷ b ∷ [])) r ≡ (satisfies a r && satisfies b r)
  unfolding combine_conditions
  combine_conditions-and none none r = refl
  combine_conditions-and none (some d) r = p.holds-and_of (d ∷ []) r ∙ ground arith
  combine_conditions-and (some c) none r = p.holds-and_of (c ∷ []) r ∙ ground arith
  combine_conditions-and (some c) (some d) r = p.holds-and_of (c ∷ d ∷ []) r ∙ ground arith

before : (n : ℕ) → pos (suc n) +ℤ negsuc 0 ≡ pos n
before n = ground arith

row_at_lem {ℓ} :
    {A : Type ℓ} {x : A} (n : ℕ) (rs : List A) → get_elem? rs n ≡ some x → row_at rs (pos n) ≡ ok x
unfolding row_at
row_at_lem n rs h = rw (h, row_at)

longer {ℓ} :
    {A : Type ℓ} (n : ℕ) (rs : List A)
    → length rs ≡ suc (suc n)
    → ltb_ℤ (pos (suc n)) (pos (length rs)) ≡ true
longer n rs h = ground arith

first_rows_lem {ℓ} :
    {A : Type ℓ} (n : ℕ) (rs : List A) → n ≤ length rs → first_rows rs (pos n) ≡ ok (take n rs)
unfolding first_rows
first_rows_lem n rs h = ground arith

module _ {g : Go} {Model : Type 0} {j : Jet g Model} (s : Schema g Model j) (now : ℤ) where
  -- The last page: all rows that are left, and no token.
  pub finish_page-last :
      (plan : Plan g) (n : ℕ) (rest : List Model)
      → plan.page_size ≡ pos (suc n)
      → length rest ≤ suc n
      → finish_page j now s plan (rows (take (suc (suc n)) rest)) ≡ ok (rest, [])
  unfolding finish_page
  finish_page-last plan n rest size fits =
      rw (take_all (suc (suc n)) rest (omega arith), size) (ground arith)

  next_token :
      (plan : Plan g) (n : ℕ) (rs : List Model) (x : Model) (vals : List (Value g)) {token : Text}
      → plan.page_size ≡ pos (suc n)
      → length rs ≡ suc (suc n)
      → get_elem? rs n ≡ some x
      → extract_cursor_values s.fields x plan.order_by.fields ≡ ok vals
      → encode_token g now s.resource_type vals plan.order_by plan.filter s.cached_codecs ≡ ok token
      → build_next_page_token j now s plan rs ≡ ok token
  unfolding build_next_page_token
  next_token plan n rs x vals size len at_n raw issued =
      rw (size, shorter, before n, row_at_lem n rs at_n, raw) issued
    where
      shorter : leb_ℤ (pos (length rs)) (pos (suc n)) ≡ false
      shorter = ground arith

  -- A page with rows behind it: as many rows as the page holds, and a token for the last of them.
  pub finish_page-more :
      (plan : Plan g) (n : ℕ) (rest : List Model) (x : Model) (vals : List (Value g)) {token : Text}
      → plan.page_size ≡ pos (suc n)
      → suc n < length rest
      → get_elem? rest n ≡ some x
      → extract_cursor_values s.fields x plan.order_by.fields ≡ ok vals
      → encode_token g now s.resource_type vals plan.order_by plan.filter s.cached_codecs ≡ ok token
      → finish_page j now s plan (rows (take (suc (suc n)) rest)) ≡ ok (take (suc n) rest, token)
  unfolding finish_page
  finish_page-more plan n rest x vals {token} size more at_n raw issued =
      let rs = take (suc (suc n)) rest in
      let len : length rs ≡ suc (suc n) = length-take_le (suc (suc n)) rest (omega arith) in
      let at_last : get_elem? rs n ≡ some x =
        get_elem?-take n (suc (suc n)) rest (omega arith) ∙ at_n in
      rw (
        next_token plan n rs x vals size len at_last raw issued,
        size,
        longer n rs len,
        first_rows_lem (suc n) rs (omega arith),
        take-take (suc n) rest,
      )

module _ {g : Go} {Model : Type 0} {j : Jet g Model} (p : Postgres g Model j) (l : GoLaws g)
    (s : Schema g Model j) where
  pub token_issued :
      (now : ℤ) (order : List OrderField) (cs : List j.Column) (h : IsFaithful p s order cs)
      (r : Model) (filter : Text)
      → (token : Text) × (encode_token g now s.resource_type
            (raw_values p s order cs h r)
            (record { fields = order })
            filter
            s.cached_codecs
          ≡ ok token)
  unfolding encode_token
  token_issued now order cs h r filter =
      let n = (lengths p s order cs h r).0 in
      let (b, e) =
        l.marshals (make_token g now s.resource_type (texts p s order cs h r) order filter) in
      let same : (length (raw_values p s order cs h r) == length order) ≡ true = ground arith in
      (g.base64_encode b, rw (same, encoded p s order cs h r, e))

  same_order_self : (order : List OrderField) → same_order (map to_token_order order) order ≡ true
  unfolding same_order
  same_order_self [] = refl
  same_order_self (f ∷ order) = rw (text_eq_refl f.path, same_order_self order) (ground arith)

  length-token_orders : (order : List OrderField) → length (map to_token_order order) ≡ length order
  length-token_orders [] = refl
  length-token_orders (f ∷ order) = ap suc (length-token_orders order)

  -- The token of a row is decoded to the cursor values of that row.
  pub cursor_decoded :
      (now : ℤ) (f : OrderField) (order : List OrderField) (cs : List j.Column)
      (h : IsFaithful p s (f ∷ order) cs) (r : Model) (filter : Text)
      → decode_cursor_values s
          (some
            (make_token g now s.resource_type (texts p s (f ∷ order) cs h r) (f ∷ order) filter))
          (record { fields = f ∷ order })
        ≡ ok (decoded_values p s (f ∷ order) cs h r)
  unfolding decode_cursor_values make_token
  cursor_decoded now f order cs h r filter =
      let n = (lengths p s (f ∷ order) cs h r).1 in
      let m = length-token_orders (f ∷ order) in
      let same : (length (texts p s (f ∷ order) cs h r) == length (map to_token_order (f ∷ order)))
          ≡ true =
        ground arith in
      let same' : (length (f ∷ order) == length (map to_token_order (f ∷ order))) ≡ true =
        ground arith in
      rw (same, same', same_order_self (f ∷ order)) (decoded_back p s (f ∷ order) cs h r)
