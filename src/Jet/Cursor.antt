-- ===== src/Jet/Cursor.antt =====
-- pkg/aip/jet/schema.go: from a page token to cursor values, and from a row to cursor values.
use protoc_gen_go_jet.Common.{
  Text, Bool, true, false, not, ◌||◌, List, [], ◌∷◌, Option, none, some, ◌==◌, length, is_empty,
  text_eq, lookup, bool_eq, if◌then◌else◌, codes,
}
use protoc_gen_go_jet.Aip.Errors.{
  token_order_changed, plain, cursor_count_mismatch, not_in_schema, Result, ok, err, panic, fail,
  ◌>>=◌,
}
use protoc_gen_go_jet.Aip.Order.{OrderField, OrderBy, is_desc, new_field_error}
use protoc_gen_go_jet.Aip.Runtime.{Go, PageToken, TokenOrder, Value}
use protoc_gen_go_jet.Jet.Sql.{Jet}
use protoc_gen_go_jet.Jet.Schema.{Fields, Schema}

-- The loop that compares the ordering of the token with that of the request.
unfoldable pub same_order : List TokenOrder → List OrderField → Bool
unfolding text_eq
same_order [] fields = true
same_order (t ∷ ts) [] = false
same_order (t ∷ ts) (f ∷ fs) =
    let rest = same_order ts fs in
    if not (text_eq t.field f.path) || not (bool_eq t.desc (is_desc f.direction))
    then false
    else rest

module _ {g : Go} {Model : Type 0} {j : Jet g Model} where
  unfoldable pub decode_value : Fields g Model j → Text → Text → Result (Value g)
  unfolding lookup
  decode_value fields name v = elim (lookup name fields) [
    | none ↦ fail [] (not_in_schema name)
    | some f ↦ (elim f.codec [ none ↦ panic | some c ↦ c.decode v ])
  ]

  unfoldable pub decode_values :
      Fields g Model j → List Text → List TokenOrder → Result (List (Value g))
  unfolding decode_value
  decode_values fields [] order = ok []
  decode_values fields (v ∷ vs) [] = panic
  decode_values fields (v ∷ vs) (t ∷ order) = do
    value ← decode_value fields t.field v
    rest ← decode_values fields vs order
    ok (value ∷ rest)

  -- A token that is there: the three checks, then the decoding.
  unfoldable pub decode_present : Schema g Model j → PageToken → OrderBy → Result (List (Value g))
  unfolding same_order decode_values
  decode_present s token order_by =
      if is_empty token.order_fields
      then ok []
      else if not (length token.cursor_values == length token.order_fields)
      then fail [] cursor_count_mismatch
      else if not (length order_by.fields == length token.order_fields)
      then fail (token_order_changed ∷ []) plain
      else if not (same_order token.order_fields order_by.fields)
      then fail (token_order_changed ∷ []) plain
      else decode_values s.fields token.cursor_values token.order_fields

  unfoldable pub decode_cursor_values :
      Schema g Model j → Option PageToken → OrderBy → Result (List (Value g))
  unfolding decode_present
  decode_cursor_values s none order_by = ok []
  decode_cursor_values s (some token) order_by = decode_present s token order_by

  unfoldable pub extract_value : Fields g Model j → Model → Text → Result (Value g)
  unfolding lookup
  extract_value fields row path = elim (lookup path fields) [
    | none ↦ err (new_field_error (codes "extract cursor") path)
    | some f ↦ (elim f.get_value [ none ↦ panic | some get ↦ ok (get row) ])
  ]

  unfoldable pub extract_cursor_values :
      Fields g Model j → Model → List OrderField → Result (List (Value g))
  unfolding extract_value
  extract_cursor_values fields row [] = ok []
  extract_cursor_values fields row (f ∷ fs) = do
    v ← extract_value fields row f.path
    rest ← extract_cursor_values fields row fs
    ok (v ∷ rest)
