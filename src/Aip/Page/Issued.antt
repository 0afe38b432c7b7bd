-- ===== src/Aip/Page/Issued.antt =====
-- pkg/aip/page.go: what a token that EncodeToken issued says to who receives it.
use protoc_gen_go_jet.Common.{
  ℤ, ◌-ℤ◌, ◌≤ℤ◌, Text, true, List, [], ◌∷◌, Option, none, some, map, lookup, text_eq, Bool-cases,
  ◌≡◌, ◌↔◌, refl, sym, subst, inl, inr, All,
}
use protoc_gen_go_jet.Aip.Errors.{ok, fail, no_codec, >>=-eq-ok, ok-injective}
use protoc_gen_go_jet.Aip.Order.{OrderField, OrderBy, SortDirection, asc, desc, is_desc}
use protoc_gen_go_jet.Aip.Runtime.{Go, GoLaws, PageToken, TokenOrder, Value}
use protoc_gen_go_jet.Aip.Codec.{CursorCodec, CodecName, codec}
use protoc_gen_go_jet.Aip.Codec.RoundTrip.{canonical, IsInRange, decode-encode}
use protoc_gen_go_jet.Aip.Page.{
  token_max_age, hash_filter, encode_value, encode_values, make_token, to_token_order, encode_token,
  decode_token, validate_token,
}
use protoc_gen_go_jet.Aip.Page.RoundTrip.{decode_made, validate_token_iff}

-- The token's fields are those of the ordering, each with its direction.
abbrev pub AreOrder : List TokenOrder → List OrderField → Type 0
AreOrder [] [] = Unit
AreOrder (t ∷ ts) (f ∷ fields) =
    ((t.field ≡ f.path) × ((t.desc ≡ true) ↔ (f.direction ≡ desc))) × AreOrder ts fields
AreOrder [] (f ∷ fields) = ⊥
AreOrder (t ∷ ts) [] = ⊥

map-AreOrder : (fields : List OrderField) → AreOrder (map to_token_order fields) fields
map-AreOrder [] = tt
map-AreOrder (f ∷ fields) = ((refl, by_direction f.direction), map-AreOrder fields)
  where
    by_direction : (d : SortDirection) → (is_desc d ≡ true) ↔ (d ≡ desc)
    by_direction asc = (λ e. absurd (cc e), λ e. absurd (cc e))
    by_direction desc = (λ e. refl, λ e. refl)

module _ (g : Go) where
  -- Each codec is one of the five.
  abbrev pub AreCodecs : List (Text × CursorCodec g) → Type 0
  AreCodecs codecs = All (λ c. (name : CodecName) × (c.1 ≡ codec g name)) codecs

  -- Each text of a token is decoded, by the codec of its field, to the value at its canonical type.
  abbrev pub AreRead :
      List (Text × CursorCodec g) → List Text → List OrderField → List (Value g) → Type 0
  AreRead codecs [] fields [] = Unit
  AreRead codecs (s ∷ ss) (f ∷ fields) (v ∷ vs) =
      ((c : CursorCodec g) × (lookup f.path codecs ≡ some c) × (c.decode s ≡ ok (canonical g v)))
      × AreRead codecs ss fields vs
  AreRead codecs _ _ _ = ⊥

  lookup-AreCodecs :
      (path : Text) (codecs : List (Text × CursorCodec g)) {c : CursorCodec g}
      → AreCodecs codecs
      → lookup path codecs ≡ some c
      → (name : CodecName) × (c ≡ codec g name)
  unfolding lookup
  lookup-AreCodecs path [] h e = absurd (cc e)
  lookup-AreCodecs path ((k, d) ∷ codecs) {c} ((name, is), h) e =
      elim (Bool-cases (text_eq k path)) [
        | inl t ↦ (name, (let same : some d ≡ some c = rw t at e in cc (same, is)))
        | inr t ↦ lookup-AreCodecs path codecs h (rw t at e)
      ]

  encode_value-reads :
      (l : GoLaws g) (codecs : List (Text × CursorCodec g)) (v : Value g) (path : Text) {s : Text}
      → AreCodecs codecs
      → IsInRange g v
      → encode_value g codecs v path ≡ ok s
      → (c : CursorCodec g) × (lookup path codecs ≡ some c) × (c.decode s ≡ ok (canonical g v))
  unfolding encode_value
  encode_value-reads l codecs v path {s} h r e = go (lookup path codecs) refl
    where
      go :
          (found : Option (CursorCodec g))
          → lookup path codecs ≡ found
          → (c : CursorCodec g) × (lookup path codecs ≡ some c) × (c.decode s ≡ ok (canonical g v))
      go none n =
          absurd (let refused : fail [] (no_codec path) ≡ ok s = rw (encode_value, n) at e in cc)
      go (some c) n =
          let (name, is) = lookup-AreCodecs path codecs h n in
          let written : c.encode v ≡ ok s = rw (encode_value, n) at e in
          let as_named : (codec g name).encode v ≡ ok s =
            subst (λ d. d.encode v ≡ ok s) is written in
          (
            c,
            n,
            subst (λ d. d.decode s ≡ ok (canonical g v)) (sym is)
                (decode-encode g name v l r as_named),
          )

  encode_values-AreRead :
      (l : GoLaws g) (codecs : List (Text × CursorCodec g)) (values : List (Value g))
      (fields : List OrderField) {encoded : List Text}
      → AreCodecs codecs
      → All (IsInRange g) values
      → encode_values g codecs values fields ≡ ok encoded
      → AreRead codecs encoded fields values
  unfolding encode_values
  encode_values-AreRead l codecs [] fields h r e =
      subst (λ ss. AreRead codecs ss fields []) (ok-injective e) tt
  encode_values-AreRead l codecs (v ∷ values) [] h r e = absurd (cc e)
  encode_values-AreRead l codecs (v ∷ values) (f ∷ fields) h (r, rs) e =
      let (s, first, more) = >>=-eq-ok (encode_value g codecs v f.path) _ e in
      let (ss, others, made) = >>=-eq-ok (encode_values g codecs values fields) _ more in
      subst (λ ts. AreRead codecs ts (f ∷ fields) (v ∷ values)) (ok-injective made)
        (
          encode_value-reads l codecs v f.path h r first,
          encode_values-AreRead l codecs values fields h rs others,
        )

  -- A token that was issued is decoded to one that names the fields of the ordering with their
  -- directions, whose texts the codecs of these fields decode to the values at their canonical types,
  -- and that is accepted exactly at the requests of the same resource type, not more than a day
  -- later, whose filter has the same hash. The codecs are the five of the package, and the values are
  -- in the range of their types.
  pub decode_token-encode_token :
      (l : GoLaws g) (now : ℤ) (resource_type : Text) (values : List (Value g)) (order_by : OrderBy)
      (filter : Text) (codecs : List (Text × CursorCodec g)) (later : ℤ)
      (resource_type' filter' : Text) {text : Text}
      → AreCodecs codecs
      → All (IsInRange g) values
      → encode_token g now resource_type values order_by filter codecs ≡ ok text
      → (t : PageToken) × (decode_token g text ≡ ok (some t))
        × AreOrder t.order_fields order_by.fields
        × AreRead codecs t.cursor_values order_by.fields values
        × ((validate_token g later (some t) resource_type' filter' ≡ ok tt)
            ↔ (later -ℤ now ≤ℤ token_max_age)
              × (resource_type ≡ resource_type')
              × (hash_filter g filter ≡ hash_filter g filter'))
  unfolding make_token
  decode_token-encode_token l now resource_type values order_by filter codecs later resource_type'
        filter' h r e =
      let (encoded, written, back) =
        decode_made g l now resource_type values order_by filter codecs e in
      let t = make_token g now resource_type encoded order_by.fields filter in
      (
        t,
        back,
        map-AreOrder order_by.fields,
        encode_values-AreRead l codecs values order_by.fields h r written,
        validate_token_iff g later t resource_type' filter',
      )
