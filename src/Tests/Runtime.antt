-- ===== src/Tests/Runtime.antt =====
-- A concrete `Go`: bytes are lists of chunks, base64 puts a zero behind each chunk, and the clock
-- and the floats are numbers.
use protoc_gen_go_jet.Common.{
  ℕ, zero, suc, ◌≡◌, ◌≢◌, refl, ap, ◌∙◌, ℤ, pos, negsuc, Text, true, false, List, [], ◌∷◌, ◌++◌,
  Option, none, some, map, subst, leb, ◌&&◌, if◌then◌else◌, Bool-cases, inl, inr,
}
use protoc_gen_go_jet.Aip.Order.{Unicode}
use protoc_gen_go_jet.Aip.Runtime.{TokenOrder, PageToken, Go, GoLaws}

abbrev put_int : ℤ → Text
put_int (pos n) = 0 ∷ n ∷ []
put_int (negsuc n) = 1 ∷ n ∷ []

abbrev get_int : Text → ℤ
get_int (zero ∷ n ∷ []) = pos n
get_int (suc zero ∷ n ∷ []) = negsuc n
get_int _ = pos 0

abbrev put_orders : List TokenOrder → List Text
put_orders [] = []
put_orders (o ∷ os) = (if o.desc then 2 ∷ o.field else 1 ∷ o.field) ∷ put_orders os

abbrev put_parts : List Text → List TokenOrder → List Text
put_parts [] os = put_orders os
put_parts (v ∷ vs) os = (0 ∷ v) ∷ put_parts vs os

abbrev get_parts : List Text → List Text × List TokenOrder
get_parts ((zero ∷ v) ∷ r) = let (vs, os) = get_parts r in (v ∷ vs, os)
get_parts ((suc zero ∷ p) ∷ r) =
    let (vs, os) = get_parts r in (vs, record { field = p; desc = false } ∷ os)
get_parts ((suc (suc zero) ∷ p) ∷ r) =
    let (vs, os) = get_parts r in (vs, record { field = p; desc = true } ∷ os)
get_parts _ = ([], [])

abbrev put_token : PageToken → List Text
put_token t =
    put_int t.create_time
    ∷ t.resource_type
    ∷ t.filter_hash
    ∷ put_parts t.cursor_values t.order_fields

abbrev get_token : List Text → Option PageToken
get_token (now ∷ resource ∷ hash ∷ r) =
    let (vs, os) = get_parts r in
    some (record {
      create_time = get_int now;
      resource_type = resource;
      filter_hash = hash;
      cursor_values = vs;
      order_fields = os;
    })
get_token _ = none

get_int-put_int : (i : ℤ) → get_int (put_int i) ≡ i
get_int-put_int (pos n) = refl
get_int-put_int (negsuc n) = refl

ordered :
    (o : TokenOrder) (os : List TokenOrder)
    → get_parts (put_orders os) ≡ ([], os)
    → get_parts (put_orders (o ∷ os)) ≡ ([], o ∷ os)
ordered o os h = elim (Bool-cases o.desc) [ inl e ↦ rw (e, h) | inr e ↦ rw (e, h) ]

get_parts-put_orders : (os : List TokenOrder) → get_parts (put_orders os) ≡ ([], os)
get_parts-put_orders [] = refl
get_parts-put_orders (o ∷ os) = ordered o os (get_parts-put_orders os)

get_parts-put_parts :
    (vs : List Text) (os : List TokenOrder) → get_parts (put_parts vs os) ≡ (vs, os)
get_parts-put_parts [] os = get_parts-put_orders os
get_parts-put_parts (v ∷ vs) os = rw (get_parts-put_parts vs os)

get_token-put_token : (t : PageToken) → get_token (put_token t) ≡ some t
get_token-put_token t =
    rw (get_parts-put_parts t.cursor_values t.order_fields, get_int-put_int t.create_time)

abbrev put_chunks : List Text → Text
put_chunks [] = []
put_chunks (t ∷ ts) = map suc t ++ 0 ∷ put_chunks ts

abbrev prepend : ℕ → List Text → List Text
prepend c [] = (c ∷ []) ∷ []
prepend c (t ∷ ts) = (c ∷ t) ∷ ts

abbrev get_chunks : Text → List Text
get_chunks [] = []
get_chunks (zero ∷ r) = [] ∷ get_chunks r
get_chunks (suc c ∷ r) = prepend c (get_chunks r)

get_chunk : (t r : Text) → get_chunks (map suc t ++ 0 ∷ r) ≡ t ∷ get_chunks r
get_chunk [] r = refl
get_chunk (c ∷ t) r = rw (get_chunk t r)

get_chunks-put_chunks : (ts : List Text) → get_chunks (put_chunks ts) ≡ ts
get_chunks-put_chunks [] = refl
get_chunks-put_chunks (t ∷ ts) =
    get_chunk t (put_chunks ts) ∙ ap (λ us. t ∷ us) (get_chunks-put_chunks ts)

behind_chunk : (t r : Text) → t ++ 0 ∷ r ≢ []
behind_chunk [] r h = cc
behind_chunk (c ∷ t) r h = cc

abbrev pub ascii : Unicode
ascii = record {
  is_letter = λ c. leb 97 c && leb c 122;
  is_number = λ c. leb 48 c && leb c 57;
  to_lower = λ c. c;
}

abbrev only : Text → Option ℕ
only (x ∷ []) = some x
only _ = none

abbrev pub go : Go
go = record {
  Float32 = ℕ;
  Float64 = ℕ;
  Time = ℕ;
  Bytes = List Text;
  widen = λ x. x;
  is_nan = λ x. false;
  format_float = λ x. x ∷ [];
  parse_float = only;
  utc = λ t. t;
  has_short_year = λ t. true;
  format_time = λ t. t ∷ [];
  parse_time = only;
  unicode = ascii;
  marshal = λ t. some (put_token t);
  unmarshal = get_token;
  base64_encode = put_chunks;
  base64_decode = λ t. some (get_chunks t);
  sha256 = λ t. t ∷ [];
}

some-injective {ℓ} : {A : Type ℓ} {x y : A} → some x ≡ some y → x ≡ y
some-injective h = cc

pub go_laws : GoLaws go
go_laws = record {
  parse-format_float = λ x h. refl;
  parse-format_time = λ t h. refl;
  marshals = λ t. (put_token t, refl);
  unmarshal-marshal =
      λ t b h. subst (λ b. get_token b ≡ some t) (some-injective h) (get_token-put_token t);
  decode-encode = λ b. ap some (get_chunks-put_chunks b);
  encode-ne-nil = λ t b h.
      subst (λ b. put_chunks b ≢ []) (some-injective h)
        (behind_chunk (map suc (put_int t.create_time)) _);
}
