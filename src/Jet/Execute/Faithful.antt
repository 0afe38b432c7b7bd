-- ===== src/Jet/Execute/Faithful.antt =====
-- What the fields of an ordering must do for a cursor to stand for its row, and that the cursor
-- values of a row then survive the token.
use protoc_gen_go_jet.Common.{Text, false, List, [], ◌∷◌, some, map, ◌≡◌, refl, lookup}
use protoc_gen_go_jet.Aip.Errors.{ok}
use protoc_gen_go_jet.Aip.Order.{OrderField}
use protoc_gen_go_jet.Aip.Runtime.{Go, Value}
use protoc_gen_go_jet.Aip.Codec.{CursorCodec}
use protoc_gen_go_jet.Aip.Page.{encode_value, encode_values, to_token_order}
use protoc_gen_go_jet.Jet.Sql.{Jet, Postgres, timestamp_expression}
use protoc_gen_go_jet.Jet.Schema.{Field, Schema}
use protoc_gen_go_jet.Jet.Cursor.{decode_value, decode_values, extract_value, extract_cursor_values}
use protoc_gen_go_jet.Jet.Keyset.{column_of, to_literal, equality_expr, direction_expr, tuple_parts}
use protoc_gen_go_jet.Jet.Keyset.Meaning.{values}

module _ {g : Go} {Model : Type 0} {j : Jet g Model} (p : Postgres g Model j)
    (s : Schema g Model j) where
  -- A value that the decoder returned for a row stands for the row's value in the column, and the
  -- two comparison helpers take it.
  pub record StandsFor (f : OrderField) (c : j.Column) (r : Model) (v : Value g) : Type 0 where
    pub literal : to_literal j v ≡ ok (p.value c r)
    pub equality : j.Condition
    pub equality_built : equality_expr j c v ≡ ok equality
    pub comparison : j.Condition
    pub comparison_built : direction_expr j c f.direction v ≡ ok comparison

  -- The field of the path has a column, a codec and a getter, and what the getter reads from a row
  -- is written and read back by the codec.
  pub record FaithfulField (f : OrderField) (c : j.Column) : Type 0 where
    pub field : Field g Model j
    pub codec : CursorCodec g
    pub get : Model → Value g
    pub found : lookup f.path s.fields ≡ some field
    pub has_column : field.column ≡ some c
    pub has_codec : field.codec ≡ some codec
    pub has_get : field.get_value ≡ some get
    pub cached : lookup f.path s.cached_codecs ≡ some codec
    pub zoned : j.implements c timestamp_expression ≡ false
    pub text : Model → Text
    pub decoded : Model → Value g
    pub encodes : (r : Model) → codec.encode (get r) ≡ ok (text r)
    pub decodes : (r : Model) → codec.decode (text r) ≡ ok (decoded r)
    pub stands_for : (r : Model) → StandsFor f c r (decoded r)

  -- The columns of an ordering all of whose fields are faithful.
  abbrev pub IsFaithful : List OrderField → List j.Column → Type 0
  IsFaithful [] [] = Unit
  IsFaithful (f ∷ order) (c ∷ cs) = FaithfulField f c × IsFaithful order cs
  IsFaithful _ _ = ⊥

  -- What the getters read, what the codecs write, and what they read back.
  abbrev pub raw_values :
      (order : List OrderField) (cs : List j.Column) → IsFaithful order cs → Model → List (Value g)
  raw_values [] [] h r = []
  raw_values (f ∷ order) (c ∷ cs) h r = h.0.get r ∷ raw_values order cs h.1 r
  raw_values [] (c ∷ cs) h r = []
  raw_values (f ∷ order) [] h r = []

  abbrev pub texts :
      (order : List OrderField) (cs : List j.Column) → IsFaithful order cs → Model → List Text
  texts [] [] h r = []
  texts (f ∷ order) (c ∷ cs) h r = h.0.text r ∷ texts order cs h.1 r
  texts [] (c ∷ cs) h r = []
  texts (f ∷ order) [] h r = []

  abbrev pub decoded_values :
      (order : List OrderField) (cs : List j.Column) → IsFaithful order cs → Model → List (Value g)
  decoded_values [] [] h r = []
  decoded_values (f ∷ order) (c ∷ cs) h r = h.0.decoded r ∷ decoded_values order cs h.1 r
  decoded_values [] (c ∷ cs) h r = []
  decoded_values (f ∷ order) [] h r = []

  module _ {f : OrderField} {c : j.Column} (k : FaithfulField f c) where
    pub column_found : column_of j s.fields f.path ≡ ok c
    unfolding column_of
    column_found = rw (k.found, k.has_column, column_of)

    extract_found : (r : Model) → extract_value s.fields r f.path ≡ ok (k.get r)
    unfolding extract_value
    extract_found r = rw (k.found, k.has_get, extract_value)

    encode_found : (r : Model) → encode_value g s.cached_codecs (k.get r) f.path ≡ ok (k.text r)
    unfolding encode_value
    encode_found r = rw (k.cached, encode_value) (k.encodes r)

    decode_found : (r : Model) → decode_value s.fields f.path (k.text r) ≡ ok (k.decoded r)
    unfolding decode_value
    decode_found r = rw (k.found, k.has_codec, decode_value) (k.decodes r)

  pub extracted :
      (order : List OrderField) (cs : List j.Column) (h : IsFaithful order cs) (r : Model)
      → extract_cursor_values s.fields r order ≡ ok (raw_values order cs h r)
  unfolding extract_cursor_values
  extracted [] [] h r = refl
  extracted (f ∷ order) (c ∷ cs) (k, h) r = rw (extract_found k r, extracted order cs h r)
  extracted [] (c ∷ cs) h r = elim h [ ]
  extracted (f ∷ order) [] h r = elim h [ ]

  pub encoded :
      (order : List OrderField) (cs : List j.Column) (h : IsFaithful order cs) (r : Model)
      → encode_values g s.cached_codecs (raw_values order cs h r) order ≡ ok (texts order cs h r)
  unfolding encode_values
  encoded [] [] h r = refl
  encoded (f ∷ order) (c ∷ cs) (k, h) r = rw (encode_found k r, encoded order cs h r)
  encoded [] (c ∷ cs) h r = elim h [ ]
  encoded (f ∷ order) [] h r = elim h [ ]

  pub decoded_back :
      (order : List OrderField) (cs : List j.Column) (h : IsFaithful order cs) (r : Model)
      → decode_values s.fields (texts order cs h r) (map to_token_order order)
        ≡ ok (decoded_values order cs h r)
  unfolding decode_values
  decoded_back [] [] h r = refl
  decoded_back (f ∷ order) (c ∷ cs) (k, h) r = rw (decode_found k r, decoded_back order cs h r)
  decoded_back [] (c ∷ cs) h r = elim h [ ]
  decoded_back (f ∷ order) [] h r = elim h [ ]

  pub parts :
      (order : List OrderField) (cs : List j.Column) (h : IsFaithful order cs) (r : Model)
      → tuple_parts j s.fields order (decoded_values order cs h r) ≡ ok (cs, values p cs r)
  unfolding tuple_parts
  parts [] [] h r = refl
  parts (f ∷ order) (c ∷ cs) (k, h) r =
      rw (column_found k, (k.stands_for r).literal, parts order cs h r)
  parts [] (c ∷ cs) h r = elim h [ ]
  parts (f ∷ order) [] h r = elim h [ ]
