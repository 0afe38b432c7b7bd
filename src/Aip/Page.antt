-- ===== src/Aip/Page.antt =====
-- pkg/aip/page.go: page tokens. The clock is an argument, in nanoseconds since 1970.
pub mod RoundTrip
pub mod Issued
use protoc_gen_go_jet.Common.{
  ℤ, pos, ◌*◌, ◌^◌, ◌-ℤ◌, ltb_ℤ, saturate_int64, Text, Bool, true, false, not, List, [], ◌∷◌,
  Option, none, some, ◌==◌, length, map, is_empty, text_eq, lookup, if◌then◌else◌,
}
use protoc_gen_go_jet.Aip.Errors.{
  Error, Cause, filter_mismatch, token_expired, token_wrong_resource, plain, cursor_count_mismatch,
  no_codec, malformed_base64, malformed_encoding, Result, ok, err, fail, ◌>>=◌, ◌>>◌,
}
use protoc_gen_go_jet.Aip.Order.{OrderField, OrderBy, is_desc}
use protoc_gen_go_jet.Aip.Runtime.{Go, PageToken, TokenOrder, Value}
use protoc_gen_go_jet.Aip.Codec.{CursorCodec}

-- 24 * time.Hour
abbrev pub token_max_age : ℤ
token_max_age = pos (24 * 3600 * 10 ^ 9)

abbrev pub to_token_order : OrderField → TokenOrder
to_token_order f = record { field = f.path; desc = is_desc f.direction }

module _ (g : Go) where
  unfoldable pub hash_filter : Text → Text
  hash_filter filter = if is_empty filter then [] else g.base64_encode (g.sha256 filter)

  -- One round: the codec of the field's path, and its encoding of the value.
  unfoldable pub encode_value : List (Text × CursorCodec g) → Value g → Text → Result Text
  unfolding lookup
  encode_value codecs v path = elim (lookup path codecs) [
    | none ↦ fail [] (no_codec path)
    | some c ↦ c.encode v
  ]

  -- The loop over the values; the two lists were found to be of one length.
  unfoldable pub encode_values :
      List (Text × CursorCodec g) → List (Value g) → List OrderField → Result (List Text)
  unfolding encode_value
  encode_values codecs [] fields = ok []
  encode_values codecs (v ∷ values) [] = fail [] cursor_count_mismatch
  encode_values codecs (v ∷ values) (f ∷ fields) = do
    s ← encode_value codecs v f.path
    rest ← encode_values codecs values fields
    ok (s ∷ rest)

  unfoldable pub make_token : ℤ → Text → List Text → List OrderField → Text → PageToken
  unfolding hash_filter
  make_token now resource_type encoded fields filter = record {
    create_time = now;
    resource_type = resource_type;
    filter_hash = hash_filter filter;
    cursor_values = encoded;
    order_fields = map to_token_order fields;
  }

  abbrev pub marshalled : Option g.Bytes → Result Text
  marshalled none = fail [] malformed_encoding
  marshalled (some b) = ok (g.base64_encode b)

  unfoldable pub encode_token :
      ℤ → Text → List (Value g) → OrderBy → Text → List (Text × CursorCodec g) → Result Text
  unfolding encode_values make_token
  encode_token now resource_type values order_by filter codecs =
      if not (length values == length order_by.fields) then fail [] cursor_count_mismatch else (do
        encoded ← encode_values codecs values order_by.fields
        marshalled (g.marshal (make_token now resource_type encoded order_by.fields filter)))

  abbrev unmarshalled : Option PageToken → Result (Option PageToken)
  unmarshalled none = fail [] malformed_encoding
  unmarshalled (some t) = ok (some t)

  -- The empty text is the request for the first page.
  unfoldable pub decode_token : Text → Result (Option PageToken)
  decode_token token_str =
      if is_empty token_str then ok none else elim (g.base64_decode token_str) [
        | none ↦ fail [] malformed_base64
        | some b ↦ unmarshalled (g.unmarshal b)
      ]

  -- The checks on a token that is there.
  unfoldable pub validate_present : ℤ → PageToken → Text → Text → Result (Unit {0})
  unfolding hash_filter text_eq
  validate_present now token resource_type filter =
      if ltb_ℤ token_max_age (saturate_int64 (now -ℤ token.create_time))
      then fail (token_expired ∷ []) plain
      else if not (text_eq token.resource_type resource_type)
      then fail (token_wrong_resource ∷ []) plain
      else if not (text_eq token.filter_hash (hash_filter filter))
      then fail (filter_mismatch ∷ []) plain
      else ok tt

  unfoldable pub validate_token : ℤ → Option PageToken → Text → Text → Result (Unit {0})
  unfolding validate_present
  validate_token now none resource_type filter = ok tt
  validate_token now (some token) resource_type filter =
      validate_present now token resource_type filter
