-- ===== src/Tests/Texts.antt =====
-- The theorems on the texts of package aip: orderings, numbers, cursor values and tokens.
use protoc_gen_go_jet.Common.{
  ℤ, true, ◌+◌, ◌*◌, ◌^◌, is_empty, pos, negsuc, ◌-ℤ◌, ◌≤ℤ◌, Text, codes, ◌||◌, [], ◌∷◌, none, some,
  ◌≡◌, ◌↔◌, refl, arith, text_eq, contains_byte, if◌then◌else◌, is_space,
}
use protoc_gen_go_jet.Aip.Errors.{ok}
use protoc_gen_go_jet.Aip.Order.{
  append_unique_fields, contains_path, valid_character, parse_order_by,
}
use protoc_gen_go_jet.Aip.Order.Distinct.{IsDistinct, append_unique_fields-IsDistinct}
use protoc_gen_go_jet.Aip.Order.Syntax.{IsWellFormed, parse_order_by-IsWellFormed}
use protoc_gen_go_jet.Aip.Order.RoundTrip.{KnowsDirections, parse_order_by-format_order}
use protoc_gen_go_jet.Aip.Runtime.{PageToken, string, int32, int64}
use protoc_gen_go_jet.Aip.Decimal.{format_int, parse_int, parse_int-format_int}
use protoc_gen_go_jet.Aip.Codec.{codec, int64_codec, string_codec, encode_int64, encode_string}
use protoc_gen_go_jet.Aip.Codec.RoundTrip.{decode-encode}
use protoc_gen_go_jet.Aip.Filter.{
  make_name_filter, parse_name_filter, parse_name_filter-make_name_filter,
}
use protoc_gen_go_jet.Aip.Page.{
  token_max_age, hash_filter, encode_token, encode_value, encode_values, decode_token, make_token,
  validate_token,
}
use protoc_gen_go_jet.Aip.Page.RoundTrip.{validate_token_iff}
use protoc_gen_go_jet.Aip.Page.Issued.{AreOrder, AreRead, AreCodecs, decode_token-encode_token}
use protoc_gen_go_jet.Tests.Runtime.{ascii, go, go_laws}
use protoc_gen_go_jet.Tests.Database.{users, by_group, by_name}

knows_directions : KnowsDirections ascii
knows_directions = record {
  lowers = (refl, (refl, (refl, (refl, (refl, tt)))));
  letters = (refl, (refl, (refl, (refl, (refl, tt)))));
}

two_fields : IsWellFormed ascii (by_group ∷ by_name ∷ [])
unfolding is_space valid_character contains_path text_eq
two_fields = (
  (
    (
      (cc, (refl, (refl, (refl, (refl, (refl, tt)))))),
      (refl, (refl, (refl, (refl, (refl, tt))))),
      ((omega arith), ((omega arith), ((omega arith), ((omega arith), ((omega arith), tt))))),
    ),
    (
      (
        (cc, (refl, (refl, (refl, (refl, tt))))),
        (refl, (refl, (refl, (refl, tt)))),
        ((omega arith), ((omega arith), ((omega arith), ((omega arith), tt)))),
      ),
      tt,
    ),
  ),
  (refl, (refl, tt)),
)

parse_order_by-format_order_example :
    parse_order_by ascii (codes "group asc, name desc")
    ≡ ok (record { fields = by_group ∷ by_name ∷ [] })
parse_order_by-format_order_example =
    parse_order_by-format_order ascii (by_group ∷ by_name ∷ []) knows_directions two_fields

parse_order_by-IsWellFormed_example : IsWellFormed ascii (by_group ∷ by_name ∷ [])
parse_order_by-IsWellFormed_example =
    parse_order_by-IsWellFormed ascii (codes "group asc, name desc")
      (parse_order_by-format_order ascii (by_group ∷ by_name ∷ []) knows_directions two_fields)

parse_int-format_int_example : parse_int (format_int (negsuc 41)) ≡ some (negsuc 41)
parse_int-format_int_example = parse_int-format_int (negsuc 41) (omega arith)

parse_name_filter-make_name_filter_example :
    (parse_name_filter (make_name_filter (codes "prod"))
      ≡ ok (
          if contains_byte (codes "prod") 34 || contains_byte (codes "prod") 92
          then []
          else codes "prod"))
    × ((make_name_filter (codes "prod") ≡ []) ↔ (
        (is_empty (codes "prod")
          || contains_byte (codes "prod") 34
          || contains_byte (codes "prod") 92)
        ≡ true))
parse_name_filter-make_name_filter_example = parse_name_filter-make_name_filter (codes "prod")

encodes_seven : (codec go int64_codec).encode (int32 (pos 7)) ≡ ok (format_int (pos 7))
unfolding codec encode_int64
encodes_seven = refl

decode-encode_example : (codec go int64_codec).decode (format_int (pos 7)) ≡ ok (int64 (pos 7))
decode-encode_example =
    decode-encode go int64_codec (int32 (pos 7)) go_laws (omega arith) encodes_seven

abbrev token : PageToken
token = make_token go (pos 5) (codes "user") (codes "b" ∷ []) (by_group ∷ []) (codes "f")

abbrev sent : Text
sent = elim (go.marshal token) [ none ↦ [] | some b ↦ go.base64_encode b ]

issued :
    encode_token go
      (pos 5)
      (codes "user")
      (string (codes "b") ∷ [])
      (record { fields = by_group ∷ [] })
      (codes "f")
      users.cached_codecs
    ≡ ok sent
unfolding encode_token encode_values encode_value make_token codec encode_string
issued = refl

abbrev a_day_later : ℤ
a_day_later = pos (5 + 24 * 3600 * 10 ^ 9)

known_codecs : AreCodecs go users.cached_codecs
known_codecs = ((string_codec, refl), ((string_codec, refl), tt))

decode_token-encode_token_example :
    (t : PageToken) × (decode_token go sent ≡ ok (some t))
    × AreOrder t.order_fields (by_group ∷ [])
    × AreRead go users.cached_codecs t.cursor_values (by_group ∷ []) (string (codes "b") ∷ [])
    × ((validate_token go a_day_later (some t) (codes "user") (codes "g") ≡ ok tt)
        ↔ (a_day_later -ℤ pos 5 ≤ℤ token_max_age)
          × (codes "user" ≡ codes "user")
          × (hash_filter go (codes "f") ≡ hash_filter go (codes "g")))
decode_token-encode_token_example =
    decode_token-encode_token go go_laws (pos 5) (codes "user") (string (codes "b") ∷ [])
      (record { fields = by_group ∷ [] }) (codes "f") users.cached_codecs a_day_later (codes "user")
      (codes "g") known_codecs (tt, tt) issued

append_unique_fields-IsDistinct_example :
    IsDistinct (append_unique_fields (by_group ∷ []) (by_name ∷ by_group ∷ []))
append_unique_fields-IsDistinct_example =
    append_unique_fields-IsDistinct (by_group ∷ []) (by_name ∷ by_group ∷ [])
      (unfold contains_path in (refl, tt))

validate_token_iff_example :
    (validate_token go (pos 9) (some token) (codes "user") (codes "f") ≡ ok tt)
    ↔ (pos 9 -ℤ token.create_time ≤ℤ token_max_age)
      × (token.resource_type ≡ codes "user")
      × (token.filter_hash ≡ hash_filter go (codes "f"))
validate_token_iff_example = validate_token_iff go (pos 9) token (codes "user") (codes "f")
