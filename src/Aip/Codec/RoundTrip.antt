-- ===== src/Aip/Codec/RoundTrip.antt =====
-- What a codec writes it reads back, at the type that the keyset comparison works on.
use protoc_gen_go_jet.Common.{
  ℤ, Text, Bool, true, false, ◌≡◌, arith, IsInt32, IsInt64, Bool-cases, inl, inr,
}
use protoc_gen_go_jet.Aip.Errors.{ok, err}
use protoc_gen_go_jet.Aip.Decimal.{format_int, parse_int-format_int}
use protoc_gen_go_jet.Aip.Runtime.{
  Go, GoLaws, Value, string, bool, int32, int64, float32, float64, time, other,
}
use protoc_gen_go_jet.Aip.Codec.{
  codec, CodecName, string_codec, bool_codec, int64_codec, float64_codec, timestamp_codec,
  or_malformed, encode_string, decode_string, encode_bool, decode_bool, encode_int64, decode_int64,
  encode_float, encode_float64, decode_float64, encode_timestamp, decode_timestamp,
}

module _ (g : Go) where
  -- The value at the type that `Decode` returns: 64-bit numbers, times in UTC.
  abbrev pub canonical : Value g → Value g
  canonical (int32 i) = int64 i
  canonical (float32 x) = float64 (g.widen x)
  canonical (time t) = time (g.utc t)
  canonical (string s) = string s
  canonical (bool b) = bool b
  canonical (int64 i) = int64 i
  canonical (float64 x) = float64 x
  canonical other = other

  -- An integer fits its type, and RFC 3339 can write the year of a time.
  abbrev pub IsInRange : Value g → Type 0
  IsInRange (int32 i) = IsInt32 i
  IsInRange (int64 i) = IsInt64 i
  IsInRange (time t) = g.has_short_year t ≡ true
  IsInRange _ = Unit

  decode-format_int : (i : ℤ) → IsInt64 i → decode_int64 g (format_int i) ≡ ok (int64 i)
  unfolding decode_int64 or_malformed
  decode-format_int i h = rw (parse_int-format_int i h)

  decode-encode_float :
      (l : GoLaws g) (x : g.Float64) {s : Text}
      → encode_float g x ≡ ok s
      → decode_float64 g s ≡ ok (float64 x)
  unfolding encode_float decode_float64 or_malformed
  decode-encode_float l x {s} h = elim (Bool-cases (g.is_nan x)) [
    | inl nan ↦ absurd (let e : err _ ≡ ok s = rw nan at h in cc)
    | inr fine ↦ ground (arith, l.parse-format_float x)
  ]

  decode-format_time :
      (l : GoLaws g) (t : g.Time)
      → g.has_short_year t ≡ true
      → decode_timestamp g (g.format_time (g.utc t)) ≡ ok (time (g.utc t))
  unfolding decode_timestamp or_malformed
  decode-format_time l t h = rw (l.parse-format_time t h)

  decode-encode_bool :
      (b : Bool) {s : Text} → encode_bool g (bool b) ≡ ok s → decode_bool g s ≡ ok (bool b)
  unfolding encode_bool decode_bool
  decode-encode_bool true h = ground arith
  decode-encode_bool false h = ground arith

  string-decode-encode :
      (v : Value g) {s : Text} → encode_string g v ≡ ok s → decode_string g s ≡ ok (canonical v)
  unfolding encode_string decode_string
  string-decode-encode (string t) h = ground arith
  string-decode-encode _ h = cc

  bool-decode-encode :
      (v : Value g) {s : Text} → encode_bool g v ≡ ok s → decode_bool g s ≡ ok (canonical v)
  unfolding encode_bool
  bool-decode-encode (bool b) h = decode-encode_bool b h
  bool-decode-encode _ h = cc

  int64-decode-encode :
      (v : Value g) {s : Text}
      → IsInRange v
      → encode_int64 g v ≡ ok s
      → decode_int64 g s ≡ ok (canonical v)
  unfolding encode_int64
  int64-decode-encode (int32 i) r h = ground (arith, decode-format_int i (omega arith))
  int64-decode-encode (int64 i) r h = ground (arith, decode-format_int i r)
  int64-decode-encode _ r h = cc

  float64-decode-encode :
      (v : Value g) {s : Text}
      → GoLaws g
      → encode_float64 g v ≡ ok s
      → decode_float64 g s ≡ ok (canonical v)
  unfolding encode_float64
  float64-decode-encode (float32 x) l h = decode-encode_float l (g.widen x) h
  float64-decode-encode (float64 x) l h = decode-encode_float l x h
  float64-decode-encode _ l h = cc

  timestamp-decode-encode :
      (v : Value g) {s : Text}
      → GoLaws g
      → IsInRange v
      → encode_timestamp g v ≡ ok s
      → decode_timestamp g s ≡ ok (canonical v)
  unfolding encode_timestamp
  timestamp-decode-encode (time t) l r h = ground (arith, decode-format_time l t r)
  timestamp-decode-encode _ l r h = cc

  -- Whichever of the five codecs it is: the text that it writes for a value in range it reads back
  -- as that value at its canonical type.
  pub decode-encode :
      (name : CodecName) (v : Value g) {s : Text}
      → GoLaws g
      → IsInRange v
      → (codec g name).encode v ≡ ok s
      → (codec g name).decode s ≡ ok (canonical v)
  unfolding codec
  decode-encode string_codec v l r h = string-decode-encode v h
  decode-encode bool_codec v l r h = bool-decode-encode v h
  decode-encode int64_codec v l r h = int64-decode-encode v r h
  decode-encode float64_codec v l r h = float64-decode-encode v l h
  decode-encode timestamp_codec v l r h = timestamp-decode-encode v l r h
