-- ===== src/Aip/Codec.antt =====
-- pkg/aip/codec.go: the cursor codecs.
pub mod RoundTrip
use protoc_gen_go_jet.Common.{
  ℤ, Text, Bool, true, false, ◌||◌, [], ◌∷◌, Option, none, some, ◌≡◌, refl, codes, text_eq,
  if◌then◌else◌,
}
use protoc_gen_go_jet.Aip.Errors.{
  Cause, unexpected_type, nan_cursor, malformed_value, Result, ok, fail, ◌>>=◌,
}
use protoc_gen_go_jet.Aip.Decimal.{format_int, parse_int}
use protoc_gen_go_jet.Aip.Runtime.{
  Go, Value, string, bool, int32, int64, float32, float64, time, other,
}

module _ (g : Go) where
  -- The interface `CursorCodec`.
  pub record CursorCodec : Type 0 where
    pub encode : Value g → Result Text
    pub decode : Text → Result (Value g)

or_malformed {ℓ} : {A : Type ℓ} → Text → Option A → Result A
or_malformed s none = fail [] (malformed_value s)
or_malformed s (some a) = ok a

-- strconv.FormatBool
abbrev format_bool : Bool → Text
format_bool true = codes "true"
format_bool false = codes "false"

-- strconv.ParseBool
parse_bool : Text → Option Bool
unfolding text_eq
parse_bool s =
    if text_eq s (codes "1")
      || text_eq s (codes "t")
      || text_eq s (codes "T")
      || text_eq s (codes "TRUE")
      || text_eq s (codes "true")
      || text_eq s (codes "True")
    then some true
    else if text_eq s (codes "0")
        || text_eq s (codes "f")
        || text_eq s (codes "F")
        || text_eq s (codes "FALSE")
        || text_eq s (codes "false")
        || text_eq s (codes "False")
    then some false
    else none

module _ (g : Go) where
  unfoldable pub encode_string : Value g → Result Text
  encode_string (string s) = ok s
  encode_string _ = fail [] unexpected_type

  unfoldable pub decode_string : Text → Result (Value g)
  decode_string s = ok (string s)

  unfoldable pub encode_bool : Value g → Result Text
  encode_bool (bool b) = ok (format_bool b)
  encode_bool _ = fail [] unexpected_type

  unfoldable pub decode_bool : Text → Result (Value g)
  unfolding or_malformed parse_bool
  decode_bool s = do b ← or_malformed s (parse_bool s); ok (bool b)

  unfoldable pub encode_int64 : Value g → Result Text
  unfolding format_int
  encode_int64 (int64 i) = ok (format_int i)
  encode_int64 (int32 i) = ok (format_int i)
  encode_int64 _ = fail [] unexpected_type

  unfoldable pub decode_int64 : Text → Result (Value g)
  unfolding or_malformed parse_int
  decode_int64 s = do i ← or_malformed s (parse_int s); ok (int64 i)

  -- the check on NaN, common to both widths
  encode_float : g.Float64 → Result Text
  encode_float x = if g.is_nan x then fail [] nan_cursor else ok (g.format_float x)

  unfoldable pub encode_float64 : Value g → Result Text
  unfolding encode_float
  encode_float64 (float64 x) = encode_float x
  encode_float64 (float32 x) = encode_float (g.widen x)
  encode_float64 _ = fail [] unexpected_type

  unfoldable pub decode_float64 : Text → Result (Value g)
  unfolding or_malformed
  decode_float64 s = do x ← or_malformed s (g.parse_float s); ok (float64 x)

  unfoldable pub encode_timestamp : Value g → Result Text
  encode_timestamp (time t) = ok (g.format_time (g.utc t))
  encode_timestamp _ = fail [] unexpected_type

  unfoldable pub decode_timestamp : Text → Result (Value g)
  unfolding or_malformed
  decode_timestamp s = do t ← or_malformed s (g.parse_time s); ok (time t)

-- The five codecs of the package.
pub data CodecName : Type 0 where
  string_codec bool_codec int64_codec float64_codec timestamp_codec : CodecName

module _ (g : Go) where
  unfoldable pub codec : CodecName → CursorCodec g
  unfolding encode_string decode_string encode_bool decode_bool encode_int64 decode_int64
      encode_float64 decode_float64 encode_timestamp decode_timestamp
  codec string_codec = record { encode = encode_string g; decode = decode_string g }
  codec bool_codec = record { encode = encode_bool g; decode = decode_bool g }
  codec int64_codec = record { encode = encode_int64 g; decode = decode_int64 g }
  codec float64_codec = record { encode = encode_float64 g; decode = decode_float64 g }
  codec timestamp_codec = record { encode = encode_timestamp g; decode = decode_timestamp g }
