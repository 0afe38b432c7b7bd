-- ===== src/Aip/Runtime.antt =====
-- The page token of pkg/aip/page.go, the cursor values, and what the package takes from Go's
-- standard library: floats, times, the tables of `unicode`, JSON, base64 and SHA-256.
use protoc_gen_go_jet.Common.{ℤ, Text, Bool, true, false, List, [], Option, some, ◌≡◌, ◌≢◌}
use protoc_gen_go_jet.Aip.Order.{Unicode}

pub record TokenOrder : Type 0 where
  pub field : Text
  pub desc : Bool

-- `create_time` is in nanoseconds since 1970.
pub record PageToken : Type 0 where
  pub create_time : ℤ
  pub resource_type : Text
  pub filter_hash : Text
  pub cursor_values : List Text
  pub order_fields : List TokenOrder

pub record Go : Type 1 where
  pub Float32 : Type 0
  pub Float64 : Type 0
  pub Time : Type 0
  pub Bytes : Type 0
  pub widen : Float32 → Float64
  pub is_nan : Float64 → Bool
  pub format_float : Float64 → Text
  pub parse_float : Text → Option Float64
  pub utc : Time → Time
  pub has_short_year : Time → Bool
  pub format_time : Time → Text
  pub parse_time : Text → Option Time
  pub unicode : Unicode
  pub marshal : PageToken → Option Bytes
  pub unmarshal : Bytes → Option PageToken
  pub base64_encode : Bytes → Text
  pub base64_decode : Text → Option Bytes
  pub sha256 : Text → Bytes

-- strconv: the shortest form of a float that is no NaN is read back as that float. time: a time in
-- UTC whose year has four digits is read back from RFC 3339. JSON and base64 undo themselves, and
-- the text of a token is not empty.
pub record GoLaws (g : Go) : Type 0 where
  pub parse-format_float :
      (x : g.Float64) → g.is_nan x ≡ false → g.parse_float (g.format_float x) ≡ some x
  pub parse-format_time :
      (t : g.Time)
      → g.has_short_year t ≡ true
      → g.parse_time (g.format_time (g.utc t)) ≡ some (g.utc t)
  pub marshals : (t : PageToken) → (b : g.Bytes) × (g.marshal t ≡ some b)
  pub unmarshal-marshal :
      (t : PageToken) (b : g.Bytes) → g.marshal t ≡ some b → g.unmarshal b ≡ some t
  pub decode-encode : (b : g.Bytes) → g.base64_decode (g.base64_encode b) ≡ some b
  pub encode-ne-nil : (t : PageToken) (b : g.Bytes) → g.marshal t ≡ some b → g.base64_encode b ≢ []

-- A cursor value: the dynamic type of an `any` and its content. `other` is any type that no codec
-- knows.
pub data Value (g : Go) : Type 0 where
  string : Text → Value g
  bool : Bool → Value g
  int32 int64 : ℤ → Value g
  float32 : g.Float32 → Value g
  float64 : g.Float64 → Value g
  time : g.Time → Value g
  other : Value g
