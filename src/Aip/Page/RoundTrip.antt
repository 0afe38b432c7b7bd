-- ===== src/Aip/Page/RoundTrip.antt =====
-- A token that was issued is decoded to itself, and what its validation checks.
use protoc_gen_go_jet.Common.{
  ℤ, ◌-ℤ◌, ◌≤ℤ◌, ltb_ℤ, saturate_int64, Text, Bool, true, false, not, List, [], ◌∷◌, some, ◌≡◌,
  refl, subst, ◌≢◌, ◌↔◌, pos, negsuc, ◌==◌, length, is_empty, text_eq, text_eq_iff, if◌then◌else◌,
  arith, Bool-cases, inl, inr,
}
use protoc_gen_go_jet.Aip.Errors.{
  Result, ok, err, fail, plain, token_expired, token_wrong_resource, filter_mismatch, >>=-eq-ok,
  ok-injective,
}
use protoc_gen_go_jet.Aip.Order.{OrderBy}
use protoc_gen_go_jet.Aip.Runtime.{Go, GoLaws, PageToken, Value}
use protoc_gen_go_jet.Aip.Codec.{CursorCodec}
use protoc_gen_go_jet.Aip.Page.{
  token_max_age, hash_filter, encode_values, make_token, marshalled, encode_token, decode_token,
  validate_token,
}

module _ (g : Go) (l : GoLaws g) where
  decode-base64 :
      (t : PageToken) (b : g.Bytes)
      → g.marshal t ≡ some b
      → decode_token g (g.base64_encode b) ≡ ok (some t)
  unfolding decode_token
  decode-base64 t b e = rw (
    not_empty (g.base64_encode b) (l.encode-ne-nil t b e),
    l.decode-encode b,
    l.unmarshal-marshal t b e,
  )
    where
      not_empty : (s : Text) → s ≢ [] → is_empty s ≡ false
      not_empty [] h = absurd (h refl)
      not_empty (c ∷ s) h = refl

  decode-marshalled :
      (t : PageToken) {text : Text}
      → marshalled g (g.marshal t) ≡ ok text
      → decode_token g text ≡ ok (some t)
  decode-marshalled t {text} h =
      let (b, e) = l.marshals t in
      let same : marshalled g (some b) ≡ ok text = rw e at h in
      subst (λ s. decode_token g s ≡ ok (some t)) (ground arith) (decode-base64 t b e)

  encode_token_inv :
      (now : ℤ) (resource_type : Text) (values : List (Value g)) (order_by : OrderBy)
      (filter : Text) (codecs : List (Text × CursorCodec g)) {text : Text}
      → encode_token g now resource_type values order_by filter codecs ≡ ok text
      → (encoded : List Text) × (encode_values g codecs values order_by.fields ≡ ok encoded)
        × (marshalled g (g.marshal (make_token g now resource_type encoded order_by.fields filter))
            ≡ ok text)
  unfolding encode_token
  encode_token_inv now resource_type values order_by filter codecs {text} h =
      elim (Bool-cases (length values == length order_by.fields)) [
        | inl e ↦ >>=-eq-ok (encode_values g codecs values order_by.fields) _ (rw e at h)
        | inr e ↦ absurd (let no_text : err _ ≡ ok text = rw e at h in cc)
      ]

  -- What encode_token made is what decode_token returns.
  pub decode_made :
      (now : ℤ) (resource_type : Text) (values : List (Value g)) (order_by : OrderBy)
      (filter : Text) (codecs : List (Text × CursorCodec g)) {text : Text}
      → encode_token g now resource_type values order_by filter codecs ≡ ok text
      → (encoded : List Text) × (encode_values g codecs values order_by.fields ≡ ok encoded)
        × (decode_token g text
            ≡ ok (some (make_token g now resource_type encoded order_by.fields filter)))
  decode_made now resource_type values order_by filter codecs h =
      let (encoded, e, m) = encode_token_inv now resource_type values order_by filter codecs h in
      (
        encoded,
        e,
        decode-marshalled (make_token g now resource_type encoded order_by.fields filter) m,
      )

-- The text of a token is not empty.
pub encode_token-ne-nil :
    (g : Go) (l : GoLaws g) (now : ℤ) (resource filter : Text) (vals : List (Value g))
    (ob : OrderBy) (codecs : List (Text × CursorCodec g)) {token : Text}
    → encode_token g now resource vals ob filter codecs ≡ ok token
    → token ≢ []
encode_token-ne-nil g l now resource filter vals ob codecs {token} e =
    let (encoded, _, m) = encode_token_inv g l now resource vals ob filter codecs e in
    let (b, made) = l.marshals (make_token g now resource encoded ob.fields filter) in
    let same : ok (g.base64_encode b) ≡ ok token = rw made at m in
    subst (λ s. s ≢ []) (ok-injective same) (l.encode-ne-nil _ b made)

expired_iff : (d : ℤ) → (ltb_ℤ token_max_age (saturate_int64 d) ≡ false) ↔ (d ≤ℤ token_max_age)
expired_iff (pos n) = ground arith
expired_iff (negsuc n) = ground arith

module _ (g : Go) where
  validate_present_iff :
      (now : ℤ) (t : PageToken) (resource_type filter : Text)
      → (validate_token g now (some t) resource_type filter ≡ ok tt)
        ↔ (ltb_ℤ token_max_age (saturate_int64 (now -ℤ t.create_time)) ≡ false)
          × (text_eq t.resource_type resource_type ≡ true)
          × (text_eq t.filter_hash (hash_filter g filter) ≡ true)
  unfolding validate_token
  validate_present_iff now t resource_type filter =
      gates (ltb_ℤ token_max_age (saturate_int64 (now -ℤ t.create_time)))
        (text_eq t.resource_type resource_type) (text_eq t.filter_hash (hash_filter g filter))
    where
      gates :
          (late same_type same_hash : Bool)
          → (◌≡◌ {A = Result (Unit {0})}
              (if late
                then fail (token_expired ∷ []) plain
                else if not same_type
                then fail (token_wrong_resource ∷ []) plain
                else if not same_hash
                then fail (filter_mismatch ∷ []) plain
                else ok tt)
              (ok tt))
            ↔ (late ≡ false) × (same_type ≡ true) × (same_hash ≡ true)
      gates true b c = ground arith
      gates false true true = ground arith
      gates false true false = ground arith
      gates false false c = ground arith

  -- A token is accepted exactly if it is at most a day old, of the same resource type, and made
  -- for a filter of the same hash.
  pub validate_token_iff :
      (now : ℤ) (t : PageToken) (resource_type filter : Text)
      → (validate_token g now (some t) resource_type filter ≡ ok tt)
        ↔ (now -ℤ t.create_time ≤ℤ token_max_age)
          × (t.resource_type ≡ resource_type)
          × (t.filter_hash ≡ hash_filter g filter)
  validate_token_iff now t resource_type filter =
      let gate = validate_present_iff now t resource_type filter in
      let expired = expired_iff (now -ℤ t.create_time) in
      let type_iff = text_eq_iff t.resource_type resource_type in
      let hash_iff = text_eq_iff t.filter_hash (hash_filter g filter) in
      (
        λ h.
            let (on_time, same_type, same_hash) = gate.0 h in
            (expired.0 on_time, type_iff.0 same_type, hash_iff.0 same_hash),
        λ h. gate.1 (expired.1 h.0, type_iff.1 h.1, hash_iff.1 h.2),
      )
