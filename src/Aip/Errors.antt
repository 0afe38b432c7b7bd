-- ===== src/Aip/Errors.antt =====
-- pkg/aip/errors.go and the errors that the package makes. An error is what `errors.Is` and the
-- caller can see of it: the sentinels of its chain, and which of the program's messages it is. A
-- run-time panic (a nil dereference, an index out of range) is a result of its own.
use protoc_gen_go_jet.Common.{
  ℕ, Text, Bool, true, false, List, [], ◌∷◌, ◌||◌, ◌≡◌, if◌then◌else◌, refl, arith,
}

pub data Sentinel : Type 0 where
  invalid_order_by invalid_page_token filter_mismatch : Sentinel
  token_expired token_wrong_resource token_order_changed unsupported_filter : Sentinel

pub data Cause : Type 0 where
  invalid_character : ℕ → Cause
  empty_field_specification : Cause
  duplicate_field invalid_direction invalid_field_specification : Text → Cause
  field_not_allowed : (context path : Text) → Cause
  plain filter_too_long malformed_filter : Cause
  cursor_count_mismatch : Cause
  no_codec : Text → Cause
  unexpected_type : Cause
  nan_cursor : Cause
  malformed_base64 malformed_encoding : Cause
  not_in_schema : Text → Cause
  malformed_value : Text → Cause
  no_order_fields : Cause
  wrong_column_type : Text → Cause
  unsupported_literal : Text → Cause

pub record Error : Type 0 where
  pub sentinels : List Sentinel
  pub cause : Cause

pub data Result {ℓ} (A : Type ℓ) : Type ℓ where
  ok : A → Result A
  err : Error → Result A
  panic : Result A

-- A panic ends the function, as an error does.
infixl 5 ◌>>=◌
abbrev pub ◌>>=◌ {ℓ κ} : {S : Type ℓ} {B : Type κ} → Result S → (S → Result B) → Result B
panic >>= next = panic
err e >>= next = err e
ok s >>= next = next s

infixl 5 ◌>>◌
abbrev pub ◌>>◌ {κ} : {B : Type κ} → Result (Unit {0}) → Result B → Result B
check >> next = check >>= λ done. next

abbrev pub fail {ℓ} : {A : Type ℓ} → List Sentinel → Cause → Result A
fail ss c = err (record { sentinels = ss; cause = c })

-- the number of a sentinel, to compare two
abbrev pub same : Sentinel → Sentinel → Bool
same invalid_order_by invalid_order_by = true
same invalid_page_token invalid_page_token = true
same filter_mismatch filter_mismatch = true
same token_expired token_expired = true
same token_wrong_resource token_wrong_resource = true
same token_order_changed token_order_changed = true
same unsupported_filter unsupported_filter = true
same _ _ = false

pub same_refl : (s : Sentinel) → same s s ≡ true
same_refl s = ground arith

abbrev pub holds : List Sentinel → Sentinel → Bool
holds [] s = false
holds (t ∷ ts) s = same t s || holds ts s

-- errors.Is(err, sentinel)
abbrev pub is : Error → Sentinel → Bool
is e s = holds e.sentinels s

-- What a bind that succeeds went through.
pub >>=-eq-ok {ℓ κ} :
    {S : Type ℓ} {T : Type κ} (r : Result S) (next : S → Result T) {t : T}
    → r >>= next ≡ ok t
    → (s : S) × (r ≡ ok s) × (next s ≡ ok t)
>>=-eq-ok panic next e = cc
>>=-eq-ok (err f) next e = cc
>>=-eq-ok (ok s) next e = (s, refl, e)

-- fmt.Errorf("%w: %w", sentinel, err), unless the sentinel is there already
unfoldable pub wrap_aip_error {ℓ} : {A : Type ℓ} → Result A → Sentinel → Result A
wrap_aip_error (ok a) s = ok a
wrap_aip_error (err e) s = if is e s then err e else err (record e { sentinels = s ∷ e.sentinels })
wrap_aip_error panic s = panic

pub wrap_aip_error-ok {ℓ} :
    {A : Type ℓ} (r : Result A) (s : Sentinel) {a : A} → wrap_aip_error r s ≡ ok a → r ≡ ok a
unfolding wrap_aip_error
wrap_aip_error-ok (ok a) s h = h
wrap_aip_error-ok (err e) s h = ground arith
wrap_aip_error-ok panic s h = cc

pub ok-injective {ℓ} : {A : Type ℓ} {a b : A} → ok a ≡ ok b → a ≡ b
ok-injective h = cc
