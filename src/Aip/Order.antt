-- ===== src/Aip/Order.antt =====
-- pkg/aip/order.go: the AIP-132 order_by parameter.
pub mod Distinct
pub mod Syntax
pub mod RoundTrip
use protoc_gen_go_jet.Common.{
  ℕ, Text, Bool, true, false, not, ◌||◌, List, [], ◌∷◌, ◌++◌, ◌==◌, if◌then◌else◌, codes, map,
  text_eq, split, trim_space, fields, is_empty, bool_eq,
}
use protoc_gen_go_jet.Aip.Errors.{
  invalid_order_by, invalid_character, empty_field_specification, duplicate_field, Cause,
  invalid_direction, invalid_field_specification, field_not_allowed, Result, ok, fail, ◌>>=◌, ◌>>◌,
  Error,
}

-- `Asc` is false and `Desc` is true.
pub data SortDirection : Type 0 where
  asc desc : SortDirection

abbrev pub is_desc : SortDirection → Bool
is_desc asc = false
is_desc desc = true

pub record OrderField : Type 0 where
  pub path : Text
  pub direction : SortDirection

pub record OrderBy : Type 0 where
  pub fields : List OrderField

-- The tables of the package `unicode` that the parser reads.
pub record Unicode : Type 0 where
  pub is_letter : ℕ → Bool
  pub is_number : ℕ → Bool
  pub to_lower : ℕ → ℕ

abbrev invalid {ℓ} : {A : Type ℓ} → Cause → Result A
invalid c = fail (invalid_order_by ∷ []) c

unfoldable pub contains : Text → List Text → Bool
unfolding text_eq
contains p [] = false
contains p (q ∷ qs) = text_eq q p || contains p qs

module _ (u : Unicode) where
  unfoldable pub valid_character : ℕ → Bool
  valid_character r =
      u.is_letter r || u.is_number r || r == b'_' || r == b' ' || r == b',' || r == b'.'

  unfoldable pub check_characters : Text → Result (Unit {0})
  unfolding valid_character
  check_characters [] = ok tt
  check_characters (r ∷ s) =
      let rest = check_characters s in
      if valid_character r then rest else invalid (invalid_character r)

  -- the inner switch: a direction is read without regard to case
  unfoldable pub parse_direction : Text → Result SortDirection
  unfolding text_eq
  parse_direction word =
      let lower = map u.to_lower word in
      if text_eq lower (codes "asc")
      then ok asc
      else if text_eq lower (codes "desc")
      then ok desc
      else invalid (invalid_direction word)

  -- the outer switch, on the number of parts behind the path
  unfoldable pub parse_rest : Text → List Text → Result SortDirection
  unfolding parse_direction
  parse_rest spec [] = ok asc
  parse_rest spec (word ∷ []) = parse_direction word
  parse_rest spec (word ∷ other ∷ more) = invalid (invalid_field_specification spec)

  -- the two checks on the parts of one specification
  unfoldable pub parse_parts : Text → List Text → List Text → Result OrderField
  unfolding parse_rest contains
  parse_parts spec seen [] = invalid (invalid_field_specification spec)
  parse_parts spec seen (path ∷ parts) =
      if contains path seen
      then invalid (duplicate_field path)
      else (do d ← parse_rest spec parts; ok (record { path = path; direction = d }))

  unfoldable pub parse_spec : List Text → Text → Result OrderField
  unfolding trim_space fields parse_parts
  parse_spec seen raw =
      let spec = trim_space raw in
      if is_empty spec
      then invalid empty_field_specification
      else parse_parts spec seen (fields spec)

  -- the loop: `seen` holds the paths of the fields so far
  unfoldable pub parse_specs : List Text → List Text → List OrderField → Result (List OrderField)
  unfolding parse_spec
  parse_specs [] seen done = ok done
  parse_specs (raw ∷ specs) seen done = do
    f ← parse_spec seen raw
    parse_specs specs (f.path ∷ seen) (done ++ f ∷ [])

  unfoldable pub parse_order_by : Text → Result OrderBy
  unfolding trim_space check_characters split parse_specs
  parse_order_by text =
      let s = trim_space text in
      if is_empty s then ok (record { fields = [] }) else (do
        check_characters s
        fs ← parse_specs (split s b',') [] []
        ok (record { fields = fs }))

-- `slices.ContainsFunc` over the paths
unfoldable pub contains_path : Text → List OrderField → Bool
unfolding text_eq
contains_path p [] = false
contains_path p (f ∷ fs) = text_eq f.path p || contains_path p fs

unfoldable pub append_unique_fields : List OrderField → List OrderField → List OrderField
unfolding contains_path
append_unique_fields dst [] = dst
append_unique_fields dst (a ∷ add) =
    append_unique_fields (if contains_path a.path dst then dst else dst ++ a ∷ []) add

unfoldable pub new_field_error : Text → Text → Error
new_field_error context path = record {
  sentinels = invalid_order_by ∷ [];
  cause = field_not_allowed context path;
}

unfoldable pub all_direction : SortDirection → List OrderField → Bool
all_direction d [] = true
all_direction d (f ∷ fs) =
    let rest = all_direction d fs in
    if not (bool_eq (is_desc f.direction) (is_desc d)) then false else rest

unfoldable pub is_uniform_direction : List OrderField → Bool
unfolding all_direction
is_uniform_direction [] = true
is_uniform_direction (f ∷ []) = true
is_uniform_direction (f ∷ g ∷ fs) = all_direction f.direction (g ∷ fs)
