-- ===== src/Aip/Order/Distinct.antt =====
-- The paths of an ordering are distinct: the duplicate check of the parser, and the appending of
-- fields that are not there yet.
use protoc_gen_go_jet.Common.{
  Text, true, false, ◌||◌, List, [], ◌∷◌, ◌++◌, text_eq, text_eq_iff, text_eq_refl, arith,
  trim_space, fields, split, is_empty, ◌⊎◌, ◌≡◌, refl, sym, ◌∙◌, append_assoc, append-nil,
  if◌then◌else◌, Bool-cases, inl, inr,
}
use protoc_gen_go_jet.Aip.Errors.{ok, >>=-eq-ok}
use protoc_gen_go_jet.Aip.Order.{
  Unicode, OrderField, OrderBy, contains, contains_path, append_unique_fields, parse_spec,
  parse_parts, parse_specs, check_characters, parse_order_by,
}

-- No path occurs twice.
abbrev pub IsDistinct : List OrderField → Type 0
IsDistinct [] = Unit
IsDistinct (f ∷ fs) = (contains_path f.path fs ≡ false) × IsDistinct fs

pub contains_path-append :
    (p : Text) (fs gs : List OrderField)
    → contains_path p (fs ++ gs) ≡ (contains_path p fs || contains_path p gs)
unfolding contains_path
contains_path-append p [] gs = refl
contains_path-append p (f ∷ fs) gs = ground (arith, contains_path-append p fs gs)

contains_path_one : (p : Text) (f : OrderField) → contains_path p (f ∷ []) ≡ text_eq f.path p
unfolding contains_path
contains_path_one p f = ground arith

text_eq_sym : (s t : Text) → text_eq s t ≡ false → text_eq t s ≡ false
text_eq_sym s t h = ground (arith, text_eq_iff s t, text_eq_iff t s)

IsDistinct-concat :
    (fs : List OrderField) (f : OrderField)
    → IsDistinct fs
    → contains_path f.path fs ≡ false
    → IsDistinct (fs ++ f ∷ [])
IsDistinct-concat [] f _ _ = (unfold contains_path in refl, tt)
IsDistinct-concat (g ∷ fs) f (fresh, d) h = (
  contains_path-append g.path fs (f ∷ []) ∙ fresh_of_parts,
  IsDistinct-concat fs f d (unfold contains_path in ground arith),
)
  where
    fresh_of_parts : (contains_path g.path fs || contains_path g.path (f ∷ [])) ≡ false
    fresh_of_parts =
        rw (fresh, contains_path_one g.path f)
          (text_eq_sym g.path f.path (unfold contains_path in ground arith))

append_unique_one : (dst : List OrderField) (a : OrderField) → List OrderField
append_unique_one dst a = if contains_path a.path dst then dst else dst ++ a ∷ []

append_unique_one-IsDistinct :
    (dst : List OrderField) (a : OrderField) → IsDistinct dst → IsDistinct (append_unique_one dst a)
unfolding append_unique_one
append_unique_one-IsDistinct dst a d = elim (Bool-cases (contains_path a.path dst)) [
  | inl old ↦ rw old d
  | inr new ↦ rw new (IsDistinct-concat dst a d new)
]

-- Adding fields whose path is not there yet keeps the paths distinct.
pub append_unique_fields-IsDistinct :
    (dst add : List OrderField) → IsDistinct dst → IsDistinct (append_unique_fields dst add)
unfolding append_unique_fields append_unique_one
append_unique_fields-IsDistinct dst [] d = d
append_unique_fields-IsDistinct dst (a ∷ add) d =
    append_unique_fields-IsDistinct (append_unique_one dst a) add
      (append_unique_one-IsDistinct dst a d)

-- The fields that were there stay, in front and in their order.
pub append_unique_fields_prefix :
    (dst add : List OrderField)
    → (more : List OrderField) × (append_unique_fields dst add ≡ dst ++ more)
unfolding append_unique_fields
append_unique_fields_prefix dst [] = ([], sym (append-nil dst))
append_unique_fields_prefix dst (a ∷ add) = elim (Bool-cases (contains_path a.path dst)) [
  | inl old ↦ rw old (append_unique_fields_prefix dst add)
  | inr new ↦
      let (more, e) = append_unique_fields_prefix (dst ++ a ∷ []) add in
      (a ∷ more, rw new (e ∙ append_assoc dst (a ∷ []) more))
]

contains_path-append_left :
    (p : Text) (fs gs : List OrderField)
    → contains_path p fs ≡ true
    → contains_path p (fs ++ gs) ≡ true
contains_path-append_left p fs gs h = rw (contains_path-append p fs gs, h)

append_unique_one-contains :
    (dst : List OrderField) (a : OrderField) → contains_path a.path (append_unique_one dst a) ≡ true
unfolding append_unique_one
append_unique_one-contains dst a = elim (Bool-cases (contains_path a.path dst)) [
  | inl old ↦ rw old old
  | inr new ↦
      rw (new, contains_path-append a.path dst (a ∷ []), new)
        (contains_path_one a.path a ∙ text_eq_refl a.path)
]

append_unique_fields-keeps :
    (p : Text) (dst add : List OrderField)
    → contains_path p dst ≡ true
    → contains_path p (append_unique_fields dst add) ≡ true
append_unique_fields-keeps p dst add h =
    let (more, e) = append_unique_fields_prefix dst add in
    rw e (contains_path-append_left p dst more h)

-- Every path that was to be added is in the result.
pub append_unique_fields-contains :
    (p : Text) (dst add : List OrderField)
    → contains_path p add ≡ true
    → contains_path p (append_unique_fields dst add) ≡ true
unfolding append_unique_fields append_unique_one
append_unique_fields-contains p dst [] h = unfold contains_path in cc
append_unique_fields-contains p dst (a ∷ add) h = elim (Bool-cases (text_eq a.path p)) [
  | inl e ↦ rw (← (text_eq_iff a.path p).0 e) (
      append_unique_fields-keeps a.path (append_unique_one dst a) add
        (append_unique_one-contains dst a))
  | inr e ↦
      append_unique_fields-contains p (append_unique_one dst a) add
        (unfold contains_path in ground arith)
]

-- `seen` and the fields so far hold the same paths.
abbrev Agree : List Text → List OrderField → Type 0
Agree seen done = (p : Text) → contains p seen ≡ contains_path p done

parse_parts_path :
    (u : Unicode) (spec : Text) (seen parts : List Text) {f : OrderField}
    → parse_parts u spec seen parts ≡ ok f
    → contains f.path seen ≡ false
unfolding parse_parts
parse_parts_path u spec seen [] h = cc
parse_parts_path u spec seen (p ∷ parts) h = ground arith

parse_spec_path :
    (u : Unicode) (seen : List Text) (raw : Text) {f : OrderField}
    → parse_spec u seen raw ≡ ok f
    → contains f.path seen ≡ false
unfolding parse_spec
parse_spec_path u seen raw h =
    ground (arith, parse_parts_path u (trim_space raw) seen (fields (trim_space raw)))

Agree-next :
    (seen : List Text) (done : List OrderField) (f : OrderField)
    → Agree seen done
    → Agree (f.path ∷ seen) (done ++ f ∷ [])
unfolding contains
Agree-next seen done f a p =
    rw (contains_path-append p done (f ∷ []), contains_path_one p f, a p) (ground arith)

parse_specs-IsDistinct :
    (u : Unicode) (specs seen : List Text) (done : List OrderField) {out : List OrderField}
    → Agree seen done
    → IsDistinct done
    → parse_specs u specs seen done ≡ ok out
    → IsDistinct out
unfolding parse_specs
parse_specs-IsDistinct u [] seen done a d h = ground arith
parse_specs-IsDistinct u (raw ∷ specs) seen done a d h =
    let (f, parsed, rest) = >>=-eq-ok (parse_spec u seen raw) _ h in
    parse_specs-IsDistinct u specs (f.path ∷ seen) (done ++ f ∷ []) (Agree-next seen done f a)
      (IsDistinct-concat done f d (sym (a f.path) ∙ parse_spec_path u seen raw parsed)) rest

-- What an accepted parameter went through: it is blank, or its characters and its
-- specifications were accepted.
pub parse_order_by_inv :
    (u : Unicode) (text : Text) {ob : OrderBy}
    → parse_order_by u text ≡ ok ob
    → (ob.fields ≡ [])
      ⊎ (check_characters u (trim_space text) ≡ ok tt)
        × (parse_specs u (split (trim_space text) b',') [] [] ≡ ok ob.fields)
unfolding parse_order_by
parse_order_by_inv u text h = elim (Bool-cases (is_empty (trim_space text))) [
  | inl blank ↦ inl (ground arith)
  | inr some_text ↦
      let (checked, c, h') =
        >>=-eq-ok (check_characters u (trim_space text)) _ (rw some_text at h) in
      let (fs, p, e) = >>=-eq-ok (parse_specs u (split (trim_space text) b',') [] []) _ h' in
      inr (c, ground arith)
]

-- An order_by parameter that is accepted names no field twice.
pub parse_order_by-IsDistinct :
    (u : Unicode) (text : Text) {ob : OrderBy}
    → parse_order_by u text ≡ ok ob
    → IsDistinct ob.fields
parse_order_by-IsDistinct u text {ob} h = elim (parse_order_by_inv u text h) [
  | inl blank ↦ rw blank tt
  | inr (_, p) ↦
      parse_specs-IsDistinct u (split (trim_space text) b',') [] []
        (λ p. unfold contains contains_path in refl) tt p
]
