-- ===== src/Aip/Order/RoundTrip.antt =====
-- The order_by parser reads back what an ordering prints to.
use protoc_gen_go_jet.Common.{
  Text, true, false, List, [], ◌∷◌, ◌++◌, codes, text_eq_iff, arith, ◌≡◌, refl, ◌∙◌, ap,
  append_assoc, append-nil, All, All-append, is_empty, is_space, trim_space, split, fields, map,
  starts_word, subst,
}
use protoc_gen_go_jet.Common.Words.{
  IsWord, Lacks, EndsWord, EndsWord-append, IsWord-EndsWord, trim_space_id, trim_space_blank,
  IsWord-starts_word, split-word, split-cons, fields-word,
}
use protoc_gen_go_jet.Aip.Errors.{ok}
use protoc_gen_go_jet.Aip.Order.{
  Unicode, OrderField, SortDirection, asc, desc, contains, contains_path, valid_character,
  parse_direction, parse_rest, parse_parts, parse_spec, parse_specs, parse_order_by,
}
use protoc_gen_go_jet.Aip.Order.Syntax.{IsPath, IsWellFormed, All-check_characters}

-- What the parser relies on in the tables of `unicode`, for the letters of the two directions.
pub record KnowsDirections (u : Unicode) : Type 0 where
  pub lowers : All (λ c. u.to_lower c ≡ c) (codes "acdes")
  pub letters : All (λ c. u.is_letter c ≡ true) (codes "acdes")

abbrev direction_word : SortDirection → Text
direction_word asc = codes "asc"
direction_word desc = codes "desc"

abbrev format_field : OrderField → Text
format_field f = f.path ++ b' ' ∷ direction_word f.direction

-- The text of an ordering in the grammar of AIP-132.
abbrev pub format_order : List OrderField → Text
format_order [] = []
format_order (f ∷ []) = format_field f
format_order (f ∷ g ∷ fs) = format_field f ++ b',' ∷ b' ' ∷ format_order (g ∷ fs)

direction_word-IsWord : (d : SortDirection) → IsWord (direction_word d)
unfolding is_space
direction_word-IsWord asc = ((cc), (refl, (refl, (refl, tt))))
direction_word-IsWord desc = ((cc), (refl, (refl, (refl, (refl, tt)))))

format_field-starts_word :
    (u : Unicode) (f : OrderField) (rest : Text)
    → IsPath u f.path
    → starts_word (format_field f ++ rest) ≡ true
format_field-starts_word u f rest h =
    rw (append_assoc f.path _ rest) (IsWord-starts_word f.path _ h.0)

format_field-EndsWord : (f : OrderField) → EndsWord (format_field f)
format_field-EndsWord f = EndsWord-append f.path _ (
    EndsWord-append (b' ' ∷ []) (direction_word f.direction)
      (IsWord-EndsWord _ (direction_word-IsWord f.direction)))

format_order-EndsWord : (f : OrderField) (fs : List OrderField) → EndsWord (format_order (f ∷ fs))
format_order-EndsWord f [] = format_field-EndsWord f
format_order-EndsWord f (g ∷ fs) =
    EndsWord-append (format_field f) _
      (EndsWord-append (b',' ∷ b' ' ∷ []) (format_order (g ∷ fs)) (format_order-EndsWord g fs))

format_order-starts_word :
    (u : Unicode) (f : OrderField) (fs : List OrderField)
    → IsPath u f.path
    → starts_word (format_order (f ∷ fs)) ≡ true
format_order-starts_word u f [] h = IsWord-starts_word f.path _ h.0
format_order-starts_word u f (g ∷ fs) h = format_field-starts_word u f _ h

fields_blank : (w : Text) → IsWord w → fields (b' ' ∷ w) ≡ w ∷ []
unfolding fields
fields_blank w k = one_word
  where
    one_word : fields w ≡ w ∷ []
    one_word = subst (λ v. fields v ≡ w ∷ []) (append-nil w) (fields-word w [] k refl)

format_field-fields :
    (u : Unicode) (f : OrderField)
    → IsPath u f.path
    → fields (format_field f) ≡ f.path ∷ direction_word f.direction ∷ []
format_field-fields u f h =
    fields-word f.path (b' ' ∷ direction_word f.direction) h.0 (unfold is_space in refl)
    ∙ ap (λ ws. f.path ∷ ws)
        (fields_blank (direction_word f.direction) (direction_word-IsWord f.direction))

direction_word_parsed :
    (u : Unicode)
    → KnowsDirections u
    → (d : SortDirection) → parse_direction u (direction_word d) ≡ ok d
unfolding parse_direction
direction_word_parsed u k asc = rw (k.lowers.0, k.lowers.1.1.1.1.0, k.lowers.1.0)
direction_word_parsed u k desc =
    rw (k.lowers.1.1.0, k.lowers.1.1.1.0, k.lowers.1.1.1.1.0, k.lowers.1.0)

format_field_trimmed :
    (u : Unicode) (f : OrderField)
    → IsPath u f.path
    → trim_space (b' ' ∷ format_field f) ≡ format_field f
format_field_trimmed u f h =
    trim_space_blank (format_field f)
      (IsWord-starts_word f.path (b' ' ∷ direction_word f.direction) h.0) (format_field-EndsWord f)

fresh_next :
    (p : Text) (seen : List Text) (fs : List OrderField)
    → contains_path p fs ≡ false
    → All (λ f. contains f.path seen ≡ false) fs
    → All (λ f. contains f.path (p ∷ seen) ≡ false) fs
unfolding contains contains_path
fresh_next p seen [] _ _ = tt
fresh_next p seen (g ∷ fs) d (h, hs) = (
  ground (arith, text_eq_iff p g.path, text_eq_iff g.path p),
  fresh_next p seen fs (ground arith) hs,
)

module _ (u : Unicode) (k : KnowsDirections u) where
  parse_parts_formatted :
      (spec : Text) (seen : List Text) (f : OrderField)
      → contains f.path seen ≡ false
      → parse_parts u spec seen (f.path ∷ direction_word f.direction ∷ []) ≡ ok f
  unfolding parse_parts parse_rest
  parse_parts_formatted spec seen f fresh = rw (fresh, direction_word_parsed u k f.direction)

  parse_spec_formatted :
      (seen : List Text) (raw : Text) (f : OrderField)
      → trim_space raw ≡ format_field f
      → IsPath u f.path
      → contains f.path seen ≡ false
      → parse_spec u seen raw ≡ ok f
  unfolding parse_spec
  parse_spec_formatted seen raw f trimmed h fresh =
      rw (trimmed, format_field-fields u f h, parse_parts_formatted (format_field f) seen f fresh)
        (ground (arith, IsWord-starts_word f.path (b' ' ∷ direction_word f.direction) h.0))

  abbrev blank_specs : List OrderField → List Text
  blank_specs = map (λ g. b' ' ∷ format_field g)

  parse_specs_formatted :
      (fs : List OrderField) (seen : List Text) (done : List OrderField)
      → IsWellFormed u fs
      → All (λ f. contains f.path seen ≡ false) fs
      → parse_specs u (blank_specs fs) seen done ≡ ok (done ++ fs)
  unfolding parse_specs
  parse_specs_formatted [] seen done _ _ = rw append-nil
  parse_specs_formatted (f ∷ fs) seen done ((p, ps), (d, ds)) (fresh, all_fresh) =
      rw (parse_spec_formatted seen (b' ' ∷ format_field f) f (format_field_trimmed u f p) p fresh)
        (parse_specs_formatted fs (f.path ∷ seen) (done ++ f ∷ []) (ps, ds)
            (fresh_next f.path seen fs d all_fresh)
          ∙ ap ok (append_assoc done (f ∷ []) fs))

  check_formatted :
      (f : OrderField) → IsPath u f.path → All (λ c. valid_character u c ≡ true) (format_field f)
  unfolding valid_character
  check_formatted f h = All-append _ f.path _ h.1 (ground arith, direction_valid f.direction)
    where
      direction_valid :
          (d : SortDirection) → All (λ c. valid_character u c ≡ true) (direction_word d)
      direction_valid asc =
          rw (k.letters.0, k.letters.1.1.1.1.0, k.letters.1.0) (refl, (refl, (refl, tt)))
      direction_valid desc =
          rw (k.letters.1.1.0, k.letters.1.1.1.0, k.letters.1.1.1.1.0, k.letters.1.0)
            (refl, (refl, (refl, (refl, tt))))

  format_order_valid :
      (fs : List OrderField)
      → All (λ f. IsPath u f.path) fs
      → All (λ c. valid_character u c ≡ true) (format_order fs)
  format_order_valid [] h = tt
  format_order_valid (f ∷ []) h = check_formatted f h.0
  format_order_valid (f ∷ g ∷ fs) h =
      All-append _ (format_field f) (b',' ∷ b' ' ∷ format_order (g ∷ fs)) (check_formatted f h.0)
        (comma_valid, (blank_valid, format_order_valid (g ∷ fs) h.1))
    where
      comma_valid : valid_character u b',' ≡ true
      comma_valid = unfold valid_character in ground arith

      blank_valid : valid_character u b' ' ≡ true
      blank_valid = unfold valid_character in ground arith

  format_field-Lacks : (f : OrderField) → IsPath u f.path → Lacks b',' (format_field f)
  format_field-Lacks f h = All-append _ f.path _ h.2 (omega arith, direction_lacks f.direction)
    where
      direction_lacks : (d : SortDirection) → Lacks b',' (direction_word d)
      direction_lacks asc = omega arith
      direction_lacks desc = omega arith

  split_formatted :
      (p : Text) (f : OrderField) (fs : List OrderField)
      → Lacks b',' p
      → All (λ f. IsPath u f.path) (f ∷ fs)
      → split (p ++ format_order (f ∷ fs)) b',' ≡ (p ++ format_field f) ∷ blank_specs fs
  split_formatted p f [] l h =
      split-word (p ++ format_field f) b',' (All-append _ p _ l (format_field-Lacks f h.0))
  split_formatted p f (g ∷ fs) l h =
      rw (← append_assoc p (format_field f) (b',' ∷ b' ' ∷ format_order (g ∷ fs))) (
        split-cons (p ++ format_field f) (b' ' ∷ format_order (g ∷ fs)) b','
          (All-append _ p _ l (format_field-Lacks f h.0))
        ∙ ap (λ ws. (p ++ format_field f) ∷ ws)
            (split_formatted (b' ' ∷ []) g fs (omega arith) h.1))

  parse_first :
      (f : OrderField) (fs : List OrderField)
      → IsWellFormed u (f ∷ fs)
      → parse_specs u (format_field f ∷ blank_specs fs) [] [] ≡ ok (f ∷ fs)
  unfolding parse_specs
  parse_first f fs ((p, ps), (d, ds)) =
      rw (parse_spec_formatted [] (format_field f) f trimmed p (unfold contains in refl)) (
        parse_specs_formatted fs (f.path ∷ []) (f ∷ []) (ps, ds)
          (fresh_next f.path [] fs d (none_seen fs)))
    where
      trimmed : trim_space (format_field f) ≡ format_field f
      trimmed =
          trim_space_id (format_field f)
            (IsWord-starts_word f.path (b' ' ∷ direction_word f.direction) p.0)
            (format_field-EndsWord f)

      none_seen : (gs : List OrderField) → All (λ g. contains g.path [] ≡ false) gs
      none_seen [] = tt
      none_seen (g ∷ gs) = (unfold contains in refl, none_seen gs)

starts_word→not_empty : (s : Text) → starts_word s ≡ true → is_empty s ≡ false
starts_word→not_empty [] h = cc
starts_word→not_empty (c ∷ s) h = refl

-- Every well-formed ordering is read back from its text, the empty one included.
pub parse_order_by-format_order :
    (u : Unicode) (fs : List OrderField)
    → KnowsDirections u
    → IsWellFormed u fs
    → parse_order_by u (format_order fs) ≡ ok (record { fields = fs })
unfolding parse_order_by
parse_order_by-format_order u [] k h = unfold trim_space in refl
parse_order_by-format_order u (f ∷ fs) k h =
    let begins = format_order-starts_word u f fs h.0.0 in
    rw (
      trim_space_id (format_order (f ∷ fs)) begins (format_order-EndsWord f fs),
      starts_word→not_empty (format_order (f ∷ fs)) begins,
      All-check_characters u (format_order (f ∷ fs)) (format_order_valid u k (f ∷ fs) h.0),
      split_formatted u k [] f fs tt h.0,
      parse_first u k f fs h,
    )
