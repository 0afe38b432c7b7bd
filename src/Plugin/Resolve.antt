-- ===== src/Plugin/Resolve.antt =====
-- cmd/protoc-gen-go-jet/resolve.go: indexes, partitions, orders, comments and names, as the plugin reads
-- them off the options of a message. What package `unicode` makes of a character in upper case, and what
-- strings.EqualFold says, are parameters.
pub mod Index
pub mod Comment
pub mod Words
use protoc_gen_go_jet.Common.{
  ℕ, zero, suc, ◌+◌, Text, codes, Bool, true, false, not, ◌&&◌, ◌||◌, List, [], ◌∷◌, ◌++◌, Option,
  none, some, map, is_empty, length, text_eq, trim_space, fields, split, contains_byte,
  if◌then◌else◌, ltb, leb, ◌==◌,
}
use protoc_gen_go_jet.Aip.Errors.{Result, ok, err, panic, fail, plain, ◌>>=◌, ◌>>◌}
use protoc_gen_go_jet.Plugin.Plan.{IndexPlan, PartitionPlan, OrderPart}
use protoc_gen_go_jet.Plugin.Identifier.{
  concat, join_texts, is_upper, is_lower, to_lower_ascii, validate_sql_ident,
}
use protoc_gen_go_jet.Plugin.Validate.{Names, claim_name}

-- storagev1.Index
pub record IndexOption : Type 0 where
  pub name : Text
  pub columns : List Text
  pub order : List Text
  pub is_unique : Bool
  pub where_clause : Text

-- storagev1.PartitionMethod; `unknown_method` is a number that it does not name.
pub data PartitionMethod : Type 0 where
  method_unspecified range_method list_method hash_method unknown_method : PartitionMethod

unfoldable pub val_or : Text → Text → Text
val_or a b = if is_empty a then b else a

-- The loop over the columns of an index or a partition, each of which is listed once.
unfoldable pub check_repeats : List Text → Names → Result (Unit {0})
check_repeats [] seen = ok tt
check_repeats (c ∷ cols) seen = do more ← claim_name c seen; check_repeats cols more

abbrev pub index_name : Text → IndexOption → Text
index_name table idx =
    val_or idx.name
      (concat (codes "idx_" ∷ table ∷ codes "_" ∷ join_texts (codes "_") idx.columns ∷ []))

module _ (to_upper : ℕ → ℕ) where
  unfoldable pub check_direction : Text → Result Text
  check_direction o =
      let up = map to_upper o in
      if is_empty o
      then ok (codes "ASC")
      else if not (text_eq up (codes "ASC")) && not (text_eq up (codes "DESC"))
      then fail [] plain
      else ok up

  -- A column without an entry is ascending.
  unfoldable pub resolve_directions : List Text → List Text → Result (List Text)
  unfolding check_direction
  resolve_directions [] ord = ok []
  resolve_directions (c ∷ cols) [] = do rest ← resolve_directions cols []; ok (codes "ASC" ∷ rest)
  resolve_directions (c ∷ cols) (o ∷ ord) = do
    direction ← check_direction o
    rest ← resolve_directions cols ord
    ok (direction ∷ rest)

  unfoldable pub resolve_index : Text → IndexOption → Result IndexPlan
  unfolding resolve_directions
  resolve_index table idx = do
    if is_empty idx.columns then fail [] plain else ok tt
    check_repeats idx.columns []
    if ltb (length idx.columns) (length idx.order) then fail [] plain else ok tt
    if contains_byte idx.where_clause 59 then fail [] plain else ok tt
    validate_sql_ident (index_name table idx)
    directions ← resolve_directions idx.columns idx.order
    ok (record {
      name = index_name table idx;
      columns = idx.columns;
      order = directions;
      is_unique = idx.is_unique;
      where_clause = idx.where_clause;
    })

unfoldable pub method_sql : PartitionMethod → Result Text
method_sql range_method = ok (codes "RANGE")
method_sql list_method = ok (codes "LIST")
method_sql hash_method = ok (codes "HASH")
method_sql method_unspecified = fail [] plain
method_sql unknown_method = fail [] plain

unfoldable pub resolve_partition : PartitionMethod → List Text → Result PartitionPlan
resolve_partition method cols = do
  name ← method_sql method
  if is_empty cols then fail [] plain else ok tt
  check_repeats cols []
  ok (record { method = name; columns = cols })

module _ (equal_fold : Text → Text → Bool) where
  -- A term has a word, since it is trimmed and not empty; without one, `tokens[0]` panics.
  unfoldable pub parse_term : List Text → Result OrderPart
  parse_term [] = panic
  parse_term (path ∷ []) = ok (record { field_path = path; desc = false })
  parse_term (path ∷ dir ∷ []) =
      if equal_fold dir (codes "asc")
      then ok (record { field_path = path; desc = false })
      else if equal_fold dir (codes "desc")
      then ok (record { field_path = path; desc = true })
      else fail [] plain
  parse_term (path ∷ dir ∷ more ∷ tokens) = fail [] plain

  unfoldable pub parse_terms : List Text → Result (List OrderPart)
  unfolding parse_term
  parse_terms [] = ok []
  parse_terms (s ∷ terms) =
      let rest = parse_terms terms in
      let term = trim_space s in
      if is_empty term
      then rest
      else (do part ← parse_term (fields term); parts ← rest; ok (part ∷ parts))

  unfoldable pub parse_order_by : Text → Result (List OrderPart)
  unfolding parse_terms
  parse_order_by s = do
    parts ← parse_terms (split s 44)
    if is_empty parts then fail [] plain else ok parts

-- The lines of a comment, trimmed and joined by spaces; the first argument is what is there already.
unfoldable pub join_lines : Text → List Text → Text
join_lines b [] = b
join_lines b (s ∷ lines) =
    let line = trim_space s in
    join_lines (if is_empty line then b else if is_empty b then line else b ++ (32 ∷ line)) lines

unfoldable pub normalise_proto_comment : Text → Text
unfolding join_lines
normalise_proto_comment raw = if is_empty raw then [] else join_lines [] (split raw 10)

abbrev pub next_lower : Text → Bool
next_lower [] = false
next_lower (r ∷ s) = is_lower r

abbrev pub separated : Option ℕ → ℕ → Text → Bool
separated none r s = false
separated (some p) r s = is_upper r && (is_lower p || next_lower s)

-- The loop of toSnake, with the character before.
unfoldable pub snake_from : Option ℕ → Text → Text
snake_from prev [] = []
snake_from prev (r ∷ s) =
    let rest = snake_from (some r) s in
    if separated prev r s then 95 ∷ to_lower_ascii r ∷ rest else to_lower_ascii r ∷ rest

unfoldable pub to_snake : Text → Text
unfolding snake_from
to_snake s = snake_from none s

abbrev jet_acronyms : List Text
jet_acronyms =
    codes "ACL"
    ∷ codes "API"
    ∷ codes "ASCII"
    ∷ codes "CPU"
    ∷ codes "CSS"
    ∷ codes "DNS"
    ∷ codes "EOF"
    ∷ codes "ETA"
    ∷ codes "GPU"
    ∷ codes "GUID"
    ∷ codes "HTML"
    ∷ codes "HTTP"
    ∷ codes "HTTPS"
    ∷ codes "ID"
    ∷ codes "IP"
    ∷ codes "JSON"
    ∷ codes "LHS"
    ∷ codes "OS"
    ∷ codes "QPS"
    ∷ codes "RAM"
    ∷ codes "RHS"
    ∷ codes "RPC"
    ∷ codes "SLA"
    ∷ codes "SMTP"
    ∷ codes "SQL"
    ∷ codes "SSH"
    ∷ codes "TCP"
    ∷ codes "TLS"
    ∷ codes "TTL"
    ∷ codes "UDP"
    ∷ codes "UI"
    ∷ codes "UID"
    ∷ codes "UUID"
    ∷ codes "URI"
    ∷ codes "URL"
    ∷ codes "UTF8"
    ∷ codes "VM"
    ∷ codes "XML"
    ∷ codes "XMPP"
    ∷ codes "XSRF"
    ∷ codes "XSS"
    ∷ []

unfoldable pub is_acronym : Text → List Text → Bool
is_acronym s [] = false
is_acronym s (a ∷ acronyms) = text_eq a s || is_acronym s acronyms

abbrev upper_first : (ℕ → ℕ) → Text → Text
upper_first to_upper [] = []
upper_first to_upper (c ∷ s) = to_upper c ∷ s

unfoldable pub pascal_part : (ℕ → ℕ) → Text → Text
pascal_part to_upper p =
    if is_empty p
    then []
    else if text_eq p (codes "oauth")
    then codes "OAuth"
    else if is_acronym (map to_upper p) jet_acronyms
    then map to_upper p
    else upper_first to_upper p

unfoldable pub snake_to_pascal : (ℕ → ℕ) → Text → Text
unfolding pascal_part
snake_to_pascal to_upper s = concat (map (pascal_part to_upper) (split s 95))
