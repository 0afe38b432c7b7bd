-- ===== src/Plugin/Identifier.antt =====
-- cmd/protoc-gen-go-jet/resolve.go and emit_sql.go: identifiers, JSON paths, and what is quoted.
use protoc_gen_go_jet.Common.{
  ℕ, zero, suc, ◌+◌, Text, codes, Bool, true, false, not, ◌&&◌, ◌||◌, List, [], ◌∷◌, ◌++◌, map,
  is_empty, length, split, contains_byte, has_prefix, utf8_length, if◌then◌else◌, leb, ltb, ◌==◌,
}
use protoc_gen_go_jet.Aip.Errors.{Result, ok, panic, fail, plain, ◌>>=◌}

-- NAMEDATALEN - 1
abbrev pub pg_name_max : ℕ
pg_name_max = 63

abbrev pub is_lower : ℕ → Bool
is_lower r = leb 97 r && leb r 122

abbrev pub is_upper : ℕ → Bool
is_upper r = leb 65 r && leb r 90

abbrev pub is_digit : ℕ → Bool
is_digit r = leb 48 r && leb r 57

unfoldable pub ident_characters : (first : Bool) → Text → Bool
ident_characters first [] = true
ident_characters first (r ∷ s) =
    (r == 95 || is_lower r || not first && is_digit r) && ident_characters false s

unfoldable pub validate_sql_ident : Text → Result (Unit {0})
validate_sql_ident s =
    if is_empty s
    then fail [] plain
    else if ltb pg_name_max (utf8_length s)
    then fail [] plain
    else if ident_characters true s
    then ok tt
    else fail [] plain

unfoldable pub check_synth_ident_len : Text → Result (Unit {0})
check_synth_ident_len name = if leb (utf8_length name) pg_name_max then ok tt else fail [] plain

unfoldable pub has_control : Text → Bool
has_control [] = false
has_control (r ∷ p) = ltb r 0x20 || r == 0x7f || has_control p

unfoldable pub segment_characters : Text → Bool
segment_characters [] = true
segment_characters (r ∷ s) =
    (is_lower r || is_upper r || is_digit r || r == 95) && segment_characters s

-- The loop over the segments.
unfoldable pub check_segments : List Text → Result (Unit {0})
check_segments [] = ok tt
check_segments (seg ∷ segs) =
    let rest = check_segments segs in
    if is_empty seg then fail [] plain else if segment_characters seg then rest else fail [] plain

unfoldable pub validate_jsonb_path : Text → Result (Unit {0})
validate_jsonb_path p =
    if is_empty p
    then fail [] plain
    else if contains_byte p 39 || contains_byte p 34
    then fail [] plain
    else if contains_byte p 92
    then fail [] plain
    else if has_control p
    then fail [] plain
    else check_segments (split p 46)

-- The parts that a format string puts together.
abbrev pub concat : List Text → Text
concat [] = []
concat (s ∷ ss) = s ++ concat ss

-- strings.Join
unfoldable pub join_texts : Text → List Text → Text
join_texts sep [] = []
join_texts sep (s ∷ ss) = elim ss [ [] ↦ s | _ ∷ _ ↦ s ++ (sep ++ join_texts sep ss) ]

abbrev pub to_lower_ascii : ℕ → ℕ
to_lower_ascii r = if is_upper r then r + 32 else r

-- The hops of the accessor: the last one is to text.
unfoldable pub path_hops : List Text → Text
path_hops [] = []
path_hops (seg ∷ segs) = elim segs [
  | [] ↦ codes "->>'" ++ (seg ++ codes "'")
  | _ ∷ _ ↦ codes "->'" ++ (seg ++ (codes "'" ++ path_hops segs))
]

unfoldable pub jsonb_path_expr : Text → Text → Text
jsonb_path_expr col path = col ++ path_hops (split path 46)

abbrev underscore : ℕ → ℕ
underscore c = if c == 46 then 95 else c

-- strings.ToLower on a name whose parts are ASCII.
unfoldable pub jsonb_path_index_name : Text → Text → Text → Text
jsonb_path_index_name table col path =
    map to_lower_ascii (codes "idx_" ++ (table ++ (95 ∷ (col ++ (95 ∷ map underscore path)))))

unfoldable pub doubled : Text → Text
doubled [] = []
doubled (c ∷ s) = if c == 34 then 34 ∷ 34 ∷ doubled s else c ∷ doubled s

unfoldable pub pg_ident : Text → Text
pg_ident s = 34 ∷ (doubled s ++ (34 ∷ []))

-- strings.Contains
unfoldable pub contains_text : Text → Text → Bool
contains_text [] p = is_empty p
contains_text (c ∷ s) p = has_prefix (c ∷ s) p || contains_text s p

abbrev pub delimiter : Text → Text
delimiter tag = 36 ∷ (tag ++ (36 ∷ []))

-- The loop of sqlDollarQuote, which lengthens the tag until the delimiter is not in the text. Without
-- fuel it has no tag.
unfoldable pub find_tag : ℕ → Text → Text → Result Text
find_tag zero s tag = panic
find_tag (suc fuel) s tag =
    let longer = find_tag fuel s (120 ∷ tag) in
    if contains_text s (delimiter tag) then longer else ok tag

-- A delimiter in the text is no longer than the text, so as many rounds as it has characters, and one,
-- are enough.
unfoldable pub sql_dollar_quote : Text → Result Text
sql_dollar_quote s = do
  tag ← find_tag (suc (length s)) s []
  ok (delimiter tag ++ (s ++ delimiter tag))
