-- ===== src/Plugin/Check/Rename.antt =====
-- The rename directives that emit_sql.go writes, read back by check.go.
use protoc_gen_go_jet.Common.{
  ℕ, Text, codes, Bool, true, false, not, ◌&&◌, ◌||◌, List, [], ◌∷◌, ◌++◌, some, map, is_empty,
  has_prefix, trim_space, fields, split, is_space, starts_word, trim_left, trim_right, ◌==◌, ◌≡◌,
  ◌≢◌, refl, ◌∙◌, ap, subst, &&_both, All, All-append, append_assoc, append-nil, arith,
}
use protoc_gen_go_jet.Common.Words.{
  Lacks, IsWord, EndsWord, EndsWord-append, IsWord-EndsWord, IsWord-starts_word, trim_space_id,
  trim_space_blank, split-cons, fields-word,
}
use protoc_gen_go_jet.Aip.Errors.{ok}
use protoc_gen_go_jet.Plugin.Plan.{ColumnPlan, ResourcePlan}
use protoc_gen_go_jet.Plugin.Identifier.{
  concat, ident_characters, validate_sql_ident, is_lower, is_digit,
}
use protoc_gen_go_jet.Plugin.Check.{
  RenameDirective, cut_text, directive_of, directive_at, parse_body, rename_prefix,
  parse_rename_line, parse_rename_lines, keep_some, parse_rename_directives,
}
use protoc_gen_go_jet.Plugin.Sql.Notes.{
  rename_line, rename_lines, render_rename_directives, renamed, rename_notice,
}

-- A character of an identifier is no white space, and no hyphen.
abbrev IsNameCharacter : ℕ → Type 0
IsNameCharacter c = (is_space c ≡ false) × (c ≢ 45)

ident_characters-All :
    (first : Bool) (s : Text) → ident_characters first s ≡ true → All IsNameCharacter s
unfolding ident_characters
ident_characters-All first [] h = tt
ident_characters-All first (c ∷ s) h =
    let (e, k) = &&_both (c == 95 || is_lower c || not first && is_digit c) _ h in
    ((unfold is_space in ground (arith, e), ground (arith, e)), ident_characters-All false s k)

-- A name: not empty, of such characters.
abbrev IsName : Text → Type 0
IsName s = (is_empty s ≡ false) × All IsNameCharacter s

validate_sql_ident-IsName : (s : Text) → validate_sql_ident s ≡ ok tt → IsName s
unfolding validate_sql_ident
validate_sql_ident-IsName s h = (ground arith, ident_characters-All true s (ground arith))

All-part : (P Q : ℕ → Type 0) (s : Text) → ((c : ℕ) → P c → Q c) → All P s → All Q s
All-part P Q [] f h = tt
All-part P Q (c ∷ s) f (p, h) = (f c p, All-part P Q s f h)

IsName-IsWord : (s : Text) → IsName s → IsWord s
IsName-IsWord [] (e, h) = absurd (cc e)
IsName-IsWord (c ∷ s) (e, h) = ((cc), All-part IsNameCharacter _ (c ∷ s) (λ d (x, y). x) h)

not_newline : (c : ℕ) → is_space c ≡ false → c ≢ 10
unfolding is_space
not_newline c h = ground arith

IsName-Lacks : (s : Text) → IsName s → Lacks 10 s
IsName-Lacks s (e, h) = All-part IsNameCharacter _ s (λ c (x, y). not_newline c x) h

-- What the line of a directive says.
abbrev body : Text → Text → Text → Text
body table from to = table ++ (32 ∷ (from ++ (codes " -> " ++ to)))

abbrev line : Text → Text → Text → Text
line table from to = codes "-- PLUGIN-RENAME: " ++ body table from to

-- The arrow is not found inside a name.
not_blank : (c : ℕ) → is_space c ≡ false → (32 == c) ≡ false
unfolding is_space
not_blank c h = ground arith

cut_text-name :
    (w rest d : Text) {a b : Text}
    → All IsNameCharacter w
    → cut_text rest (32 ∷ d) ≡ some (a, b)
    → cut_text (w ++ rest) (32 ∷ d) ≡ some (w ++ a, b)
unfolding cut_text
cut_text-name [] rest d h e = e
cut_text-name (c ∷ w) rest d ((x, y), h) e =
    let other = not_blank c x in
    let miss : has_prefix (c ∷ (w ++ rest)) (32 ∷ d) ≡ false =
      (unfold has_prefix in ground (arith, other)) in
    rw (miss, cut_text-name w rest d h e) refl

cut_text-blank :
    (from to : Text)
    → IsName from
    → cut_text (32 ∷ (from ++ (codes " -> " ++ to))) (codes " -> ") ≡ some (32 ∷ from, to)
cut_text-blank [] to (e, h) = absurd (cc e)
cut_text-blank (c ∷ from) to (e, ((x, y), h)) =
    let miss : has_prefix (32 ∷ c ∷ (from ++ (codes " -> " ++ to))) (codes " -> ") ≡ false =
      (unfold has_prefix in ground (arith, y)) in
    let here : cut_text (codes " -> " ++ to) (codes " -> ") ≡ some ([], to) =
      (unfold cut_text has_prefix in refl) in
    let rest = cut_text-name (c ∷ from) (codes " -> " ++ to) (codes "-> ") ((x, y), h) here in
    let whole : (c ∷ from) ++ [] ≡ c ∷ from = append-nil (c ∷ from) in
    unfold cut_text in rw (miss, rest, whole) refl

two_words :
    (table from : Text)
    → IsName table
    → IsName from
    → fields (table ++ (32 ∷ from)) ≡ table ∷ from ∷ []
two_words table from t f =
    fields-word table (32 ∷ from) (IsName-IsWord table t) (unfold is_space in refl)
    ∙ ap (λ ws. table ∷ ws) one
  where
    one : fields (32 ∷ from) ≡ from ∷ []
    one =
        unfold fields is_space in
        subst (λ v. fields v ≡ from ∷ []) (append-nil from)
          (fields-word from [] (IsName-IsWord from f) refl)

name_trimmed : (s : Text) → IsName s → trim_space s ≡ s
name_trimmed s h =
    trim_space_id s
      (subst (λ v. starts_word v ≡ true) (append-nil s)
        (IsWord-starts_word s [] (IsName-IsWord s h)))
      (IsWord-EndsWord s (IsName-IsWord s h))

directive_read :
    (table from to : Text)
    → IsName table
    → IsName from
    → IsName to
    → parse_body (body table from to) ≡ some (record { table = table; from = from; to = to })
unfolding parse_body
directive_read table from to t f n =
    ap directive_at (
      cut_text-name table (32 ∷ (from ++ (codes " -> " ++ to))) (codes "-> ") t.1
        (cut_text-blank from to f))
    ∙ (unfold directive_at directive_of in
        rw (two_words table from t f, name_trimmed to n, n.0) refl)

line_read :
    (table from to : Text)
    → IsName table
    → IsName from
    → IsName to
    → parse_rename_line (line table from to) ≡ some (record { table = table; from = from; to = to })
unfolding parse_rename_line
line_read table from to t f n =
    let ends : EndsWord (body table from to) =
      EndsWord-append table (32 ∷ (from ++ (codes " -> " ++ to))) (
        EndsWord-append (32 ∷ from) (codes " -> " ++ to)
          (EndsWord-append (codes " -> ") to (IsWord-EndsWord to (IsName-IsWord to n)))) in
    let whole : trim_space (line table from to) ≡ line table from to =
      trim_space_id (line table from to) (unfold is_space in refl)
        (EndsWord-append (codes "-- PLUGIN-RENAME: ") (body table from to) ends) in
    let inner : trim_space (32 ∷ body table from to) ≡ body table from to =
      trim_space_blank (body table from to) (IsWord-starts_word table _ (IsName-IsWord table t))
        ends in
    let starts : has_prefix (line table from to) rename_prefix ≡ true =
      (unfold has_prefix in refl) in
    rw (whole, starts, inner) (directive_read table from to t f n)

-- One written line, with what follows.
lines_read :
    (table : Text) (c : ColumnPlan) (rest : Text)
    → IsName table
    → IsName c.rename_from
    → IsName c.db_name
    → parse_rename_lines (split (rename_line table c ++ rest) 10)
      ≡ record { table = table; from = c.rename_from; to = c.db_name }
        ∷ parse_rename_lines (split rest 10)
unfolding rename_line parse_rename_lines
lines_read table c rest t f n =
    let from = c.rename_from in
    let to = c.db_name in
    let shape : rename_line table c ++ rest ≡ line table from to ++ (10 ∷ rest) =
      simp append_assoc refl in
    let one_line : Lacks 10 (line table from to) =
      All-append (λ x. x ≢ 10) (codes "-- PLUGIN-RENAME: ") (body table from to) (omega arith)
        (All-append (λ x. x ≢ 10) table (32 ∷ (from ++ (codes " -> " ++ to))) (IsName-Lacks table t)
          (
            (omega arith),
            All-append (λ x. x ≢ 10) from (codes " -> " ++ to) (IsName-Lacks from f)
                (All-append (λ x. x ≢ 10) (codes " -> ") to (omega arith) (IsName-Lacks to n)),
          )) in
    ap (λ x. parse_rename_lines (split x 10)) shape
    ∙ ap parse_rename_lines (split-cons (line table from to) rest 10 one_line)
    ∙ ap (λ o. keep_some o (parse_rename_lines (split rest 10))) (line_read table from to t f n)

-- The directives that the renamed columns of a table declare.
abbrev pub declared : Text → List ColumnPlan → List RenameDirective
declared table [] = []
declared table (c ∷ cs) =
    record { table = table; from = c.rename_from; to = c.db_name } ∷ declared table cs

-- The names of the table and of its renamed columns are identifiers.
abbrev pub AreNamed : ResourcePlan → Type 0
AreNamed p =
    (validate_sql_ident p.table_name ≡ ok tt)
    × All (λ c. (validate_sql_ident c.rename_from ≡ ok tt) × (validate_sql_ident c.db_name ≡ ok tt))
        (renamed p.columns)

columns_read :
    (table : Text) (cs : List ColumnPlan)
    → IsName table
    → All
        (λ c. (validate_sql_ident c.rename_from ≡ ok tt) × (validate_sql_ident c.db_name ≡ ok tt))
        cs
    → parse_rename_lines (split (concat (map (rename_line table) cs)) 10) ≡ declared table cs
columns_read table [] t h =
    (unfold parse_rename_lines parse_rename_line split trim_space has_prefix in refl)
columns_read table (c ∷ cs) t ((f, n), h) =
    lines_read table c (concat (map (rename_line table) cs)) t
      (validate_sql_ident-IsName c.rename_from f) (validate_sql_ident-IsName c.db_name n)
    ∙ ap (λ ds. record { table = table; from = c.rename_from; to = c.db_name } ∷ ds)
        (columns_read table cs t h)

notice_skipped :
    (rest : Text)
    → parse_rename_lines (split (rename_notice ++ rest) 10) ≡ parse_rename_lines (split rest 10)
unfolding parse_rename_lines parse_rename_line split trim_space trim_left trim_right is_space
    has_prefix
notice_skipped rest = refl

-- From the section of rename directives in the SQL of a table, the check reads back exactly the renames
-- that the columns declare, in their order, where the table and the renamed columns have valid names.
pub parse_rename_directives-render_rename_directives :
    (p : ResourcePlan)
    → AreNamed p
    → parse_rename_directives (render_rename_directives p)
      ≡ declared p.table_name (renamed p.columns)
unfolding parse_rename_directives render_rename_directives rename_lines
parse_rename_directives-render_rename_directives p (t, h) = by_columns (renamed p.columns) h
  where
    by_columns :
        (cs : List ColumnPlan)
        → All
            (λ c.
              (validate_sql_ident c.rename_from ≡ ok tt) × (validate_sql_ident c.db_name ≡ ok tt))
            cs
        → parse_rename_lines (split (rename_lines p.table_name cs) 10) ≡ declared p.table_name cs
    by_columns [] g =
        unfold parse_rename_lines parse_rename_line split trim_space has_prefix in refl
    by_columns (c ∷ cs) g =
        notice_skipped (concat (map (rename_line p.table_name) (c ∷ cs)))
        ∙ columns_read p.table_name (c ∷ cs) (validate_sql_ident-IsName p.table_name t) g
