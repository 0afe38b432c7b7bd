-- ===== src/Plugin/Sql/Ident.antt =====
-- What PostgreSQL reads where emit_sql.go quotes an identifier (manual, section 4.1.1).
use protoc_gen_go_jet.Common.{
  ℕ, Text, Bool, true, false, [], ◌∷◌, ◌++◌, Option, none, some, has_prefix, if◌then◌else◌, ◌==◌,
  ◌≡◌, refl, inl, inr, Bool-cases, ==_iff, append_assoc, arith,
}
use protoc_gen_go_jet.Plugin.Identifier.{doubled, pg_ident}

-- A quoted identifier and what follows: two double quotes stand for one.
abbrev keep : ℕ → Option (Text × Text) → Option (Text × Text)
keep c none = none
keep c (some (a, b)) = some (c ∷ a, b)

unfoldable pub read_quotes : (seen : Bool) → Text → Option (Text × Text)
read_quotes true [] = some ([], [])
read_quotes false [] = none
read_quotes true (c ∷ s) =
    let rest = read_quotes false s in if c == 34 then keep 34 rest else some ([], c ∷ s)
read_quotes false (c ∷ s) =
    let quote = read_quotes true s in
    let rest = read_quotes false s in if c == 34 then quote else keep c rest

unfoldable pub read_ident : Text → Option (Text × Text)
unfolding read_quotes
read_ident [] = none
read_ident (c ∷ s) = let rest = read_quotes false s in if c == 34 then rest else none

read_quotes-doubled :
    (s rest : Text)
    → has_prefix rest (34 ∷ []) ≡ false
    → read_quotes false (doubled s ++ (34 ∷ rest)) ≡ some (s, rest)
unfolding read_quotes doubled has_prefix
read_quotes-doubled [] [] h = refl
read_quotes-doubled [] (c ∷ rest) h = let other : (c == 34) ≡ false = ground arith in rw other refl
read_quotes-doubled (c ∷ s) rest h = elim (Bool-cases (c == 34)) [
  | inl e ↦ rw (e, read_quotes-doubled s rest h, (==_iff c 34).0 e) refl
  | inr e ↦ rw (e, e, read_quotes-doubled s rest h) refl
]

-- Whatever characters a role has, double quotes included, the quoted identifier is read as that role,
-- and the reader goes on with what follows, unless that begins with a double quote. The reader knows
-- PostgreSQL's rule for doubled quotes; that an identifier is cut at 63 bytes and has no character of
-- code zero is left out.
pub pg_ident-read_ident :
    (s rest : Text)
    → has_prefix rest (34 ∷ []) ≡ false
    → read_ident (pg_ident s ++ rest) ≡ some (s, rest)
unfolding pg_ident read_ident
pg_ident-read_ident s rest h =
    let shape : (doubled s ++ 34 ∷ []) ++ rest ≡ doubled s ++ (34 ∷ rest) =
      append_assoc (doubled s) (34 ∷ []) rest in
    rw shape (read_quotes-doubled s rest h)
