-- ===== src/Plugin/Resolve/Index.antt =====
-- What an accepted index is, and that the SQL of a table with accepted indexes can be rendered.
use protoc_gen_go_jet.Common.{
  ℕ, suc, Text, codes, Bool, true, false, not, ◌&&◌, List, [], ◌∷◌, ◌++◌, map, is_empty, length,
  text_eq, text_eq_iff, contains_byte, if◌then◌else◌, ltb, ◌≡◌, refl, sym, ◌∙◌, ap, subst, ◌⊎◌, inl,
  inr, Bool-cases, All, append_assoc, arith,
}
use protoc_gen_go_jet.Aip.Errors.{Result, ok, fail, plain, ◌>>=◌, >>=-eq-ok, ok-injective}
use protoc_gen_go_jet.Plugin.Plan.{ColumnPlan, OneofColumnPlan, IndexPlan, ResourcePlan}
use protoc_gen_go_jet.Plugin.Identifier.{sql_dollar_quote, validate_sql_ident}
use protoc_gen_go_jet.Plugin.Validate.{Names, claim_name}
use protoc_gen_go_jet.Plugin.Validate.Accepted.{AreDistinct, claim_name-Claimed, Claimed-none}
use protoc_gen_go_jet.Plugin.Resolve.{
  IndexOption, check_repeats, check_direction, resolve_directions, resolve_index, index_name,
}
use protoc_gen_go_jet.Plugin.Sql.{render_schema_sql}
use protoc_gen_go_jet.Plugin.Sql.Index.{index_columns, index_lines, index_line, render_indexes}
use protoc_gen_go_jet.Plugin.Sql.Notes.{
  render_comments, table_comment_line, column_comments, oneof_comments,
}
use protoc_gen_go_jet.Plugin.Sql.Quote.{sql_dollar_quote_total}

abbrev pub IsDirection : Text → Type 0
IsDirection o = (o ≡ codes "ASC") ⊎ (o ≡ codes "DESC")

-- What is checked of an index: columns, each listed once, a direction for each of them, a valid name
-- and a predicate without a semicolon.
abbrev pub IsIndex : IndexPlan → Type 0
IsIndex idx =
    (is_empty idx.columns ≡ false)
    × AreDistinct idx.columns
    × (length idx.order ≡ length idx.columns)
    × All IsDirection idx.order
    × (validate_sql_ident idx.name ≡ ok tt)
    × (contains_byte idx.where_clause 59 ≡ false)

check_repeats-Claimed :
    (cols : List Text) (seen : Names)
    → check_repeats cols seen ≡ ok tt
    → AreDistinct seen
    → AreDistinct (seen ++ cols)
unfolding check_repeats
check_repeats-Claimed [] seen h d = subst AreDistinct (Claimed-none seen).0 d
check_repeats-Claimed (c ∷ cols) seen h d =
    let (more, e, rest) = >>=-eq-ok (claim_name c seen) _ h in
    let (shape, keeps) = claim_name-Claimed c seen e in
    subst AreDistinct (ap (λ l. l ++ cols) shape ∙ append_assoc seen (c ∷ []) cols)
      (check_repeats-Claimed cols more rest (keeps d))

refused : {d : Text} → fail {A = Text} [] plain ≡ ok d → ⊥
refused g = cc

-- The tests that come before an index is made.
passed :
    (b : Bool) {u : Unit {0}}
    → (if b then fail {A = Unit {0}} [] plain else ok tt) ≡ ok u
    → b ≡ false
passed true h = absurd (cc h)
passed false h = refl

module _ (to_upper : ℕ → ℕ) where
  check_direction-IsDirection :
      (o : Text) {d : Text} → check_direction to_upper o ≡ ok d → IsDirection d
  unfolding check_direction
  check_direction-IsDirection o {d} h = elim (Bool-cases (is_empty o)) [
    | inl e ↦ inl (sym (ok-injective (rw e at h)))
    | inr e ↦ chosen (map to_upper o) (rw e at h)
  ]
    where
      chosen :
          (up : Text)
          → (if not (text_eq up (codes "ASC")) && not (text_eq up (codes "DESC"))
              then fail {A = Text} [] plain
              else ok up)
            ≡ ok d
          → IsDirection d
      chosen up g = elim (Bool-cases (text_eq up (codes "ASC"))) [
        | inl a ↦ inl (sym (ok-injective (rw a at g)) ∙ (text_eq_iff up (codes "ASC")).0 a)
        | inr a ↦ elim (Bool-cases (text_eq up (codes "DESC"))) [
          | inl b ↦ inr (sym (ok-injective (rw (a, b) at g)) ∙ (text_eq_iff up (codes "DESC")).0 b)
          | inr b ↦ absurd (refused (rw (a, b) at g))
        ]
      ]

  resolve_directions-IsDirection :
      (cols ord : List Text) {ds : List Text}
      → resolve_directions to_upper cols ord ≡ ok ds
      → (length ds ≡ length cols) × All IsDirection ds
  unfolding resolve_directions
  resolve_directions-IsDirection [] ord h =
      subst (λ l. (length l ≡ 0) × All IsDirection l) (ok-injective h) (refl, tt)
  resolve_directions-IsDirection (c ∷ cols) [] h =
      let (rest, e, same) = >>=-eq-ok (resolve_directions to_upper cols []) _ h in
      let (len, all) = resolve_directions-IsDirection cols [] e in
      subst (λ l. (length l ≡ suc (length cols)) × All IsDirection l) (ok-injective same)
        (ap suc len, (inl refl, all))
  resolve_directions-IsDirection (c ∷ cols) (o ∷ ord) h =
      let (d, f, r) = >>=-eq-ok (check_direction to_upper o) _ h in
      let (rest, e, same) = >>=-eq-ok (resolve_directions to_upper cols ord) _ r in
      let (len, all) = resolve_directions-IsDirection cols ord e in
      subst (λ l. (length l ≡ suc (length cols)) × All IsDirection l) (ok-injective same)
        (ap suc len, (check_direction-IsDirection o f, all))

  -- An index that is accepted has columns, none twice, with a direction for each, a valid name, and a
  -- predicate without a semicolon. This holds whatever characters have in
  -- upper case.
  pub resolve_index-IsIndex :
      (table : Text) (option : IndexOption) {idx : IndexPlan}
      → resolve_index to_upper table option ≡ ok idx
      → IsIndex idx
  unfolding resolve_index
  resolve_index-IsIndex table option h =
      let cols = option.columns in
      let (u, e1, r1) = >>=-eq-ok (if is_empty cols then fail [] plain else ok tt) _ h in
      let (v, e2, r2) = >>=-eq-ok (check_repeats cols []) _ r1 in
      let (w, e3, r3) =
        >>=-eq-ok (if ltb (length cols) (length option.order) then fail [] plain else ok tt) _ r2 in
      let (x, e4, r4) =
        >>=-eq-ok (if contains_byte option.where_clause 59 then fail [] plain else ok tt) _ r3 in
      let (y, e5, r5) = >>=-eq-ok (validate_sql_ident (index_name table option)) _ r4 in
      let (ds, e6, same) = >>=-eq-ok (resolve_directions to_upper cols option.order) _ r5 in
      let (len, all) = resolve_directions-IsDirection cols option.order e6 in
      subst IsIndex (ok-injective same) (
        passed (is_empty cols) e1,
        check_repeats-Claimed cols [] e2 tt,
        len,
        all,
        e5,
        passed (contains_byte option.where_clause 59) e4,
      )

-- Every column has its direction, so none is missed.
index_columns-total :
    (cols ord : List Text)
    → length ord ≡ length cols
    → (l : List Text) × (index_columns cols ord ≡ ok l)
unfolding index_columns
index_columns-total [] ord h = ([], refl)
index_columns-total (c ∷ cols) [] h = absurd (omega arith)
index_columns-total (c ∷ cols) (o ∷ ord) h =
    let (l, e) = index_columns-total cols ord (omega arith) in
    ((if text_eq o (codes "DESC") then c ++ codes " DESC" else c) ∷ l, rw e refl)

index_lines-total :
    (table : Text) (indexes : List IndexPlan)
    → All IsIndex indexes
    → (l : List Text) × (index_lines table indexes ≡ ok l)
unfolding index_lines
index_lines-total table [] h = ([], refl)
index_lines-total table (idx ∷ indexes) (i, h) =
    let (cols, e) = index_columns-total idx.columns idx.order i.2 in
    let (rest, f) = index_lines-total table indexes h in
    (index_line table idx cols ∷ rest, rw (e, f) refl)

-- Something is returned.
abbrev pub Returns {ℓ} : {A : Type ℓ} → Result A → Type ℓ
Returns {A} r = (a : A) × (r ≡ ok a)

bind-Returns {ℓ κ} :
    {A : Type ℓ} {B : Type κ} (r : Result A) (next : A → Result B)
    → Returns r
    → ((a : A) → Returns (next a))
    → Returns (r >>= next)
bind-Returns r next (a, e) h = let (b, f) = h a in (b, rw e f)

-- A part that is left out where a comment is empty.
skipped-Returns :
    (b : Bool) (x y : Result Text) → Returns x → Returns y → Returns (if b then x else y)
skipped-Returns true x y hx hy = hx
skipped-Returns false x y hx hy = hy

quoted-Returns : (s : Text) → Returns (sql_dollar_quote s)
quoted-Returns s = sql_dollar_quote_total s

column_comments-Returns : (table : Text) (cs : List ColumnPlan) → Returns (column_comments table cs)
unfolding column_comments
column_comments-Returns table [] = ([], refl)
column_comments-Returns table (c ∷ cs) =
    let rest = column_comments-Returns table cs in
    skipped-Returns (is_empty c.comment) (column_comments table cs) _ rest (
      bind-Returns (sql_dollar_quote c.comment) _ (quoted-Returns c.comment)
        (λ q. bind-Returns (column_comments table cs) _ rest (λ more. (_, refl))))

oneof_comments-Returns :
    (table : Text) (ocs : List OneofColumnPlan) → Returns (oneof_comments table ocs)
unfolding oneof_comments
oneof_comments-Returns table [] = ([], refl)
oneof_comments-Returns table (oc ∷ ocs) =
    let rest = oneof_comments-Returns table ocs in
    skipped-Returns (is_empty oc.comment) (oneof_comments table ocs) _ rest (
      bind-Returns (sql_dollar_quote oc.comment) _ (quoted-Returns oc.comment)
        (λ q. bind-Returns (oneof_comments table ocs) _ rest (λ more. (_, refl))))

table_comment_line-Returns : (p : ResourcePlan) → Returns (table_comment_line p)
unfolding table_comment_line
table_comment_line-Returns p =
    skipped-Returns (is_empty p.table_comment) (ok []) _ ([], refl)
      (bind-Returns (sql_dollar_quote p.table_comment) _ (quoted-Returns p.table_comment)
        (λ q. (_, refl)))

render_comments-Returns : (p : ResourcePlan) → Returns (render_comments p)
unfolding render_comments
render_comments-Returns p =
    skipped-Returns _ (ok []) _ ([], refl)
      (bind-Returns (table_comment_line p) _ (table_comment_line-Returns p) (λ table.
        bind-Returns (column_comments p.table_name _) _ (column_comments-Returns p.table_name _)
          (λ columns.
            bind-Returns (oneof_comments p.table_name p.oneof_columns) _
              (oneof_comments-Returns p.table_name p.oneof_columns) (λ oneofs. (_, refl)))))

-- The SQL of a table whose indexes were accepted is rendered: no direction is missing, and every comment
-- gets a delimiter.
pub render_schema_sql-Returns :
    (p : ResourcePlan) → All IsIndex p.indexes → Returns (render_schema_sql p)
unfolding render_schema_sql render_indexes
render_schema_sql-Returns p h =
    bind-Returns (render_indexes p) _
      (bind-Returns (index_lines p.table_name p.indexes) _
        (index_lines-total p.table_name p.indexes h) (λ lines. (_, refl)))
      (λ indexes.
        bind-Returns (render_comments p) _ (render_comments-Returns p) (λ comments. (_, refl)))
