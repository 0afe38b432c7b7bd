-- ===== src/Plugin/Validate/Scope.antt =====
-- The unique keys of an accepted plan, and the tenancy.
use protoc_gen_go_jet.Common.{
  Text, Bool, true, false, not, ◌&&◌, List, [], ◌∷◌, ◌++◌, Option, none, some, is_empty, filterb,
  text_eq, text_eq_iff, if◌then◌else◌, ◌≡◌, sym, subst, All, All-from, All-Has, Has, arith,
  Bool-cases, inl, inr,
}
use protoc_gen_go_jet.Aip.Errors.{Result, ok, fail, plain, >>=-eq-ok}
use protoc_gen_go_jet.Plugin.Plan.{ColumnPlan, IndexPlan, TenancyPlan, ResourcePlan}
use protoc_gen_go_jet.Plugin.Validate.{
  Names, member, claim_name, check_each, require_known, require_column, require_scope,
  check_tenancy, check_key, check_index_scope, claim_indexes, validate_plan,
}
use protoc_gen_go_jet.Plugin.Validate.Accepted.{column_names, validate_plan-HasPassed}
use protoc_gen_go_jet.Plugin.Sql.Index.{scope_columns, unique_index_columns}

-- The columns that set one tenant apart, or one user of a tenant.
abbrev pub IsScopedBy : Option TenancyPlan → Names → Type 0
IsScopedBy tenancy key = All (λ s. member s key ≡ true) (scope_columns tenancy)

-- The keys on which two rows of a table can collide: the primary key, a unique index without a
-- predicate, and the index of a column with `unique: true`.
pub data CollidesOn (p : ResourcePlan) : Names → Type 0 where
  primary : (key : Names) → p.primary_key ≡ key → CollidesOn p key
  declared :
      (idx : IndexPlan)
      → Has idx p.indexes
      → idx.is_unique ≡ true
      → is_empty idx.where_clause ≡ true
      → (key : Names) → idx.columns ≡ key
      → CollidesOn p key
  of_column :
      (c : ColumnPlan)
      → Has c p.columns
      → c.is_unique ≡ true
      → (key : Names) → unique_index_columns p c.db_name ≡ key
      → CollidesOn p key

requires :
    (columns : Names) (col : Text) → require_column columns col ≡ ok tt → member col columns ≡ true
unfolding require_column
requires columns col h = ground arith

require_scope-IsScopedBy :
    (columns : Names) (t : TenancyPlan)
    → require_scope columns t ≡ ok tt
    → IsScopedBy (some t) columns
unfolding require_scope scope_columns
require_scope-IsScopedBy columns t h =
    let (u, tenant, rest) = >>=-eq-ok (require_column columns t.column) _ h in
    elim (Bool-cases t.user_scoped) [
      | inl e ↦
          rw e
            (requires columns t.column tenant, (requires columns t.user_column (rw e at rest), tt))
      | inr e ↦ rw e (requires columns t.column tenant, tt)
    ]

key_scope : (o : Option TenancyPlan) (pk : Names) → check_tenancy pk o ≡ ok tt → IsScopedBy o pk
unfolding scope_columns check_tenancy
key_scope none pk h = tt
key_scope (some t) pk h = require_scope-IsScopedBy pk t h

check_key-IsScopedBy :
    (known : Names) (p : ResourcePlan)
    → check_key known p ≡ ok tt
    → IsScopedBy p.tenancy p.primary_key
unfolding check_key
check_key-IsScopedBy known p h =
    let (u, some_key, r) =
      >>=-eq-ok (if is_empty p.primary_key then fail [] plain else ok tt) _ h in
    let (v, all_known, rest) = >>=-eq-ok (check_each (require_known known) p.primary_key) _ r in
    key_scope p.tenancy p.primary_key rest

check_index_scope-IsScopedBy :
    (o : Option TenancyPlan) (idx : IndexPlan)
    → idx.is_unique ≡ true
    → is_empty idx.where_clause ≡ true
    → check_index_scope o idx ≡ ok tt
    → IsScopedBy o idx.columns
unfolding check_index_scope scope_columns
check_index_scope-IsScopedBy none idx unique everywhere h = tt
check_index_scope-IsScopedBy (some t) idx unique everywhere h =
    require_scope-IsScopedBy idx.columns t
      (scoped idx.is_unique (is_empty idx.where_clause) unique everywhere h)
  where
    scoped :
        (a b : Bool) {r : Result (Unit {0})}
        → a ≡ true
        → b ≡ true
        → (if a && b then r else ok tt) ≡ ok tt
        → r ≡ ok tt
    scoped true true e f g = g
    scoped true false e f g = absurd (cc f)
    scoped false b e f g = absurd (cc e)

pub claim_indexes-All :
    (known : Names) (o : Option TenancyPlan) (indexes : List IndexPlan) (names : Names)
    {after : Names}
    → claim_indexes known o indexes names ≡ ok after
    → All
        (λ idx.
          (check_each (require_known known) idx.columns ≡ ok tt)
          × (check_index_scope o idx ≡ ok tt))
        indexes
unfolding claim_indexes
claim_indexes-All known o [] names h = tt
claim_indexes-All known o (idx ∷ indexes) names h =
    let (more, e, r) = >>=-eq-ok (claim_name idx.name names) _ h in
    let (u, f, r') = >>=-eq-ok (check_each (require_known known) idx.columns) _ r in
    let (v, g, rest) = >>=-eq-ok (check_index_scope o idx) _ r' in
    ((f, g), claim_indexes-All known o indexes more rest)

member-cons : (s c : Text) (l : Names) → member s l ≡ true → member s (c ∷ l) ≡ true
unfolding member
member-cons s c l h = ground (arith, h)

member-head : (s c : Text) (l : Names) → text_eq s c ≡ true → member s (c ∷ l) ≡ true
unfolding member
member-head s c l h = ground (arith, h)

member-end : (s col : Text) (l : Names) → text_eq s col ≡ true → member s (l ++ col ∷ []) ≡ true
member-end s col [] e = member-head s col [] e
member-end s col (t ∷ l) e = member-cons s t (l ++ col ∷ []) (member-end s col l e)

-- A column of the scope is in the index of a unique column, once.
filtered_scope :
    (col s : Text) (ss : Names)
    → Has s ss
    → member s (filterb (λ t. not (text_eq t col)) ss ++ col ∷ []) ≡ true
filtered_scope col s [] m = elim m [ ]
filtered_scope col s (t ∷ ss) (inl q) = elim (Bool-cases (text_eq t col)) [
  | inl e ↦ rw e (
      member-end s col (filterb (λ u. not (text_eq u col)) ss)
        (subst (λ u. text_eq u col ≡ true) (sym q) e))
  | inr e ↦
      rw e (
        member-head s t (filterb (λ u. not (text_eq u col)) ss ++ col ∷ []) ((text_eq_iff s t).1 q))
]
filtered_scope col s (t ∷ ss) (inr m) =
    let rest = filtered_scope col s ss m in
    elim (Bool-cases (text_eq t col)) [
      | inl e ↦ rw e rest
      | inr e ↦ rw e (member-cons s t (filterb (λ u. not (text_eq u col)) ss ++ col ∷ []) rest)
    ]

unique_index_columns-IsScopedBy :
    (p : ResourcePlan) (col : Text) → IsScopedBy p.tenancy (unique_index_columns p col)
unfolding unique_index_columns
unique_index_columns-IsScopedBy p col =
    All-from _ (scope_columns p.tenancy) (λ s m. filtered_scope col s (scope_columns p.tenancy) m)

-- In an accepted plan, each key on which two rows can collide has the tenant's column in it, and the
-- user's where the table is scoped by user: a collision tells a tenant nothing of another's rows.
pub validate_plan-IsScopedBy :
    (p : ResourcePlan) (key : Names)
    → validate_plan p ≡ ok tt
    → CollidesOn p key
    → IsScopedBy p.tenancy key
validate_plan-IsScopedBy p key h (primary cols e) =
    let (distinct, keys, part, names, kinds, order, ties) = validate_plan-HasPassed p h in
    subst (IsScopedBy p.tenancy) e (check_key-IsScopedBy (column_names p) p keys)
validate_plan-IsScopedBy p key h (declared idx m unique everywhere cols e) =
    let (distinct, keys, part, (a, b, c, d, ea, eb, ec, ed), kinds, order, ties) =
      validate_plan-HasPassed p h in
    let all = claim_indexes-All (column_names p) p.tenancy p.indexes [] ea in
    let ok_index = All-Has _ idx p.indexes all m in
    subst (IsScopedBy p.tenancy) e
      (check_index_scope-IsScopedBy p.tenancy idx unique everywhere ok_index.1)
validate_plan-IsScopedBy p key h (of_column c m unique cols e) =
    subst (IsScopedBy p.tenancy) e (unique_index_columns-IsScopedBy p c.db_name)
