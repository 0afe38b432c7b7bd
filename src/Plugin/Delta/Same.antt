-- ===== src/Plugin/Delta/Same.antt =====
-- When two snapshots of a table have no delta.
use protoc_gen_go_jet.Common.{
  Text, codes, Bool, true, false, not, List, [], ◌∷◌, ◌++◌, Option, none, some, text_eq,
  text_eq_iff, bool_eq, bool_eq_iff, lookup, has_prefix, ◌≡◌, refl, sym, ◌∙◌, ap, subst, ◌↔◌, inl,
  inr, Bool-cases, Option-cases, Has, arith,
}
use protoc_gen_go_jet.Plugin.Identifier.{join_texts}
use protoc_gen_go_jet.Plugin.Sql.Table.{text_lt}
use protoc_gen_go_jet.Plugin.Delta.{
  Column, CheckConstraint, Index, Policy, TableForeignKey, TableSnapshot, column_eq, check_eq,
  index_eq, policy_eq, foreign_key_eq, insert_name, sorted_names, index_by, keys, diff_entry,
  diff_names, diff_named, with_hazards, column_delta, check_delta, index_delta, policy_delta,
  foreign_key_delta, compute_table_delta, changed,
}

-- The comparison of two values tells whether they are the same.
abbrev pub Decides : {T : Type 0} → (T → T → Bool) → Type 0
Decides {T} eq = (a b : T) → (eq a b ≡ true) ↔ (a ≡ b)

column_eq-Decides : Decides column_eq
column_eq-Decides a b = ground (
  arith,
  text_eq_iff a.name b.name,
  text_eq_iff a.sql_type b.sql_type,
  bool_eq_iff a.not_null b.not_null,
  text_eq_iff a.default_expr b.default_expr,
  text_eq_iff a.comment b.comment,
)

check_eq-Decides : Decides check_eq
check_eq-Decides a b = ground (arith, text_eq_iff a.name b.name, text_eq_iff a.body b.body)

index_eq-Decides : Decides index_eq
index_eq-Decides a b = ground (arith, text_eq_iff a.name b.name, text_eq_iff a.sql b.sql)

policy_eq-Decides : Decides policy_eq
policy_eq-Decides a b = ground (
  arith,
  text_eq_iff a.name b.name,
  text_eq_iff a.role b.role,
  text_eq_iff a.using b.using,
  text_eq_iff a.with_check b.with_check,
  text_eq_iff a.for_cmd b.for_cmd,
)

foreign_key_eq-Decides : Decides foreign_key_eq
foreign_key_eq-Decides a b = ground (
  arith,
  text_eq_iff a.name b.name,
  text_eq_iff a.body b.body,
  bool_eq_iff a.validated b.validated,
  bool_eq_iff a.has_backing_index b.has_backing_index,
)

insert_name-Has : (n : Text) (ms : List Text) → Has n (insert_name n ms)
unfolding insert_name
insert_name-Has n [] = inl refl
insert_name-Has n (m ∷ ms) = elim (Bool-cases (text_eq n m)) [
  | inl e ↦ rw e (inl ((text_eq_iff n m).0 e))
  | inr e ↦ elim (Bool-cases (text_lt n m)) [
    | inl f ↦ rw (e, f) (inl refl)
    | inr f ↦ rw (e, f) (inr (insert_name-Has n ms))
  ]
]

insert_name-keeps : (n k : Text) (ms : List Text) → Has k ms → Has k (insert_name n ms)
unfolding insert_name
insert_name-keeps n k [] h = elim h [ ]
insert_name-keeps n k (m ∷ ms) (inl q) = elim (Bool-cases (text_eq n m)) [
  | inl e ↦ rw e (inl q)
  | inr e ↦ elim (Bool-cases (text_lt n m)) [
    | inl f ↦ rw (e, f) (inr (inl q))
    | inr f ↦ rw (e, f) (inl q)
  ]
]
insert_name-keeps n k (m ∷ ms) (inr h) =
    let kept = insert_name-keeps n k ms h in
    elim (Bool-cases (text_eq n m)) [
      | inl e ↦ rw e (inr h)
      | inr e ↦ elim (Bool-cases (text_lt n m)) [
        | inl f ↦ rw (e, f) (inr (inr h))
        | inr f ↦ rw (e, f) (inr kept)
      ]
    ]

sorted_names-Has : (k : Text) (ns : List Text) → Has k ns → Has k (sorted_names ns)
unfolding sorted_names
sorted_names-Has k [] h = elim h [ ]
sorted_names-Has k (n ∷ ns) (inl q) =
    subst (λ x. Has x (insert_name n (sorted_names ns))) (sym q)
      (insert_name-Has n (sorted_names ns))
sorted_names-Has k (n ∷ ns) (inr h) =
    insert_name-keeps n k (sorted_names ns) (sorted_names-Has k ns h)

Has-right : (x : Text) (xs ys : List Text) → Has x ys → Has x (xs ++ ys)
Has-right x [] ys h = h
Has-right x (y ∷ xs) ys h = inr (Has-right x xs ys h)

Has-left : (x : Text) (xs ys : List Text) → Has x xs → Has x (xs ++ ys)
Has-left x [] ys h = elim h [ ]
Has-left x (y ∷ xs) ys (inl e) = inl e
Has-left x (y ∷ xs) ys (inr h) = inr (Has-left x xs ys h)

nothing_appended : {A : Type 0} (xs ys : List A) → xs ++ ys ≡ [] → (xs ≡ []) × (ys ≡ [])
nothing_appended [] ys h = (refl, h)
nothing_appended (x ∷ xs) ys h = absurd (cc h)

module _ {T : Type 0} (eq : T → T → Bool) (decides : Decides eq) where
  lookup-keys : (n : Text) (m : List (Text × T)) {x : T} → lookup n m ≡ some x → Has n (keys m)
  unfolding lookup
  lookup-keys n [] h = absurd (cc h)
  lookup-keys n ((k, y) ∷ m) h = elim (Bool-cases (text_eq k n)) [
    | inl e ↦ inl (sym ((text_eq_iff k n).0 e))
    | inr e ↦ inr (lookup-keys n m (rw e at h))
  ]

  -- A name without a line has one value on both sides.
  diff_entry_same :
      (table kind n : Text) (c t : Option T) → diff_entry eq table kind n c t ≡ [] → c ≡ t
  unfolding diff_entry
  diff_entry_same table kind n none none h = refl
  diff_entry_same table kind n none (some t) h = absurd (cc h)
  diff_entry_same table kind n (some c) none h = absurd (cc h)
  diff_entry_same table kind n (some c) (some t) h = elim (Bool-cases (eq c t)) [
    | inl e ↦ ap some ((decides c t).0 e)
    | inr e ↦ absurd (a_line (rw e at h))
  ]
    where
      a_line : {l : Text} → ◌≡◌ {A = List Text} (l ∷ []) [] → ⊥
      a_line g = cc

  diff_entry_none : (table kind n : Text) (c : Option T) → diff_entry eq table kind n c c ≡ []
  unfolding diff_entry
  diff_entry_none table kind n none = refl
  diff_entry_none table kind n (some c) = rw ((decides c c).1 refl) refl

  diff_names_same :
      (table kind : Text) (cur tgt : List (Text × T)) (ns : List Text) (n : Text)
      → diff_names eq table kind cur tgt ns ≡ []
      → Has n ns
      → lookup n cur ≡ lookup n tgt
  unfolding diff_names
  diff_names_same table kind cur tgt [] n h m = elim m [ ]
  diff_names_same table kind cur tgt (k ∷ ns) n h (inl q) =
      let (first, rest) =
        nothing_appended (diff_entry eq table kind k (lookup k cur) (lookup k tgt)) _ h in
      subst (λ x. lookup x cur ≡ lookup x tgt) (sym q)
        (diff_entry_same table kind k (lookup k cur) (lookup k tgt) first)
  diff_names_same table kind cur tgt (k ∷ ns) n h (inr m) =
      let (first, rest) =
        nothing_appended (diff_entry eq table kind k (lookup k cur) (lookup k tgt)) _ h in
      diff_names_same table kind cur tgt ns n rest m

  diff_names_none :
      (table kind : Text) (cur tgt : List (Text × T)) (ns : List Text)
      → ((n : Text) → lookup n cur ≡ lookup n tgt)
      → diff_names eq table kind cur tgt ns ≡ []
  unfolding diff_names
  diff_names_none table kind cur tgt [] h = refl
  diff_names_none table kind cur tgt (k ∷ ns) h =
      let entry : diff_entry eq table kind k (lookup k cur) (lookup k tgt) ≡ [] =
        rw (h k) (diff_entry_none table kind k (lookup k tgt)) in
      rw (entry, diff_names_none table kind cur tgt ns h) refl

  pub diff_named_iff :
      (table kind : Text) (cur tgt : List (Text × T))
      → (diff_named eq table kind cur tgt ≡ []) ↔ ((n : Text) → lookup n cur ≡ lookup n tgt)
  unfolding diff_named
  diff_named_iff table kind cur tgt =
      let names = sorted_names (keys cur ++ keys tgt) in
      (
        λ h n. (elim (Option-cases (lookup n cur)) [
          | inr (x, e) ↦ diff_names_same table kind cur tgt names n h (
              sorted_names-Has n (keys cur ++ keys tgt)
                (Has-left n (keys cur) (keys tgt) (lookup-keys n cur e)))
          | inl e ↦ elim (Option-cases (lookup n tgt)) [
            | inr (x, f) ↦ diff_names_same table kind cur tgt names n h (
                sorted_names-Has n (keys cur ++ keys tgt)
                  (Has-right n (keys cur) (keys tgt) (lookup-keys n tgt f)))
            | inl f ↦ e ∙ sym f
          ]
        ]),
        λ h. diff_names_none table kind cur tgt names h,
      )

-- The items of one name are the same on both sides.
abbrev pub AreSame : {T : Type 0} → (T → Text) → List T → List T → Type 0
AreSame key cur tgt = (n : Text) → lookup n (index_by key cur) ≡ lookup n (index_by key tgt)

-- Nothing that the check compares differs.
abbrev pub IsSame : TableSnapshot → TableSnapshot → Type 0
IsSame cur tgt =
    AreSame (λ (c : Column). c.name) cur.columns tgt.columns
    × AreSame (λ (c : CheckConstraint). c.name) cur.check_constraint tgt.check_constraint
    × AreSame (λ (c : Index). c.name) cur.index tgt.index
    × AreSame (λ (c : Policy). c.name) cur.policy tgt.policy
    × AreSame (λ (c : TableForeignKey). c.name) cur.foreign_key tgt.foreign_key
    × (join_texts (codes ",") cur.primary_key ≡ join_texts (codes ",") tgt.primary_key)
    × (cur.rls_enabled ≡ tgt.rls_enabled)
    × (cur.table_comment ≡ tgt.table_comment)

with_hazards_none : (table : Text) (lines : List Text) → with_hazards table lines ≡ [] → lines ≡ []
unfolding with_hazards
with_hazards_none table [] h = refl
with_hazards_none table (l ∷ lines) h = elim (Bool-cases (has_prefix l (codes "+ fk "))) [
  | inl e ↦ absurd (a_line (rw e at h))
  | inr e ↦ absurd (a_line (rw e at h))
]
  where
    a_line : {k : Text} {ks : List Text} → ◌≡◌ {A = List Text} (k ∷ ks) [] → ⊥
    a_line g = cc

changed_iff : (b : Bool) (what table : Text) → (changed (not b) what table ≡ []) ↔ (b ≡ true)
changed_iff true what table = (λ h. refl, λ h. refl)
changed_iff false what table = (λ h. absurd (cc h), λ h. absurd (cc h))

-- Two snapshots have no delta exactly if nothing that the check compares differs: of each name the
-- column, the constraint, the index, the policy and the foreign key, with all of their fields; the primary
-- key as it is printed; row-level security; and the comment of the table.
pub compute_table_delta_iff :
    (table : Text) (cur tgt : TableSnapshot)
    → (compute_table_delta table cur tgt ≡ []) ↔ IsSame cur tgt
unfolding compute_table_delta column_delta check_delta index_delta policy_delta foreign_key_delta
compute_table_delta_iff table cur tgt =
    let columns =
      diff_named_iff column_eq column_eq-Decides table (codes "column")
        (index_by (λ c. c.name) cur.columns) (index_by (λ c. c.name) tgt.columns) in
    let checks =
      diff_named_iff check_eq check_eq-Decides table (codes "check")
        (index_by (λ c. c.name) cur.check_constraint)
        (index_by (λ c. c.name) tgt.check_constraint) in
    let indexes =
      diff_named_iff index_eq index_eq-Decides table (codes "index")
        (index_by (λ c. c.name) cur.index) (index_by (λ c. c.name) tgt.index) in
    let policies =
      diff_named_iff policy_eq policy_eq-Decides table (codes "policy")
        (index_by (λ c. c.name) cur.policy) (index_by (λ c. c.name) tgt.policy) in
    let fks =
      diff_named_iff foreign_key_eq foreign_key_eq-Decides table (codes "fk")
        (index_by (λ c. c.name) cur.foreign_key) (index_by (λ c. c.name) tgt.foreign_key) in
    let pk =
      text_eq (join_texts (codes ",") cur.primary_key) (join_texts (codes ",") tgt.primary_key) in
    let rls = bool_eq cur.rls_enabled tgt.rls_enabled in
    let comment = text_eq cur.table_comment tgt.table_comment in
    (
      λ h.
          let (h1, r1) = nothing_appended (column_delta table cur tgt) _ h in
          let (h2, r2) = nothing_appended (check_delta table cur tgt) _ r1 in
          let (h3, r3) = nothing_appended (index_delta table cur tgt) _ r2 in
          let (h4, r4) = nothing_appended (policy_delta table cur tgt) _ r3 in
          let (h5, r5) =
            nothing_appended (with_hazards table (foreign_key_delta table cur tgt)) _ r4 in
          let (h6, r6) = nothing_appended (changed (not pk) (codes "primary_key") table) _ r5 in
          let (h7, h8) = nothing_appended (changed (not rls) (codes "rls") table) _ r6 in
          (
            columns.0 h1,
            checks.0 h2,
            indexes.0 h3,
            policies.0 h4,
            fks.0 (with_hazards_none table (foreign_key_delta table cur tgt) h5),
            (text_eq_iff _ _).0 ((changed_iff pk (codes "primary_key") table).0 h6),
            (bool_eq_iff cur.rls_enabled tgt.rls_enabled).0
                ((changed_iff rls (codes "rls") table).0 h7),
            (text_eq_iff cur.table_comment tgt.table_comment).0
                ((changed_iff comment (codes "table_comment") table).0 h8),
          ),
      λ (c, k, i, p, f, key, security, note).
          rw
            (
              columns.1 c,
              checks.1 k,
              indexes.1 i,
              policies.1 p,
              fks.1 f,
              (changed_iff pk (codes "primary_key") table).1 ((text_eq_iff _ _).1 key),
              (changed_iff rls (codes "rls") table).1
                  ((bool_eq_iff cur.rls_enabled tgt.rls_enabled).1 security),
              (changed_iff comment (codes "table_comment") table).1
                  ((text_eq_iff cur.table_comment tgt.table_comment).1 note),
            )
            (unfold with_hazards in refl),
    )
