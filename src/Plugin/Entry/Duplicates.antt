-- ===== src/Plugin/Entry/Duplicates.antt =====
-- The tables that are created twice in one directory.
use protoc_gen_go_jet.Common.{
  Text, Bool, true, false, List, [], ◌∷◌, ◌++◌, Option, none, some, text_eq, text_eq_iff, lookup,
  ◌≡◌, ◌↔◌, refl, subst, All, All-from, Bool-cases, inl, inr,
}
use protoc_gen_go_jet.Common.Words.{Lacks}
use protoc_gen_go_jet.Plugin.Entry.{
  PendingEmit, table_key, report, see, duplicates_from, detect_duplicate_tables,
}

-- Two messages are for one table.
abbrev pub SameTable : PendingEmit → PendingEmit → Type 0
SameTable a b = (a.plan.go_dir ≡ b.plan.go_dir) × (a.plan.table_name ≡ b.plan.table_name)

-- No two messages of the run are for one table.
abbrev pub NoneSame : List PendingEmit → Type 0
NoneSame [] = Unit
NoneSame (a ∷ others) = All (λ b. ¬ SameTable a b) others × NoneSame others

-- The name of the table has no bar, as no valid name has.
abbrev pub IsBarless : PendingEmit → Type 0
IsBarless pe = Lacks 124 pe.plan.table_name

has_sep : (a s : Text) → Lacks 124 (a ++ 124 ∷ s) → ⊥
has_sep [] s h = h.0 refl
has_sep (c ∷ a) s h = has_sep a s h.1

-- A separator that is in neither of the second parts.
append_sep_inj :
    (a b s t : Text) → Lacks 124 s → Lacks 124 t → a ++ 124 ∷ s ≡ b ++ 124 ∷ t → (a ≡ b) × (s ≡ t)
append_sep_inj [] [] s t hs ht e = (refl, cc e)
append_sep_inj (c ∷ a) [] s t hs ht e = absurd (has_sep a s (subst (Lacks 124) (tail e) ht))
  where
    tail : (c ∷ a) ++ 124 ∷ s ≡ 124 ∷ t → t ≡ a ++ 124 ∷ s
    tail g = cc g
append_sep_inj [] (d ∷ b) s t hs ht e = absurd (has_sep b t (subst (Lacks 124) (tail e) hs))
  where
    tail : 124 ∷ s ≡ (d ∷ b) ++ 124 ∷ t → s ≡ b ++ 124 ∷ t
    tail g = cc g
append_sep_inj (c ∷ a) (d ∷ b) s t hs ht e =
    let (x, y) = append_sep_inj a b s t hs ht (cc e) in (head x, y)
  where
    head : a ≡ b → c ∷ a ≡ d ∷ b
    head g = cc (g, e)

table_key_iff :
    (a b : PendingEmit)
    → IsBarless a
    → IsBarless b
    → (text_eq (table_key a) (table_key b) ≡ true) ↔ SameTable a b
unfolding table_key
table_key_iff a b ha hb = (
  λ e.
      append_sep_inj a.plan.go_dir b.plan.go_dir a.plan.table_name b.plan.table_name ha hb
        ((text_eq_iff (table_key a) (table_key b)).0 e),
  λ (d, n). (text_eq_iff (table_key a) (table_key b)).1 (rw (d, n)),
)

-- A message whose key is not in the map.
abbrev Unseen : List (Text × Text) → PendingEmit → Type 0
Unseen seen pe = lookup (table_key pe) seen ≡ none

-- A new entry hides nothing but the messages of its table.
Unseen-see :
    (a : PendingEmit) (seen : List (Text × Text)) (b : PendingEmit)
    → IsBarless a
    → IsBarless b
    → Unseen ((table_key a, a.source) ∷ seen) b ↔ ((¬ SameTable a b) × Unseen seen b)
unfolding lookup
Unseen-see a seen b ha hb = elim (Bool-cases (text_eq (table_key a) (table_key b))) [
  | inl e ↦ rw e (λ h. absurd (some_none h), λ (n, h). absurd (n ((table_key_iff a b ha hb).0 e)))
  | inr e ↦ rw e (λ h. (λ same. false_true e ((table_key_iff a b ha hb).1 same), h), λ (n, h). h)
]
  where
    some_none : some a.source ≡ none → ⊥
    some_none h = cc h

    false_true : {x : Bool} → x ≡ false → x ≡ true → ⊥
    false_true f t = cc (f, t)

All-Unseen-see :
    (a : PendingEmit) (seen : List (Text × Text)) (pending : List PendingEmit)
    → IsBarless a
    → All IsBarless pending
    → All (Unseen ((table_key a, a.source) ∷ seen)) pending
      ↔ (All (λ b. ¬ SameTable a b) pending × All (Unseen seen) pending)
All-Unseen-see a seen [] ha hs = (λ h. (tt, tt), λ h. tt)
All-Unseen-see a seen (b ∷ pending) ha (hb, hs) =
    let first = Unseen-see a seen b ha hb in
    let others = All-Unseen-see a seen pending ha hs in
    (
      λ (h, hh). (((first.0 h).0, (others.0 hh).0), ((first.0 h).1, (others.0 hh).1)),
      λ ((n, ns), (h, hh)). (first.1 (n, h), others.1 (ns, hh)),
    )

duplicates_from_iff :
    (pending : List PendingEmit) (seen : List (Text × Text))
    → All IsBarless pending
    → (duplicates_from pending seen ≡ []) ↔ (NoneSame pending × All (Unseen seen) pending)
unfolding duplicates_from report see
duplicates_from_iff [] seen hs = (λ h. (tt, tt), λ h. refl)
duplicates_from_iff (a ∷ pending) seen (ha, hs) =
    go (lookup (table_key a) seen) refl
      (duplicates_from_iff pending ((table_key a, a.source) ∷ seen) hs)
  where
    go :
        (found : Option Text)
        → lookup (table_key a) seen ≡ found
        → (duplicates_from pending ((table_key a, a.source) ∷ seen) ≡ [])
          ↔ (NoneSame pending × All (Unseen ((table_key a, a.source) ∷ seen)) pending)
        → (duplicates_from (a ∷ pending) seen ≡ [])
          ↔ (NoneSame (a ∷ pending) × All (Unseen seen) (a ∷ pending))
    go (some previous) e rest = rw e (λ h. absurd (cc h), λ (n, (h, hh)). absurd (cc h))
    go none e rest =
        let split = All-Unseen-see a seen pending ha hs in
        rw e (
          λ h. let (n, unseen) = rest.0 h in (((split.0 unseen).0, n), (refl, (split.0 unseen).1)),
          λ ((ns, n), (h, hh)). rest.1 (n, split.1 (ns, hh)),
        )

-- The tables of a run are accepted exactly if no two messages of it are for one table name in one
-- directory. No name of a table has a bar in it.
pub detect_duplicate_tables_iff :
    (pending : List PendingEmit)
    → All IsBarless pending
    → (detect_duplicate_tables pending ≡ []) ↔ NoneSame pending
unfolding detect_duplicate_tables lookup
detect_duplicate_tables_iff pending hs = (
  λ h. ((duplicates_from_iff pending [] hs).0 h).0,
  λ n. (duplicates_from_iff pending [] hs).1 (n, All-from (Unseen []) pending (λ x m. refl)),
)
