-- ===== src/Plugin/ForeignKey/UserScope.antt =====
-- cmd/protoc-gen-go-jet/resolve_fk.go: composite foreign keys to tables that are scoped by user.
use protoc_gen_go_jet.Common.{
  Text, true, false, [], ◌∷◌, none, some, text_eq, ◌≡◌, refl, subst, arith,
}
use mathlib.Core.List.{Perm}
use mathlib.Core.List.Perm
use protoc_gen_go_jet.Plugin.Plan.{ColumnPlan, TenancyPlan, ResourcePlan}
use protoc_gen_go_jet.Plugin.ForeignKey.Pass.{needed_constraint}
use protoc_gen_go_jet.Plugin.Sql.Index.{unique_index_columns, scope_columns}

three_two : {a b c d e : Text} → Perm (a ∷ b ∷ c ∷ []) (d ∷ e ∷ []) → ⊥
three_two h = cc (Perm.length-eq h)

-- The index of a unique column of a user-scoped table is not on the pair of the tenant and the column
-- that a foreign key to that column references, and the pass adds no constraint on the pair either: it
-- takes the index for one. The column is neither the tenant's nor the user's.
pub needed_constraint-user_scoped :
    (p : ResourcePlan) (t : TenancyPlan) (c : ColumnPlan)
    → p.tenancy ≡ some t
    → t.user_scoped ≡ true
    → c.is_unique ≡ true
    → text_eq t.column c.db_name ≡ false
    → text_eq t.user_column c.db_name ≡ false
    → (needed_constraint p t c ≡ none)
      × (¬ Perm (unique_index_columns p c.db_name) (t.column ∷ c.db_name ∷ []))
unfolding needed_constraint
needed_constraint-user_scoped p t c scoped wide unique apart apart' = (
  rw unique (ground arith),
  λ h. three_two (subst (λ l. Perm l (t.column ∷ c.db_name ∷ [])) columns h),
)
  where
    columns : unique_index_columns p c.db_name ≡ t.column ∷ t.user_column ∷ c.db_name ∷ []
    columns = unfold unique_index_columns scope_columns in rw (scoped, wide, apart, apart') refl
