-- ===== src/Plugin/ForeignKey/Unique.antt =====
-- The unique constraints that incoming foreign keys add to a table.
use protoc_gen_go_jet.Common.{
  Text, true, false, ◌||◌, List, [], ◌∷◌, ◌++◌, text_eq, text_eq_refl, text_eq_iff, ◌≡◌, refl, ◌∙◌,
  Bool-cases, inl, inr, arith,
}
use protoc_gen_go_jet.Plugin.Plan.{ResourcePlan, SupplementalUniqueConstraint}
use protoc_gen_go_jet.Plugin.ForeignKey.{has_constraint, add_supplemental_unique}

-- No two constraints have one name.
abbrev pub NamesDiffer : List SupplementalUniqueConstraint → Type 0
NamesDiffer [] = Unit
NamesDiffer (u ∷ us) = (has_constraint u.name us ≡ false) × NamesDiffer us

has_constraint-last :
    (name : Text) (us : List SupplementalUniqueConstraint) (v : SupplementalUniqueConstraint)
    → has_constraint name (us ++ v ∷ []) ≡ (has_constraint name us || text_eq v.name name)
unfolding has_constraint
has_constraint-last name [] v = ground arith
has_constraint-last name (u ∷ us) v = rw (has_constraint-last name us v) (ground arith)

text_eq_swapped : (s t : Text) → text_eq s t ≡ false → text_eq t s ≡ false
text_eq_swapped s t h = ground (arith, text_eq_iff s t, text_eq_iff t s)

append-NamesDiffer :
    (us : List SupplementalUniqueConstraint) (v : SupplementalUniqueConstraint)
    → NamesDiffer us
    → has_constraint v.name us ≡ false
    → NamesDiffer (us ++ v ∷ [])
unfolding has_constraint
append-NamesDiffer [] v d h = (refl, tt)
append-NamesDiffer (u ∷ us) v (e, d) h = (
  has_constraint-last u.name us v ∙ rw (e, text_eq_swapped u.name v.name (ground arith)) refl,
  append-NamesDiffer us v d (ground arith),
)

-- After a constraint is added the table has one of that name, and no two of one name if it had none
-- before; so however many foreign keys ask for it, it is there once.
pub add_supplemental_unique-NamesDiffer :
    (p : ResourcePlan) (uq : SupplementalUniqueConstraint)
    → NamesDiffer p.supplemental_uniques
    → NamesDiffer (add_supplemental_unique p uq).supplemental_uniques
      × (has_constraint uq.name (add_supplemental_unique p uq).supplemental_uniques ≡ true)
unfolding add_supplemental_unique
add_supplemental_unique-NamesDiffer p uq d =
    elim (Bool-cases (has_constraint uq.name p.supplemental_uniques)) [
      | inl e ↦ rw e (d, e)
      | inr e ↦ rw e (
        append-NamesDiffer p.supplemental_uniques uq d e,
        has_constraint-last uq.name p.supplemental_uniques uq ∙ rw (e, text_eq_refl uq.name) refl,
      )
    ]
