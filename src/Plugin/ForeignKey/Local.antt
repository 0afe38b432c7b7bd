-- ===== src/Plugin/ForeignKey/Local.antt =====
-- What an accepted foreign key guarantees to the pass over all messages.
use protoc_gen_go_jet.Common.{
  ℕ, Text, codes, Bool, true, false, ◌&&◌, [], ◌∷◌, Option, none, some, is_empty, text_eq,
  text_eq_iff, trim_space, contains_byte, has_prefix, drop, if◌then◌else◌, ◌==◌, ◌≡◌, refl, subst,
  Bool-cases, &&_both, inl, inr, arith,
}
use protoc_gen_go_jet.Aip.Errors.{ok, err, fail, plain, >>=-eq-ok, ok-injective}
use protoc_gen_go_jet.Plugin.Plan.{ForeignKeyPlan, ColumnPlan}
use protoc_gen_go_jet.Plugin.ForeignKey.{
  ForeignKey, check_action, validate_fk_actions_against_column, cut_last_dot, field_character,
  field_valid, check_target, validate_fk_target_syntax, local_plan, parse_fk_annotation,
  split_fk_target, qualify,
}

-- PostgreSQL can carry the action out: SET NULL on a nullable column, SET DEFAULT on a default.
abbrev pub IsApplicable : Text → ColumnPlan → Type 0
IsApplicable action c =
    ((text_eq action (codes "SET NULL") && c.not_null) ≡ false)
    × ((text_eq action (codes "SET DEFAULT") && is_empty c.default_expr) ≡ false)

one_action :
    (action : Text)
    → (text_eq action (codes "SET NULL") && text_eq action (codes "SET DEFAULT")) ≡ false
one_action action = elim (Bool-cases (text_eq action (codes "SET NULL"))) [
  | inl e ↦ rw ((text_eq_iff action (codes "SET NULL")).0 e) (unfold text_eq in refl)
  | inr e ↦ rw e refl
]

gates :
    (a b nn em : Bool)
    → (a && b) ≡ false
    → (if a
        then (if nn then fail {A = Unit {0}} [] plain else ok tt)
        else if b
        then (if em then fail [] plain else ok tt)
        else ok tt)
      ≡ ok tt
    → ((a && nn) ≡ false) × ((b && em) ≡ false)
gates a b nn em x h = ground arith

check_action-IsApplicable :
    (action : Text) (c : ColumnPlan) → check_action action c ≡ ok tt → IsApplicable action c
unfolding check_action
check_action-IsApplicable action c h =
    gates (text_eq action (codes "SET NULL")) (text_eq action (codes "SET DEFAULT")) c.not_null
      (is_empty c.default_expr) (one_action action) h

no_dot : (first : Bool) (c : ℕ) → field_character first c ≡ true → (c == 46) ≡ false
unfolding field_character
no_dot first c h = ground arith

field_valid-contains_byte :
    (first : Bool) (f : Text) → field_valid first f ≡ true → contains_byte f 46 ≡ false
unfolding field_valid contains_byte
field_valid-contains_byte first [] h = refl
field_valid-contains_byte first (c ∷ f) h =
    let (e, k) = &&_both (field_character first c) _ h in
    rw (no_dot first c e) (field_valid-contains_byte false f k)

-- What an accepted target is cut into.
check_target_inv :
    (cut : Option (Text × Text))
    → check_target cut ≡ ok tt
    → (m : Text) × (f : Text) × (cut ≡ some (m, f))
      × (is_empty f ≡ false)
      × (field_valid true f ≡ true)
unfolding check_target
check_target_inv none h = absurd (cc h)
check_target_inv (some (m, f)) h = (m, f, refl, ground arith, ground arith)

split_parts :
    (raw self_fqn m f : Text)
    → cut_last_dot raw ≡ some (m, f)
    → (message : Text) × (split_fk_target raw self_fqn ≡ ok (message, f))
unfolding split_fk_target
split_parts raw self_fqn m f e = (
  if has_prefix m (codes ".") then drop 1 m else qualify self_fqn m,
  rw (e, split_fk_target) refl,
)

validate_inv :
    (target : Text)
    → validate_fk_target_syntax target ≡ ok tt
    → check_target (cut_last_dot target) ≡ ok tt
unfolding validate_fk_target_syntax
validate_inv target h = ground arith

accepted :
    (fk : ForeignKey) (c : ColumnPlan) (self_fqn : Text)
    → validate_fk_target_syntax (trim_space fk.target) ≡ ok tt
    → validate_fk_actions_against_column (local_plan fk (trim_space fk.target)) c ≡ ok tt
    → IsApplicable (local_plan fk (trim_space fk.target)).on_delete c
      × IsApplicable (local_plan fk (trim_space fk.target)).on_update c
      × ((message : Text) × (field : Text) × (split_fk_target
              (local_plan fk (trim_space fk.target)).raw_target
              self_fqn
            ≡ ok (message, field))
          × (is_empty field ≡ false)
          × (contains_byte field 46 ≡ false))
unfolding validate_fk_actions_against_column local_plan
accepted fk c self_fqn syntax actions =
    let plan = local_plan fk (trim_space fk.target) in
    let (u, first, second) = >>=-eq-ok (check_action plan.on_delete c) _ actions in
    let (m, f, cut, some_field, valid) =
      check_target_inv (cut_last_dot plan.raw_target) (validate_inv plan.raw_target syntax) in
    let (message, split) = split_parts plan.raw_target self_fqn m f cut in
    (
      check_action-IsApplicable plan.on_delete c first,
      check_action-IsApplicable plan.on_update c second,
      (message, f, split, some_field, field_valid-contains_byte true f valid),
    )

-- A foreign key that is accepted has actions that its column admits, and a target that the later
-- split takes apart without a panic, whatever the referring message is called: into a message and
-- the name of a field, which is not empty and has no dot.
pub parse_fk_annotation_safe :
    (fk : ForeignKey) (c : ColumnPlan) (self_fqn : Text) {plan : ForeignKeyPlan}
    → parse_fk_annotation fk c ≡ ok plan
    → IsApplicable plan.on_delete c
      × IsApplicable plan.on_update c
      × ((message : Text) × (field : Text) × (split_fk_target plan.raw_target self_fqn
            ≡ ok (message, field))
          × (is_empty field ≡ false)
          × (contains_byte field 46 ≡ false))
unfolding parse_fk_annotation
parse_fk_annotation_safe fk c self_fqn {plan} h =
    elim (Bool-cases (is_empty (trim_space fk.target))) [
      | inl e ↦ absurd (let none_left : err _ ≡ ok plan = rw e at h in cc)
      | inr e ↦
          let (u, syntax, rest) =
            >>=-eq-ok (validate_fk_target_syntax (trim_space fk.target)) _ (rw e at h) in
          let (v, actions, made) =
            >>=-eq-ok (validate_fk_actions_against_column (local_plan fk (trim_space fk.target)) c)
              _ rest in
          subst
            (λ p.
              IsApplicable p.on_delete c
              × IsApplicable p.on_update c
              × ((message : Text) × (field : Text) × (split_fk_target p.raw_target self_fqn
                    ≡ ok (message, field))
                  × (is_empty field ≡ false)
                  × (contains_byte field 46 ≡ false)))
            (ok-injective made) (accepted fk c self_fqn syntax actions)
    ]
