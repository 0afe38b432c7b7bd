-- ===== src/Plugin/Validate/Sound.antt =====
-- The columns that the parts of an accepted plan name.
use protoc_gen_go_jet.Common.{
  Text, Bool, true, false, List, [], ◌∷◌, Option, none, some, map, is_empty, if◌then◌else◌, ◌≡◌,
  refl, All, arith,
}
use protoc_gen_go_jet.Aip.Errors.{Result, ok, fail, plain, ◌>>◌, >>=-eq-ok}
use protoc_gen_go_jet.Plugin.Plan.{PartitionPlan, OrderPart, ResourcePlan}
use protoc_gen_go_jet.Plugin.Validate.{
  Names, member, check_each, require_known, require_column, check_key, check_partition,
  check_order_part, orderable_columns, validate_plan,
}
use protoc_gen_go_jet.Plugin.Validate.Accepted.{
  AreDistinct, column_names, check_each-All, validate_plan-HasPassed,
}
use protoc_gen_go_jet.Plugin.Validate.Scope.{claim_indexes-All}

-- Each of the names is a column.
abbrev pub AreColumns : Names → Names → Type 0
AreColumns known ss = All (λ s. member s known ≡ true) ss

-- An order that a request can be answered in: a known column that may be ordered by.
abbrev pub IsOrderPart : ResourcePlan → OrderPart → Type 0
IsOrderPart p o =
    (member o.field_path (column_names p) ≡ true)
    × (member o.field_path (orderable_columns p.columns) ≡ true)

-- The columns of a partition, each of the table and of its primary key.
abbrev pub IsPartition : ResourcePlan → Option PartitionPlan → Type 0
IsPartition p none = Unit
IsPartition p (some part) =
    All (λ c. (member c (column_names p) ≡ true) × (member c p.primary_key ≡ true)) part.columns

All-weaken :
    {A : Type 0} (P Q : A → Type 0) (xs : List A) → ((x : A) → P x → Q x) → All P xs → All Q xs
All-weaken P Q [] f h = tt
All-weaken P Q (x ∷ xs) f (p, h) = (f x p, All-weaken P Q xs f h)

require_known-member :
    (known : Names) (s : Text) → require_known known s ≡ ok tt → member s known ≡ true
unfolding require_known
require_known-member known s h = ground arith

require_column-member :
    (key : Names) (s : Text) → require_column key s ≡ ok tt → member s key ≡ true
unfolding require_column
require_column-member key s h = ground arith

check_each-AreColumns :
    (known ss : Names) → check_each (require_known known) ss ≡ ok tt → AreColumns known ss
check_each-AreColumns known ss h =
    All-weaken (λ s. require_known known s ≡ ok tt) (λ s. member s known ≡ true) ss
      (require_known-member known) (check_each-All (require_known known) ss h)

check_key-AreColumns :
    (known : Names) (p : ResourcePlan)
    → check_key known p ≡ ok tt
    → (is_empty p.primary_key ≡ false) × AreColumns known p.primary_key
unfolding check_key
check_key-AreColumns known p h =
    let (u, e, r) = >>=-eq-ok (if is_empty p.primary_key then fail [] plain else ok tt) _ h in
    let (v, all, rest) = >>=-eq-ok (check_each (require_known known) p.primary_key) _ r in
    (filled (is_empty p.primary_key) e, check_each-AreColumns known p.primary_key all)
  where
    filled :
        (b : Bool) {u : Unit {0}}
        → (if b then fail {A = Unit {0}} [] plain else ok tt) ≡ ok u
        → b ≡ false
    filled true g = absurd (cc g)
    filled false g = refl

part_column :
    (known key : Names) (c : Text)
    → require_known known c >> require_column key c ≡ ok tt
    → (member c known ≡ true) × (member c key ≡ true)
part_column known key c h =
    let (u, e, rest) = >>=-eq-ok (require_known known c) _ h in
    (require_known-member known c e, require_column-member key c rest)

check_partition-IsPartition :
    (p : ResourcePlan) → check_partition (column_names p) p ≡ ok tt → IsPartition p p.partition
unfolding check_partition
check_partition-IsPartition p h = partition p.partition h
  where
    partition :
        (o : Option PartitionPlan)
        → (elim o as (λ x. Result (Unit {0})) [
          | none ↦ ok tt
          | some part ↦
              check_each
                (λ c. require_known (column_names p) c >> require_column p.primary_key c)
                part.columns
        ])
          ≡ ok tt
        → IsPartition p o
    partition none g = tt
    partition (some part) g =
        All-weaken _ _ part.columns (part_column (column_names p) p.primary_key) (
          check_each-All (λ c. require_known (column_names p) c >> require_column p.primary_key c)
            part.columns g)

check_order_part-IsOrderPart :
    (p : ResourcePlan) (o : OrderPart)
    → check_order_part (column_names p) (orderable_columns p.columns) o ≡ ok tt
    → IsOrderPart p o
unfolding check_order_part
check_order_part-IsOrderPart p o h = (ground arith, ground arith)

-- An accepted plan names only columns that it has: no two columns of the message have one name, the
-- primary key is not empty, the primary key, the indexes, the partition and both orders consist of
-- columns of the table, the partition of columns of the primary key, and the orders of columns that
-- may be ordered by.
pub validate_plan-AreColumns :
    (p : ResourcePlan)
    → validate_plan p ≡ ok tt
    → AreDistinct (map (λ c. c.db_name) p.columns)
      × (is_empty p.primary_key ≡ false)
      × AreColumns (column_names p) p.primary_key
      × All (λ idx. AreColumns (column_names p) idx.columns) p.indexes
      × IsPartition p p.partition
      × All (IsOrderPart p) p.default_order
      × All (IsOrderPart p) p.tie_breaker
validate_plan-AreColumns p h =
    let (distinct, keys, part, (a, b, c, d, ea, eb, ec, ed), kinds, order, ties) =
      validate_plan-HasPassed p h in
    let (filled, key) = check_key-AreColumns (column_names p) p keys in
    (
      distinct,
      filled,
      key,
      All-weaken _ _ p.indexes (λ idx (e, f). check_each-AreColumns (column_names p) idx.columns e)
          (claim_indexes-All (column_names p) p.tenancy p.indexes [] ea),
      check_partition-IsPartition p part,
      All-weaken _ _ p.default_order (check_order_part-IsOrderPart p) order,
      All-weaken _ _ p.tie_breaker (check_order_part-IsOrderPart p) ties,
    )
