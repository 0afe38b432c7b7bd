-- ===== src/Tests/Database.antt =====
-- A concrete database: a user has a group and a name, both texts, and a condition is a test.
use Prim.Native.Nat.{Ordering}
use protoc_gen_go_jet.Common.{
  ℕ, zero, suc, ℤ, pos, negsuc, ◌≡◌, refl, Text, codes, Bool, true, false, List, [], ◌∷◌, some, map,
  take, filterb, lookup, if◌then◌else◌,
}
use protoc_gen_go_jet.Aip.Order.{OrderField, asc, desc}
use protoc_gen_go_jet.Aip.Runtime.{string}
use protoc_gen_go_jet.Aip.Codec.{codec, string_codec, encode_string, decode_string}
use protoc_gen_go_jet.Jet.Sql.{
  Jet, Postgres, Expression, string_expression, is_lt, is_eq, is_gt, flip, all, any, compare_rows,
}
use protoc_gen_go_jet.Jet.Schema.{Field, Schema}
use protoc_gen_go_jet.Jet.Keyset.{to_literal, equality_expr, direction_expr}
use protoc_gen_go_jet.Jet.Execute.{Query, rows, failed}
use protoc_gen_go_jet.Jet.Execute.Page.{satisfies}
use protoc_gen_go_jet.Jet.Execute.Faithful.{FaithfulField, IsFaithful}
use protoc_gen_go_jet.Tests.Runtime.{go}

pub record User : Type 0 where
  pub group : Text
  pub name : Text

pub data Column : Type 0 where
  group_column name_column : Column

abbrev pub compare : ℕ → ℕ → Ordering
compare zero zero = Ordering.eq
compare zero (suc y) = Ordering.lt
compare (suc x) zero = Ordering.gt
compare (suc x) (suc y) = compare x y

-- The second comparison decides if the first finds no difference.
abbrev pub then_by : Ordering → Ordering → Ordering
then_by Ordering.lt o = Ordering.lt
then_by Ordering.eq o = o
then_by Ordering.gt o = Ordering.gt

abbrev pub compare_texts : Text → Text → Ordering
compare_texts [] [] = Ordering.eq
compare_texts [] (y ∷ ys) = Ordering.lt
compare_texts (x ∷ xs) [] = Ordering.gt
compare_texts (x ∷ xs) (y ∷ ys) = then_by (compare x y) (compare_texts xs ys)

compare_self : (x : ℕ) → compare x x ≡ Ordering.eq
compare_self zero = refl
compare_self (suc x) = compare_self x

compare_flip : (x y : ℕ) → compare y x ≡ flip (compare x y)
compare_flip zero zero = refl
compare_flip zero (suc y) = refl
compare_flip (suc x) zero = refl
compare_flip (suc x) (suc y) = compare_flip x y

pub compare_texts_self : (x : Text) → compare_texts x x ≡ Ordering.eq
compare_texts_self [] = refl
compare_texts_self (x ∷ xs) = rw (compare_self x) (compare_texts_self xs)

flip-then_by : (o r : Ordering) → then_by (flip o) (flip r) ≡ flip (then_by o r)
flip-then_by Ordering.lt r = refl
flip-then_by Ordering.eq r = refl
flip-then_by Ordering.gt r = refl

pub compare_texts-flip : (x y : Text) → compare_texts y x ≡ flip (compare_texts x y)
compare_texts-flip [] [] = refl
compare_texts-flip [] (y ∷ ys) = refl
compare_texts-flip (x ∷ xs) [] = refl
compare_texts-flip (x ∷ xs) (y ∷ ys) =
    rw (compare_flip x y, compare_texts-flip xs ys)
      (flip-then_by (compare x y) (compare_texts xs ys))

abbrev pub value_of : Column → User → Text
value_of group_column u = u.group
value_of name_column u = u.name

abbrev is_string : Expression → Bool
is_string string_expression = true
is_string _ = false

abbrev int_text : ℤ → Text
int_text (pos n) = 1 ∷ n ∷ []
int_text (negsuc n) = 0 ∷ n ∷ []

abbrev pub jet : Jet go User
jet = record {
  Column = Column;
  Literal = Text;
  Condition = User → Bool;
  Clause = Column × Bool;
  implements = λ c e. is_string e;
  string_literal = λ t. t;
  bool_literal = λ b. if b then 1 ∷ [] else 0 ∷ [];
  int64_literal = int_text;
  float_literal = λ x. x ∷ [];
  timestampz_literal = λ x. x ∷ [];
  timestamp_literal = λ x. x ∷ [];
  equal = λ c x u. is_eq (compare_texts (value_of c u) x);
  greater = λ c x u. is_gt (compare_texts (value_of c u) x);
  less = λ c x u. is_lt (compare_texts (value_of c u) x);
  row_greater = λ cs xs u. is_gt (compare_rows compare_texts (map (λ c. value_of c u) cs) xs);
  row_less = λ cs xs u. is_lt (compare_rows compare_texts (map (λ c. value_of c u) cs) xs);
  and_of = λ cs u. all (λ c. c u) cs;
  or_of = λ cs u. any (λ c. c u) cs;
  asc_clause = λ c. (c, true);
  desc_clause = λ c. (c, false);
}

abbrev pub postgres : Postgres go User jet
postgres = record {
  value = value_of;
  compare = compare_texts;
  holds = λ c u. c u;
  compare_self = compare_texts_self;
  compare_flip = compare_texts-flip;
  holds-equal = λ c x r. refl;
  holds-greater = λ c x r. refl;
  holds-less = λ c x r. refl;
  holds-row_greater = λ cs xs r h. refl;
  holds-row_less = λ cs xs r h. refl;
  holds-and_of = λ cs r. refl;
  holds-or_of = λ cs r. refl;
}

abbrev pub group_field : Field go User jet
group_field = record {
  column = some group_column;
  codec = some (codec go string_codec);
  disable_ordering = false;
  get_value = some (λ u. string u.group);
}

abbrev pub name_field : Field go User jet
name_field = record {
  column = some name_column;
  codec = some (codec go string_codec);
  disable_ordering = false;
  get_value = some (λ u. string u.name);
}

abbrev pub by_group : OrderField
by_group = record { path = codes "group"; direction = asc }

abbrev pub by_name : OrderField
by_name = record { path = codes "name"; direction = desc }

abbrev pub users : Schema go User jet
users = record {
  resource_type = codes "user";
  fields = (codes "group", group_field) ∷ (codes "name", name_field) ∷ [];
  default_page_size = pos 2;
  max_page_size = pos 3;
  default_order = by_group ∷ [];
  tie_breaker_fields = by_name ∷ [];
  cached_codecs =
      (codes "group", codec go string_codec) ∷ (codes "name", codec go string_codec) ∷ [];
}

group_faithful : FaithfulField postgres users by_group group_column
unfolding codec encode_string decode_string to_literal equality_expr direction_expr lookup
group_faithful = record {
  field = group_field;
  codec = codec go string_codec;
  get = λ u. string u.group;
  found = refl;
  has_column = refl;
  has_codec = refl;
  has_get = refl;
  cached = refl;
  zoned = refl;
  text = User.group;
  decoded = λ u. string u.group;
  encodes = λ u. refl;
  decodes = λ u. refl;
  stands_for = λ u. record {
    literal = refl;
    equality = _;
    equality_built = refl;
    comparison = _;
    comparison_built = refl;
  };
}

name_faithful : FaithfulField postgres users by_name name_column
unfolding codec encode_string decode_string to_literal equality_expr direction_expr lookup
name_faithful = record {
  field = name_field;
  codec = codec go string_codec;
  get = λ u. string u.name;
  found = refl;
  has_column = refl;
  has_codec = refl;
  has_get = refl;
  cached = refl;
  zoned = refl;
  text = User.name;
  decoded = λ u. string u.name;
  encodes = λ u. refl;
  decodes = λ u. refl;
  stands_for = λ u. record {
    literal = refl;
    equality = _;
    equality_built = refl;
    comparison = _;
    comparison_built = refl;
  };
}

pub both-IsFaithful :
    IsFaithful postgres users (by_group ∷ by_name ∷ []) (group_column ∷ name_column ∷ [])
both-IsFaithful = (group_faithful, (name_faithful, tt))

-- Groups ascend, and the names within a group descend.
abbrev pub table : List User
table =
    record { group = codes "a"; name = codes "zoe" }
    ∷ record { group = codes "a"; name = codes "amy" }
    ∷ record { group = codes "b"; name = codes "bob" }
    ∷ record { group = codes "c"; name = codes "eve" }
    ∷ record { group = codes "c"; name = codes "dan" }
    ∷ []

abbrev pub run_query : Query go User jet
run_query clauses (pos m) w = rows (take m (filterb (satisfies postgres w) table))
run_query clauses (negsuc m) w = failed
