-- ===== src/Jet/Schema.antt =====
-- pkg/aip/jet/schema.go: the schema of a resource, its construction and its use.
use protoc_gen_go_jet.Common.{
  ℤ, pos, ltb_ℤ, Text, Bool, true, false, List, [], ◌∷◌, ◌++◌, Option, none, some, ◌⊎◌, inl, inr,
  is_empty, lookup, if◌then◌else◌, codes,
}
use protoc_gen_go_jet.Aip.Errors.{Result, ok, err, ◌>>=◌, ◌>>◌}
use protoc_gen_go_jet.Aip.Order.{
  SortDirection, OrderField, OrderBy, parse_order_by, append_unique_fields, new_field_error,
}
use protoc_gen_go_jet.Aip.Runtime.{Go, Value}
use protoc_gen_go_jet.Aip.Codec.{CursorCodec}
use protoc_gen_go_jet.Jet.Sql.{Jet}

-- A nil interface or function is `none`.
pub record Field (g : Go) (Model : Type 0) (j : Jet g Model) : Type 0 where
  pub column : Option j.Column
  pub codec : Option (CursorCodec g)
  pub disable_ordering : Bool
  pub get_value : Option (Model → Value g)

abbrev pub Fields : (g : Go) (Model : Type 0) → Jet g Model → Type 0
Fields g Model j = List (Text × Field g Model j)

pub record Schema (g : Go) (Model : Type 0) (j : Jet g Model) : Type 0 where
  pub resource_type : Text
  pub fields : Fields g Model j
  pub default_page_size : ℤ
  pub max_page_size : ℤ
  pub default_order : List OrderField
  pub tie_breaker_fields : List OrderField
  pub cached_codecs : List (Text × CursorCodec g)

pub record SchemaBuilder : Type 0 where
  pub default_page_size : ℤ
  pub max_page_size : ℤ
  pub default_order : List OrderField
  pub tie_breaker_fields : List OrderField

-- The options of `NewSchema`.
pub data SchemaOption : Type 0 where
  with_default_page_size with_max_page_size : ℤ → SchemaOption
  with_default_order with_tie_breaker : Text → SortDirection → SchemaOption

abbrev pub apply_option : SchemaOption → SchemaBuilder → SchemaBuilder
apply_option (with_default_page_size n) b = record b { default_page_size = n }
apply_option (with_max_page_size n) b = record b { max_page_size = n }
apply_option (with_default_order p d) b = record b {
  default_order = b.default_order ++ record { path = p; direction = d } ∷ [];
}
apply_option (with_tie_breaker p d) b = record b {
  tie_breaker_fields = b.tie_breaker_fields ++ record { path = p; direction = d } ∷ [];
}

abbrev pub apply_options : List SchemaOption → SchemaBuilder → SchemaBuilder
apply_options [] b = b
apply_options (o ∷ os) b = apply_options os (apply_option o b)

abbrev pub initial_builder : SchemaBuilder
initial_builder = record {
  default_page_size = pos 50;
  max_page_size = pos 1000;
  default_order = [];
  tie_breaker_fields = [];
}

-- What `validate` finds wrong.
pub data SchemaFault : Type 0 where
  default_page_size_below_one max_page_size_below_one : SchemaFault
  field_not_in_schema ordering_disabled missing_codec missing_get_value missing_column :
      Text → SchemaFault

abbrev is_none {ℓ} : {A : Type ℓ} → Option A → Bool
is_none none = true
is_none (some a) = false

-- The first fault of two.
infixl 5 ◌or_else◌
abbrev ◌or_else◌ : Option SchemaFault → Option SchemaFault → Option SchemaFault
none or_else b = b
some a or_else b = some a

module _ {g : Go} {Model : Type 0} {j : Jet g Model} where
  -- One loop serves the default order and the tie-breakers.
  unfoldable pub check_order : Fields g Model j → List OrderField → Option SchemaFault
  unfolding lookup
  check_order fields [] = none
  check_order fields (f ∷ order) =
      let rest = check_order fields order in
      elim (lookup f.path fields) [
        | none ↦ some (field_not_in_schema f.path)
        | some field ↦ if field.disable_ordering then some (ordering_disabled f.path) else rest
      ]

  unfoldable pub check_field : Text → Field g Model j → Option SchemaFault
  check_field path field =
      if field.disable_ordering
      then none
      else if is_none field.codec
      then some (missing_codec path)
      else if is_none field.get_value
      then some (missing_get_value path)
      else if is_none field.column
      then some (missing_column path)
      else none

  -- The loop over the map of fields, in the order of its entries.
  unfoldable pub check_fields : Fields g Model j → Option SchemaFault
  unfolding check_field
  check_fields [] = none
  check_fields ((path, field) ∷ fields) = check_field path field or_else check_fields fields

  unfoldable pub validate : Schema g Model j → Option SchemaFault
  unfolding check_order check_fields
  validate s =
      if ltb_ℤ s.default_page_size (pos 1)
      then some default_page_size_below_one
      else if ltb_ℤ s.max_page_size (pos 1)
      then some max_page_size_below_one
      else (check_order s.fields s.default_order
          or_else check_order s.fields s.tie_breaker_fields
          or_else check_fields s.fields)

  unfoldable pub build_codecs : Fields g Model j → List (Text × CursorCodec g)
  build_codecs [] = []
  build_codecs ((path, field) ∷ fields) =
      let rest = build_codecs fields in elim field.codec [ none ↦ rest | some c ↦ (path, c) ∷ rest ]

  -- The left side is the panic on an invalid configuration.
  unfoldable pub new_schema :
      Text → Fields g Model j → List SchemaOption → SchemaFault ⊎ Schema g Model j
  unfolding validate build_codecs
  new_schema resource_type fields opts =
      let b = apply_options opts initial_builder in
      let s : Schema g Model j = record {
        resource_type = resource_type;
        fields = fields;
        default_page_size = b.default_page_size;
        max_page_size = b.max_page_size;
        default_order = b.default_order;
        tie_breaker_fields = b.tie_breaker_fields;
        cached_codecs = [];
      } in
      elim (validate s) [
        | some fault ↦ inl fault
        | none ↦ inr (record s { cached_codecs = build_codecs fields })
      ]

  -- The loop over the fields that the client named.
  unfoldable pub check_client_fields : Fields g Model j → List OrderField → Result (Unit {0})
  unfolding lookup
  check_client_fields fields [] = ok tt
  check_client_fields fields (f ∷ fs) =
      let rest = check_client_fields fields fs in
      elim (lookup f.path fields) [
        | none ↦ err (new_field_error (codes "order_by") f.path)
        | some field ↦
            if field.disable_ordering then err (new_field_error (codes "order_by") f.path) else rest
      ]

  unfoldable pub effective_order_by : Schema g Model j → Text → Result OrderBy
  unfolding check_client_fields append_unique_fields
  effective_order_by s order_by_str = do
    ob ← parse_order_by g.unicode order_by_str
    let effective = if is_empty ob.fields then s.default_order else ob.fields
    check_client_fields s.fields ob.fields
    ok (record { fields = append_unique_fields effective s.tie_breaker_fields })
