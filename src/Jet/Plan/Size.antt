-- ===== src/Jet/Plan/Size.antt =====
-- The page size of a request to a schema that was accepted.
use protoc_gen_go_jet.Common.{
  ℤ, pos, ◌≤ℤ◌, ltb_ℤ, leb_ℤ, Text, Bool, true, false, List, [], Option, none, some, ◌≡◌, refl, ◌⊎◌,
  inl, inr, Bool-cases, if◌then◌else◌, arith, subst,
}
use protoc_gen_go_jet.Aip.Runtime.{Go}
use protoc_gen_go_jet.Jet.Sql.{Jet}
use protoc_gen_go_jet.Jet.Schema.{
  Schema, Fields, SchemaOption, SchemaFault, validate, build_codecs, apply_options, initial_builder,
  new_schema,
}
use protoc_gen_go_jet.Jet.Plan.{effective_page_size}

ltb_ℤ-false : (a b : ℤ) → ltb_ℤ a b ≡ false → b ≤ℤ a
ltb_ℤ-false a b h = ground arith

bounded :
    (size max : ℤ)
    → pos 1 ≤ℤ size
    → pos 1 ≤ℤ max
    → (pos 1 ≤ℤ (if ltb_ℤ max size then max else size))
      × ((if ltb_ℤ max size then max else size) ≤ℤ max)
bounded size max h k = elim (Bool-cases (ltb_ℤ max size)) [
  | inl e ↦ rw e (k, omega arith)
  | inr e ↦ rw e (h, ltb_ℤ-false max size e)
]

chosen :
    (default requested : ℤ)
    → pos 1 ≤ℤ default
    → pos 1 ≤ℤ (if leb_ℤ requested (pos 0) then default else requested)
chosen default requested h = elim (Bool-cases (leb_ℤ requested (pos 0))) [
  | inl e ↦ rw e h
  | inr e ↦ rw e (ground arith)
]

gates :
    (a b : Bool) (x y : SchemaFault) (rest : Option SchemaFault)
    → (if a then some x else if b then some y else rest) ≡ none
    → (a ≡ false) × (b ≡ false)
gates true b x y rest h = absurd (cc h)
gates false true x y rest h = absurd (cc h)
gates false false x y rest h = (refl, refl)

accepted {ℓ} :
    {S : Type ℓ} (fault : Option SchemaFault) (made : S) {s : S}
    → ◌≡◌ {A = SchemaFault ⊎ S} (elim fault [ some x ↦ inl x | none ↦ inr made ]) (inr s)
    → (fault ≡ none) × (made ≡ s)
accepted none made h = (refl, cc)
accepted (some x) made h = absurd (cc h)

module _ {g : Go} {Model : Type 0} {j : Jet g Model} where
  validate_sizes :
      (s : Schema g Model j)
      → validate s ≡ none
      → (pos 1 ≤ℤ s.default_page_size) × (pos 1 ≤ℤ s.max_page_size)
  unfolding validate
  validate_sizes s h =
      let (d, m) =
        gates (ltb_ℤ s.default_page_size (pos 1)) (ltb_ℤ s.max_page_size (pos 1)) _ _ _ h in
      (ltb_ℤ-false s.default_page_size (pos 1) d, ltb_ℤ-false s.max_page_size (pos 1) m)

  sizes :
      (resource_type : Text) (fields : Fields g Model j) (opts : List SchemaOption)
      {s : Schema g Model j}
      → new_schema resource_type fields opts ≡ inr s
      → (pos 1 ≤ℤ s.default_page_size) × (pos 1 ≤ℤ s.max_page_size)
  unfolding new_schema
  sizes resource_type fields opts h =
      let b = apply_options opts initial_builder in
      let s₀ : Schema g Model j = record {
        resource_type = resource_type;
        fields = fields;
        default_page_size = b.default_page_size;
        max_page_size = b.max_page_size;
        default_order = b.default_order;
        tie_breaker_fields = b.tie_breaker_fields;
        cached_codecs = [];
      } in
      let (valid, made) =
        accepted (validate s₀) (record s₀ { cached_codecs = build_codecs fields }) h in
      subst (λ s. (pos 1 ≤ℤ s.default_page_size) × (pos 1 ≤ℤ s.max_page_size)) made
        (validate_sizes s₀ valid)

-- Whatever page size a request names, also one that is zero, negative or too large: the page of a
-- schema that NewSchema accepted has room for at least one row and for at most the schema's maximum.
pub new_schema-effective_page_size :
    {g : Go} {Model : Type 0} {j : Jet g Model} (resource_type : Text) (fields : Fields g Model j)
    (opts : List SchemaOption) (requested : ℤ) {s : Schema g Model j}
    → new_schema resource_type fields opts ≡ inr s
    → (pos 1 ≤ℤ effective_page_size s.default_page_size s.max_page_size requested)
      × (effective_page_size s.default_page_size s.max_page_size requested ≤ℤ s.max_page_size)
unfolding effective_page_size
new_schema-effective_page_size resource_type fields opts requested {s} h =
    let (d, m) = sizes resource_type fields opts h in
    bounded (if leb_ℤ requested (pos 0) then s.default_page_size else requested) s.max_page_size
      (chosen s.default_page_size requested d) m
