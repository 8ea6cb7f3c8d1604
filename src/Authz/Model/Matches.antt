-- ===== src/Authz/Model/Matches.antt =====
-- When an authorization model counts as unchanged.
use data_platform_operator.Base.{
  true, Option, none, some, List, [], ◌∷◌, String, ◌≡◌, refl, sym, ap, ◌∙◌, ◌↔◌, ◌==◌,
  if◌then◌else◌, lookup-insert, arith, eq_iff, eq_refl, length, Option-cases, inl, inr, keys,
  lookup, insert, ◌≤◌,
}
use data_platform_operator.Base.Counts.{count, sorted_iff}
use data_platform_operator.Base.Sort.{sorted}
use data_platform_operator.Base.Subset.{Distinct, Subset, length-le-of_Subset, Subset_of_length}
use data_platform_operator.Base.Maps.{contains-keys, Distinct-insert}
use data_platform_operator.Authz.Model.{
  AuthzTypeDefinition, AuthzModel, shape_from, authz_model_shape, equal_lists, all_in, same_value,
  equal_shapes, authz_model_matches,
}

abbrev Shape : Type 0
Shape = List (String × List String)

pub equal_lists_iff : (xs ys : List String) → (equal_lists xs ys ≡ true) ↔ (xs ≡ ys)
unfolding equal_lists
equal_lists_iff [] [] = (λ h. refl, λ h. refl)
equal_lists_iff [] (y ∷ ys) = (λ h. cc, λ h. cc)
equal_lists_iff (x ∷ xs) [] = (λ h. cc, λ h. cc)
equal_lists_iff (x ∷ xs) (y ∷ ys) = (
  λ h. ground (arith, eq_iff x y, equal_lists_iff xs ys),
  λ h. ground (arith, eq_iff x y, equal_lists_iff xs ys),
)

same_value_iff :
    (v : List String) (o : Option (List String)) → (same_value v o ≡ true) ↔ (o ≡ some v)
unfolding same_value
same_value_iff v none = (λ h. cc, λ h. cc)
same_value_iff v (some w) =
    (λ h. ground (arith, equal_lists_iff v w), λ h. ground (arith, equal_lists_iff v w))

-- every entry of the first map is one of the second
abbrev Within : Shape → Shape → Type 0
Within a b = (k : String) (v : List String) → lookup k a ≡ some v → lookup k b ≡ some v

lookup-all_in :
    (a b : Shape) (k : String) (v : List String)
    → all_in a b ≡ true
    → lookup k a ≡ some v
    → lookup k b ≡ some v
unfolding all_in lookup
lookup-all_in [] b k v h p = cc
lookup-all_in ((j, w) ∷ a) b k v h p =
    ground (arith, eq_iff j k, same_value_iff w (lookup j b), lookup-all_in a b k v)

Within-all_in : (a b : Shape) → all_in a b ≡ true → Within a b
Within-all_in a b h k v p = lookup-all_in a b k v h p

all_in-Within : (a b : Shape) → Distinct (keys a) → Within a b → all_in a b ≡ true
unfolding all_in lookup
all_in-Within [] b d h = refl
all_in-Within ((j, w) ∷ a) b d h = ground (
  arith,
  same_value_iff w (lookup j b),
  h j w,
  eq_refl j,
  all_in-Within a b d.1
      λ k v p. h k v (ground (arith, eq_iff j k, contains-keys k a, contains-keys j a, d.0, p)),
)

Subset-Within : (a b : Shape) → Within a b → Subset (keys a) (keys b)
Subset-Within a b h k p = elim (Option-cases (lookup k a)) [
  | inl missing ↦ ground (arith, contains-keys k a)
  | inr (v, there) ↦ ground (arith, contains-keys k b, h k v)
]

length-keys : (a : Shape) → length (keys a) ≡ length a
length-keys [] = refl
length-keys ((k, v) ∷ a) = omega (arith, length-keys a)

same_lookup :
    (a b : Shape)
    → Distinct (keys a)
    → (k : String) → Within a b
    → length b ≤ length a
    → lookup k a ≡ lookup k b
same_lookup a b d k h l = elim (Option-cases (lookup k a)) [
  | inr (v, there) ↦ there ∙ sym (h k v there)
  | inl missing ↦
      let back =
        Subset_of_length (keys a) (keys b) d (Subset-Within a b h)
          (omega (arith, length-keys a, length-keys b)) k in
      ground (arith, missing, contains-keys k a, contains-keys k b, back)
]

equal_shapes_iff :
    (a b : Shape)
    → Distinct (keys a)
    → Distinct (keys b)
    → (equal_shapes a b ≡ true) ↔ ((k : String) → lookup k a ≡ lookup k b)
unfolding equal_shapes
equal_shapes_iff a b da db = (
  λ h k. same_lookup a b da k (Within-all_in a b (ground arith)) (ground arith),
  λ h.
      let ab = all_in-Within a b da (λ k v p. sym (h k) ∙ p) in
      let sub = Subset-Within a b (λ k v p. sym (h k) ∙ p) in
      let sup = Subset-Within b a (λ k v p. h k ∙ p) in
      let le = length-le-of_Subset (keys a) (keys b) da sub in
      let ge = length-le-of_Subset (keys b) (keys a) db sup in
      ground (arith, ab, le, ge, length-keys a, length-keys b),
)

Distinct-shape_from :
    (ds : List AuthzTypeDefinition) (shape : Shape)
    → Distinct (keys shape)
    → Distinct (keys (shape_from ds shape))
unfolding shape_from
Distinct-shape_from [] shape h = h
Distinct-shape_from (d ∷ ds) shape h =
    Distinct-shape_from ds (insert d.type (sorted (keys d.relations)) shape)
      (Distinct-insert d.type (sorted (keys d.relations)) shape h)

shapes_iff :
    (current desired : AuthzModel)
    → (authz_model_matches (some current) desired ≡ true) ↔ (
        (type : String)
        → lookup type (authz_model_shape current) ≡ lookup type (authz_model_shape desired))
unfolding authz_model_matches
shapes_iff current desired =
    equal_shapes_iff (authz_model_shape current) (authz_model_shape desired)
      (unfold authz_model_shape in Distinct-shape_from current.type_definitions [] tt)
      (unfold authz_model_shape in Distinct-shape_from desired.type_definitions [] tt)

-- The relations of a type, as its last definition lists them, where it is defined.
unfoldable pub relations_of : String → List AuthzTypeDefinition → Option (List String)
relations_of type [] = none
relations_of type (d ∷ ds) = elim (relations_of type ds) [
  | none ↦ if d.type == type then some (keys d.relations) else none
  | some relations ↦ some relations
]

-- Both are missing, or both list the same texts, each equally often.
abbrev pub SameRelations : Option (List String) → Option (List String) → Type 0
SameRelations none none = Unit
SameRelations none (some ys) = ⊥
SameRelations (some xs) none = ⊥
SameRelations (some xs) (some ys) = (a : String) → count a xs ≡ count a ys

sorted_or : Option (List String) → Option (List String) → Option (List String)
sorted_or none o = o
sorted_or (some xs) o = some (sorted xs)

lookup-shape_from :
    (type : String) (ds : List AuthzTypeDefinition) (shape : Shape)
    → lookup type (shape_from ds shape) ≡ sorted_or (relations_of type ds) (lookup type shape)
unfolding shape_from relations_of sorted_or
lookup-shape_from type [] shape = refl
lookup-shape_from type (d ∷ ds) shape =
    let later = lookup-shape_from type ds (insert d.type (sorted (keys d.relations)) shape) in
    elim (Option-cases (relations_of type ds)) [
      | inl missing ↦
          ground
            (arith, later, missing, lookup-insert d.type type (sorted (keys d.relations)) shape)
      | inr (relations, there) ↦ ground (arith, later, there)
    ]

sorted_or_iff :
    (o p : Option (List String)) → (sorted_or o none ≡ sorted_or p none) ↔ SameRelations o p
unfolding sorted_or
sorted_or_iff none none = (λ h. tt, λ h. refl)
sorted_or_iff none (some ys) = (λ h. cc, λ h. absurd h)
sorted_or_iff (some xs) none = (λ h. cc, λ h. absurd h)
sorted_or_iff (some xs) (some ys) =
    (λ h. (sorted_iff xs ys).0 (ground (arith, h)), λ h. ap some ((sorted_iff xs ys).1 h))

-- A model that was fetched matches the desired one exactly if every type is defined in neither, or
-- in both with the same relations, each listed equally often, in whatever order the two models list
-- them. What counts is the last definition of a type.
pub authz_model_matches_iff :
    (current desired : AuthzModel)
    → (authz_model_matches (some current) desired ≡ true) ↔ (
        (type : String)
        → SameRelations
            (relations_of type current.type_definitions)
            (relations_of type desired.type_definitions))
unfolding authz_model_shape lookup
authz_model_matches_iff current desired =
    let shape : (m : AuthzModel) (type : String)
        → lookup type (authz_model_shape m)
          ≡ sorted_or (relations_of type m.type_definitions) none =
      λ m type. lookup-shape_from type m.type_definitions [] in
    (
      λ h type.
          (sorted_or_iff _ _).0
            (sym (shape current type) ∙ (shapes_iff current desired).0 h type ∙ shape desired type),
      λ h.
          (shapes_iff current desired).1 (λ type.
            shape current type ∙ (sorted_or_iff _ _).1 (h type) ∙ sym (shape desired type)),
    )
