-- ===== src/Authz/Model.antt =====
-- internal/controller/authzstore.go: authorization models, what makes two of them the same, and
-- the model of a list of types.
pub mod Matches
use data_platform_operator.Base.{
  Bool, true, false, Option, none, some, List, [], ◌∷◌, String, ◌==◌, ◌&&◌, length, is_empty,
  nat_eq, lookup, insert, keys, if◌then◌else◌,
}
use data_platform_operator.Base.Sort.{sorted}
use data_platform_operator.Catalog.Types.{AuthzType}

pub record AuthzRelationReference : Type 0 where
  pub type : String
  pub relation : String

-- `authzTypeDefinition`: the relations, each with the user types of its metadata. Every userset is
-- the empty `this`, and the metadata is absent where there are no relations.
pub record AuthzTypeDefinition : Type 0 where
  pub type : String
  pub relations : List (String × List AuthzRelationReference)

pub record AuthzModel : Type 0 where
  pub schema_version : String
  pub type_definitions : List AuthzTypeDefinition

abbrev pub authz_user_type : String
authz_user_type = "user"

abbrev pub authz_group_type : String
authz_group_type = "group"

abbrev pub authz_group_relation : String
authz_group_relation = "member"

-- one assignment to the maps for each relation
assign_relations :
    List AuthzRelationReference
    → List String
    → List (String × List AuthzRelationReference)
    → List (String × List AuthzRelationReference)
assign_relations assignable [] m = m
assign_relations assignable (relation ∷ relations) m =
    assign_relations assignable relations (insert relation assignable m)

unfoldable pub authz_type_json :
    String → List String → List AuthzRelationReference → AuthzTypeDefinition
unfolding assign_relations
authz_type_json name relations assignable = record {
  type = name;
  relations = assign_relations assignable relations [];
}

abbrev assignable : List AuthzRelationReference
assignable =
    record { type = authz_user_type; relation = "" }
    ∷ record { type = authz_group_type; relation = authz_group_relation }
    ∷ []

definitions : List AuthzType → List AuthzTypeDefinition
unfolding authz_type_json
definitions [] = []
definitions (t ∷ ts) = authz_type_json t.name t.relations assignable ∷ definitions ts

unfoldable pub authz_model_json : List AuthzType → AuthzModel
unfolding definitions
authz_model_json types = record {
  schema_version = "1.1";
  type_definitions =
      record { type = authz_user_type; relations = [] }
      ∷ authz_type_json authz_group_type (authz_group_relation ∷ [])
          (record { type = authz_user_type; relation = "" } ∷ [])
      ∷ definitions types;
}

-- a later definition of a type replaces an earlier one
shape_from : List AuthzTypeDefinition → List (String × List String) → List (String × List String)
shape_from [] shape = shape
shape_from (d ∷ ds) shape = shape_from ds (insert d.type (sorted (keys d.relations)) shape)

unfoldable pub authz_model_shape : AuthzModel → List (String × List String)
unfolding shape_from
authz_model_shape m = shape_from m.type_definitions []

-- `slices.Equal`
unfoldable pub equal_lists : List String → List String → Bool
equal_lists [] [] = true
equal_lists [] (y ∷ ys) = false
equal_lists (x ∷ xs) [] = false
equal_lists (x ∷ xs) (y ∷ ys) = (x == y) && equal_lists xs ys

same_value : List String → Option (List String) → Bool
unfolding equal_lists
same_value v none = false
same_value v (some w) = equal_lists v w

all_in : List (String × List String) → List (String × List String) → Bool
unfolding same_value
all_in [] b = true
all_in ((k, v) ∷ a) b = same_value v (lookup k b) && all_in a b

-- `maps.EqualFunc(a, b, slices.Equal)`
unfoldable pub equal_shapes : List (String × List String) → List (String × List String) → Bool
unfolding all_in
equal_shapes a b = nat_eq (length a) (length b) && all_in a b

-- `authzModelMatches`; `none` is the nil of a store with no model
unfoldable pub authz_model_matches : Option AuthzModel → AuthzModel → Bool
unfolding equal_shapes authz_model_shape
authz_model_matches none desired = false
authz_model_matches (some current) desired =
    equal_shapes (authz_model_shape current) (authz_model_shape desired)
