-- ===== src/Authz/Types.antt =====
-- internal/controller/openfga.go: `accessAuthzTypes`, the object types that the row filters and
-- the column restrictions need.
pub mod Declares
use data_platform_operator.Base.{
  Bool, Option, none, some, List, [], ◌∷◌, ◌++◌, String, contains, keys, lookup, insert,
  if◌then◌else◌,
}
use data_platform_operator.Base.Sort.{sorted}
use data_platform_operator.Api.Access.{
  RowFilterSpec, ColumnAccessSpec, AuthzSpec, row_filter_subject_relation_or_default,
  column_access_subject_relation_or_default,
}
use data_platform_operator.Catalog.Types.{AuthzType}

abbrev pub Relations : Type 0
Relations = List (String × List String)

-- the value of a missing key is the empty slice
abbrev pub relations_of : String → Relations → List String
relations_of name m = elim (lookup name m) [ none ↦ [] | some rs ↦ rs ]

add : String → String → Relations → Relations
add name relation m =
    if contains (relations_of name m) relation
    then m
    else insert name (relations_of name m ++ relation ∷ []) m

add_row_filters : List RowFilterSpec → Relations → Relations
unfolding add row_filter_subject_relation_or_default
add_row_filters [] m = m
add_row_filters (f ∷ fs) m =
    add_row_filters fs (add f.openfga.type (row_filter_subject_relation_or_default f.openfga) m)

add_column_access : List ColumnAccessSpec → Relations → Relations
unfolding add column_access_subject_relation_or_default
add_column_access [] m = m
add_column_access (c ∷ cs) m =
    add_column_access cs
      (add c.openfga.type (column_access_subject_relation_or_default c.openfga) m)

types_from : Relations → List String → List AuthzType
types_from m [] = []
types_from m (name ∷ names) =
    record { name = name; relations = sorted (relations_of name m) } ∷ types_from m names

unfoldable pub access_authz_types : AuthzSpec → List AuthzType
unfolding add_row_filters add_column_access types_from
access_authz_types spec =
    let m = add_column_access spec.column_access (add_row_filters spec.row_filters []) in
    types_from m (sorted (keys m))
