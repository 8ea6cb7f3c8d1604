-- ===== src/Authz/Types/Declares.antt =====
-- The types declare the relations that the specification names, and no others.
use data_platform_operator.Base.{
  Bool, false, ◌||◌, ◌&&◌, List, [], ◌∷◌, ◌++◌, String, ◌==◌, ◌≡◌, refl, ap, arith, eq_iff,
  contains, keys, All, lookup, lookup-insert,
}
use data_platform_operator.Base.Sort.{sorted, IsSorted, sorted-IsSorted, contains-sorted}
use data_platform_operator.Base.Maps.{contains-keys}
use data_platform_operator.Api.Access.{
  RowFilterSpec, ColumnAccessSpec, AuthzSpec, row_filter_subject_relation_or_default,
  column_access_subject_relation_or_default,
}
use data_platform_operator.Catalog.Types.{AuthzType}
use data_platform_operator.Authz.Types.{
  Relations, relations_of, add, add_row_filters, add_column_access, types_from, access_authz_types,
}

-- Some type of the list has the name and the relation.
unfoldable pub declares : String → String → List AuthzType → Bool
declares name relation [] = false
declares name relation (t ∷ ts) =
    ((t.name == name) && contains t.relations relation) || declares name relation ts

-- Some row filter guards its values by the type and the relation.
unfoldable pub filtered_by : String → String → List RowFilterSpec → Bool
filtered_by name relation [] = false
filtered_by name relation (f ∷ fs) =
    ((f.openfga.type == name) && (row_filter_subject_relation_or_default f.openfga == relation))
    || filtered_by name relation fs

-- Some column restriction is lifted by the type and the relation.
unfoldable pub revealed_by : String → String → List ColumnAccessSpec → Bool
revealed_by name relation [] = false
revealed_by name relation (c ∷ cs) =
    ((c.openfga.type == name) && (column_access_subject_relation_or_default c.openfga == relation))
    || revealed_by name relation cs

has : String → String → Relations → Bool
has name relation m = contains (relations_of name m) relation

contains-append_one :
    (xs : List String) (x a : String) → contains (xs ++ x ∷ []) a ≡ (contains xs a || (x == a))
unfolding contains
contains-append_one [] x a = ground arith
contains-append_one (y ∷ ys) x a = ground (arith, contains-append_one ys x a)

has-add :
    (name relation n r : String) (m : Relations)
    → has n r (add name relation m) ≡ (((name == n) && (relation == r)) || has n r m)
unfolding has add
has-add name relation n r m = ground (
  arith,
  lookup-insert name n (relations_of name m ++ relation ∷ []) m,
  contains-append_one (relations_of name m) relation r,
  eq_iff name n,
  eq_iff relation r,
)

has-add_row_filters :
    (n r : String) (fs : List RowFilterSpec) (m : Relations)
    → has n r (add_row_filters fs m) ≡ (filtered_by n r fs || has n r m)
unfolding add_row_filters filtered_by
has-add_row_filters n r [] m = refl
has-add_row_filters n r (f ∷ fs) m =
    let relation = row_filter_subject_relation_or_default f.openfga in
    ground (
      arith,
      has-add_row_filters n r fs (add f.openfga.type relation m),
      has-add f.openfga.type relation n r m,
    )

has-add_column_access :
    (n r : String) (cs : List ColumnAccessSpec) (m : Relations)
    → has n r (add_column_access cs m) ≡ (revealed_by n r cs || has n r m)
unfolding add_column_access revealed_by
has-add_column_access n r [] m = refl
has-add_column_access n r (c ∷ cs) m =
    let relation = column_access_subject_relation_or_default c.openfga in
    ground (
      arith,
      has-add_column_access n r cs (add c.openfga.type relation m),
      has-add c.openfga.type relation n r m,
    )

types_from_lem :
    (m : Relations) (names : List String) (n r : String)
    → declares n r (types_from m names) ≡ (contains names n && has n r m)
unfolding types_from declares contains has
types_from_lem m [] n r = refl
types_from_lem m (name ∷ names) n r =
    ground
      (arith, types_from_lem m names n r, contains-sorted r (relations_of name m), eq_iff name n)

has_key_lem : (n r : String) (m : Relations) → (contains (keys m) n && has n r m) ≡ has n r m
unfolding has contains
has_key_lem n r m = ground (arith, contains-keys n m)

has_nothing : (n r : String) → has n r [] ≡ false
unfolding has contains lookup
has_nothing n r = refl

-- For every type name and relation: the object types declare it exactly when a row filter or a
-- column restriction of the specification names it, its relation defaulted.
pub declares-access_authz_types :
    (spec : AuthzSpec) (name relation : String)
    → declares name relation (access_authz_types spec)
      ≡ (filtered_by name relation spec.row_filters || revealed_by name relation spec.column_access)
unfolding access_authz_types
declares-access_authz_types spec n r =
    let rows = add_row_filters spec.row_filters [] in
    let m = add_column_access spec.column_access rows in
    ground (
      arith,
      types_from_lem m (sorted (keys m)) n r,
      contains-sorted n (keys m),
      has_key_lem n r m,
      has-add_column_access n r spec.column_access rows,
      has-add_row_filters n r spec.row_filters [],
      has_nothing n r,
    )

abbrev pub names : List AuthzType → List String
names [] = []
names (t ∷ ts) = t.name ∷ names ts

names-types_from : (m : Relations) (ns : List String) → names (types_from m ns) ≡ ns
unfolding types_from
names-types_from m [] = refl
names-types_from m (n ∷ ns) = ap (λ r. n ∷ r) (names-types_from m ns)

relations-IsSorted :
    (m : Relations) (ns : List String) → All (λ t. IsSorted t.relations) (types_from m ns)
unfolding types_from
relations-IsSorted m [] = tt
relations-IsSorted m (n ∷ ns) = (sorted-IsSorted (relations_of n m), relations-IsSorted m ns)

-- The types come in the order of their names, and the relations of each in order, so that the
-- request does not depend on the order in which Go walks a map.
pub access_authz_types-IsSorted :
    (spec : AuthzSpec)
    → IsSorted (names (access_authz_types spec))
      × All (λ t. IsSorted t.relations) (access_authz_types spec)
unfolding access_authz_types
access_authz_types-IsSorted spec =
    let m = add_column_access spec.column_access (add_row_filters spec.row_filters []) in
    (
      rw (names-types_from m (sorted (keys m))) (sorted-IsSorted (keys m)),
      relations-IsSorted m (sorted (keys m)),
    )
