-- ===== src/Access/People.antt =====
-- internal/controller/access.go: the access groups, their members, and the roles and tuples that they
-- become.
use data_platform_operator.Base.{
  Bool, not, ◌||◌, none, some, List, [], ◌∷◌, ◌++◌, String, ◌<>◌, ◌==◌, contains, lookup,
  if◌then◌else◌,
}
use data_platform_operator.Base.Text.{has_prefix, trim_prefix, trim_space}
use data_platform_operator.Api.Constants.{
  default_group_platform_admins, default_group_data_engineers, default_group_analysts,
}
use data_platform_operator.Catalog.Types.{
  CatalogPrincipal, CatalogAccessRole, AuthzTuple, MemberEntry,
}

-- `accessGroup`
pub record AccessGroup : Type 0 where
  pub name : String
  pub description : String
  pub server_relations : List String
  pub project_relations : List String
  pub warehouse_relations : List String

abbrev pub default_access_groups : List AccessGroup
default_access_groups =
    (record {
      name = default_group_platform_admins;
      description = "Full control of the catalog, warehouse, and project";
      server_relations = "admin" ∷ [];
      project_relations = "project_admin" ∷ [];
      warehouse_relations = [];
    })
    ∷ (record {
      name = default_group_data_engineers;
      description = "Create and modify tables in the default warehouse";
      server_relations = [];
      project_relations = "describe" ∷ "select" ∷ "create" ∷ "modify" ∷ [];
      warehouse_relations = "describe" ∷ "select" ∷ "create" ∷ "modify" ∷ [];
    })
    ∷ (record {
      name = default_group_analysts;
      description = "Read tables in the default warehouse";
      server_relations = [];
      project_relations = "describe" ∷ "select" ∷ [];
      warehouse_relations = "describe" ∷ "select" ∷ [];
    })
    ∷ []

abbrev pub group_names : List AccessGroup → List String
group_names [] = []
group_names (g ∷ gs) = g.name ∷ group_names gs

unfoldable pub wanted : String → Bool
wanted name = contains (group_names default_access_groups) name

-- a member that is a person, not the account of a service
unfoldable pub is_person : MemberEntry → Bool
unfolding has_prefix
is_person m =
    not ((m.id == "") || not (m.service_client == "") || has_prefix m.username "service-account-")

unfoldable pub principal_of : MemberEntry → CatalogPrincipal
unfolding trim_space
principal_of m =
    let name = trim_space (m.first_name <> " " <> m.last_name) in
    record {
      subject = "oidc~" <> m.id;
      name = if name == "" then m.username else name;
      email = m.email;
      type = "human";
      server_relation = "";
      project_relation = "";
    }

unfoldable pub principals_of : List MemberEntry → List CatalogPrincipal
unfolding is_person principal_of
principals_of [] = []
principals_of (m ∷ ms) =
    let rest = principals_of ms in if is_person m then principal_of m ∷ rest else rest

abbrev pub Members : Type 0
Members = List (String × List CatalogPrincipal)

-- `members[name]`, nothing where the group was not listed
unfoldable pub members_of : String → Members → List CatalogPrincipal
members_of name members = elim (lookup name members) [ none ↦ [] | some ps ↦ ps ]

unfoldable pub roles_of : Members → List AccessGroup → List CatalogAccessRole
unfolding members_of
roles_of members [] = []
roles_of members (g ∷ gs) =
    (record {
      name = g.name;
      description = g.description;
      server_relations = g.server_relations;
      project_relations = g.project_relations;
      warehouse_relations = g.warehouse_relations;
      members = members_of g.name members;
    })
    ∷ roles_of members gs

unfoldable pub group_tuples : String → List CatalogPrincipal → List AuthzTuple
unfolding trim_prefix
group_tuples name [] = []
group_tuples name (p ∷ ps) =
    (record {
      user = "user:" <> trim_prefix p.subject "oidc~";
      relation = "member";
      object = "group:" <> name;
    })
    ∷ group_tuples name ps

unfoldable pub tuples_of : Members → List AccessGroup → List AuthzTuple
unfolding members_of group_tuples
tuples_of members [] = []
tuples_of members (g ∷ gs) = group_tuples g.name (members_of g.name members) ++ tuples_of members gs
