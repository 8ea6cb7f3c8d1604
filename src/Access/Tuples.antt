-- ===== src/Access/Tuples.antt =====
-- The members of a Keycloak group, as OpenFGA knows them.
use Prim.Native.String.append
use data_platform_operator.Base.{
  ◌||◌, not, some, List, [], ◌∷◌, String, ◌<>◌, ◌==◌, ◌≡◌, refl, arith, if◌then◌else◌,
}
use data_platform_operator.Base.Text.{cut_prefix, trim_prefix, has_prefix}
use data_platform_operator.Catalog.Types.{AuthzTuple, MemberEntry}
use data_platform_operator.Access.People.{is_person, principal_of, principals_of, group_tuples}

cut_prefix_lem : (p s : String) → cut_prefix (p <> s) p ≡ some s
unfolding cut_prefix
cut_prefix_lem String.[] s = rw (append.nil s) refl
cut_prefix_lem (String.◌∷◌ c p) s = rw (append.cons c p s) (ground (arith, cut_prefix_lem p s))

trim_prefix_lem : (p s : String) → trim_prefix (p <> s) p ≡ s
unfolding trim_prefix
trim_prefix_lem p s = rw (trim_prefix, cut_prefix_lem p s) refl

-- the people among the members, each by the tuple that the group's own identifiers give it
unfoldable pub person_tuples : String → List MemberEntry → List AuthzTuple
person_tuples group [] = []
person_tuples group (m ∷ ms) =
    let rest = person_tuples group ms in
    if (m.id == "") || not (m.service_client == "") || has_prefix m.username "service-account-"
    then rest
    else (record { user = "user:" <> m.id; relation = "member"; object = "group:" <> group }) ∷ rest

-- For every group and every list of members that Keycloak returns: the tuples are one for each
-- member that has an id and is not a service account, in order, and the user of each is the
-- Keycloak id itself, without the prefix that LakeKeeper's subjects have.
pub group_tuples-principals_of :
    (group : String) (ms : List MemberEntry)
    → group_tuples group (principals_of ms) ≡ person_tuples group ms
unfolding group_tuples principals_of person_tuples is_person principal_of
group_tuples-principals_of group [] = refl
group_tuples-principals_of group (m ∷ ms) =
    ground (arith, group_tuples-principals_of group ms, trim_prefix_lem "oidc~" m.id)
