-- ===== src/Trino/Access.antt =====
-- Trino's access control: when there is any, and that its file is mounted where it is written.
use data_platform_operator.Base.{
  Bool, true, false, not, ◌&&◌, ◌||◌, List, [], ◌∷◌, ◌++◌, String, ◌<>◌, ◌==◌, ◌≡◌, refl, ap, sym,
  ◌∙◌, contains, keys, lookup, Bool-cases, inl, inr, arith, if◌then◌else◌,
}
use data_platform_operator.Base.Sort.{sorted}
use data_platform_operator.Base.Strings.{append-nonempty}
use data_platform_operator.Api.Access.{authz_has_row_filters, authz_has_column_access}
use data_platform_operator.Api.Platform.{DataPlatform}
use data_platform_operator.Config.{OidcConfig, OpenfgaConfig}
use data_platform_operator.Kube.Objects.{VolumeMount}
use data_platform_operator.Trino.{
  render_keys, render_properties, access_control_map, trino_access_control_properties,
}
use data_platform_operator.Trino.Engine.{TrinoConfig, config_contents, trino_opa_url, trino_config}
use data_platform_operator.Trino.Pod.{trino_mounts}

-- what is rendered begins with a key, so it is not empty
set_unless :
    (url rest : String)
    → ((if url == "" then "" else "access-control.name" <> rest) == "") ≡ (url == "")
set_unless url rest =
    elim (Bool-cases (url == ""))
      as (λ x. ((if url == "" then "" else "access-control.name" <> rest) == "") ≡ (url == "")) [
        | inl e ↦ rw e refl
        | inr e ↦ rw e (append-nonempty "access-control.name" _ (omega arith))
      ]

unset_iff :
    (url : String) (rows columns : Bool)
    → (trino_access_control_properties url rows columns == "") ≡ (url == "")
unfolding trino_access_control_properties render_properties render_keys access_control_map sorted
    data_platform_operator.Base.Sort.text_le
unset_iff url true true = set_unless url _
unset_iff url true false = set_unless url _
unset_iff url false true = set_unless url _
unset_iff url false false = set_unless url _

unfoldable pub mounts_access : List VolumeMount → Bool
mounts_access [] = false
mounts_access (m ∷ ms) = (m.sub_path == "access-control.properties") || mounts_access ms

written_iff :
    (cfg : TrinoConfig)
    → contains (keys (config_contents cfg)) "access-control.properties"
      ≡ not (cfg.access_control == "")
unfolding config_contents contains
written_iff cfg =
    elim (Bool-cases (cfg.access_control == ""))
      as (λ x.
        contains (keys (config_contents cfg)) "access-control.properties"
        ≡ not (cfg.access_control == "")) [ inl e ↦ rw e refl | inr e ↦ rw e refl ]

pub mounted_iff :
    (opa : Bool) → mounts_access (trino_mounts "config.properties.coordinator" opa) ≡ opa
unfolding mounts_access trino_mounts
mounted_iff true = refl
mounted_iff false = refl

gate_iff :
    (a b : Bool) (url : String)
    → not ((if a && b then url else "") == "") ≡ (a && b && not (url == ""))
gate_iff true true url = refl
gate_iff true false url = refl
gate_iff false b url = refl

pub opa_url_iff :
    (oidc : OidcConfig) (fga : OpenfgaConfig)
    → not (trino_opa_url oidc fga == "") ≡ (fga.enabled && oidc.enabled && not (fga.opa_url == ""))
unfolding trino_opa_url
opa_url_iff oidc fga = gate_iff fga.enabled oidc.enabled fga.opa_url

-- The Secret of the configuration has the file of the access control exactly if authorization and
-- authentication are both on and OpenFGA's component handed an address of OPA on.
pub trino_config-access_control :
    (dp : DataPlatform) (oidc : OidcConfig) (fga : OpenfgaConfig) (shared : String)
    → contains
        (keys (config_contents (trino_config dp oidc fga shared)))
        "access-control.properties"
      ≡ (fga.enabled && oidc.enabled && not (fga.opa_url == ""))
unfolding trino_config
trino_config-access_control dp oidc fga shared =
    written_iff (trino_config dp oidc fga shared)
    ∙ ap not (
        unset_iff (trino_opa_url oidc fga) (authz_has_row_filters dp.spec.authz)
          (authz_has_column_access dp.spec.authz))
    ∙ opa_url_iff oidc fga
