-- ===== src/ConfiguredServices/Sidecars.antt =====
-- controllers/configuredservice/sidecar.go
pub mod Missing
use meshach.Prelude.{
  ◌≡◌, Bool, true, false, Option, none, some, List, [], ◌∷◌, ltb, if◌then◌else◌, Text, text_eq,
  bytes, Dict, lookup, length,
}
use meshach.Api.{MeshConfigSpec, Instance, ConfiguredService}
use meshach.Istio.{Sidecar}
use meshach.Cluster.{Cluster}
use meshach.Client.{Error, not_found, Result, ok, err}
use meshach.Client.Actions.{Action, pure, throw, try, check, read, ◌>>=◌, ◌>>◌}

unfoldable pub build_default_egress : MeshConfigSpec → List Text
build_default_egress mesh =
    if ltb 0 (length mesh.sidecar_default_hosts)
    then mesh.sidecar_default_hosts
    else bytes "istio-system/*" ∷ []

unfoldable pub build_sidecar : MeshConfigSpec → Text → Text → Sidecar
unfolding build_default_egress
build_sidecar mesh ns app_name = record {
  meta = record { name = app_name; namespace = ns; labels = []; finalizers = [] };
  spec = record {
    workload_selector = (mesh.sidecar_select_label, app_name) ∷ [];
    egress_hosts = build_default_egress mesh;
  };
}

-- The name of the first instance that has the select label; "" without one.
unfoldable pub get_app_name : MeshConfigSpec → List Instance → Text
unfolding lookup
get_app_name mesh [] = []
get_app_name mesh (ep ∷ rest) = elim (lookup mesh.sidecar_select_label ep.labels) [
  | some app_name ↦ app_name
  | none ↦ get_app_name mesh rest
]

module _ {S : Type 0} (cluster : Cluster S) (mesh : MeshConfigSpec) where
  -- An error of the list is logged, and leaves no pods.
  unfoldable pub get_app_namespace : Text → S → List Text
  get_app_namespace app_name s = elim (cluster.list_pods mesh.sidecar_select_label app_name s) [
    | ok namespaces ↦ namespaces
    | err _ ↦ []
  ]

  -- Errors of the creation are logged.
  create_default : Text × Dict Text → Action S Unit
  unfolding lookup build_sidecar
  create_default (namespace, labels) = elim (lookup mesh.sidecar_select_label labels) [
    | none ↦ pure tt
    | some app_name ↦ (do
      created ← try (cluster.sidecars.create (build_sidecar mesh namespace app_name))
      pure tt)
  ]

  create_defaults : List (Text × Dict Text) → Action S Unit
  unfolding create_default
  create_defaults [] = pure tt
  create_defaults (dep ∷ rest) = create_default dep >> create_defaults rest

  unfoldable pub init_default_sidecars_by_deploy : Action S Unit
  unfolding create_defaults
  init_default_sidecars_by_deploy = do
    listed ← read cluster.list_deployments
    create_defaults (elim listed [ ok deps ↦ deps | err _ ↦ [] ])

  -- After `NotFound` the sidecar is created, and then the error of Get is returned.
  unfoldable pub sidecar_missing : Text → Text → Error → Action S Unit
  unfolding build_sidecar
  sidecar_missing ns app_name not_found = do
    created ← try (cluster.sidecars.create (build_sidecar mesh ns app_name))
    check created
    throw not_found
  sidecar_missing ns app_name e = throw e

  unfoldable pub check_sidecar : Text → Text → Result Sidecar → Action S Unit
  unfolding sidecar_missing
  check_sidecar ns app_name (ok _) = pure tt
  check_sidecar ns app_name (err e) = sidecar_missing ns app_name e

  unfoldable pub sidecars_in : Text → List Text → Action S Unit
  unfolding check_sidecar
  sidecars_in app_name [] = pure tt
  sidecars_in app_name (ns ∷ rest) = do
    found ← read (cluster.sidecars.get ns app_name)
    check_sidecar ns app_name found
    sidecars_in app_name rest

  -- `initialised` is `r.Opt.InitDefaultSidecars`, which is true afterwards.
  unfoldable pub reconcile_sidecar : Bool → ConfiguredService → Action S Unit
  unfolding init_default_sidecars_by_deploy
  reconcile_sidecar initialised cs =
      let app_name = get_app_name mesh cs.spec.instances in
      (if initialised then pure tt else init_default_sidecars_by_deploy)
      >> (if text_eq app_name []
          then pure tt
          else do namespaces ← read (get_app_namespace app_name); sidecars_in app_name namespaces)
