-- ===== src/Accessors.antt =====
-- controllers/serviceaccessor/controller.go: the ServiceAccessor controller, which limits what the pods of
-- an application may reach.
pub mod Forgives
pub mod Settled
pub mod Hosts
use meshach.Prelude.{
  ◌≡◌, Bool, true, false, List, [], ◌∷◌, ◌++◌, ltb, if◌then◌else◌, Text, bytes, Dict, length,
}
use meshach.Api.{MeshConfigSpec, ServiceAccessor}
use meshach.Istio.{Sidecar}
use meshach.Cluster.{Cluster}
use meshach.Client.{Error, not_found, Result, ok, err}
use meshach.Client.Actions.{
  Outcome, done, fail, panic, Action, pure, throw, crash, try, check, read, ◌>>=◌, ◌>>◌,
}
use meshach.Utils.{format_to_dns1123}
use meshach.Mesh.Rules.{differs}
use meshach.Mesh.Objects.{copy_meta}

-- `for _, svc := range accessHosts { hosts = append(hosts, ...) }`
unfoldable pub access_hosts : Text → List Text → List Text
access_hosts namespace [] = []
access_hosts namespace (svc ∷ rest) =
    (namespace ++ bytes "/" ++ format_to_dns1123 svc) ∷ access_hosts namespace rest

unfoldable pub build_hosts : MeshConfigSpec → Text → List Text → List Text
unfolding access_hosts
build_hosts mesh namespace hosts =
    (if ltb 0 (length mesh.sidecar_default_hosts) then mesh.sidecar_default_hosts else [])
    ++ access_hosts namespace hosts

unfoldable pub build_egress : MeshConfigSpec → ServiceAccessor → List Text
unfolding build_hosts
build_egress mesh sa = build_hosts mesh sa.meta.namespace sa.spec.access_hosts

unfoldable pub build_sidecar : MeshConfigSpec → Text → ServiceAccessor → Sidecar
unfolding build_egress
build_sidecar mesh namespace sa = record {
  meta = record { name = sa.meta.name; namespace = namespace; labels = []; finalizers = [] };
  spec = record {
    workload_selector = (mesh.sidecar_select_label, sa.meta.name) ∷ [];
    egress_hosts = build_egress mesh sa;
  };
}

-- The found Sidecar with the spec, the finalizers and the labels of the new one.
abbrev pub copy_sidecar : Sidecar → Sidecar → Sidecar
copy_sidecar sidecar found = record {
  meta = copy_meta sidecar.meta found.meta;
  spec = sidecar.spec;
}

-- The error of a call is not looked at.
abbrev pub ignored : Outcome Unit → Outcome Unit
ignored (done u) = done tt
ignored (fail e) = done tt
ignored panic = panic

module _ {S : Type 0} (cluster : Cluster S) where
  unfoldable pub compare_sidecar : Sidecar → Sidecar → Bool
  unfolding differs
  compare_sidecar new old =
      differs cluster.deep_equal.finalizers cluster.deep_equal.labels cluster.deep_equal.sidecar
        new.meta old.meta new.spec old.spec

  -- The error of Create hides that of Get only inside its block: `NotFound` is returned in the end.
  unfoldable pub sidecar_found : Sidecar → Result Sidecar → Action S Unit
  sidecar_found sidecar (err not_found) = do
    created ← try (cluster.sidecars.create sidecar)
    check created
    throw not_found
  sidecar_found sidecar (err e) = throw e
  sidecar_found sidecar (ok found) =
      if compare_sidecar sidecar found
      then (do
        updated ← try (cluster.retry (cluster.sidecars.update (copy_sidecar sidecar found)))
        check updated)
      else pure tt

  -- An error of the list is logged, and leaves no pods.
  unfoldable pub get_app_namespace : MeshConfigSpec → Text → S → List Text
  get_app_namespace mesh app_name s =
      elim (cluster.list_pods mesh.sidecar_select_label app_name s) [
        | ok namespaces ↦ namespaces
        | err _ ↦ []
      ]

  unfoldable pub get_mesh_config : Action S MeshConfigSpec
  get_mesh_config = do
    found ←
        read
          (cluster.mesh_configs.get cluster.opt.mesh_config_namespace cluster.opt.mesh_config_name)
    check found

  module _ (mesh : MeshConfigSpec) where
    unfoldable pub reconcile_sidecar : Text → ServiceAccessor → Action S Unit
    reconcile_sidecar namespace sa s =
        sidecar_found (build_sidecar mesh namespace sa)
          (cluster.sidecars.get namespace sa.meta.name s) s

    -- The loop over the namespaces calls reconcileSidecar and drops its error.
    unfoldable pub reconcile_namespaces : ServiceAccessor → List Text → Action S Unit
    reconcile_namespaces sa [] = pure tt
    reconcile_namespaces sa (namespace ∷ rest) =
        (λ s. let (r, s') = reconcile_sidecar namespace sa s in (ignored r, s'))
        >> reconcile_namespaces sa rest

    unfoldable pub reconcile_accessors : List ServiceAccessor → Action S Unit
    reconcile_accessors [] = pure tt
    reconcile_accessors (sa ∷ rest) =
        (λ s. reconcile_namespaces sa (get_app_namespace mesh sa.meta.name s) s)
        >> reconcile_accessors rest

    unfoldable pub reconcile_listed : Result (List ServiceAccessor) → Action S Unit
    reconcile_listed (err not_found) = pure tt
    reconcile_listed (err e) = throw e
    reconcile_listed (ok items) = reconcile_accessors items

  -- The accessors of one name in all namespaces are listed.
  unfoldable pub reconcile : (Text → S → Result (List ServiceAccessor)) → Text → Action S Unit
  reconcile list_accessors name = do
    mesh ← get_mesh_config
    listed ← read (list_accessors name)
    reconcile_listed mesh listed
