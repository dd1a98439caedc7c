-- ===== src/Accessors/Forgives.antt =====
-- Errors of reconcileSidecar in the reconciliation of controllers/serviceaccessor/controller.go.
use meshach.Prelude.{◌≡◌, refl, Bool-cases, inl, inr, List, [], ◌∷◌, Text}
use meshach.Api.{MeshConfigSpec, ServiceAccessor}
use meshach.Istio.{Sidecar}
use meshach.Cluster.{Cluster}
use meshach.Client.{not_found, already_exists, conflict, other, Result, ok, err}
use meshach.Client.Actions.{Outcome, done}
use meshach.Accessors.{
  copy_sidecar, ignored, compare_sidecar, sidecar_found, get_app_namespace, build_sidecar,
  get_mesh_config, reconcile_sidecar, reconcile_namespaces, reconcile_accessors, reconcile_listed,
  reconcile,
}

module _ {S : Type 0} (cluster : Cluster S) where
  -- The action does not panic.
  Calm : Outcome Unit × S → Type 0
  Calm r = ignored r.0 ≡ done tt

  created-Calm :
      (sidecar : Sidecar) (s : S) (r : Result Unit × S)
      → cluster.sidecars.create sidecar s ≡ r
      → Calm (sidecar_found cluster sidecar (err not_found) s)
  unfolding Calm sidecar_found
  created-Calm sidecar s (ok u, t) e = rw e
  created-Calm sidecar s (err x, t) e = rw e

  updated-Calm :
      (sidecar found : Sidecar) (s : S) (r : Result Unit × S)
      → cluster.retry (cluster.sidecars.update (copy_sidecar sidecar found)) s ≡ r
      → Calm (sidecar_found cluster sidecar (ok found) s)
  unfolding Calm sidecar_found
  updated-Calm sidecar found s (ok u, t) e =
      elim (Bool-cases (compare_sidecar cluster sidecar found)) [ inl d ↦ rw (d, e) | inr d ↦ rw d ]
  updated-Calm sidecar found s (err x, t) e =
      elim (Bool-cases (compare_sidecar cluster sidecar found)) [ inl d ↦ rw (d, e) | inr d ↦ rw d ]

  sidecar-Calm :
      (sidecar : Sidecar) (found : Result Sidecar) (s : S)
      → Calm (sidecar_found cluster sidecar found s)
  sidecar-Calm sidecar (ok found) s = updated-Calm sidecar found s _ refl
  sidecar-Calm sidecar (err not_found) s = created-Calm sidecar s _ refl
  sidecar-Calm sidecar (err already_exists) s = unfold Calm sidecar_found in refl
  sidecar-Calm sidecar (err conflict) s = unfold Calm sidecar_found in refl
  sidecar-Calm sidecar (err other) s = unfold Calm sidecar_found in refl

  error_ignored :
      (sidecar : Sidecar) (found : Result Sidecar) (s : S)
      → ignored (sidecar_found cluster sidecar found s).0 ≡ done tt
  unfolding Calm
  error_ignored = sidecar-Calm

  module _ (mesh : MeshConfigSpec) where
    namespaces_return :
        (sa : ServiceAccessor) (namespaces : List Text) (s : S)
        → (reconcile_namespaces cluster mesh sa namespaces s).0 ≡ done tt
    unfolding reconcile_namespaces reconcile_sidecar
    namespaces_return sa [] s = refl
    namespaces_return sa (namespace ∷ rest) s =
        rw
          (error_ignored (build_sidecar mesh namespace sa)
            (cluster.sidecars.get namespace sa.meta.name s) s)
          (namespaces_return sa rest _)

    accessors_return :
        (items : List ServiceAccessor) (s : S)
        → (reconcile_accessors cluster mesh items s).0 ≡ done tt
    unfolding reconcile_accessors
    accessors_return [] s = refl
    accessors_return (sa ∷ rest) s =
        rw (namespaces_return sa (get_app_namespace cluster mesh sa.meta.name s) s)
          (accessors_return rest _)

  -- Once the MeshConfig is read and the accessors are listed, Reconcile returns without an error and
  -- without a panic, whatever the reads and writes of the Sidecars answer.
  pub accessor_reconcile-returns :
      (list_accessors : Text → S → Result (List ServiceAccessor)) (name : Text) (s : S)
      (mesh : MeshConfigSpec) (items : List ServiceAccessor)
      → cluster.mesh_configs.get cluster.opt.mesh_config_namespace cluster.opt.mesh_config_name s
        ≡ ok mesh
      → list_accessors name s ≡ ok items
      → (reconcile cluster list_accessors name s).0 ≡ done tt
  unfolding reconcile get_mesh_config reconcile_listed
  accessor_reconcile-returns list_accessors name s mesh items m l =
      rw (m, l) (accessors_return mesh items s)
