-- ===== src/Accessors/Settled.antt =====
-- What a second reconciliation of a ServiceAccessor finds.
use meshach.Prelude.{◌≡◌, false, Text}
use meshach.Api.{MeshConfigSpec, ServiceAccessor}
use meshach.Istio.{Sidecar}
use meshach.Cluster.{Cluster, DeepEqualLaws}
use meshach.Client.{not_found, ok, err}
use meshach.Client.Actions.{done, fail}
use meshach.Mesh.Rules.{differs}
use meshach.Accessors.{build_sidecar, compare_sidecar, sidecar_found, reconcile_sidecar}

-- The API server returns a Sidecar that has been created.
pub record Remembers {S : Type 0} (cluster : Cluster S) : Type 0 where
  pub get_created :
      (o : Sidecar) (s s' : S)
      → cluster.sidecars.create o s ≡ (ok tt, s')
      → cluster.sidecars.get o.meta.namespace o.meta.name s' ≡ ok o

module _ {S : Type 0} (cluster : Cluster S) where
  same_sidecar :
      DeepEqualLaws cluster.deep_equal → (o : Sidecar) → compare_sidecar cluster o o ≡ false
  unfolding compare_sidecar differs
  same_sidecar laws o = rw (
    laws.finalizers_refl o.meta.finalizers,
    laws.labels_refl o.meta.labels,
    laws.sidecar_refl o.spec,
  )

  -- Where a namespace has no Sidecar for the accessor and its creation succeeds, reconcileSidecar reports
  -- `NotFound` all the same, and run once more it returns without an error and changes nothing.
  pub reconcile_sidecar-settled :
      (mesh : MeshConfigSpec) (namespace : Text) (sa : ServiceAccessor) (s s' : S)
      → DeepEqualLaws cluster.deep_equal
      → Remembers cluster
      → cluster.sidecars.get namespace sa.meta.name s ≡ err not_found
      → cluster.sidecars.create (build_sidecar mesh namespace sa) s ≡ (ok tt, s')
      → (reconcile_sidecar cluster mesh namespace sa s ≡ (fail not_found, s'))
        × (reconcile_sidecar cluster mesh namespace sa s' ≡ (done tt, s'))
  unfolding reconcile_sidecar sidecar_found
  reconcile_sidecar-settled mesh namespace sa s s' laws remembers g c =
      let sidecar = build_sidecar mesh namespace sa in
      let back : cluster.sidecars.get namespace sa.meta.name s' ≡ ok sidecar =
        unfold build_sidecar in remembers.get_created sidecar s s' c in
      (rw (g, c), rw (back, same_sidecar laws sidecar))
