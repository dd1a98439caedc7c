-- ===== src/ConfiguredServices/Workloads/Converges.antt =====
-- What reconcileWorkloadEntry of controllers/configuredservice/workloadentry.go leaves in the cluster when
-- it returns without an error.
use meshach.Prelude.{
  ℕ, ◌≡◌, inl, inr, refl, sym, ◌∙◌, Bool, false, Option, none, some, is_some, List, [], ◌∷◌,
  if◌then◌else◌, Text, text_eq, Dict, lookup, any,
}
use meshach.Api.{ObjectMeta, MeshConfigSpec, Instance, ConfiguredService}
use meshach.Istio.{WorkloadEntry}
use meshach.Cluster.{Cluster}
use meshach.Client.{Result, ok, err}
use meshach.Client.Actions.{Outcome, done, fail, panic, ◌>>=◌}
use meshach.Client.Sync.{found_map, prune}
use meshach.Client.Sync.Lawful.{Lawful}
use meshach.Client.Sync.Keys.{Keyed, Keyed-found_map}
use meshach.Client.Sync.Converges.{prune-contents}
use meshach.Mesh.Objects.Copies.{SetOwnerLaw}
use meshach.ConfiguredServices.Build.{truncated, build_workload_entry}
use meshach.ConfiguredServices.Build.Metadata.{build_workload_entry-Belongs}
use meshach.ConfiguredServices.Workloads.{
  get_instance_weight, reconcile_entry, reconcile_instance, reconcile_instances,
  reconcile_workload_entry,
}
use meshach.ConfiguredServices.Workloads.Entries.{Rejects, done_injective, reconcile_entry-Handled}
use meshach.ConfiguredServices.Workloads.Handled.{Handled, Handled-join, Handled-seen}

module _ {S : Type 0} (cluster : Cluster S) (sha1 : Text → List ℕ) (mesh : MeshConfigSpec)
    (cs : ConfiguredService) where
  abbrev label : Text
  label = truncated sha1 cs.spec.original_name

  abbrev meta_of_entry : WorkloadEntry → ObjectMeta
  meta_of_entry o = o.meta

  -- The entry of some instance of the list has this name.
  abbrev pub named : Text → List Instance → Bool
  named n instances =
      any (λ ins. text_eq (build_workload_entry sha1 cluster.opt mesh cs ins).meta.name n) instances

  owned_entry :
      (weight_map : Dict ℕ) (ins : Instance) (found left : Dict WorkloadEntry) (s s' : S)
      (r : Result ObjectMeta)
      → SetOwnerLaw cluster.set_owner
      → cluster.set_owner cs.meta (build_workload_entry sha1 cluster.opt mesh cs ins).meta ≡ r
      → reconcile_instance cluster sha1 mesh weight_map cs ins found s ≡ (done left, s')
      → reconcile_entry cluster weight_map
          (build_workload_entry sha1 cluster.opt mesh cs ins)
          found
          (lookup (build_workload_entry sha1 cluster.opt mesh cs ins).meta.name found)
          s
        ≡ (done left, s')
  unfolding reconcile_instance
  owned_entry weight_map ins found left s s' (ok owned) law e h =
      rw (law.same cs.meta _ owned e) at (rw e at h)
  owned_entry weight_map ins found left s s' (err x) law e h = cc (rw e at h)

  rounds :
      (weight_map : Dict ℕ) (ins : Instance) (rest : List Instance)
      (found left : Dict WorkloadEntry) (s s' : S) (r : Outcome (Dict WorkloadEntry) × S)
      → reconcile_instance cluster sha1 mesh weight_map cs ins found s ≡ r
      → reconcile_instances cluster sha1 mesh weight_map cs (ins ∷ rest) found s ≡ (done left, s')
      → (m : Dict WorkloadEntry) × (t : S) × (reconcile_instance cluster sha1 mesh weight_map cs ins
            found s
          ≡ (done m, t))
        × (reconcile_instances cluster sha1 mesh weight_map cs rest m t ≡ (done left, s'))
  unfolding reconcile_instances
  rounds weight_map ins rest found left s s' (done m, t) e h = (m, t, e, rw e at h)
  rounds weight_map ins rest found left s s' (fail x, t) e h = cc (rw e at h)
  rounds weight_map ins rest found left s s' (panic, t) e h = cc (rw e at h)

  no_rounds :
      (weight_map : Dict ℕ) (found left : Dict WorkloadEntry) (s s' : S)
      → reconcile_instances cluster sha1 mesh weight_map cs [] found s ≡ (done left, s')
      → (left ≡ found) × (s' ≡ s)
  unfolding reconcile_instances
  no_rounds weight_map found left s s' h =
      let (same, kept) = done_injective h in (sym same, sym kept)

  module _ {contents : S → Text → Option WorkloadEntry}
      (lawful : Lawful cluster.workload_entries
        (λ o. o.meta)
        cluster.retry
        cluster.opt.select_label
        label
        cs.meta.namespace
        contents)
      (rejects : Rejects cluster contents) (owner_law : SetOwnerLaw cluster.set_owner)
      (weight_map : Dict ℕ) where
    -- After the loop, the entries of the instances are listed and off the map, and nothing else changed.
    all-Handled :
        (instances : List Instance) (found left : Dict WorkloadEntry) (s s' : S)
        → Keyed meta_of_entry found
        → ((n : Text) (o : WorkloadEntry) → lookup n found ≡ some o → contents s n ≡ some o)
        → reconcile_instances cluster sha1 mesh weight_map cs instances found s ≡ (done left, s')
        → Keyed meta_of_entry left × Handled contents (λ n. named n instances) found left s s'
    unfolding any
    all-Handled [] found left s s' keyed seen h =
        let (same, kept) = no_rounds weight_map found left s s' h in
        (rw same keyed, λ n. inr (refl, rw kept, rw same))
    all-Handled (ins ∷ rest) found left s s' keyed seen h =
        let (m, t, e, k) = rounds weight_map ins rest found left s s' _ refl h in
        let we = build_workload_entry sha1 cluster.opt mesh cs ins in
        let (one, keyed_m) =
          reconcile_entry-Handled cluster lawful rejects weight_map we
            (build_workload_entry-Belongs sha1 cluster.opt mesh cs ins) found m s t keyed seen
            (owned_entry weight_map ins found m s t _ owner_law refl e) in
        let (keyed_left, others) =
          all-Handled rest m left t s' keyed_m
            (Handled-seen contents (text_eq we.meta.name) found m s t one seen) k in
        (
          keyed_left,
          Handled-join contents (text_eq we.meta.name) (λ n. named n rest) found m left s t s' one
              others,
        )

  entries_listed :
      (s s' : S) (l : Result (List WorkloadEntry))
      → cluster.workload_entries.list cs.meta.namespace label s ≡ l
      → reconcile_workload_entry cluster sha1 mesh cs s ≡ (done tt, s')
      → (items : List WorkloadEntry) × (cluster.workload_entries.list cs.meta.namespace label s
          ≡ ok items)
        × ((do
          left ←
              reconcile_instances cluster sha1 mesh
                (get_instance_weight cluster cs s)
                cs
                cs.spec.instances
                (found_map meta_of_entry [] items)
          prune cluster.workload_entries left)
              s
            ≡ (done tt, s'))
  unfolding reconcile_workload_entry
  entries_listed s s' (err e) l h = cc (rw l at h)
  entries_listed s s' (ok items) l h = (items, l, rw l at h)

  entries_pruned :
      (weight_map : Dict ℕ) (found : Dict WorkloadEntry) (s s' : S)
      (r : Outcome (Dict WorkloadEntry) × S)
      → reconcile_instances cluster sha1 mesh weight_map cs cs.spec.instances found s ≡ r
      → (do
        left ← reconcile_instances cluster sha1 mesh weight_map cs cs.spec.instances found
        prune cluster.workload_entries left)
          s
        ≡ (done tt, s')
      → (left : Dict WorkloadEntry) × (t : S) × (reconcile_instances cluster sha1 mesh weight_map cs
            cs.spec.instances found s
          ≡ (done left, t))
        × (prune cluster.workload_entries left t ≡ (done tt, s'))
  entries_pruned weight_map found s s' (done left, t) e h = (left, t, e, rw e at h)
  entries_pruned weight_map found s s' (fail x, t) e h = cc (rw e at h)
  entries_pruned weight_map found s s' (panic, t) e h = cc (rw e at h)

  -- When reconcileWorkloadEntry returns without an error, the cluster lists a WorkloadEntry for the service
  -- under a name exactly if that is the name of the entry of one of its instances: every instance has its
  -- entry, and every other one that was listed is deleted. A creation that fails must leave the cluster as
  -- it was, and fail with `AlreadyExists` only for an object that is listed.
  pub reconcile_workload_entry_converges :
      {contents : S → Text → Option WorkloadEntry} (s s' : S)
      → Lawful cluster.workload_entries
          (λ o. o.meta)
          cluster.retry
          cluster.opt.select_label
          label
          cs.meta.namespace
          contents
      → Rejects cluster contents
      → SetOwnerLaw cluster.set_owner
      → reconcile_workload_entry cluster sha1 mesh cs s ≡ (done tt, s')
      → (n : Text) → is_some (contents s' n) ≡ named n cs.spec.instances
  reconcile_workload_entry_converges {contents = contents} s s' lawful rejects owner_law ends n =
      let (items, l, h) = entries_listed s s' _ refl ends in
      let found = found_map meta_of_entry [] items in
      let weight_map = get_instance_weight cluster cs s in
      let (left, t, e, p) = entries_pruned weight_map found s s' _ refl h in
      let seen = lawful.list_ok s items l in
      let (keyed, handled) =
        all-Handled lawful rejects owner_law weight_map cs.spec.instances found left s t
          (Keyed-found_map meta_of_entry items [] tt) (λ k o x. sym (seen k) ∙ x) e in
      let after =
        prune-contents cluster.workload_entries meta_of_entry cluster.retry lawful left t s' keyed p
          n in
      elim (handled n) [
        | inl (here, listed, off) ↦ rw (after, off, here) listed
        | inr (apart, same, held) ↦
            rw (after, apart) (gone (contents t n) (lookup n left) (same ∙ sym (seen n) ∙ sym held))
      ]
    where
      gone : (c l : Option WorkloadEntry) → c ≡ l → is_some (if is_some l then none else c) ≡ false
      gone c none e = rw e
      gone c (some x) e = refl
