-- ===== src/ConfiguredServices/Workloads/Entries.antt =====
-- What reconcileWorkloadEntry of controllers/configuredservice/workloadentry.go does for one instance.
use meshach.Prelude.{
  ℕ, ◌≡◌, ◌⊎◌, inl, inr, refl, sym, ap, ◌∙◌, true, false, Bool-cases, Option, none, some, is_some,
  Option-cases, Text, text_eq, text_eq_iff, Dict, lookup, delete, lookup-delete,
}
use meshach.Istio.{WorkloadEntry}
use meshach.Cluster.{Cluster}
use meshach.Client.{Error, not_found, already_exists, conflict, other, Result, ok, err}
use meshach.Client.Actions.{Outcome, done}
use meshach.Client.Sync.Lawful.{Belongs, Lawful}
use meshach.Client.Sync.Keys.{Keyed, Keyed-delete, Keyed-lookup}
use meshach.Mesh.Objects.Copies.{Belongs-copy_meta}
use meshach.ConfiguredServices.Workloads.{
  weighted, with_weight, copy_workload_entry, compare_workload_entry, reconcile_entry,
}
use meshach.ConfiguredServices.Workloads.Handled.{Handled}

-- A creation that fails changes nothing, and `AlreadyExists` means that the object is listed.
pub record Rejects {S : Type 0} (cluster : Cluster S) (contents : S → Text → Option WorkloadEntry)
    : Type 0 where
  pub create_err :
      (o : WorkloadEntry) (s s' : S) (e : Error)
      → cluster.workload_entries.create o s ≡ (err e, s')
      → s' ≡ s
  pub exists :
      (o : WorkloadEntry) (s s' : S)
      → cluster.workload_entries.create o s ≡ (err already_exists, s')
      → is_some (contents s o.meta.name) ≡ true

meta-weighted : (we : WorkloadEntry) (o : Option ℕ) → (weighted we o).meta ≡ we.meta
unfolding weighted
meta-weighted we none = refl
meta-weighted we (some weight) = refl

pub meta-with_weight : (m : Dict ℕ) (we : WorkloadEntry) → (with_weight m we).meta ≡ we.meta
unfolding with_weight
meta-with_weight m we = meta-weighted we (lookup we.meta.name m)

pub done_injective :
    {S A : Type 0} {a b : A} {s t : S}
    → ◌≡◌ {A = Outcome A × S} (done a, s) (done b, t)
    → (a ≡ b) × (s ≡ t)
done_injective {S = S} {A = A} h =
    (cc (ap (λ (p : Outcome A × S). p.0) h), ap (λ (p : Outcome A × S). p.1) h)

module _ {S : Type 0} (cluster : Cluster S) (weight_map : Dict ℕ) (we : WorkloadEntry)
    (found left : Dict WorkloadEntry) (s s' : S) where
  abbrev entry : Option WorkloadEntry → Outcome (Dict WorkloadEntry) × S
  entry o = reconcile_entry cluster weight_map we found o s

  entry-new :
      (r : Result Unit × S)
      → cluster.workload_entries.create we s ≡ r
      → entry none ≡ (done left, s')
      → (left ≡ found)
        × ((cluster.workload_entries.create we s ≡ (ok tt, s'))
            ⊎ (cluster.workload_entries.create we s ≡ (err already_exists, s')))
  unfolding reconcile_entry
  entry-new (ok u, t) e h =
      let k : ◌≡◌ {A = Outcome (Dict WorkloadEntry) × S} (done found, t) (done left, s') =
        rw e at h in
      (sym (done_injective k).0, inl (e ∙ ap (λ z. (ok u, z)) (done_injective k).1))
  entry-new (err already_exists, t) e h =
      let k : ◌≡◌ {A = Outcome (Dict WorkloadEntry) × S} (done found, t) (done left, s') =
        rw e at h in
      (sym (done_injective k).0, inr (e ∙ ap (λ z. (err already_exists, z)) (done_injective k).1))
  entry-new (err not_found, t) e h = cc (rw e at h)
  entry-new (err conflict, t) e h = cc (rw e at h)
  entry-new (err other, t) e h = cc (rw e at h)

  entry-same :
      (old : WorkloadEntry)
      → compare_workload_entry cluster we old ≡ false
      → entry (some old) ≡ (done left, s')
      → (left ≡ delete we.meta.name found) × (s' ≡ s)
  unfolding reconcile_entry
  entry-same old d h =
      let k : ◌≡◌ {A = Outcome (Dict WorkloadEntry) × S} (done (delete we.meta.name found), s)
          (done left, s') =
        rw d at h in
      (sym (done_injective k).0, sym (done_injective k).1)

  entry-changed :
      (old : WorkloadEntry) (r : Result Unit × S)
      → compare_workload_entry cluster we old ≡ true
      → cluster.retry
          (cluster.workload_entries.update (copy_workload_entry (with_weight weight_map we) old))
          s
        ≡ r
      → entry (some old) ≡ (done left, s')
      → (left ≡ delete we.meta.name found)
        × (cluster.retry
              (cluster.workload_entries.update
                (copy_workload_entry (with_weight weight_map we) old))
              s
            ≡ (ok tt, s'))
  unfolding reconcile_entry
  entry-changed old (ok u, t) d e h =
      let k : ◌≡◌ {A = Outcome (Dict WorkloadEntry) × S} (done (delete we.meta.name found), t)
          (done left, s') =
        rw (d, e) at h in
      (sym (done_injective k).0, e ∙ ap (λ z. (ok u, z)) (done_injective k).1)
  entry-changed old (err x, t) d e h = cc (rw (d, e) at h)

  entry-left :
      (old : WorkloadEntry) → entry (some old) ≡ (done left, s') → left ≡ delete we.meta.name found
  entry-left old h = elim (Bool-cases (compare_workload_entry cluster we old)) [
    | inl d ↦ (entry-changed old _ d refl h).0
    | inr d ↦ (entry-same old d h).0
  ]

module _ {S : Type 0} (cluster : Cluster S) {label_key label namespace : Text}
    {contents : S → Text → Option WorkloadEntry}
    (lawful : Lawful cluster.workload_entries
      (λ o. o.meta)
      cluster.retry
      label_key
      label
      namespace
      contents)
    (rejects : Rejects cluster contents) (weight_map : Dict ℕ) (we : WorkloadEntry)
    (mine : Belongs label_key label namespace we.meta) (found left : Dict WorkloadEntry)
    (s s' : S) where
  created_here :
      (cluster.workload_entries.create we s ≡ (ok tt, s'))
        ⊎ (cluster.workload_entries.create we s ≡ (err already_exists, s'))
      → (n : Text)
      → (text_eq we.meta.name n ≡ true → is_some (contents s' n) ≡ true)
        × (text_eq we.meta.name n ≡ false → contents s' n ≡ contents s n)
  created_here (inl c) n = (
    λ e. rw (lawful.create_ok we s s' c mine n, e),
    λ e. rw (lawful.create_ok we s s' c mine n, e),
  )
  created_here (inr c) n =
      let same = rejects.create_err we s s' already_exists c in
      (λ e. rw (same, ← (text_eq_iff we.meta.name n).0 e) (rejects.exists we s s' c), λ e. rw same)

  Handled-new :
      lookup we.meta.name found ≡ none
      → reconcile_entry cluster weight_map we found none s ≡ (done left, s')
      → Handled contents (text_eq we.meta.name) found left s s'
  Handled-new l h n =
      let (same, created) = entry-new cluster weight_map we found left s s' _ refl h in
      let (here, there) = created_here created n in
      elim (Bool-cases (text_eq we.meta.name n)) [
        | inl e ↦ inl (e, here e, rw (same, ← (text_eq_iff we.meta.name n).0 e) l)
        | inr e ↦ inr (e, there e, rw same)
      ]

  -- An entry that was on the map: after it is updated or left alone, it is off the map.
  Handled-listed :
      left ≡ delete we.meta.name found
      → ((n : Text)
          → (text_eq we.meta.name n ≡ true → is_some (contents s' n) ≡ true)
            × (text_eq we.meta.name n ≡ false → contents s' n ≡ contents s n))
      → Handled contents (text_eq we.meta.name) found left s s'
  Handled-listed same listed n = elim (Bool-cases (text_eq we.meta.name n)) [
    | inl e ↦ inl (e, (listed n).0 e, rw (same, lookup-delete we.meta.name n found, e))
    | inr e ↦ inr (e, (listed n).1 e, rw (same, lookup-delete we.meta.name n found, e))
  ]

  updated_here :
      (old : WorkloadEntry)
      → old.meta.name ≡ we.meta.name
      → Belongs label_key label namespace old.meta
      → cluster.retry
          (cluster.workload_entries.update (copy_workload_entry (with_weight weight_map we) old))
          s
        ≡ (ok tt, s')
      → (n : Text)
      → (text_eq we.meta.name n ≡ true → is_some (contents s' n) ≡ true)
        × (text_eq we.meta.name n ≡ false → contents s' n ≡ contents s n)
  updated_here old name old_mine u n =
      let new = copy_workload_entry (with_weight weight_map we) old in
      let w =
        lawful.update_ok new s s'
          (lawful.retry_ok (cluster.workload_entries.update new) s s'
            (λ a b x. lawful.update_err new a b x) u)
          (unfold copy_workload_entry in
            rw (meta-with_weight weight_map we) (Belongs-copy_meta mine old_mine))
          n in
      let same_name : new.meta.name ≡ we.meta.name = unfold copy_workload_entry in name in
      (λ e. rw (w, same_name, e), λ e. rw (w, same_name, e))

  Handled-old :
      (old : WorkloadEntry)
      → old.meta.name ≡ we.meta.name
      → contents s we.meta.name ≡ some old
      → reconcile_entry cluster weight_map we found (some old) s ≡ (done left, s')
      → Handled contents (text_eq we.meta.name) found left s s'
  Handled-old old name here h = elim (Bool-cases (compare_workload_entry cluster we old)) [
    | inl d ↦
        let (same, updated) = entry-changed cluster weight_map we found left s s' old _ d refl h in
        Handled-listed same (updated_here old name (lawful.listed s we.meta.name old here) updated)
    | inr d ↦
        let (same, kept) = entry-same cluster weight_map we found left s s' old d h in
        Handled-listed same
          (λ n. (λ e. rw (kept, ← (text_eq_iff we.meta.name n).0 e, here), λ e. rw kept))
  ]

  -- Whether the entry was on the map or not, one round of the loop handles it.
  pub reconcile_entry-Handled :
      Keyed (λ (o : WorkloadEntry). o.meta) found
      → ((n : Text) (o : WorkloadEntry) → lookup n found ≡ some o → contents s n ≡ some o)
      → reconcile_entry cluster weight_map we found (lookup we.meta.name found) s ≡ (done left, s')
      → Handled contents (text_eq we.meta.name) found left s s'
        × Keyed (λ (o : WorkloadEntry). o.meta) left
  reconcile_entry-Handled keyed seen h = elim (Option-cases (lookup we.meta.name found)) [
    | inl l ↦
        let k : reconcile_entry cluster weight_map we found none s ≡ (done left, s') = rw l at h in
        (Handled-new l k, rw (entry-new cluster weight_map we found left s s' _ refl k).0 keyed)
    | inr (old, l) ↦
        let k : reconcile_entry cluster weight_map we found (some old) s ≡ (done left, s') =
          rw l at h in
        (
          Handled-old old
              (Keyed-lookup (λ (o : WorkloadEntry). o.meta) we.meta.name found old keyed l)
              (seen we.meta.name old l) k,
          rw (entry-left cluster weight_map we found left s s' old k)
              (Keyed-delete (λ (o : WorkloadEntry). o.meta) we.meta.name found keyed),
        )
  ]
