-- ===== src/ServiceConfigs/Status/Failed.antt =====
-- When one of the counts that buildStatus needs is missing.
use meshach.Prelude.{
  ◌≡◌, ◌≢◌, ◌↔◌, ◌⊎◌, inl, inr, refl, sym, ap, ◌∙◌, true, Option, none, some, List, [], ◌∷◌, arith,
  ◌==◌, length, Bool-cases, ℤ,
}
use meshach.Api.{Subset, MeshConfigSpec, ServiceConfig, ConfiguredService}
use meshach.Client.{Error, Result, Result-cases, ok, err, Store}
use meshach.Cluster.{Cluster}
use meshach.Mesh.Phases.{sub_status, sum4, sum_distributed}
use meshach.ServiceConfigs.Build.{truncated}
use meshach.ServiceConfigs.Status.{
  count, subsets_found, workload_entry_of, get_service_entry_status, get_workload_entry_status,
  status_with_subsets, get_virtual_service_status, get_destination_rule_status, collect_status,
}

sum4-none :
    (a b c d : Option ℤ)
    → (sum4 a b c d ≡ none) ↔ ((a ≡ none) ⊎ ((b ≡ none) ⊎ ((c ≡ none) ⊎ (d ≡ none))))
sum4-none none b c d = ((λ h. inl refl), λ h. refl)
sum4-none (some a) none c d = ((λ h. inr (inl refl)), λ h. refl)
sum4-none (some a) (some b) none d = ((λ h. inr (inr (inl refl))), λ h. refl)
sum4-none (some a) (some b) (some c) none = ((λ h. inr (inr (inr refl))), λ h. refl)
sum4-none (some a) (some b) (some c) (some d) = (
  (λ h. cc h),
  λ h. elim h [
    | inl e ↦ cc e
    | inr (inl e) ↦ cc e
    | inr (inr (inl e)) ↦ cc e
    | inr (inr (inr e)) ↦ cc e
  ],
)

map4 :
    {A B C D A' B' C' D' : Type 0}
    → (A → A')
    → (B → B')
    → (C → C')
    → (D → D')
    → A ⊎ (B ⊎ (C ⊎ D))
    → A' ⊎ (B' ⊎ (C' ⊎ D'))
map4 f g h k (inl a) = inl (f a)
map4 f g h k (inr (inl b)) = inr (inl (g b))
map4 f g h k (inr (inr (inl c))) = inr (inr (inl (h c)))
map4 f g h k (inr (inr (inr d))) = inr (inr (inr (k d)))

empty_iff : {A : Type 0} (l : List A) → ((length l == 0) ≡ true) ↔ (l ≡ [])
empty_iff [] = ((λ h. refl), λ h. refl)
empty_iff (x ∷ l) = ((λ h. absurd (ground (arith, h))), λ h. cc h)

module _ {S : Type 0} (cluster : Cluster S) (sc : ServiceConfig) (s : S) where
  -- The objects with the label of the service cannot be listed.
  abbrev pub ListFails : {O : Type 0} → Store S O → Type 0
  ListFails store =
      (e : Error) × (store.list sc.meta.namespace (truncated sc.spec.original_name) s ≡ err e)

  count-none :
      {O : Type 0} (store : Store S O) → (count cluster store sc s ≡ none) ↔ ListFails store
  unfolding count
  count-none store =
      elim (Result-cases (store.list sc.meta.namespace (truncated sc.spec.original_name) s)) [
        | inl (items, e) ↦ rw (e, count) ((λ h. cc h), λ (x, h). cc h)
        | inr (x, e) ↦ rw (e, count) ((λ h. (x, refl)), λ h. refl)
      ]

  -- The instances are known, there are some, and their entries cannot be listed.
  abbrev pub WorkloadsFail : Result ConfiguredService → Type 0
  WorkloadsFail found =
      (cs : ConfiguredService) × (found ≡ ok cs)
      × (cs.spec.instances ≢ [])
      × ListFails cluster.workload_entries

  workload_entry_none :
      (found : Result ConfiguredService)
      → ((workload_entry_of cluster sc found s).distributed ≡ none) ↔ WorkloadsFail found
  unfolding workload_entry_of sub_status
  workload_entry_none (err e) = ((λ h. cc h), λ (cs, h, n, f). cc h)
  workload_entry_none (ok cs) =
      let (there, back) = count-none cluster.workload_entries in
      let empty = empty_iff cs.spec.instances in
      elim (Bool-cases (length cs.spec.instances == 0)) [
        | inl z ↦ rw z (
          (λ h. cc h),
          λ (c, same, n, f).
              let own : cs ≡ c = cc same in
              absurd (n (ap (λ (x : ConfiguredService). x.spec.instances) (sym own) ∙ empty.0 z)),
        )
        | inr z ↦
            rw z ((λ h. (cs, refl, (λ e. cc (empty.1 e, z)), there h)), λ (c, same, n, f). back f)
      ]

  -- There are subsets, and the objects of the kind cannot be listed.
  abbrev pub WithSubsetsFail : {O : Type 0} → Store S O → Result (List Subset) → Type 0
  WithSubsetsFail store found =
      (x : Subset) × (xs : List Subset) × (found ≡ ok (x ∷ xs)) × ListFails store

  with_subsets_none :
      {O : Type 0} (store : Store S O) (found : Result (List Subset))
      → ((status_with_subsets cluster store sc found s).distributed ≡ none)
        ↔ WithSubsetsFail store found
  unfolding status_with_subsets sub_status
  with_subsets_none store (err e) = ((λ h. cc h), λ (x, xs, h, f). cc h)
  with_subsets_none store (ok []) = ((λ h. cc h), λ (x, xs, h, f). cc h)
  with_subsets_none store (ok (x ∷ xs)) =
      let (there, back) = count-none store in
      ((λ h. (x, xs, refl, there h)), λ (y, ys, h, f). back f)

  -- A count that buildStatus needs is missing.
  abbrev pub CountFails : MeshConfigSpec → Type 0
  CountFails mesh =
      ListFails cluster.service_entries
      ⊎ (WorkloadsFail (cluster.configured_services.get sc.meta.namespace sc.meta.name s)
          ⊎ (WithSubsetsFail cluster.virtual_services (subsets_found cluster mesh sc s)
              ⊎ WithSubsetsFail cluster.destination_rules (subsets_found cluster mesh sc s)))

  pub sum_distributed-none :
      (mesh : MeshConfigSpec)
      → (sum_distributed (collect_status cluster mesh sc s) ≡ none) ↔ CountFails mesh
  unfolding collect_status get_service_entry_status get_workload_entry_status
      get_virtual_service_status get_destination_rule_status sub_status
  sum_distributed-none mesh =
      let st = collect_status cluster mesh sc s in
      let (there, back) =
        sum4-none st.service_entry.distributed st.workload_entry.distributed
          st.virtual_service.distributed st.destination_rule.distributed in
      let a = count-none cluster.service_entries in
      let b =
        workload_entry_none (cluster.configured_services.get sc.meta.namespace sc.meta.name s) in
      let c = with_subsets_none cluster.virtual_services (subsets_found cluster mesh sc s) in
      let d = with_subsets_none cluster.destination_rules (subsets_found cluster mesh sc s) in
      ((λ h. map4 a.0 b.0 c.0 d.0 (there h)), λ h. back (map4 a.1 b.1 c.1 d.1 h))
