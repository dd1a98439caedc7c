-- ===== src/Clusters/Operate/Everywhere.antt =====
-- What the operations on several clusters do where one of them has no answer.
use meshach.Prelude.{◌≡◌, ◌↔◌, refl, inl, inr, Option, List, [], ◌∷◌, ◌++◌, Text, In, All}
use meshach.Client.{Error, not_found, already_exists, conflict, other, Result, ok, err}
use meshach.Clusters.{Cluster, ClusterManager, get_all}
use meshach.Clusters.Operate.{
  Clients, append_items, with_list, list_each, get_next, get_each, get_pods, get_pod, delete_got,
  delete_each, delete_pod,
}

module _ {O : Type 0} where
  -- The items of a cluster that answers; one that does not find the kind has none.
  abbrev pub items_of : Result (List O) → List O
  items_of (ok items) = items
  items_of (err e) = []

  abbrev pub all_items : (Cluster → Result (List O)) → List Cluster → List O
  all_items list [] = []
  all_items list (c ∷ clusters) = items_of (list c) ++ all_items list clusters

  -- A cluster that gives a list, or does not find the kind
  abbrev pub Answers : Result (List O) → Type 0
  Answers (ok items) = Unit
  Answers (err not_found) = Unit
  Answers (err already_exists) = ⊥
  Answers (err conflict) = ⊥
  Answers (err other) = ⊥

  with_list_iff :
      (first rest : Result (List O)) (result : List O)
      → (with_list first rest ≡ ok result)
        ↔ (Answers first × (tail : List O) × (rest ≡ ok tail) × (result ≡ items_of first ++ tail))
  unfolding with_list append_items
  with_list_iff (ok items) (ok tail) result = ((λ e. (tt, tail, refl, cc e)), λ (a, t, e, q). cc)
  with_list_iff (ok items) (err e) result = ((λ h. cc h), λ (a, t, h, q). cc h)
  with_list_iff (err not_found) rest result = ((λ h. (tt, result, h, refl)), λ (a, t, h, q). cc)
  with_list_iff (err already_exists) rest result = ((λ h. cc h), λ (a, t, h, q). absurd a)
  with_list_iff (err conflict) rest result = ((λ h. cc h), λ (a, t, h, q). absurd a)
  with_list_iff (err other) rest result = ((λ h. cc h), λ (a, t, h, q). absurd a)

  list_each_iff :
      (list : Cluster → Result (List O)) (clusters : List Cluster) (result : List O)
      → (list_each list clusters ≡ ok result)
        ↔ (All (λ c. Answers (list c)) clusters × (result ≡ all_items list clusters))
  unfolding list_each
  list_each_iff list [] result = ((λ e. (tt, cc e)), λ (a, e). cc)
  list_each_iff list (c ∷ clusters) result =
      let step = with_list_iff (list c) (list_each list clusters) result in
      (
        (λ e.
            let (a, tail, t, q) = step.0 e in
            let (rest, same) = (list_each_iff list clusters tail).0 t in ((a, rest), cc)),
        λ ((a, rest), q). step.1 (
          a,
          all_items list clusters,
          (list_each_iff list clusters (all_items list clusters)).1 (rest, refl),
          q,
        ),
      )

  -- Get is an error, whatever it is read into.
  abbrev pub Missing : (O → Result O) → Type 0
  Missing get = (o : O) → (e : Error) × (get o ≡ err e)

  get_each-Missing :
      (get : Cluster → O → Result O) (clusters : List Cluster) (c : Cluster) (o : O)
      → In c clusters
      → Missing (get c)
      → (e : Error) × (get_each get clusters o ≡ err e)
  unfolding get_each get_next
  get_each-Missing get [] c o m h = absurd m
  get_each-Missing get (d ∷ clusters) c o (inl same) h =
      let (e, gone) = h o in (e, rw (← same, gone))
  get_each-Missing get (d ∷ clusters) c o (inr m) h =
      next_missing (get d o) (λ o'. get_each-Missing get clusters c o' m h)
    where
      next_missing :
          (r : Result O)
          → ((o' : O) → (e : Error) × (get_each get clusters o' ≡ err e))
          → (e : Error) × (get_next (get_each get clusters) r ≡ err e)
      next_missing (ok o') later = later o'
      next_missing (err e) later = (e, refl)

module _ {S O : Type 0} (clients : Clients S O) where
  -- GetPods succeeds exactly where each of the clusters gives its Pods or does not find the kind, and then
  -- returns the Pods of all of them, in the order of the clusters.
  pub get_pods_lem :
      (cluster_name : Option Text) (m : ClusterManager) (s : S) (result : List O)
      → (get_pods clients cluster_name m s ≡ ok result) ↔ (
          All (λ c. Answers (clients.list c s)) (get_all cluster_name m)
          × (result ≡ all_items (λ c. clients.list c s) (get_all cluster_name m)))
  unfolding get_pods
  get_pods_lem cluster_name m s result =
      list_each_iff (λ c. clients.list c s) (get_all cluster_name m) result

  -- GetPod is an error where Get in one of the clusters is one, also if others have the Pod.
  pub get_pod-Missing :
      (empty : O) (name : Text) (cluster_name : Option Text) (m : ClusterManager) (s : S)
      (c : Cluster)
      → In c (get_all cluster_name m)
      → Missing (λ o. clients.get c name o s)
      → (e : Error) × (get_pod clients empty name cluster_name m s ≡ err e)
  unfolding get_pod
  get_pod-Missing empty name cluster_name m s c i h =
      get_each-Missing (λ d o. clients.get d name o s) (get_all cluster_name m) c empty i h

  -- The loop ends with an error at the cluster `c`, or before.
  abbrev Stops : Text → List Cluster → Cluster → List Cluster → O → S → Type 0
  Stops name before c after o s =
      ((e : Error) × ((delete_each clients name (before ++ c ∷ after) o s).0 ≡ err e))
      × ((delete_each clients name (before ++ c ∷ after) o s).1
          ≡ (delete_each clients name before o s).1)

  delete_each-Missing :
      (name : Text) (before : List Cluster) (c : Cluster) (after : List Cluster) (o : O) (s : S)
      → ((t : S) → Missing (λ p. clients.get c name p t))
      → Stops name before c after o s
  unfolding delete_each delete_got
  delete_each-Missing name [] c after o s h = let (e, gone) = h s o in ((e, rw gone), rw gone)
  delete_each-Missing name (d ∷ before) c after o s h =
      next_missing (clients.get d name o s)
        (λ p. delete_each-Missing name before c after p (clients.delete d p s).1 h)
    where
      next_missing :
          (r : Result O)
          → ((p : O) → Stops name before c after p (clients.delete d p s).1)
          → ((e : Error) × ((delete_got clients d r
                  (delete_each clients name (before ++ c ∷ after))
                  s).0
                ≡ err e))
            × ((delete_got clients d r (delete_each clients name (before ++ c ∷ after)) s).1
                ≡ (delete_got clients d r (delete_each clients name before) s).1)
      next_missing (ok p) later = later p
      next_missing (err e) later = ((e, refl), refl)

  -- DeletePod is an error where Get in one of the clusters is one at any time, and nothing is deleted in
  -- the clusters that come after it.
  pub delete_pod-Missing :
      (empty : O) (name : Text) (cluster_name : Option Text) (m : ClusterManager) (s : S)
      (before : List Cluster) (c : Cluster) (after : List Cluster)
      → get_all cluster_name m ≡ before ++ c ∷ after
      → ((t : S) → Missing (λ o. clients.get c name o t))
      → ((e : Error) × ((delete_pod clients empty name cluster_name m s).0 ≡ err e))
        × ((delete_pod clients empty name cluster_name m s).1
            ≡ (delete_each clients name before empty s).1)
  unfolding delete_pod
  delete_pod-Missing empty name cluster_name m s before c after same h =
      rw same (delete_each-Missing name before c after empty s h)
