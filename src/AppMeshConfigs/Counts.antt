-- ===== src/AppMeshConfigs/Counts.antt =====
-- What count of controllers/appmeshconfig/status.go counts.
use meshach.Prelude.{
  ℕ, ◌+◌, ◌≡◌, refl, ap, ◌∙◌, inl, inr, Option, none, some, List, [], ◌∷◌, arith, ℤ, pos, Text,
  length, In,
}
use meshach.Client.{ok, Store}
use meshach.AppMeshConfigs.{Service, AppMeshConfig, counted, count_from, integer, count}

-- The number of objects that are listed for the services.
abbrev pub listed : {O : Type 0} → (Service → List O) → List Service → ℕ
listed objects [] = 0
listed objects (svc ∷ rest) = length (objects svc) + listed objects rest

-- The count of no service is not there.
abbrev pub count_of : {O : Type 0} → (Service → List O) → List Service → Option ℤ
count_of objects [] = none
count_of objects (svc ∷ rest) = some (pos (listed objects (svc ∷ rest)))

module _ {S O : Type 0} (store : Store S O) (s : S) (objects : Service → List O) where
  count_from-listed :
      (namespace : Text) (n : ℕ) (services : List Service)
      → ((svc : Service)
          → In svc services
          → store.list namespace svc.original_name s ≡ ok (objects svc))
      → count_from store namespace (some n) services s ≡ some (n + listed objects services)
  unfolding count_from counted
  count_from-listed namespace n [] all = ap some (omega arith)
  count_from-listed namespace n (svc ∷ rest) all = rw (all svc (inl refl)) (
      count_from-listed namespace (n + length (objects svc)) rest (λ x m. all x (inr m))
      ∙ ap some (omega arith))

  -- Where the objects of every service are listed by its original name, the count is the number of all of
  -- them together; an application without services has no count.
  pub count-listed :
      (cr : AppMeshConfig)
      → ((svc : Service)
          → In svc cr.services
          → store.list cr.meta.namespace svc.original_name s ≡ ok (objects svc))
      → count store cr s ≡ count_of objects cr.services
  unfolding count
  count-listed cr all = by_services cr.services all
    where
      by_services :
          (services : List Service)
          → ((svc : Service)
              → In svc services
              → store.list cr.meta.namespace svc.original_name s ≡ ok (objects svc))
          → integer (count_from store cr.meta.namespace none services s) ≡ count_of objects services
      by_services [] h = unfold count_from in refl
      by_services (svc ∷ rest) h =
          unfold count_from counted in
          rw (
            h svc (inl refl),
            count_from-listed cr.meta.namespace (length (objects svc)) rest (λ x m. h x (inr m)),
          )
