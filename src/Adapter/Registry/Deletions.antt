-- ===== src/Adapter/Registry/Deletions.antt =====
-- What deleteService of the registry client removes.
use meshach.Prelude.{
  ◌≡◌, refl, inl, inr, true, Bool-cases, none, some, List, [], ◌∷◌, ◌++◌, arith, if◌then◌else◌,
  Text, Dict, text_eq, text_eq_iff, text_eq_refl, has_suffix, lookup, In,
}
use meshach.Adapter.Types.{Instance, Service, service_deleted, service_instance_deleted}
use meshach.Adapter.Registry.{
  ParseUrl, make_service_instance, instance_event, delete_instance, delete_service_instance,
  notify_service_event, RegistryClient, service_event, ending_in, not_ending_in, deletions,
  delete_service,
}

lookup-not_ending_in :
    (hostname h : Text) (m : Dict Service)
    → lookup h (not_ending_in hostname m) ≡ (if has_suffix h hostname then none else lookup h m)
unfolding not_ending_in lookup
lookup-not_ending_in hostname h [] = ground arith
lookup-not_ending_in hostname h ((j, s) ∷ m) = elim (Bool-cases (text_eq j h)) [
  | inl same ↦ elim (Bool-cases (has_suffix h hostname)) [
    | inl e ↦ rw ((text_eq_iff j h).0 same, e, lookup-not_ending_in hostname h m, e) refl
    | inr e ↦ rw ((text_eq_iff j h).0 same, e, text_eq_refl h) refl
  ]
  | inr apart ↦ elim (Bool-cases (has_suffix j hostname)) [
    | inl e ↦ rw (e, apart, lookup-not_ending_in hostname h m) refl
    | inr e ↦ rw (e, apart, lookup-not_ending_in hostname h m) refl
  ]
]

In-append : {A : Type 0} (x : A) (xs ys : List A) → In x ys → In x (xs ++ ys)
In-append x [] ys m = m
In-append x (y ∷ xs) ys m = inr (In-append x xs ys m)

In-deletions :
    (hostname h : Text) (s : Service) (m : Dict Service)
    → lookup h m ≡ some s
    → has_suffix h hostname ≡ true
    → In (service_event service_deleted s []) (deletions (ending_in hostname m))
unfolding deletions ending_in lookup
In-deletions hostname h s [] l e = cc l
In-deletions hostname h s ((j, t) ∷ m) l e = elim (Bool-cases (text_eq j h)) [
  | inl same ↦
      let own : t ≡ s = cc (rw same at l) in rw ((text_eq_iff j h).0 same, e, own) (inl refl)
  | inr apart ↦ elim (Bool-cases (has_suffix j hostname)) [
    | inl ends ↦ rw ends (inr (In-deletions hostname h s m (rw apart at l) e))
    | inr other ↦ rw other (In-deletions hostname h s m (rw apart at l) e)
  ]
]

-- deleteService removes every service whose name ends in the hostname, not only the one of that name, and
-- sends its deletion; the other services stay.
pub delete_service_suffix :
    (hostname h : Text) (c : RegistryClient)
    → (lookup h (delete_service hostname c).services
        ≡ (if has_suffix h hostname then none else lookup h c.services))
      × ((s : Service)
          → lookup h c.services ≡ some s
          → has_suffix h hostname ≡ true
          → In (service_event service_deleted s []) (delete_service hostname c).service_out)
unfolding delete_service
delete_service_suffix hostname h c = (
  lookup-not_ending_in hostname h c.services,
  λ s l e. In-append _ c.service_out _ (In-deletions hostname h s c.services l e),
)

In-last : {A : Type 0} (x : A) (xs : List A) → In x (xs ++ x ∷ [])
In-last x [] = inl refl
In-last x (y ∷ xs) = inr (In-last x xs)

-- The deletion of an instance is sent without its service.
pub deleted_instance_event :
    (parse : ParseUrl) (hostname raw_url : Text) (c : RegistryClient) (s : Service) (i : Instance)
    → lookup hostname c.services ≡ some s
    → make_service_instance parse raw_url ≡ some i
    → In
        (instance_event service_instance_deleted i)
        (delete_service_instance parse hostname raw_url c).service_out
unfolding delete_service_instance delete_instance notify_service_event
deleted_instance_event parse hostname raw_url c s i l e =
    rw (l, e) (In-last (instance_event service_instance_deleted i) c.service_out)
