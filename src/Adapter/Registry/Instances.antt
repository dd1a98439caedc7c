-- ===== src/Adapter/Registry/Instances.antt =====
-- What the registry client does with the instances of a service: it sends them on, and keeps none.
use meshach.Prelude.{
  ◌≡◌, refl, ◌∙◌, inl, inr, Bool, true, false, Bool-cases, Option, none, some, List, [], ◌∷◌, ◌++◌,
  map, any, arith, if◌then◌else◌, Text, Dict, text_eq, text_eq_iff, In, lookup, insert,
  lookup-insert, lookup-insert_self,
}
use meshach.Adapter.Types.{Port, Instance, Service, add_port, service_instances_replace}
use meshach.Adapter.Zookeeper.{children_replaced}
use meshach.Utils.Addresses.{base}
use meshach.Adapter.Registry.{
  ParseUrl, RegistryClient, new, make_service_instance, collect, collect_made, last_made,
  service_event, new_service, with_port, port_of, notify_service_event, add_found, add_service,
  replace_service_instances,
}
use meshach.Adapter.Registry.Events.{
  on_provider_event, all_instances, matching_hosts, instances_by_host,
}

abbrev pub or_else : {A : Type 0} → Option A → Option A → Option A
or_else none o = o
or_else (some a) o = some a

once_or_twice :
    (r o : Option Instance) (b : Bool)
    → (if b then or_else r (or_else r o) else or_else r o) ≡ or_else r o
once_or_twice none o true = refl
once_or_twice none o false = refl
once_or_twice (some i) o true = refl
once_or_twice (some i) o false = refl

module _ (make : Text → Option Instance) where
  lookup-made :
      (url : Text) (r : Option Instance) (m : Dict Instance) (u : Text)
      → lookup u (collect_made make url r m)
        ≡ (if text_eq url u then or_else r (lookup u m) else lookup u m)
  unfolding collect_made
  lookup-made url none m u = ground arith
  lookup-made url (some i) m u = lookup-insert url u i m

  -- The map holds an instance under a URL exactly where the URL is listed and parses.
  pub lookup-collect :
      (urls : List Text) (m : Dict Instance) (u : Text)
      → lookup u (collect make urls m)
        ≡ (if any (λ x. text_eq x u) urls then or_else (make u) (lookup u m) else lookup u m)
  unfolding collect any
  lookup-collect [] m u = refl
  lookup-collect (url ∷ urls) m u =
      lookup-collect urls (collect_made make url (make url) m) u
      ∙ rw (lookup-made url (make url) m u) (elim (Bool-cases (text_eq url u)) [
        | inl e ↦
            rw (e, (text_eq_iff url u).0 e)
              (once_or_twice (make u) (lookup u m) (any (λ x. text_eq x u) urls))
        | inr e ↦ rw e refl
      ])

all_instances-insert :
    (h : Text) (s : Service) (m : Dict Service)
    → lookup h m ≡ none
    → s.instances ≡ []
    → all_instances (insert h s m) ≡ all_instances m
unfolding all_instances insert lookup
all_instances-insert h s [] l e = rw e
all_instances-insert h s ((j, t) ∷ m) l e = elim (Bool-cases (text_eq j h)) [
  | inl same ↦ cc (rw same at l)
  | inr apart ↦ rw (apart, all_instances-insert h s m (rw apart at l) e)
]

with_port-fields :
    (port : Option Port) (s : Service)
    → ((with_port port s).instances ≡ s.instances) × ((with_port port s).name ≡ s.name)
unfolding with_port add_port
with_port-fields none s = (refl, refl)
with_port-fields (some port) s = (ground arith, ground arith)

-- Every service is filed under its name.
abbrev pub Named : RegistryClient → Type 0
Named c = (h : Text) (s : Service) → lookup h c.services ≡ some s → s.name ≡ h

-- What addService returns, and what it leaves of the instances and of the names.
abbrev pub Added : Text → RegistryClient → Service × RegistryClient → Type 0
Added hostname c r =
    (all_instances r.1.services ≡ all_instances c.services)
    × (Named c → (r.0.name ≡ hostname) × Named r.1)
    × (lookup hostname r.1.services ≡ some r.0)

add_found-Added :
    (hostname : Text) (i : Option Instance) (o : Option Service) (c : RegistryClient)
    → lookup hostname c.services ≡ o
    → Added hostname c (add_found hostname i o c)
unfolding add_found new_service notify_service_event
add_found-Added hostname i (some s) c l = (refl, λ n. (n hostname s l, n), l)
add_found-Added hostname i none c l =
    let blank : Service = record { name = hostname; ports = []; instances = [] } in
    let (no_instances, name) = with_port-fields (port_of i) blank in
    (
      all_instances-insert hostname (with_port (port_of i) blank) c.services l no_instances,
      λ n. (
        name,
        λ h s found. ground (
          arith,
          lookup-insert hostname h (with_port (port_of i) blank) c.services,
          n h s,
          text_eq_iff hostname h,
          name,
        ),
      ),
      lookup-insert_self hostname (with_port (port_of i) blank) c.services,
    )

pub add_service-Added :
    (hostname : Text) (i : Option Instance) (c : RegistryClient)
    → Added hostname c (add_service hostname i c)
unfolding add_service
add_service-Added hostname i c = add_found-Added hostname i _ c refl

In-last : {A : Type 0} (x : A) (xs : List A) → In x (xs ++ x ∷ [])
In-last x [] = inl refl
In-last x (y ∷ xs) = inr (In-last x xs)

module _ (parse : ParseUrl) where
  pub all_instances-replaced :
      (hostname : Text) (urls : List Text) (c : RegistryClient)
      → all_instances (replace_service_instances parse hostname urls c).services
        ≡ all_instances c.services
  unfolding replace_service_instances notify_service_event
  all_instances-replaced hostname urls c =
      (add_service-Added hostname (last_made (make_service_instance parse) none urls) c).0

  -- The service of the event that a replacement sends
  abbrev pub replaced_service : Text → List Text → RegistryClient → Service
  replaced_service hostname urls c =
      (add_service hostname (last_made (make_service_instance parse) none urls) c).0

  pub replaced_event :
      (hostname : Text) (urls : List Text) (c : RegistryClient)
      → In
          (service_event service_instances_replace
            (replaced_service hostname urls c)
            (collect (make_service_instance parse) urls []))
          (replace_service_instances parse hostname urls c).service_out
  unfolding replace_service_instances notify_service_event
  replaced_event hostname urls c =
      In-last _
        (add_service hostname (last_made (make_service_instance parse) none urls) c).1.service_out

  -- Providers' caches only tell the new children as a whole.
  abbrev pub replaced_all : List (Text × List Text) → RegistryClient → RegistryClient
  replaced_all [] c = c
  replaced_all ((hostname, paths) ∷ rest) c = replaced_all rest (
      on_provider_event parse hostname
        (record { event_type = children_replaced; path = []; paths = paths }) c)

  replaced_keeps :
      (rounds : List (Text × List Text)) (c : RegistryClient)
      → all_instances (replaced_all rounds c).services ≡ all_instances c.services
  unfolding on_provider_event
  replaced_keeps [] c = refl
  replaced_keeps ((hostname, paths) ∷ rest) c =
      replaced_keeps rest (replace_service_instances parse hostname (map base paths) c)
      ∙ all_instances-replaced hostname (map base paths) c

  -- However often the children of the providers' nodes are replaced, and whatever they are, a client that
  -- starts empty finds no instance for any host.
  pub instances_by_host-replaced :
      (rounds : List (Text × List Text)) (hosts : List Text)
      → instances_by_host hosts (replaced_all rounds new) ≡ []
  unfolding instances_by_host
  instances_by_host-replaced rounds hosts =
      rw (replaced_keeps rounds new) (unfold new matching_hosts all_instances in refl)
