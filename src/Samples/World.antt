-- ===== src/Samples/World.antt =====
-- A cluster over the state of the samples, and that it keeps the laws that the theorems assume.
use meshach.Prelude.{
  ℕ, ◌≡◌, refl, ap, Bool, true, false, ◌&&◌, Option, List, [], ◌∷◌, Text, bytes, text_eq,
  text_eq_refl, Dict,
}
use meshach.Api.{ObjectMeta}
use meshach.Istio.{VirtualService, DestinationRule, ServiceEntry, WorkloadEntry, Sidecar}
use meshach.Cluster.{Cluster, DeepEqual, DeepEqualLaws}
use meshach.Client.{other, ok, err, Store}
use meshach.Client.Actions.{Outcome}
use meshach.Mesh.Objects.Copies.{SetOwnerLaw}
use meshach.Client.Sync.Lawful.{Lawful}
use meshach.Client.Sync.Returns.{Accepts}
use meshach.Samples.Server.{server, keep_retry, contents, server-Lawful, server-Accepts}
use meshach.Samples.Data.{State, key, mesh, configured, config, opt}

-- Two lists of texts are equal.
unfoldable pub eq_texts : List Text → List Text → Bool
unfolding text_eq
eq_texts [] [] = true
eq_texts (a ∷ xs) (b ∷ ys) = text_eq a b && eq_texts xs ys
eq_texts _ _ = false

eq_texts_refl : (xs : List Text) → eq_texts xs xs ≡ true
unfolding eq_texts
eq_texts_refl [] = refl
eq_texts_refl (x ∷ xs) = rw (text_eq_refl x, eq_texts_refl xs)

unfoldable pub eq_labels : Dict Text → Dict Text → Bool
unfolding text_eq
eq_labels [] [] = true
eq_labels ((j, v) ∷ m) ((k, w) ∷ n) = text_eq j k && text_eq v w && eq_labels m n
eq_labels _ _ = false

eq_labels_refl : (m : Dict Text) → eq_labels m m ≡ true
unfolding eq_labels
eq_labels_refl [] = refl
eq_labels_refl ((k, v) ∷ m) = rw (text_eq_refl k, text_eq_refl v, eq_labels_refl m)

-- The specs are compared by their hosts or addresses.
abbrev pub equality : DeepEqual
equality = record {
  finalizers = eq_texts;
  labels = eq_labels;
  virtual_service = λ a b. eq_texts a.hosts b.hosts;
  destination_rule = λ a b. text_eq a.host b.host;
  service_entry = λ a b. eq_texts a.hosts b.hosts;
  workload_entry = λ a b. text_eq a.address b.address;
  sidecar = λ a b. eq_texts a.egress_hosts b.egress_hosts;
}

pub equality_laws : DeepEqualLaws equality
equality_laws = record {
  finalizers_refl = eq_texts_refl;
  labels_refl = eq_labels_refl;
  virtual_service_refl = λ x. eq_texts_refl x.hosts;
  destination_rule_refl = λ x. text_eq_refl x.host;
  service_entry_refl = λ x. eq_texts_refl x.hosts;
  workload_entry_refl = λ x. text_eq_refl x.address;
  sidecar_refl = λ x. eq_texts_refl x.egress_hosts;
}

-- A store of one object that is never written.
abbrev pub fixed : {O : Type 0} → O → Store State O
fixed o = record {
  get = λ namespace name s. ok o;
  list = λ namespace label s. ok (o ∷ []);
  create = λ x s. (err other, s);
  update = λ x s. (err other, s);
  delete = λ x s. (err other, s);
}

abbrev pub virtual_service_server : Store State VirtualService
virtual_service_server =
    server (λ o. o.meta) (λ (s : State). s.virtual_services)
      (λ xs s. record s { virtual_services = xs }) (λ xs s. refl) key

abbrev pub destination_rule_server : Store State DestinationRule
destination_rule_server =
    server (λ o. o.meta) (λ (s : State). s.destination_rules)
      (λ xs s. record s { destination_rules = xs }) (λ xs s. refl) key

abbrev pub service_entry_server : Store State ServiceEntry
service_entry_server =
    server (λ o. o.meta) (λ (s : State). s.service_entries)
      (λ xs s. record s { service_entries = xs }) (λ xs s. refl) key

abbrev pub workload_entry_server : Store State WorkloadEntry
workload_entry_server =
    server (λ o. o.meta) (λ (s : State). s.workload_entries)
      (λ xs s. record s { workload_entries = xs }) (λ xs s. refl) key

abbrev pub sidecar_server : Store State Sidecar
sidecar_server =
    server (λ o. o.meta) (λ (s : State). s.sidecars) (λ xs s. record s { sidecars = xs })
      (λ xs s. refl) key

abbrev pub cluster : Cluster State
cluster = record {
  opt = opt;
  mesh_configs = fixed mesh;
  configured_services = fixed configured;
  service_configs = fixed config;
  virtual_services = virtual_service_server;
  destination_rules = destination_rule_server;
  service_entries = service_entry_server;
  workload_entries = workload_entry_server;
  sidecars = sidecar_server;
  list_pods = λ label value s. ok (bytes "ns" ∷ []);
  list_deployments = λ s. ok [];
  retry = keep_retry;
  set_owner = λ owner m. ok m;
  deep_equal = equality;
}

pub owner_law : SetOwnerLaw cluster.set_owner
owner_law = record { same = λ owner m m' h. same_meta m m' h }
  where
    same_meta : (m m' : ObjectMeta) → ok m ≡ ok m' → m' ≡ m
    same_meta m m' h = cc h

-- The servers keep the laws that the theorems assume.

abbrev pub virtual_services_in : Text → Text → State → Text → Option VirtualService
virtual_services_in =
    contents (λ (o : VirtualService). o.meta) (λ (s : State). s.virtual_services)
      (λ xs s. record s { virtual_services = xs }) (λ xs s. refl) key

pub virtual_services_Lawful :
    (label namespace : Text)
    → Lawful cluster.virtual_services
        (λ (o : VirtualService). o.meta)
        keep_retry
        key
        label
        namespace
        (virtual_services_in label namespace)
virtual_services_Lawful =
    server-Lawful (λ (o : VirtualService). o.meta) (λ (s : State). s.virtual_services)
      (λ xs s. record s { virtual_services = xs }) (λ xs s. refl) key

pub virtual_services_Accepts : Accepts cluster.virtual_services keep_retry
virtual_services_Accepts =
    server-Accepts (λ (o : VirtualService). o.meta) (λ (s : State). s.virtual_services)
      (λ xs s. record s { virtual_services = xs }) (λ xs s. refl) key

pub destination_rules_Accepts : Accepts cluster.destination_rules keep_retry
destination_rules_Accepts =
    server-Accepts (λ (o : DestinationRule). o.meta) (λ (s : State). s.destination_rules)
      (λ xs s. record s { destination_rules = xs }) (λ xs s. refl) key

abbrev pub workload_entries_in : Text → Text → State → Text → Option WorkloadEntry
workload_entries_in =
    contents (λ (o : WorkloadEntry). o.meta) (λ (s : State). s.workload_entries)
      (λ xs s. record s { workload_entries = xs }) (λ xs s. refl) key

pub workload_entries_Lawful :
    (label namespace : Text)
    → Lawful cluster.workload_entries
        (λ (o : WorkloadEntry). o.meta)
        keep_retry
        key
        label
        namespace
        (workload_entries_in label namespace)
workload_entries_Lawful =
    server-Lawful (λ (o : WorkloadEntry). o.meta) (λ (s : State). s.workload_entries)
      (λ xs s. record s { workload_entries = xs }) (λ xs s. refl) key

-- A digest of 20 bytes
abbrev pub sha1 : Text → List ℕ
sha1 text = 0 ∷ 1 ∷ 2 ∷ 3 ∷ 4 ∷ 5 ∷ 6 ∷ 7 ∷ 8 ∷ 9 ∷ 0 ∷ 1 ∷ 2 ∷ 3 ∷ 4 ∷ 5 ∷ 6 ∷ 7 ∷ 8 ∷ 9 ∷ []

-- An outcome that is known, with the state beside it.
pub with_state : {A : Type 0} {a : Outcome A} (p : Outcome A × State) → p.0 ≡ a → p ≡ (a, p.1)
with_state (x, y) e = ap (λ z. (z, y)) e
