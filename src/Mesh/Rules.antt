-- ===== src/Mesh/Rules.antt =====
-- The subsets of a destination rule, and what a reconciler compares: getlb, the loop of
-- buildDestinationRule and compareDestinationRule in controllers/serviceconfig/destinationrule.go.
use meshach.Prelude.{
  Bool, true, false, not, none, some, List, [], ◌∷◌, if◌then◌else◌, Text, bytes, Dict, lookup,
}
use meshach.Api.{ObjectMeta, Subset, Policy}
use meshach.Istio.{SimpleLb, round_robin, least_conn, random, passthrough, RuleSubset}
use meshach.Mesh.Routes.{value_of}

abbrev pub load_balance_simple : Text
load_balance_simple = bytes "simple"

unfoldable pub lb_map : Dict SimpleLb
lb_map =
    (bytes "ROUND_ROBIN", round_robin)
    ∷ (bytes "LEAST_CONN", least_conn)
    ∷ (bytes "RANDOM", random)
    ∷ (bytes "PASSTHROUGH", passthrough)
    ∷ []

unfoldable pub getlb : Text → SimpleLb
unfolding lb_map lookup
getlb s = elim (lookup s lb_map) [ none ↦ random | some lb ↦ lb ]

-- The load balancer of a policy
unfoldable pub policy_lb : Policy → SimpleLb
unfolding getlb lookup
policy_lb p = getlb (value_of load_balance_simple p.load_balancer)

unfoldable pub rule_subsets : List Subset → List RuleSubset
unfolding policy_lb
rule_subsets [] = []
rule_subsets (sub ∷ rest) =
    record {
      name = sub.name;
      labels = sub.labels;
      traffic_policy = elim sub.policy [ none ↦ none | some p ↦ some (policy_lb p) ];
    }
    ∷ rule_subsets rest

-- `equality.Semantic.DeepEqual` of the finalizers, the labels and the specs, in this order. The three
-- comparisons are parameters: the function is apimachinery's.
unfoldable pub differs :
    {Spec : Type 0}
    → (List Text → List Text → Bool)
    → (Dict Text → Dict Text → Bool)
    → (Spec → Spec → Bool)
    → (new old : ObjectMeta) → (new_spec old_spec : Spec) → Bool
differs eq_finalizers eq_labels eq_spec new old new_spec old_spec =
    if not (eq_finalizers new.finalizers old.finalizers)
    then true
    else if not (eq_labels new.labels old.labels)
    then true
    else if not (eq_spec new_spec old_spec)
    then true
    else false
