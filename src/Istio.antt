-- ===== src/Istio.antt =====
-- The istio and protobuf messages that the controllers build, with the fields that they set.
use meshach.Prelude.{ℕ, ℤ, Option, List, Text, Dict}
use meshach.Api.{ObjectMeta}

pub record Duration : Type 0 where
  pub seconds : ℤ
  pub nanos : ℤ

pub record HttpRetry : Type 0 where
  pub attempts : ℤ
  pub per_try_timeout : Option Duration
  pub retry_on : Text

-- `destination.host`, `destination.subset` and the int32 `weight`
pub record HttpRouteDestination : Type 0 where
  pub host : Text
  pub subset : Text
  pub weight : ℤ

-- `headers` holds the exact matches.
pub record HttpMatchRequest : Type 0 where
  pub source_labels : Dict Text
  pub headers : Dict Text

pub record HttpRoute : Type 0 where
  pub name : Text
  pub matches : List HttpMatchRequest
  pub route : List HttpRouteDestination
  pub timeout : Option Duration
  pub retries : Option HttpRetry

pub record VirtualServiceSpec : Type 0 where
  pub hosts : List Text
  pub http : List HttpRoute

pub record VirtualService : Type 0 where
  pub meta : ObjectMeta
  pub spec : VirtualServiceSpec

pub data SimpleLb : Type 0 where
  round_robin least_conn random passthrough : SimpleLb

-- A subset with the load balancer of its traffic policy
pub record RuleSubset : Type 0 where
  pub name : Text
  pub labels : Dict Text
  pub traffic_policy : Option SimpleLb

pub record DestinationRuleSpec : Type 0 where
  pub host : Text
  pub traffic_policy : SimpleLb
  pub subsets : List RuleSubset

pub record DestinationRule : Type 0 where
  pub meta : ObjectMeta
  pub spec : DestinationRuleSpec

pub record ServicePort : Type 0 where
  pub number : ℕ
  pub protocol : Text
  pub name : Text

-- The location (MESH_INTERNAL) and the resolution (STATIC) are the same in every entry.
pub record ServiceEntrySpec : Type 0 where
  pub hosts : List Text
  pub ports : List ServicePort
  pub workload_selector : Dict Text

pub record ServiceEntry : Type 0 where
  pub meta : ObjectMeta
  pub spec : ServiceEntrySpec

pub record WorkloadEntrySpec : Type 0 where
  pub address : Text
  pub ports : Dict ℕ
  pub labels : Dict Text
  pub weight : ℕ

pub record WorkloadEntry : Type 0 where
  pub meta : ObjectMeta
  pub spec : WorkloadEntrySpec

-- The outbound traffic policy is ALLOW_ANY in every sidecar.
pub record SidecarSpec : Type 0 where
  pub workload_selector : Dict Text
  pub egress_hosts : List Text

pub record Sidecar : Type 0 where
  pub meta : ObjectMeta
  pub spec : SidecarSpec
