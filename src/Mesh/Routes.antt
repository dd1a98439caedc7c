-- ===== src/Mesh/Routes.antt =====
-- The parts of a route that both controllers build alike: the match on the source labels, timeout and
-- retries, and the default route. Line references are to controllers/serviceconfig/virtualservice.go;
-- controllers/configuredservice/virtualservice.go has the same functions.
use meshach.Prelude.{
  Option, none, some, List, [], ◌∷◌, if◌then◌else◌, ◌>>=◌, ℤ, pos, eq_ℤ, Text, text_eq, bytes, Dict,
  lookup, insert,
}
use meshach.Api.{Subset, MeshConfigSpec, ControllerOption}
use meshach.Istio.{Duration, HttpRetry, HttpMatchRequest, HttpRoute}
use meshach.Utils.{string_to_duration}
use meshach.Mesh.Weights.{route_to}

abbrev pub http_route_name : Text
http_route_name = bytes "dubbo-http-route"

abbrev pub default_route_name : Text
default_route_name = bytes "dubbo-default-route"

-- `m[k]` of a map of strings, "" without the key
abbrev pub value_of : Text → Dict Text → Text
value_of k m = elim (lookup k m) [ none ↦ [] | some v ↦ v ]

-- `for _, key := range keys { s[key] = subset.Labels[key] }`
unfoldable pub label_values : Dict Text → List Text → Dict Text → Dict Text
unfolding insert lookup
label_values labels [] s = s
label_values labels (key ∷ keys) s = label_values labels keys (insert key (value_of key labels) s)

-- Source labels and headers hold the same values.
unfoldable pub source_match : MeshConfigSpec → Subset → HttpMatchRequest
unfolding label_values
source_match mesh subset = record {
  source_labels = label_values subset.labels mesh.match_source_label_keys [];
  headers = label_values subset.labels mesh.match_source_label_keys [];
}

-- A global policy is dereferenced where the service has no timeout or no retries: `none` is a panic.
unfoldable pub timeout_or_global : MeshConfigSpec → Text → Option Text
timeout_or_global mesh timeout =
    if text_eq timeout [] then (do p ← mesh.global_policy; some p.timeout) else some timeout

unfoldable pub retries_or_global : MeshConfigSpec → ℤ → Option ℤ
retries_or_global mesh max_retries =
    if eq_ℤ max_retries (pos 0)
    then (do p ← mesh.global_policy; some p.max_retries)
    else some max_retries

unfoldable pub get_timeout : MeshConfigSpec → Text → ℤ → Option (Option Duration)
get_timeout mesh timeout max_retries = do
  t ← timeout_or_global mesh timeout
  m ← retries_or_global mesh max_retries
  some (string_to_duration t m)

unfoldable pub get_retries : ControllerOption → MeshConfigSpec → Text → ℤ → Option HttpRetry
get_retries opt mesh timeout max_retries = do
  t ← timeout_or_global mesh timeout
  m ← retries_or_global mesh max_retries
  some (record {
    attempts = m;
    per_try_timeout = string_to_duration t (pos 1);
    retry_on = opt.proxy_retry_on;
  })

-- An unset subset is "", an unset weight 0.
unfoldable pub build_default_route : ControllerOption → Text → HttpRoute
build_default_route opt name = record {
  name = default_route_name;
  matches = [];
  route = route_to name [] (pos 0) ∷ [];
  timeout = none;
  retries = some (record {
    attempts = opt.proxy_attempts;
    per_try_timeout = some (record { seconds = opt.proxy_per_try_timeout; nanos = pos 0 });
    retry_on = opt.proxy_retry_on;
  });
}
