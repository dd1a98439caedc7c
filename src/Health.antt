-- ===== src/Health.antt =====
-- pkg/healthcheck/handler.go: the liveness and readiness checks and their endpoints.
pub mod Endpoints
use meshach.Prelude.{
  ℕ, Bool, true, false, Option, none, some, List, [], ◌∷◌, if◌then◌else◌, Text, Dict, bytes,
  has_prefix, insert,
}

-- A check returns an error text or nothing.
abbrev pub Check : Type 0
Check = Option Text

-- The checks by their names, with what each returns when it is run
pub record BasicHandler : Type 0 where
  pub liveness_checks : Dict Check
  pub readiness_checks : Dict Check

unfoldable pub add_liveness_check : Text → Check → BasicHandler → BasicHandler
unfolding insert
add_liveness_check name check s = record s { liveness_checks = insert name check s.liveness_checks }

unfoldable pub add_readiness_check : Text → Check → BasicHandler → BasicHandler
unfolding insert
add_readiness_check name check s = record s {
  readiness_checks = insert name check s.readiness_checks;
}

-- Every check whose name has the prefix goes.
unfoldable pub without_prefix : Text → Dict Check → Dict Check
unfolding has_prefix
without_prefix name [] = []
without_prefix name ((n, check) ∷ checks) =
    let rest = without_prefix name checks in if has_prefix n name then rest else (n, check) ∷ rest

unfoldable pub remove_liveness_check : Text → BasicHandler → BasicHandler
unfolding without_prefix
remove_liveness_check name s = record s { liveness_checks = without_prefix name s.liveness_checks }

unfoldable pub remove_readiness_check : Text → BasicHandler → BasicHandler
unfolding without_prefix
remove_readiness_check name s = record s {
  readiness_checks = without_prefix name s.readiness_checks;
}

abbrev pub status_ok : ℕ
status_ok = 200

abbrev pub status_service_unavailable : ℕ
status_service_unavailable = 503

status_after : Check → ℕ → ℕ
status_after none status = status
status_after (some error) status = status_service_unavailable

result_of : Check → Text
result_of none = bytes "OK"
result_of (some error) = error

-- collectChecks, with the results and the status that it writes to
unfoldable pub collect_checks : Dict Check → Dict Text × ℕ → Dict Text × ℕ
unfolding status_after result_of insert
collect_checks [] out = out
collect_checks ((name, check) ∷ checks) out =
    collect_checks checks (insert name (result_of check) out.0, status_after check out.1)

unfoldable pub handle : List (Dict Check) → Dict Text × ℕ → Dict Text × ℕ
unfolding collect_checks
handle [] out = out
handle (checks ∷ more) out = handle more (collect_checks checks out)

-- The results and the status of the two endpoints
unfoldable pub live_endpoint : BasicHandler → Dict Text × ℕ
unfolding handle
live_endpoint s = handle (s.liveness_checks ∷ []) ([], status_ok)

unfoldable pub ready_endpoint : BasicHandler → Dict Text × ℕ
unfolding handle
ready_endpoint s = handle (s.readiness_checks ∷ s.liveness_checks ∷ []) ([], status_ok)
