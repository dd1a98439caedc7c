-- ===== src/Health/Endpoints.antt =====
-- What the endpoints report, and what the removal of a check removes.
use meshach.Prelude.{
  ℕ, ◌≡◌, inl, inr, refl, ◌∙◌, Bool, true, false, ◌&&◌, Bool-cases, none, some, [], ◌∷◌, arith,
  if◌then◌else◌, Text, Dict, text_eq, text_eq_iff, text_eq_refl, has_prefix, lookup,
}
use meshach.Health.{
  Check, BasicHandler, status_ok, status_service_unavailable, status_after, collect_checks, handle,
  ready_endpoint, live_endpoint, without_prefix, remove_liveness_check,
}

abbrev pub passes : Check → Bool
passes none = true
passes (some error) = false

abbrev pub all_pass : Dict Check → Bool
all_pass [] = true
all_pass ((name, check) ∷ checks) = passes check && all_pass checks

collect-status :
    (checks : Dict Check) (out : Dict Text × ℕ)
    → (collect_checks checks out).1
      ≡ (if all_pass checks then out.1 else status_service_unavailable)
unfolding collect_checks status_after
collect-status [] out = refl
collect-status ((name, none) ∷ checks) out = collect-status checks _
collect-status ((name, some error) ∷ checks) out = collect-status checks _ ∙ ground arith

-- The readiness endpoint answers 200 if every check passes, of readiness and of liveness, and 503 if one
-- fails; the liveness endpoint looks at the liveness checks alone.
pub endpoint_status :
    (s : BasicHandler)
    → ((ready_endpoint s).1
        ≡ (if all_pass s.readiness_checks && all_pass s.liveness_checks then 200 else 503))
      × ((live_endpoint s).1 ≡ (if all_pass s.liveness_checks then 200 else 503))
unfolding ready_endpoint live_endpoint handle
endpoint_status s = (
  collect-status s.liveness_checks _
      ∙ rw (collect-status s.readiness_checks ([], status_ok)) (ground arith),
  collect-status s.liveness_checks ([], status_ok),
)

lookup-without_prefix :
    (name n : Text) (checks : Dict Check)
    → lookup n (without_prefix name checks) ≡ (if has_prefix n name then none else lookup n checks)
unfolding without_prefix lookup
lookup-without_prefix name n [] = ground arith
lookup-without_prefix name n ((j, check) ∷ checks) = elim (Bool-cases (text_eq j n)) [
  | inl same ↦ elim (Bool-cases (has_prefix n name)) [
    | inl e ↦ rw ((text_eq_iff j n).0 same, e, lookup-without_prefix name n checks, e) refl
    | inr e ↦ rw ((text_eq_iff j n).0 same, e, text_eq_refl n) refl
  ]
  | inr apart ↦ elim (Bool-cases (has_prefix j name)) [
    | inl e ↦ rw (e, apart, lookup-without_prefix name n checks) refl
    | inr e ↦ rw (e, apart, lookup-without_prefix name n checks) refl
  ]
]

-- Removing a liveness check removes every liveness check whose name starts with the given one, and no
-- other.
pub remove_liveness_check_lem :
    (name n : Text) (s : BasicHandler)
    → lookup n (remove_liveness_check name s).liveness_checks
      ≡ (if has_prefix n name then none else lookup n s.liveness_checks)
unfolding remove_liveness_check
remove_liveness_check_lem name n s = lookup-without_prefix name n s.liveness_checks
