-- ===== src/Mesh/Phases.antt =====
-- The phase of a mesh configuration: calcPhase in controllers/serviceconfig/status.go, which
-- controllers/appmeshconfig/status.go repeats, and the counts that both fill in.
pub mod Counts
use meshach.Prelude.{
  ◌≡◌, Bool, true, false, Option, none, some, if◌then◌else◌, ◌>>=◌, ℤ, pos, ◌+ℤ◌, ◌-ℤ◌, eq_ℤ,
}
use meshach.Api.{SubStatus, Status, ConfigPhase, undistributed, distributed, distributing, unknown}

-- `undistributed = svcCount - *count`, where the count is there
unfoldable pub sub_status : ℤ → Option ℤ → SubStatus
unfolding ◌-ℤ◌
sub_status desired count = record {
  desired = desired;
  distributed = count;
  undistributed = elim count [ none ↦ none | some c ↦ some (desired -ℤ c) ];
}

-- All pointers point to 0.
abbrev pub zero_status : SubStatus
zero_status = record { desired = pos 0; distributed = some (pos 0); undistributed = some (pos 0) }

-- The sum of four numbers behind pointers; a nil pointer panics.
abbrev pub sum4 : Option ℤ → Option ℤ → Option ℤ → Option ℤ → Option ℤ
sum4 a b c d = do x ← a; y ← b; z ← c; w ← d; some (x +ℤ y +ℤ z +ℤ w)

abbrev pub sum_distributed : Status → Option ℤ
sum_distributed st =
    sum4 st.service_entry.distributed st.workload_entry.distributed st.virtual_service.distributed
      st.destination_rule.distributed

abbrev pub sum_undistributed : Status → Option ℤ
sum_undistributed st =
    sum4 st.service_entry.undistributed st.workload_entry.undistributed
      st.virtual_service.undistributed st.destination_rule.undistributed

-- From the sum of what is distributed and the sum of what is not. A sum that is needed and not there
-- panics.
unfoldable pub phase_of : Option ℤ → Option ℤ → Option ConfigPhase
unfolding eq_ℤ
phase_of none left = some unknown
phase_of (some total) left =
    if eq_ℤ total (pos 0)
    then some undistributed
    else (do n ← left; some (if eq_ℤ n (pos 0) then distributed else distributing))

-- Without a nil `Distributed` their sum is there.
unfoldable pub calc_phase : Status → Option ConfigPhase
unfolding ◌+ℤ◌ phase_of
calc_phase st = phase_of (sum_distributed st) (sum_undistributed st)
