-- ===== src/Samples/Values.antt =====
-- The theorems on phases, names, numbers and durations at concrete values.
use meshach.Prelude.{◌≡◌, ◌↔◌, some, arith, pos, ◌+ℤ◌, eq_ℤ}
use meshach.Api.{ServiceConfigStatus, ConfigPhase, distributed, unknown}
use meshach.Utils.{decimal, to_uint32, to_int32}
use meshach.Utils.Numbers.{to_uint32-decimal}
use meshach.Mesh.Phases.{sub_status, calc_phase}
use meshach.Mesh.Phases.Counts.{calc_phase-sub_status}
use meshach.ServiceConfigs.Status.{collect_status, build_status}
use meshach.ServiceConfigs.Status.Failed.{CountFails}
use meshach.ServiceConfigs.Status.Phase.{build_status_phase}
use meshach.Samples.Data.{mesh, config, empty}
use meshach.Samples.World.{cluster}

calc_phase-sub_status_example :
    calc_phase (record {
      service_entry = sub_status (pos 1) (some (pos 1));
      workload_entry = sub_status (pos 2) (some (pos 1));
      virtual_service = sub_status (pos 1) (some (pos 2));
      destination_rule = sub_status (pos 1) (some (pos 1));
    })
    ≡ some distributed
unfolding ◌+ℤ◌ eq_ℤ
calc_phase-sub_status_example =
    calc_phase-sub_status (pos 1) (pos 2) (pos 1) (pos 1) (pos 1) (pos 1) (pos 2) (pos 1)

build_status_phase_example :
    (st : ServiceConfigStatus) × (phase : ConfigPhase) × (build_status cluster mesh config empty
      ≡ some st)
    × (st.phase ≡ some phase)
    × (st.status ≡ some (collect_status cluster mesh config empty))
    × ((phase ≡ unknown) ↔ CountFails cluster config empty mesh)
build_status_phase_example = build_status_phase cluster config empty mesh

to_uint32-decimal_example :
    (to_uint32 (decimal 20882) ≡ 20882) × (to_int32 (decimal 20882) ≡ pos 20882)
to_uint32-decimal_example = to_uint32-decimal 20882 (omega arith)
