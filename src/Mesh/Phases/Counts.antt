-- ===== src/Mesh/Phases/Counts.antt =====
-- What the phase says of the counts: calcPhase of controllers/serviceconfig/status.go on the counts that
-- the functions for the four kinds of objects return.
use meshach.Prelude.{
  ◌+◌, ◌≡◌, ap, sym, ◌∙◌, refl, ◌&&◌, ◌↔◌, true, Bool-cases, inl, inr, Option, none, some, is_some,
  arith, if◌then◌else◌, ℤ, pos, pos_part, neg_part, ◌+ℤ◌, ◌-ℤ◌, eq_ℤ, +ℤ_parts, -ℤ_parts,
  eq_of_parts, eq_ℤ_parts, eq_ℤ_refl,
}
use meshach.Api.{SubStatus, Status, ConfigPhase, undistributed, distributed, distributing, unknown}
use meshach.Mesh.Phases.{sub_status, sum4, sum_distributed, sum_undistributed, phase_of, calc_phase}

eq_ℤ-true : (a b : ℤ) → a ≡ b → eq_ℤ a b ≡ true
eq_ℤ-true a b e = rw e (eq_ℤ_refl b)

eq_ℤ-eq : (a b : ℤ) → eq_ℤ a b ≡ true → a ≡ b
eq_ℤ-eq a b h = eq_of_parts a b (eq_ℤ_parts a b h)

eq_ℤ-cong : (a b c d : ℤ) → (a ≡ b → c ≡ d) → (c ≡ d → a ≡ b) → eq_ℤ a b ≡ eq_ℤ c d
eq_ℤ-cong a b c d f g = elim (Bool-cases (eq_ℤ a b)) [
  | inl h ↦ rw (h, eq_ℤ-true c d (f (eq_ℤ-eq a b h)))
  | inr h ↦ elim (Bool-cases (eq_ℤ c d)) [
    | inl k ↦ cc (eq_ℤ-true a b (g (eq_ℤ-eq c d k)))
    | inr k ↦ rw (h, k)
  ]
]

module _ (d1 d2 d3 d4 c1 c2 c3 c4 : ℤ) where
  abbrev all_left : ℤ
  all_left = (d1 -ℤ c1) +ℤ (d2 -ℤ c2) +ℤ (d3 -ℤ c3) +ℤ (d4 -ℤ c4)

  abbrev all_found : ℤ
  all_found = c1 +ℤ c2 +ℤ c3 +ℤ c4

  abbrev all_desired : ℤ
  all_desired = d1 +ℤ d2 +ℤ d3 +ℤ d4

  left_parts :
      pos_part all_left + neg_part all_desired + pos_part all_found
      ≡ neg_part all_left + pos_part all_desired + neg_part all_found
  left_parts = omega (
    arith,
    -ℤ_parts d1 c1,
    -ℤ_parts d2 c2,
    -ℤ_parts d3 c3,
    -ℤ_parts d4 c4,
    +ℤ_parts (d1 -ℤ c1) (d2 -ℤ c2),
    +ℤ_parts ((d1 -ℤ c1) +ℤ (d2 -ℤ c2)) (d3 -ℤ c3),
    +ℤ_parts ((d1 -ℤ c1) +ℤ (d2 -ℤ c2) +ℤ (d3 -ℤ c3)) (d4 -ℤ c4),
    +ℤ_parts c1 c2,
    +ℤ_parts (c1 +ℤ c2) c3,
    +ℤ_parts (c1 +ℤ c2 +ℤ c3) c4,
    +ℤ_parts d1 d2,
    +ℤ_parts (d1 +ℤ d2) d3,
    +ℤ_parts (d1 +ℤ d2 +ℤ d3) d4,
  )

  none_left : eq_ℤ all_left (pos 0) ≡ eq_ℤ all_found all_desired
  none_left =
      eq_ℤ-cong all_left (pos 0) all_found all_desired
        (λ e.
          eq_of_parts all_found all_desired
            (omega (arith, left_parts, ap pos_part e, ap neg_part e)))
        (λ e.
          eq_of_parts all_left (pos 0) (omega (arith, left_parts, ap pos_part e, ap neg_part e)))

  -- Where every count is there, the phase compares sums over the four kinds: it is undistributed when
  -- nothing is found, distributed when as much is found as is desired in sum, and else distributing.
  pub calc_phase-sub_status :
      calc_phase (record {
        service_entry = sub_status d1 (some c1);
        workload_entry = sub_status d2 (some c2);
        virtual_service = sub_status d3 (some c3);
        destination_rule = sub_status d4 (some c4);
      })
      ≡ some (
          if eq_ℤ (c1 +ℤ c2 +ℤ c3 +ℤ c4) (pos 0)
          then undistributed
          else if eq_ℤ (c1 +ℤ c2 +ℤ c3 +ℤ c4) (d1 +ℤ d2 +ℤ d3 +ℤ d4)
          then distributed
          else distributing)
  calc_phase-sub_status = unfold calc_phase phase_of sub_status in rw none_left (ground arith)

-- Both counts of a kind are there, or none.
abbrev pub Paired : SubStatus → Type 0
Paired st = is_some st.distributed ≡ is_some st.undistributed

pub sub_status-Paired : (desired : ℤ) (count : Option ℤ) → Paired (sub_status desired count)
unfolding sub_status
sub_status-Paired desired none = refl
sub_status-Paired desired (some c) = refl

is_some-sum4 :
    (a b c d : Option ℤ)
    → is_some (sum4 a b c d) ≡ (is_some a && is_some b && is_some c && is_some d)
is_some-sum4 a b c d = ground arith

-- The sums over the status are both there, or none.
sums-Paired :
    (st : Status)
    → Paired st.service_entry
    → Paired st.workload_entry
    → Paired st.virtual_service
    → Paired st.destination_rule
    → is_some (sum_distributed st) ≡ is_some (sum_undistributed st)
sums-Paired st a b c d =
    is_some-sum4 st.service_entry.distributed st.workload_entry.distributed
      st.virtual_service.distributed st.destination_rule.distributed
    ∙ rw (a, b, c, d)
        (sym (
          is_some-sum4 st.service_entry.undistributed st.workload_entry.undistributed
            st.virtual_service.undistributed st.destination_rule.undistributed))

phase_of-paired :
    (total left : Option ℤ)
    → is_some total ≡ is_some left
    → (phase : ConfigPhase) × (phase_of total left ≡ some phase)
      × ((phase ≡ unknown) ↔ (total ≡ none))
unfolding phase_of
phase_of-paired none left h = (unknown, refl, (λ _. refl, λ _. refl))
phase_of-paired (some n) none h = cc h
phase_of-paired (some n) (some m) h = (
  if eq_ℤ n (pos 0) then undistributed else if eq_ℤ m (pos 0) then distributed else distributing,
  ground arith,
  ground arith,
)

-- A status whose counts come in pairs has a phase, and the phase is unknown exactly if a count is not there.
pub calc_phase-Paired :
    (st : Status)
    → Paired st.service_entry
    → Paired st.workload_entry
    → Paired st.virtual_service
    → Paired st.destination_rule
    → (phase : ConfigPhase) × (calc_phase st ≡ some phase)
      × ((phase ≡ unknown) ↔ (sum_distributed st ≡ none))
unfolding calc_phase
calc_phase-Paired st a b c d =
    phase_of-paired (sum_distributed st) (sum_undistributed st) (sums-Paired st a b c d)
