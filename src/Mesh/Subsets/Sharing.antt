-- ===== src/Mesh/Subsets/Sharing.antt =====
-- What mapContains decides about the labels of an instance and those of a subset.
use meshach.Prelude.{
  ◌≡◌, ◌↔◌, ◌⊎◌, ◌∙◌, inl, inr, refl, sym, ap, true, Option-cases, none, some, List, Text,
  text_eq_iff, Dict, lookup, any, In, any-In, In-any,
}
use meshach.Api.{Subset, Instance, MeshConfigSpec}
use meshach.Mesh.Subsets.{renamed, holds, map_contains, matches}

-- A key has this name after the renaming; a key that is not renamed keeps its own.
abbrev pub Renamed : Dict Text → Text → Text → Type 0
Renamed rename_map k rk =
    (lookup k rename_map ≡ some rk) ⊎ ((lookup k rename_map ≡ none) × (rk ≡ k))

-- Some label of the instance is, under its renamed key, one of the subset's.
abbrev pub SharesLabel : Dict Text → Dict Text → Dict Text → Type 0
SharesLabel rename_map instance_labels subset_labels =
    (k : Text) × (v : Text) × (rk : Text) × In (k, v) instance_labels
    × Renamed rename_map k rk
    × (lookup rk subset_labels ≡ some v)

renamed-Renamed : (rename_map : Dict Text) (k : Text) → Renamed rename_map k (renamed rename_map k)
renamed-Renamed rename_map k = elim (Option-cases (lookup k rename_map)) [
  | inl e ↦ rw (e, renamed) (inr (refl, refl))
  | inr (rk, e) ↦ rw (e, renamed) (inl refl)
]

Renamed-unique :
    (rename_map : Dict Text) (k rk : Text) → Renamed rename_map k rk → renamed rename_map k ≡ rk
Renamed-unique rename_map k rk (inl e) = rw (e, renamed)
Renamed-unique rename_map k rk (inr (e, same)) = rw (e, renamed) (sym same)

holds_iff : (obj : Dict Text) (rk v : Text) → (holds obj rk v ≡ true) ↔ (lookup rk obj ≡ some v)
holds_iff obj rk v = elim (Option-cases (lookup rk obj)) [
  | inl e ↦ rw (e, holds) ((λ h. cc h), λ h. cc h)
  | inr (ov, e) ↦
      let iff = text_eq_iff ov v in rw (e, holds) ((λ h. ap some (iff.0 h)), λ h. iff.1 (cc h))
]

map_contains_iff :
    (std obj rename_map : Dict Text)
    → (map_contains std obj rename_map ≡ true) ↔ SharesLabel rename_map std obj
unfolding map_contains
map_contains_iff std obj rename_map = (
  λ h.
      let (entry, m, t) = In-any (λ entry. holds obj (renamed rename_map entry.0) entry.1) std h in
      (
        entry.0,
        entry.1,
        renamed rename_map entry.0,
        m,
        renamed-Renamed rename_map entry.0,
        (holds_iff obj (renamed rename_map entry.0) entry.1).0 t,
      ),
  λ (k, v, rk, m, name, found).
      any-In (λ entry. holds obj (renamed rename_map entry.0) entry.1) std (k, v) m
        ((holds_iff obj (renamed rename_map k) v).1
          (ap (λ x. lookup x obj) (Renamed-unique rename_map k rk name) ∙ found)),
)

module _ (mesh : MeshConfigSpec) where
  -- Some instance shares a label with the subset.
  abbrev pub Offered : List Instance → Subset → Type 0
  Offered instances s =
      (i : Instance) × In i instances × SharesLabel mesh.mesh_labels_remap i.labels s.labels

  pub any_matches_iff :
      (instances : List Instance) (s : Subset)
      → (any (matches mesh s) instances ≡ true) ↔ Offered instances s
  any_matches_iff instances s = (
    λ h.
        let (i, m, t) = In-any (matches mesh s) instances h in
        (i, m, (map_contains_iff i.labels s.labels mesh.mesh_labels_remap).0 t),
    λ (i, m, shared).
        any-In (matches mesh s) instances i m
          ((map_contains_iff i.labels s.labels mesh.mesh_labels_remap).1 shared),
  )
