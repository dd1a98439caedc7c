-- ===== src/Mesh/Subsets.antt =====
-- controllers/serviceconfig/utils.go (mapContains), the loops of getSubset in
-- controllers/serviceconfig/destinationrule.go and onlyMissingCanary in virtualservice.go.
-- The copies in controllers/configuredservice/virtualservice.go have the same text.
pub mod Selection
pub mod Canary
pub mod Sharing
use meshach.Prelude.{
  Bool, true, false, ◌&&◌, not, Option, none, some, List, [], ◌∷◌, ◌++◌, if◌then◌else◌, Text,
  text_eq, Dict, lookup, any, filter,
}
use meshach.Api.{Subset, is_in, Instance, MeshConfigSpec}

-- `rk, ok := renameMap[sk]; if !ok { rk = sk }`
abbrev pub renamed : Dict Text → Text → Text
renamed rename_map sk = elim (lookup sk rename_map) [ none ↦ sk | some rk ↦ rk ]

-- `ov, ok := obj[rk]; ok && ov == sv`
abbrev pub holds : Dict Text → Text → Text → Bool
holds obj rk sv = elim (lookup rk obj) [ none ↦ false | some ov ↦ text_eq ov sv ]

-- The loop over `std` takes its entries in the order of the list.
unfoldable pub map_contains : Dict Text → Dict Text → Dict Text → Bool
unfolding any lookup
map_contains std obj rename_map = any (λ entry. holds obj (renamed rename_map entry.0) entry.1) std

module _ (mesh : MeshConfigSpec) where
  -- The labels of an instance name the subset.
  abbrev pub matches : Subset → Instance → Bool
  matches global ins = map_contains ins.labels global.labels mesh.mesh_labels_remap

  -- `for _, ins := range instances { if ... { subsets = append(subsets, global) } }`
  unfoldable pub add_global : List Subset → Subset → List Instance → List Subset
  unfolding map_contains is_in
  add_global subsets global [] = subsets
  add_global subsets global (ins ∷ rest) =
      add_global
        (if matches global ins && not (is_in global subsets)
          then subsets ++ global ∷ []
          else subsets)
        global rest

  -- `for _, global := range GlobalSubsets`
  unfoldable pub add_globals : List Subset → List Subset → List Instance → List Subset
  unfolding add_global
  add_globals subsets [] instances = subsets
  add_globals subsets (global ∷ rest) instances =
      add_globals (add_global subsets global instances) rest instances

  unfoldable pub get_subset : List Instance → List Subset
  unfolding add_globals
  get_subset instances = add_globals [] mesh.global_subsets instances

-- `missingSubset`
abbrev pub missing_subsets : List Subset → List Subset → List Subset
missing_subsets actual_subsets global_subsets =
    filter (λ global. not (is_in global actual_subsets)) global_subsets

unfoldable pub only_missing_canary : List Subset → List Subset → Bool
unfolding any filter is_in
only_missing_canary actual_subsets global_subsets =
    not (any (λ missing. not missing.is_canary) (missing_subsets actual_subsets global_subsets))
