-- ===== src/Mesh/Subsets/Canary.antt =====
-- What `only_missing_canary` and `map_contains` decide.
use meshach.Prelude.{
  ◌≡◌, ◌↔◌, inl, inr, refl, Bool, true, false, List, [], ◌∷◌, arith, Bool-cases, any, In, In-any,
  any-In, Text, Dict,
}
use meshach.Api.{Subset, is_in}
use meshach.Mesh.Subsets.{renamed, holds, map_contains, only_missing_canary}

only_missing_canary_sound :
    (actual globals : List Subset) (g : Subset)
    → only_missing_canary actual globals ≡ true
    → In g globals
    → is_in g actual ≡ false
    → g.is_canary ≡ true
unfolding only_missing_canary
only_missing_canary_sound actual [] g h m new = absurd m
only_missing_canary_sound actual (x ∷ rest) g h (inl e) new =
    let new_x : is_in x actual ≡ false = rw e at new in rw e (ground arith)
only_missing_canary_sound actual (x ∷ rest) g h (inr m) new =
    only_missing_canary_sound actual rest g (ground arith) m new

only_missing_canary_complete :
    (actual globals : List Subset)
    → ((g : Subset) → In g globals → is_in g actual ≡ false → g.is_canary ≡ true)
    → only_missing_canary actual globals ≡ true
unfolding only_missing_canary
only_missing_canary_complete actual [] all = refl
only_missing_canary_complete actual (x ∷ rest) all =
    ground
      (arith, only_missing_canary_complete actual rest (λ g m. all g (inr m)), all x (inl refl))

-- `only_missing_canary` holds exactly when every global subset that is missing is a canary.
pub only_missing_canary_lem :
    (actual globals : List Subset)
    → (only_missing_canary actual globals ≡ true)
      ↔ ((g : Subset) → In g globals → is_in g actual ≡ false → g.is_canary ≡ true)
only_missing_canary_lem actual globals = (
  λ h g. only_missing_canary_sound actual globals g h,
  only_missing_canary_complete actual globals,
)

-- Two lists with the same entries give the same answer.
any_order :
    {A : Type 0} (test : A → Bool) (xs ys : List A)
    → ((x : A) → In x xs → In x ys)
    → ((x : A) → In x ys → In x xs)
    → any test xs ≡ any test ys
any_order test xs ys f g = elim (Bool-cases (any test xs)) [
  | inl h ↦ let (x, m, t) = In-any test xs h in rw (h, any-In test ys x (f x m) t)
  | inr h ↦ elim (Bool-cases (any test ys)) [
    | inl k ↦ let (y, m, t) = In-any test ys k in cc (any-In test xs y (g y m) t)
    | inr k ↦ rw (h, k)
  ]
]

-- The order in which Go ranges over the labels of an instance does not change `map_contains`.
pub map_contains_order :
    (std std' obj rename_map : Dict Text)
    → ((entry : Text × Text) → In entry std → In entry std')
    → ((entry : Text × Text) → In entry std' → In entry std)
    → map_contains std obj rename_map ≡ map_contains std' obj rename_map
unfolding map_contains
map_contains_order std std' obj rename_map =
    any_order (λ entry. holds obj (renamed rename_map entry.0) entry.1) std std'
