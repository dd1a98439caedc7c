-- ===== src/Mesh/Subsets/Selection.antt =====
-- Which subsets `get_subset` selects.
use meshach.Prelude.{
  ◌+◌, ◌≤◌, ◌<◌, ◌≡◌, ◌⊎◌, inl, inr, refl, ap, Bool, true, false, ◌&&◌, ◌||◌, not, List, [], ◌∷◌,
  ◌++◌, arith, if◌then◌else◌, text_eq, text_eq_iff, text_eq_refl, any, In, length, length-append,
}
use meshach.Api.{Subset, is_in, Instance, MeshConfigSpec}
use meshach.Mesh.Subsets.{matches, add_global, add_globals, get_subset}
use meshach.Mesh.Subsets.Sharing.{Offered, any_matches_iff}

is_in-snoc :
    (s g : Subset) (xs : List Subset)
    → is_in s (xs ++ g ∷ []) ≡ (is_in s xs || text_eq g.name s.name)
unfolding is_in
is_in-snoc s g [] = ground arith
is_in-snoc s g (x ∷ xs) = ground (arith, is_in-snoc s g xs)

is_in-snoc_self : (g : Subset) (xs : List Subset) → is_in g (xs ++ g ∷ []) ≡ true
is_in-snoc_self g xs = ground (arith, is_in-snoc g g xs, text_eq_refl g.name)

In-snoc : {A : Type 0} (x y : A) (xs : List A) → In x (xs ++ y ∷ []) → In x xs ⊎ (x ≡ y)
In-snoc x y [] (inl e) = inr e
In-snoc x y [] (inr m) = absurd m
In-snoc x y (z ∷ xs) (inl e) = inl (inl e)
In-snoc x y (z ∷ xs) (inr m) = elim (In-snoc x y xs m) [ inl n ↦ inl (inr n) | inr e ↦ inr e ]

-- No two subsets of the list have one name.
abbrev pub NamesDistinct : List Subset → Type 0
NamesDistinct [] = Unit
NamesDistinct (x ∷ xs) = (is_in x xs ≡ false) × NamesDistinct xs

NamesDistinct-snoc :
    (g : Subset) (xs : List Subset)
    → NamesDistinct xs
    → is_in g xs ≡ false
    → NamesDistinct (xs ++ g ∷ [])
NamesDistinct-snoc g [] d new = (unfold is_in in refl, tt)
NamesDistinct-snoc g (x ∷ xs) d new = (
  ground (arith, is_in-snoc x g xs, apart),
  NamesDistinct-snoc g xs d.1 (unfold is_in in ground arith),
)
  where
    apart : text_eq g.name x.name ≡ false
    apart = unfold is_in in ground (arith, text_eq_iff g.name x.name, text_eq_iff x.name g.name)

module _ (mesh : MeshConfigSpec) (instances : List Instance) where
  -- Some instance matches the subset.
  abbrev pub offered : Subset → Bool
  offered global = any (matches mesh global) instances

module _ (mesh : MeshConfigSpec) where
  add_global_same :
      (subsets : List Subset) (global : Subset) (ins : List Instance)
      → is_in global subsets ≡ true
      → add_global mesh subsets global ins ≡ subsets
  unfolding add_global
  add_global_same subsets global [] h = refl
  add_global_same subsets global (i ∷ ins) h = ground (arith, add_global_same subsets global ins h)

  -- The loop over the instances adds the subset once, if some instance offers it and its name is new.
  add_global_lem :
      (subsets : List Subset) (global : Subset) (ins : List Instance)
      → add_global mesh subsets global ins ≡ (
          if offered mesh ins global && not (is_in global subsets)
          then subsets ++ global ∷ []
          else subsets)
  unfolding add_global any
  add_global_lem subsets global [] = refl
  add_global_lem subsets global (i ∷ ins) = ground (
    arith,
    add_global_lem subsets global ins,
    add_global_same (subsets ++ global ∷ []) global ins (is_in-snoc_self global subsets),
  )

  module _ (ins : List Instance) where
    add_global_cases :
        (subsets : List Subset) (global : Subset)
        → (offered mesh ins global ≡ true)
            × (is_in global subsets ≡ false)
            × (add_global mesh subsets global ins ≡ subsets ++ global ∷ [])
          ⊎ ((offered mesh ins global ≡ false) ⊎ (is_in global subsets ≡ true))
            × (add_global mesh subsets global ins ≡ subsets)
    add_global_cases subsets global = ground (arith, add_global_lem subsets global ins)

    add_globals_sound :
        (subsets globals : List Subset) (s : Subset)
        → In s (add_globals mesh subsets globals ins)
        → In s subsets ⊎ In s globals × (offered mesh ins s ≡ true)
    unfolding add_globals
    add_globals_sound subsets [] s m = inl m
    add_globals_sound subsets (g ∷ rest) s m =
        elim (add_globals_sound (add_global mesh subsets g ins) rest s m) [
          | inr (n, o) ↦ inr (inr n, o)
          | inl n ↦ elim (add_global_cases subsets g) [
            | inl (o, new, e) ↦ elim (In-snoc s g subsets (rw e at n)) [
              | inl old ↦ inl old
              | inr same ↦ inr (inl same, rw same o)
            ]
            | inr (_, e) ↦ inl (rw e at n)
          ]
        ]

    add_globals-keeps :
        (subsets globals : List Subset) (s : Subset)
        → is_in s subsets ≡ true
        → is_in s (add_globals mesh subsets globals ins) ≡ true
    unfolding add_globals
    add_globals-keeps subsets [] s h = h
    add_globals-keeps subsets (g ∷ rest) s h =
        add_globals-keeps (add_global mesh subsets g ins) rest s
          (elim (add_global_cases subsets g) [
            | inl (_, _, e) ↦ rw e (ground (arith, is_in-snoc s g subsets))
            | inr (_, e) ↦ rw e h
          ])

    add_globals_complete :
        (subsets globals : List Subset) (s : Subset)
        → In s globals
        → offered mesh ins s ≡ true
        → is_in s (add_globals mesh subsets globals ins) ≡ true
    unfolding add_globals
    add_globals_complete subsets [] s m o = absurd m
    add_globals_complete subsets (g ∷ rest) s (inr m) o =
        add_globals_complete (add_global mesh subsets g ins) rest s m o
    add_globals_complete subsets (g ∷ rest) s (inl e) o =
        add_globals-keeps (add_global mesh subsets g ins) rest s (
          rw e (elim (add_global_cases subsets g) [
            | inl (_, _, added) ↦ rw added (is_in-snoc_self g subsets)
            | inr (inl off, _) ↦ cc (off, o, ap (offered mesh ins) e)
            | inr (inr old, same) ↦ rw same old
          ]))

    add_globals-distinct :
        (subsets globals : List Subset)
        → NamesDistinct subsets
        → NamesDistinct (add_globals mesh subsets globals ins)
    unfolding add_globals
    add_globals-distinct subsets [] d = d
    add_globals-distinct subsets (g ∷ rest) d =
        add_globals-distinct (add_global mesh subsets g ins) rest
          (elim (add_global_cases subsets g) [
            | inl (_, new, e) ↦ rw e (NamesDistinct-snoc g subsets d new)
            | inr (_, e) ↦ rw e d
          ])

    length-add_globals-le :
        (subsets globals : List Subset)
        → length (add_globals mesh subsets globals ins) ≤ length subsets + length globals
    unfolding add_globals
    length-add_globals-le subsets [] = omega arith
    length-add_globals-le subsets (g ∷ rest) =
        let ih = length-add_globals-le (add_global mesh subsets g ins) rest in
        elim (add_global_cases subsets g) [
          | inl (_, _, e) ↦ omega (arith, ih, ap length e, length-append subsets (g ∷ []))
          | inr (_, e) ↦ omega (arith, ih, ap length e)
        ]

    length-add_globals-lt :
        (subsets globals : List Subset) (s : Subset)
        → In s globals
        → is_in s (add_globals mesh subsets globals ins) ≡ false
        → length (add_globals mesh subsets globals ins) < length subsets + length globals
    unfolding add_globals
    length-add_globals-lt subsets [] s m h = absurd m
    length-add_globals-lt subsets (g ∷ rest) s (inl same) h =
        let ih = length-add_globals-le (add_global mesh subsets g ins) rest in
        elim (add_global_cases subsets g) [
          | inl (_, _, e) ↦
              let kept =
                add_globals-keeps (add_global mesh subsets g ins) rest g
                  (rw e (is_in-snoc_self g subsets)) in
              cc (kept, h, ap (λ z. is_in z (add_globals mesh subsets (g ∷ rest) ins)) same)
          | inr (_, e) ↦ omega (arith, ih, ap length e)
        ]
    length-add_globals-lt subsets (g ∷ rest) s (inr m) h =
        let ih = length-add_globals-lt (add_global mesh subsets g ins) rest s m h in
        elim (add_global_cases subsets g) [
          | inl (_, _, e) ↦ omega (arith, ih, ap length e, length-append subsets (g ∷ []))
          | inr (_, e) ↦ omega (arith, ih, ap length e)
        ]

  get_subset_sound :
      (ins : List Instance) (s : Subset)
      → In s (get_subset mesh ins)
      → In s mesh.global_subsets × (offered mesh ins s ≡ true)
  unfolding get_subset
  get_subset_sound ins s m = elim (add_globals_sound ins [] mesh.global_subsets s m) [
    | inl none_yet ↦ absurd none_yet
    | inr found ↦ found
  ]

  get_subset_complete :
      (ins : List Instance) (s : Subset)
      → In s mesh.global_subsets
      → offered mesh ins s ≡ true
      → is_in s (get_subset mesh ins) ≡ true
  unfolding get_subset
  get_subset_complete ins = add_globals_complete ins [] mesh.global_subsets

  get_subset-NamesDistinct : (ins : List Instance) → NamesDistinct (get_subset mesh ins)
  unfolding get_subset
  get_subset-NamesDistinct ins = add_globals-distinct ins [] mesh.global_subsets tt

  -- Every subset that getSubset returns is a global subset that shares a label with some instance of the
  -- service: the subset has the label's value under the key that the mesh renames the label's key to, or
  -- under the same key if it renames it not. For every such global subset getSubset returns one of its
  -- name, and it returns no name twice. One shared label is enough, whatever the others are.
  pub get_subset_lem :
      (ins : List Instance)
      → ((s : Subset) → In s (get_subset mesh ins) → In s mesh.global_subsets × Offered mesh ins s)
        × ((s : Subset)
            → In s mesh.global_subsets
            → Offered mesh ins s
            → is_in s (get_subset mesh ins) ≡ true)
        × NamesDistinct (get_subset mesh ins)
  get_subset_lem ins = (
    λ s m. let (global, h) = get_subset_sound ins s m in (global, (any_matches_iff mesh ins s).0 h),
    λ s m h. get_subset_complete ins s m ((any_matches_iff mesh ins s).1 h),
    get_subset-NamesDistinct ins,
  )

  -- Where a global subset is missing there are fewer actual subsets than global ones.
  pub length-get_subset-lt :
      (ins : List Instance) (s : Subset)
      → In s mesh.global_subsets
      → is_in s (get_subset mesh ins) ≡ false
      → length (get_subset mesh ins) < length mesh.global_subsets
  unfolding get_subset
  length-get_subset-lt ins s m h =
      omega (arith, length-add_globals-lt ins [] mesh.global_subsets s m h)
