-- ===== src/Client/Sync/Keys.antt =====
-- The keys of the maps of found objects.
use meshach.Prelude.{
  ◌≡◌, refl, Bool-cases, inl, inr, some, List, [], ◌∷◌, arith, Text, text_eq, text_eq_iff, Dict,
  lookup, insert, delete, All,
}
use meshach.Api.{ObjectMeta}
use meshach.Client.Sync.{found_map}

module _ {O : Type 0} (meta : O → ObjectMeta) where
  -- Every key of the map is the name of its object.
  abbrev pub Keyed : Dict O → Type 0
  Keyed m = All (λ entry. (meta entry.1).name ≡ entry.0) m

  Keyed-insert : (o : O) (m : Dict O) → Keyed m → Keyed (insert (meta o).name o m)
  unfolding insert
  Keyed-insert o [] k = (refl, tt)
  Keyed-insert o ((j, w) ∷ m) k = elim (Bool-cases (text_eq j (meta o).name)) [
    | inl e ↦ rw e (refl, k.1)
    | inr e ↦ rw e (k.0, Keyed-insert o m k.1)
  ]

  pub Keyed-found_map : (items : List O) (m : Dict O) → Keyed m → Keyed (found_map meta m items)
  unfolding found_map
  Keyed-found_map [] m k = k
  Keyed-found_map (o ∷ items) m k =
      Keyed-found_map items (insert (meta o).name o m) (Keyed-insert o m k)

  pub Keyed-delete : (n : Text) (m : Dict O) → Keyed m → Keyed (delete n m)
  unfolding delete
  Keyed-delete n [] k = tt
  Keyed-delete n ((j, w) ∷ m) k = elim (Bool-cases (text_eq j n)) [
    | inl e ↦ rw e (Keyed-delete n m k.1)
    | inr e ↦ rw e (k.0, Keyed-delete n m k.1)
  ]

  pub Keyed-lookup :
      (n : Text) (m : Dict O) (o : O) → Keyed m → lookup n m ≡ some o → (meta o).name ≡ n
  unfolding lookup
  Keyed-lookup n [] o k h = cc
  Keyed-lookup n ((j, w) ∷ m) o k h = elim (Bool-cases (text_eq j n)) [
    | inl e ↦ ground (arith, k.0, (text_eq_iff j n).0 e)
    | inr e ↦ Keyed-lookup n m o k.1 (rw e at h)
  ]
