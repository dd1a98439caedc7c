-- ===== src/Generations/Converges.antt =====
-- What the MeshConfig controller leaves in the resources when the API server accepts its updates.
use meshach.Prelude.{
  ◌≡◌, ◌⊎◌, inl, inr, refl, ap, ◌∙◌, Bool, ◌&&◌, Bool-cases, List, [], ◌∷◌, if◌then◌else◌, ℤ, eq_ℤ,
  eq_ℤ_parts, eq_of_parts, Text, text_eq, text_eq_refl, In,
}
use meshach.Client.{Result, ok, err, Call}
use meshach.Generations.{Kind, write_item, stamp, stamp_all, stamp_listed, stamp_kind}

-- Namespace and name are those of the object.
abbrev pub same_key : {S O : Type 0} → Kind S O → O → Text → Text → Bool
same_key kind o namespace name =
    text_eq (kind.meta o).namespace namespace && text_eq (kind.meta o).name name

-- An update that is accepted is what Get returns, and other objects stay; a call that succeeds is not
-- retried; and the generation of an object is a field of its own.
pub record Stores {S O : Type 0} (kind : Kind S O) : Type 0 where
  pub accepts : (o : O) (s : S) → (kind.update o s).0 ≡ ok tt
  pub get_updated :
      (o : O) (s : S) (namespace name : Text)
      → kind.get namespace name (kind.update o s).1
        ≡ (if same_key kind o namespace name then ok o else kind.get namespace name s)
  pub no_retry :
      (f : Call (S × O) Unit) (x y : S × O) → f x ≡ (ok tt, y) → kind.retry f x ≡ (ok tt, y)
  pub generation_set : (g : ℤ) (o : O) → kind.generation (kind.set_generation g o) ≡ g
  pub meta_set : (g : ℤ) (o : O) → kind.meta (kind.set_generation g o) ≡ kind.meta o

module _ {S O : Type 0} (kind : Kind S O) (stores : Stores kind) (g : ℤ) where
  -- The stored object of this key has the generation.
  abbrev pub Stamped : Text → Text → S → Type 0
  Stamped namespace name s = (o : O) × (kind.get namespace name s ≡ ok o) × (kind.generation o ≡ g)

  written :
      (o : O) (s : S) (r : Result Unit × S)
      → kind.update o s ≡ r
      → r.0 ≡ ok tt
      → (kind.retry (write_item kind) (s, o)).1.0 ≡ (kind.update o s).1
  unfolding write_item
  written o s (ok u, t) e h =
      ap (λ (p : Result Unit × (S × O)). p.1.0)
        (stores.no_retry (write_item kind) (s, o) (t, o) (rw e))
      ∙ rw e
  written o s (err x, t) e h = cc h

  -- What a round of the loop does to what Get returns.
  get-stamp :
      (o : O) (s : S) (namespace name : Text)
      → (kind.generation o ≡ g) × (stamp kind g o s ≡ s)
        ⊎ (kind.get namespace name (stamp kind g o s) ≡ (
            if same_key kind o namespace name
            then ok (kind.set_generation g o)
            else kind.get namespace name s))
  unfolding stamp
  get-stamp o s namespace name = elim (Bool-cases (eq_ℤ (kind.generation o) g)) [
    | inl e ↦ inl (eq_of_parts (kind.generation o) g (eq_ℤ_parts (kind.generation o) g e), rw e)
    | inr e ↦ inr (
        rw
          (
            e,
            written (kind.set_generation g o) s _ refl (stores.accepts (kind.set_generation g o) s),
          )
          (stores.get_updated (kind.set_generation g o) s namespace name
            ∙ rw (stores.meta_set g o)))
  ]

  -- The object is as it was listed, or has the generation.
  Expected : O → S → Type 0
  Expected o s =
      (kind.get (kind.meta o).namespace (kind.meta o).name s ≡ ok o)
      ⊎ Stamped (kind.meta o).namespace (kind.meta o).name s

  Stamped-stamp :
      (o : O) (s : S) (namespace name : Text)
      → Stamped namespace name s
      → Stamped namespace name (stamp kind g o s)
  Stamped-stamp o s namespace name (x, l, e) = elim (get-stamp o s namespace name) [
    | inl (_, same) ↦ (x, rw same l, e)
    | inr w ↦ elim (Bool-cases (same_key kind o namespace name)) [
      | inl k ↦ (kind.set_generation g o, rw (w, k), stores.generation_set g o)
      | inr k ↦ (x, rw (w, k) l, e)
    ]
  ]

  Expected-stamp : (o x : O) (s : S) → Expected x s → Expected x (stamp kind g o s)
  unfolding Expected
  Expected-stamp o x s (inr m) = inr (Stamped-stamp o s _ _ m)
  Expected-stamp o x s (inl l) =
      let namespace = (kind.meta x).namespace in
      let name = (kind.meta x).name in
      elim (get-stamp o s namespace name) [
        | inl (_, same) ↦ inl (rw same l)
        | inr w ↦ elim (Bool-cases (same_key kind o namespace name)) [
          | inl k ↦ inr (kind.set_generation g o, rw (w, k), stores.generation_set g o)
          | inr k ↦ inl (rw (w, k) l)
        ]
      ]

  Stamped-here :
      (o : O) (s : S)
      → Expected o s
      → Stamped (kind.meta o).namespace (kind.meta o).name (stamp kind g o s)
  unfolding Expected
  Stamped-here o s (inr m) = Stamped-stamp o s _ _ m
  Stamped-here o s (inl l) = elim (get-stamp o s (kind.meta o).namespace (kind.meta o).name) [
    | inl (e, same) ↦ (o, rw same l, e)
    | inr w ↦ (
      kind.set_generation g o,
      rw (w, text_eq_refl (kind.meta o).namespace, text_eq_refl (kind.meta o).name),
      stores.generation_set g o,
    )
  ]

  Stamped-stamp_all :
      (items : List O) (s : S) (namespace name : Text)
      → Stamped namespace name s
      → Stamped namespace name (stamp_all kind g items s)
  unfolding stamp_all
  Stamped-stamp_all [] s namespace name m = m
  Stamped-stamp_all (o ∷ rest) s namespace name m =
      Stamped-stamp_all rest (stamp kind g o s) namespace name (Stamped-stamp o s namespace name m)

  all-Stamped :
      (items : List O) (s : S)
      → ((o : O) → In o items → Expected o s)
      → (o : O) → In o items
      → Stamped (kind.meta o).namespace (kind.meta o).name (stamp_all kind g items s)
  unfolding stamp_all
  all-Stamped [] s expected o m = absurd m
  all-Stamped (x ∷ rest) s expected o (inl e) =
      Stamped-stamp_all rest (stamp kind g x s) (kind.meta o).namespace (kind.meta o).name
        (rw e (Stamped-here x s (expected x (inl refl))))
  all-Stamped (x ∷ rest) s expected o (inr m) =
      all-Stamped rest (stamp kind g x s) (λ y n. Expected-stamp x y s (expected y (inr n))) o m

  -- Where the listed objects are the stored ones and the API server accepts every update, every listed
  -- object has the generation of the MeshConfig afterwards, whether it had it before or not.
  pub stamp_kind_converges :
      (s : S) (items : List O)
      → kind.list_all s ≡ ok items
      → ((o : O) → In o items → kind.get (kind.meta o).namespace (kind.meta o).name s ≡ ok o)
      → (o : O) → In o items
      → Stamped (kind.meta o).namespace (kind.meta o).name (stamp_kind kind g s)
  unfolding stamp_kind stamp_listed Expected
  stamp_kind_converges s items l stored o m =
      rw l (all-Stamped items s (λ x n. inl (stored x n)) o m)
