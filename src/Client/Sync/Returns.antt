-- ===== src/Client/Sync/Returns.antt =====
-- When a reconcile function returns, and when it writes nothing.
use meshach.Prelude.{
  ◌≡◌, refl, ap, inl, inr, Bool, false, Bool-cases, Option-cases, [], ◌∷◌, text_eq_refl, Dict,
  lookup, delete,
}
use meshach.Api.{ObjectMeta}
use meshach.Client.{ok, Store, Retry}
use meshach.Client.Actions.{done}
use meshach.Client.Sync.{found_map, prune, sync}

-- The API server accepts every write.
pub record Accepts {S O : Type 0} (store : Store S O) (retry : Retry S) : Type 0 where
  pub creates : (o : O) (s : S) → (store.create o s).0 ≡ ok tt
  pub updates : (o : O) (s : S) → (retry (store.update o) s).0 ≡ ok tt
  pub deletes : (o : O) (s : S) → (store.delete o s).0 ≡ ok tt

module _ {S O : Type 0} (store : Store S O) (retry : Retry S) (accepts : Accepts store retry) where
  split : {A B : Type 0} (p : A × B) {a : A} → p.0 ≡ a → (b : B) × (p ≡ (a, b))
  split (x, y) e = (y, ap (λ z. (z, y)) e)

  prune-returns : (m : Dict O) (s : S) → (prune store m s).0 ≡ done tt
  unfolding prune
  prune-returns [] s = refl
  prune-returns ((n, o) ∷ m) s =
      let (t, e) = split (store.delete o s) (accepts.deletes o s) in rw e (prune-returns m t)

  module _ (meta : O → ObjectMeta) (differs : O → O → Bool) (copy_into : O → O → O) where
    -- Where every write is accepted, the steps of a reconcile function return.
    pub sync-returns :
        (o : O) (found : Dict O) (s : S)
        → (sync store meta retry differs copy_into o found s).0 ≡ done tt
    unfolding sync
    sync-returns o found s = elim (Option-cases (lookup (meta o).name found)) [
      | inl l ↦
          let (t, e) = split (store.create o s) (accepts.creates o s) in
          rw (l, e) (prune-returns found t)
      | inr (old, l) ↦ elim (Bool-cases (differs o old)) [
        | inl d ↦
            let (t, e) =
              split (retry (store.update (copy_into o old)) s)
                (accepts.updates (copy_into o old) s) in
            rw (l, d, e) (prune-returns (delete (meta o).name found) t)
        | inr d ↦ rw (l, d) (prune-returns (delete (meta o).name found) s)
      ]
    ]

module _ {S O : Type 0} (store : Store S O) (retry : Retry S) (meta : O → ObjectMeta)
    (differs : O → O → Bool) (copy_into : O → O → O) where
  -- Where the one listed object is the wanted one, nothing is written.
  pub sync-steady :
      (o old : O) (s : S)
      → (meta old).name ≡ (meta o).name
      → differs o old ≡ false
      → sync store meta retry differs copy_into o (found_map meta [] (old ∷ [])) s ≡ (done tt, s)
  unfolding sync found_map lookup delete
  sync-steady o old s same d = rw (same, text_eq_refl, d, text_eq_refl)
