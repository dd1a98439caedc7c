-- ===== src/Generations/Conflicts.antt =====
-- What the MeshConfig controller does when an update meets a conflict.
use meshach.Prelude.{◌≡◌, ap, false, ℤ, eq_ℤ}
use meshach.Client.{conflict, Result, ok, err, Call}
use meshach.Generations.{Kind, write_item, stamp}

-- RetryOnConflict calls the function again after a conflict, and does not after a success.
pub record Retries {S O : Type 0} (kind : Kind S O) : Type 0 where
  pub once_more :
      (f : Call (S × O) Unit) (x y z : S × O)
      → f x ≡ (err conflict, y)
      → f y ≡ (ok tt, z)
      → kind.retry f x ≡ (ok tt, z)

module _ {S O : Type 0} (kind : Kind S O) (retries : Retries kind) where
  conflicting :
      (o fresh : O) (s t : S)
      → kind.update o s ≡ (err conflict, t)
      → kind.get (kind.meta o).namespace (kind.meta o).name t ≡ ok fresh
      → write_item kind (s, o) ≡ (err conflict, (t, fresh))
  unfolding write_item
  conflicting o fresh s t u f = rw (u, f)

  succeeding :
      (o : O) (s t : S) → kind.update o s ≡ (ok tt, t) → write_item kind (s, o) ≡ (ok tt, (t, o))
  unfolding write_item
  succeeding o s t u = rw u

  -- After a conflict, the object that Get returns is written back as it is: the generation is not set
  -- again, so that the state is the one after an update of the stored object with itself.
  pub stamp-conflict :
      (g : ℤ) (o fresh : O) (s t s' : S)
      → eq_ℤ (kind.generation o) g ≡ false
      → kind.update (kind.set_generation g o) s ≡ (err conflict, t)
      → kind.get
          (kind.meta (kind.set_generation g o)).namespace
          (kind.meta (kind.set_generation g o)).name
          t
        ≡ ok fresh
      → kind.update fresh t ≡ (ok tt, s')
      → stamp kind g o s ≡ s'
  unfolding stamp
  stamp-conflict g o fresh s t s' other_generation u f v = rw other_generation (
      ap (λ (p : Result Unit × (S × O)). p.1.0)
        (retries.once_more (write_item kind) (s, kind.set_generation g o) (t, fresh) (s', fresh)
          (conflicting (kind.set_generation g o) fresh s t u f) (succeeding fresh t s' v)))
