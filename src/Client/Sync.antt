-- ===== src/Client/Sync.antt =====
-- What the reconcilers do with the one object that they build for a service: the bodies of
-- reconcileVirtualService, reconcileDestinationRule and reconcileServiceEntry have these steps in
-- common. `getVirtualServicesMap` and its siblings fill `found_map`.
pub mod Lawful
pub mod Keys
pub mod Converges
pub mod Returns
use meshach.Prelude.{
  Bool, true, false, Option, none, some, List, [], ◌∷◌, if◌then◌else◌, Text, Dict, lookup, insert,
  delete,
}
use meshach.Api.{ObjectMeta}
use meshach.Client.{
  Error, not_found, already_exists, conflict, other, Result, ok, err, Call, Store, Retry, SetOwner,
}
use meshach.Client.Actions.{Action, pure, throw, deref, try, check, ◌>>=◌, ◌>>◌}

module _ {O : Type 0} (meta : O → ObjectMeta) where
  -- `m := make(map[string]*T); for i := range list.Items { m[item.Name] = &item }`
  unfoldable pub found_map : Dict O → List O → Dict O
  unfolding insert
  found_map m [] = m
  found_map m (item ∷ items) = found_map (insert (meta item).name item m) items

module _ {S O : Type 0} (store : Store S O) where
  -- `for _, o := range foundMap { err := r.Delete(ctx, o); if err != nil { return err } }`
  unfoldable pub prune : Dict O → Action S Unit
  prune [] = pure tt
  prune ((name, o) ∷ rest) = do deleted ← try (store.delete o); check deleted; prune rest

  module _ (meta : O → ObjectMeta) (retry : Retry S) (differs : O → O → Bool)
      (copy_into : O → O → O) where
    after_create : Dict O → Result Unit → Action S (Option (Dict O))
    after_create found (ok _) = pure (some found)
    after_create found (err already_exists) = pure none
    after_create found (err e) = throw e

    update_old : O → O → Action S Unit
    update_old o old =
        if differs o old
        then (do updated ← try (retry (store.update (copy_into o old))); check updated)
        else pure tt

    upsert_at : O → Dict O → Option O → Action S (Option (Dict O))
    unfolding after_create update_old delete
    upsert_at o found none = do created ← try (store.create o); after_create found created
    upsert_at o found (some old) = update_old o old >> pure (some (delete (meta o).name found))

    -- Creates or updates the object; then the entries of `found_map` that are to be deleted. `none` is
    -- the return when the object exists but was not listed.
    unfoldable pub upsert : O → Dict O → Action S (Option (Dict O))
    unfolding upsert_at lookup
    upsert o found = upsert_at o found (lookup (meta o).name found)

    unfoldable pub prune_rest : Option (Dict O) → Action S Unit
    unfolding prune
    prune_rest none = pure tt
    prune_rest (some rest) = prune rest

    -- From the check whether the object exists to the end of the reconcile function.
    unfoldable pub sync : O → Dict O → Action S Unit
    unfolding upsert prune_rest
    sync o found = do rest ← upsert o found; prune_rest rest

    -- Builds the object, makes `owner` its controller, and brings the cluster to it.
    unfoldable pub publish :
        SetOwner → (O → ObjectMeta → O) → ObjectMeta → Option O → List O → Action S Unit
    publish set_owner with_meta owner built items = do
      o ← deref built
      owned ← check (set_owner owner (meta o))
      sync (with_meta o owned) (found_map meta [] items)
