-- ===== src/Generations.antt =====
-- controllers/meshconfig/controller.go: the MeshConfig controller, which writes the generation of the
-- MeshConfig into every resource, so that the other controllers reconcile them again.
pub mod Converges
pub mod Conflicts
use meshach.Prelude.{◌≡◌, Bool, true, false, List, [], ◌∷◌, if◌then◌else◌, ℤ, eq_ℤ, Text}
use meshach.Api.{ObjectMeta, MeshConfigSpec, ServiceAccessor, ServiceConfig, ConfiguredService}
use meshach.Client.{Error, not_found, Result, ok, err, Call, Retry}
use meshach.Client.Actions.{Outcome, done, Action, pure, throw, read, ◌>>=◌}

-- The MeshConfig with the generation of its metadata
pub record MeshConfig : Type 0 where
  pub generation : ℤ
  pub spec : MeshConfigSpec

-- The client for one kind of resource in all namespaces, and retry at the type at which it is called.
pub record Kind (S O : Type 0) : Type 0 where
  pub get : Text → Text → S → Result O
  pub list_all : S → Result (List O)
  pub update : O → Call S Unit
  pub retry : Retry (S × O)
  pub meta : O → ObjectMeta
  pub generation : O → ℤ
  pub set_generation : ℤ → O → O

module _ {S O : Type 0} (kind : Kind S O) where
  -- Get replaces the local object.
  refetched : Error → Result O → Call (S × O) Unit
  refetched update_err (ok fresh) (s, o) = (err update_err, (s, fresh))
  refetched update_err (err get_err) (s, o) = (err get_err, (s, o))

  after_write : O → Result Unit → Call (S × O) Unit
  unfolding refetched
  after_write o (ok _) st = (ok tt, st)
  after_write o (err e) (s, current) =
      refetched e (kind.get (kind.meta o).namespace (kind.meta o).name s) (s, current)

  -- The closure that is retried.
  unfoldable pub write_item : Call (S × O) Unit
  unfolding after_write
  write_item (s, o) = let (r, s') = kind.update o s in after_write o r (s', o)

  -- One round of a loop; an error is logged.
  unfoldable pub stamp : ℤ → O → S → S
  stamp generation o s =
      if eq_ℤ (kind.generation o) generation
      then s
      else (kind.retry write_item (s, kind.set_generation generation o)).1.0

  unfoldable pub stamp_all : ℤ → List O → S → S
  stamp_all generation [] s = s
  stamp_all generation (o ∷ rest) s = stamp_all generation rest (stamp generation o s)

  -- An error of the list is logged, and leaves no items.
  unfoldable pub stamp_listed : ℤ → Result (List O) → S → S
  stamp_listed generation (ok items) s = stamp_all generation items s
  stamp_listed generation (err _) s = s

  unfoldable pub stamp_kind : ℤ → S → S
  unfolding stamp_listed
  stamp_kind generation s = stamp_listed generation (kind.list_all s) s

module _ {S : Type 0} (accessors : Kind S ServiceAccessor) (configs : Kind S ServiceConfig)
    (services : Kind S ConfiguredService) where
  unfoldable pub stamp_kinds : MeshConfig → S → S
  unfolding stamp_kind
  stamp_kinds mesh_config s =
      stamp_kind services mesh_config.generation
        (stamp_kind configs mesh_config.generation (stamp_kind accessors mesh_config.generation s))

  unfoldable pub instance_found : Result MeshConfig → Action S Unit
  unfolding stamp_kinds
  instance_found (err not_found) s = (done tt, s)
  instance_found (err e) s = throw e s
  instance_found (ok mesh_config) s = (done tt, stamp_kinds mesh_config s)

  unfoldable pub reconcile : (Text → Text → S → Result MeshConfig) → Text → Text → Action S Unit
  unfolding instance_found
  reconcile get_mesh_config namespace name = do
    found ← read (get_mesh_config namespace name)
    instance_found found
