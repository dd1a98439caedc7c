-- ===== src/Mesh/Objects/Copies.antt =====
-- What stays of an object that is compared equal, and of one that is copied into.
use meshach.Prelude.{◌≡◌, Text}
use meshach.Api.{ObjectMeta}
use meshach.Client.{ok, SetOwner}
use meshach.Client.Sync.Lawful.{Belongs}
use meshach.Mesh.Objects.{copy_meta}

-- A controller reference changes nothing else in the metadata.
pub record SetOwnerLaw (set_owner : SetOwner) : Type 0 where
  pub same : (owner m m' : ObjectMeta) → set_owner owner m ≡ ok m' → m' ≡ m

-- The copy into a listed object is still listed.
pub Belongs-copy_meta :
    {key label namespace : Text} {new found : ObjectMeta}
    → Belongs key label namespace new
    → Belongs key label namespace found
    → Belongs key label namespace (copy_meta new found)
Belongs-copy_meta n f = record { in_namespace = f.in_namespace; labelled = n.labelled }
