-- ===== src/Mesh/Objects.antt =====
-- How the reconcilers compare a built object with the found one, and what an update copies into the
-- found one. The functions of controllers/serviceconfig and controllers/configuredservice are the same.
pub mod Copies
pub mod Listed
use meshach.Prelude.{Bool}
use meshach.Api.{ObjectMeta}
use meshach.Istio.{VirtualService, DestinationRule, ServiceEntry}
use meshach.Cluster.{DeepEqual}
use meshach.Mesh.Rules.{differs}

-- `found.Finalizers = vs.Finalizers; found.Labels = vs.ObjectMeta.Labels`
abbrev pub copy_meta : ObjectMeta → ObjectMeta → ObjectMeta
copy_meta new found = record found { labels = new.labels; finalizers = new.finalizers }

abbrev pub copy_virtual_service : VirtualService → VirtualService → VirtualService
copy_virtual_service vs found = record { meta = copy_meta vs.meta found.meta; spec = vs.spec }

abbrev pub copy_destination_rule : DestinationRule → DestinationRule → DestinationRule
copy_destination_rule dr found = record { meta = copy_meta dr.meta found.meta; spec = dr.spec }

abbrev pub copy_service_entry : ServiceEntry → ServiceEntry → ServiceEntry
copy_service_entry se found = record { meta = copy_meta se.meta found.meta; spec = se.spec }

abbrev pub own_virtual_service : VirtualService → ObjectMeta → VirtualService
own_virtual_service vs owned = record vs { meta = owned }

abbrev pub own_destination_rule : DestinationRule → ObjectMeta → DestinationRule
own_destination_rule dr owned = record dr { meta = owned }

abbrev pub own_service_entry : ServiceEntry → ObjectMeta → ServiceEntry
own_service_entry se owned = record se { meta = owned }

module _ (eq : DeepEqual) where
  unfoldable pub compare_virtual_service : VirtualService → VirtualService → Bool
  unfolding differs
  compare_virtual_service new old =
      differs eq.finalizers eq.labels eq.virtual_service new.meta old.meta new.spec old.spec

  unfoldable pub compare_destination_rule : DestinationRule → DestinationRule → Bool
  unfolding differs
  compare_destination_rule new old =
      differs eq.finalizers eq.labels eq.destination_rule new.meta old.meta new.spec old.spec

  unfoldable pub compare_service_entry : ServiceEntry → ServiceEntry → Bool
  unfolding differs
  compare_service_entry new old =
      differs eq.finalizers eq.labels eq.service_entry new.meta old.meta new.spec old.spec
