-- ===== src/Samples/Counting.antt =====
-- The theorems on the AppMeshConfig controller at an application with one service.
use meshach.Prelude.{◌≡◌, refl, none, List, [], ◌∷◌, bytes, filter}
use meshach.Istio.{ServiceEntry}
use meshach.AppMeshConfigs.{Service, AppMeshConfig, count}
use meshach.AppMeshConfigs.Counts.{count_of, count-listed}
use meshach.Samples.Data.{empty, meta_of, instance_one, blue}
use meshach.Samples.World.{cluster}

abbrev service : Service
service = record {
  name = bytes "svc";
  original_name = bytes "svc";
  ports = [];
  instances = instance_one ∷ [];
  policy = none;
  subsets = blue ∷ [];
}

abbrev application : AppMeshConfig
application = record {
  meta = meta_of (bytes "app");
  services = service ∷ [];
  status = record { last_update_time = none; phase = none; status = none };
}

abbrev no_entries : Service → List ServiceEntry
no_entries svc = []

count-listed_example :
    count cluster.service_entries application empty ≡ count_of no_entries application.services
unfolding filter
count-listed_example =
    count-listed cluster.service_entries empty no_entries application (λ svc m. refl)
