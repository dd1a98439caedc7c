-- ===== src/Samples/Watching.antt =====
-- The theorems on the path cache at a node with one child.
use meshach.Prelude.{
  ◌≡◌, refl, true, false, some, [], ◌∷◌, Text, bytes, pos, insert, lookup, text_eq,
}
use meshach.Adapter.Zookeeper.{
  Conn, PathCache, replaced_by, set_of, new_path_cache, children_of, data_of, notice_of, added,
  on_child_add,
}
use meshach.Adapter.Zookeeper.Steps.{Reach, start, later, receive_child}
use meshach.Adapter.Zookeeper.Watches.{reliable, Watched, Reach-AllWatched}
use meshach.Adapter.Zookeeper.Order.{orderly, stale_last}

abbrev root : Text
root = bytes "/dubbo"

abbrev demo_path : Text
demo_path = bytes "/dubbo/com.foo.Demo"

abbrev conn : Conn
conn = record { get_w = λ k. true; children_w = λ k. some (bytes "com.foo.Demo" ∷ []) }

abbrev fresh_cache : PathCache
fresh_cache = record {
  path = root;
  cached = [];
  zk_event_counter = pos 0;
  watches = children_of root ∷ [];
  arrived = [];
  adding = demo_path ∷ [];
  notices = [];
  sent = [];
  stopped = false;
}

fresh_cache-new : new_path_cache conn root true ≡ some fresh_cache
unfolding new_path_cache
fresh_cache-new = refl

-- The cache of the root has taken up its child.
abbrev watching : PathCache
watching = record fresh_cache {
  watches = data_of demo_path ∷ children_of root ∷ [];
  cached = (demo_path, true) ∷ [];
  adding = [];
  notices = notice_of added demo_path ∷ [];
}

watching-Reach : Reach reliable true root watching
unfolding on_child_add insert
watching-Reach =
    later (start conn fresh_cache (λ k. refl) fresh_cache-new)
      (receive_child conn [] [] demo_path (λ k. refl) refl refl)

demo_cached : lookup demo_path watching.cached ≡ some true
unfolding lookup text_eq
demo_cached = refl

Reach-AllWatched_example : Watched watching.watches watching.arrived demo_path
Reach-AllWatched_example = Reach-AllWatched watching-Reach demo_path demo_cached

stale_last_example :
    (p : PathCache) × Reach orderly false root p
    × (p.sent ≡ replaced_by (bytes "a" ∷ []) ∷ replaced_by (bytes "b" ∷ []) ∷ [])
    × (p.notices ≡ [])
    × (p.arrived ≡ [])
    × (p.cached ≡ set_of (bytes "b" ∷ []) [])
stale_last_example = stale_last root (bytes "a" ∷ []) (bytes "b" ∷ [])
