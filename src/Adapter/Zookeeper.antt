-- ===== src/Adapter/Zookeeper.antt =====
-- pkg/adapter/zookeeper/pathcache.go: a cache of the children of a node of zookeeper, which tells its
-- client what changes. Each value that is sent to a channel waits in a goroutine of its own, so the
-- channels are collections from which any value may be received next.
pub mod Steps
pub mod Watches
pub mod Order
use meshach.Prelude.{
  ◌≡◌, ◌⊎◌, Bool, true, false, Option, none, some, List, [], ◌∷◌, ◌++◌, ◌||◌, any, if◌then◌else◌, ℤ,
  pos, ◌+ℤ◌, int64, Text, Dict, bytes, lookup, insert,
}
use meshach.Adapter.Paths.{equal_fold, path_join}

pub data PathCacheEventType : Type 0 where
  added deleted changed children_replaced : PathCacheEventType

pub record PathCacheEvent : Type 0 where
  pub event_type : PathCacheEventType
  pub path : Text
  pub paths : List Text

abbrev pub providers_path : Text
providers_path = bytes "providers"

abbrev pub consumers_path : Text
consumers_path = bytes "consumers"

abbrev pub ignored_host_names : List Text
ignored_host_names = bytes "metadata" ∷ bytes "config" ∷ []

unfoldable pub ignore : Text → Bool
unfolding any equal_fold
ignore path = any (λ v. equal_fold v path) ignored_host_names

-- An event of zookeeper by its type, with its path; session events and the like are `unsupported`.
pub data ZkEvent : Type 0 where
  node_data_changed node_children_changed node_deleted : Text → ZkEvent
  unsupported : ZkEvent

-- A watch of zookeeper fires once: that of GetW, that of ChildrenW.
pub data Watch : Type 0 where
  data_of children_of : Text → Watch

-- The answers of a connection: whether GetW succeeds, and the children of ChildrenW.
pub record Conn : Type 0 where
  pub get_w : Text → Bool
  pub children_w : Text → Option (List Text)

-- `watches`: the goroutines `forward` that wait for zookeeper; `arrived`: those that have an event for
-- `watchCh`; `adding`: the goroutines `addChild`; `notices`: the goroutines `notify`; `sent`: what the
-- client has received, the last one first.
pub record PathCache : Type 0 where
  pub path : Text
  pub cached : Dict Bool
  pub zk_event_counter : ℤ
  pub watches : List Watch
  pub arrived : List ZkEvent
  pub adding : List Text
  pub notices : List PathCacheEvent
  pub sent : List PathCacheEvent
  pub stopped : Bool

abbrev pub notice_of : PathCacheEventType → Text → PathCacheEvent
notice_of type path = record { event_type = type; path = path; paths = [] }

abbrev pub replaced_by : List Text → PathCacheEvent
replaced_by children = record { event_type = children_replaced; path = []; paths = children }

is_true : Option Bool → Bool
is_true none = false
is_true (some b) = b

add_uncached : Text → PathCache → PathCache
unfolding is_true lookup
add_uncached fp p = if is_true (lookup fp p.cached) then p else record p { adding = fp ∷ p.adding }

-- The loop over the children in watchAndAddChildren
add_children : List Text → PathCache → PathCache
unfolding add_uncached path_join
add_children [] p = p
add_children (child ∷ children) p = add_children children (add_uncached (path_join p.path child) p)

watched_and_added : Option (List Text) → PathCache → PathCache
unfolding add_children
watched_and_added none p = p
watched_and_added (some children) p =
    add_children children (record p { watches = children_of p.path ∷ p.watches })

-- An error of ChildrenW leaves the cache as it is.
unfoldable pub watch_and_add_children : Conn → PathCache → PathCache
unfolding watched_and_added
watch_and_add_children conn p = watched_and_added (conn.children_w p.path) p

unfoldable pub set_of : List Text → Dict Bool → Dict Bool
unfolding insert
set_of [] cached = cached
set_of (child ∷ children) cached = set_of children (insert child true cached)

watched_children : Option (List Text) → PathCache → PathCache
unfolding set_of
watched_children none p = p
watched_children (some children) p = record p {
  cached = set_of children [];
  watches = children_of p.path ∷ p.watches;
  notices = replaced_by children ∷ p.notices;
}

unfoldable pub watch_children : Conn → PathCache → PathCache
unfolding watched_children
watch_children conn p = watched_children (conn.children_w p.path) p

unfoldable pub on_child_add : Conn → Text → PathCache → PathCache
unfolding insert
on_child_add conn child p =
    if conn.get_w child
    then record p {
      watches = data_of child ∷ p.watches;
      cached = insert child true p.cached;
      notices = notice_of added child ∷ p.notices;
    }
    else p

unfoldable pub on_child_deleted : Text → PathCache → PathCache
unfolding insert
on_child_deleted child p = record p {
  cached = insert child false p.cached;
  notices = notice_of deleted child ∷ p.notices;
}

unfoldable pub on_node_changed : Conn → Text → PathCache → PathCache
on_node_changed conn path p = record p {
  watches = if conn.get_w path then data_of path ∷ p.watches else p.watches;
  notices = notice_of changed path ∷ p.notices;
}

dispatch : Conn → Bool → ZkEvent → PathCache → PathCache
unfolding on_node_changed watch_and_add_children watch_children on_child_deleted
dispatch conn is_svc_path (node_data_changed path) p = on_node_changed conn path p
dispatch conn true (node_children_changed path) p = watch_and_add_children conn p
dispatch conn false (node_children_changed path) p = watch_children conn p
dispatch conn is_svc_path (node_deleted path) p = on_child_deleted path p
dispatch conn is_svc_path unsupported p = p

count_event : PathCache → PathCache
unfolding int64 ◌+ℤ◌
count_event p = record p { zk_event_counter = int64 (p.zk_event_counter +ℤ pos 1) }

unfoldable pub on_event : Conn → Bool → ZkEvent → PathCache → PathCache
unfolding dispatch count_event
on_event conn is_svc_path event p = count_event (dispatch conn is_svc_path event p)

abbrev empty_cache : Text → PathCache
empty_cache path = record {
  path = path;
  cached = [];
  zk_event_counter = pos 0;
  watches = [];
  arrived = [];
  adding = [];
  notices = [];
  sent = [];
  stopped = false;
}

first_watch : Conn → Bool → PathCache → PathCache
unfolding watch_and_add_children watch_children
first_watch conn true p = watch_and_add_children conn p
first_watch conn false p = watch_children conn p

opened : Option (List Text) → PathCache → Option PathCache
opened none p = none
opened (some children) p = some p

-- NewPathCache: an error of the first ChildrenW is returned. Filling in the node itself may fail, and has
-- no part in the cache.
unfoldable pub new_path_cache : Conn → Text → Bool → Option PathCache
unfolding first_watch opened
new_path_cache conn path is_svc_path =
    opened (conn.children_w path) (first_watch conn is_svc_path (empty_cache path))
