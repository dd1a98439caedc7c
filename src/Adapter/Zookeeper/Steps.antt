-- ===== src/Adapter/Zookeeper/Steps.antt =====
-- How a path cache of pkg/adapter/zookeeper/pathcache.go moves: zookeeper fires the watches, and the loop
-- of the cache receives from one channel at a time.
use meshach.Prelude.{◌≡◌, ◌⊎◌, Bool, true, false, some, List, ◌∷◌, ◌++◌, Text}
use meshach.Adapter.Zookeeper.{
  ZkEvent, node_data_changed, node_children_changed, node_deleted, unsupported, Watch, data_of,
  children_of, Conn, PathCacheEvent, PathCache, on_event, on_child_add, new_path_cache,
}

-- What zookeeper sends for a watch
abbrev pub Fires : Watch → ZkEvent → Type 0
Fires (data_of k) e = (e ≡ node_data_changed k) ⊎ (e ≡ node_deleted k)
Fires (children_of k) e = (e ≡ node_children_changed k) ⊎ (e ≡ node_deleted k)

-- What may happen between two steps of the cache: which connections answer it, and whether a session may
-- end and take its watches away.
pub record World : Type 1 where
  pub Serves : Conn → Type 0
  pub Loses : Type 0

module _ (world : World) (is_svc_path : Bool) where
  pub data Step (p : PathCache) : PathCache → Type 0 where
    fire :
        (before after : List Watch) (w : Watch) (e : ZkEvent)
        → p.watches ≡ before ++ w ∷ after
        → Fires w e
        → Step p (record p { watches = before ++ after; arrived = e ∷ p.arrived })
    lose :
        (before after : List Watch) (w : Watch)
        → world.Loses
        → p.watches ≡ before ++ w ∷ after
        → Step p (record p { watches = before ++ after; arrived = unsupported ∷ p.arrived })
    receive :
        (conn : Conn) (before after : List ZkEvent) (e : ZkEvent)
        → world.Serves conn
        → p.stopped ≡ false
        → p.arrived ≡ before ++ e ∷ after
        → Step p (on_event conn is_svc_path e (record p { arrived = before ++ after }))
    receive_child :
        (conn : Conn) (before after : List Text) (child : Text)
        → world.Serves conn
        → p.stopped ≡ false
        → p.adding ≡ before ++ child ∷ after
        → Step p (on_child_add conn child (record p { adding = before ++ after }))
    deliver :
        (before after : List PathCacheEvent) (n : PathCacheEvent)
        → p.stopped ≡ false
        → p.notices ≡ before ++ n ∷ after
        → Step p (record p { notices = before ++ after; sent = n ∷ p.sent })
    stop : Step p (record p { stopped = true })

  pub data Reach (path : Text) : PathCache → Type 0 where
    start :
        (conn : Conn) (p : PathCache)
        → world.Serves conn
        → new_path_cache conn path is_svc_path ≡ some p
        → Reach path p
    later : {p q : PathCache} → Reach path p → Step p q → Reach path q
