-- ===== src/Adapter/Zookeeper/Order.antt =====
-- The order in which the client of a path cache receives what it tells.
use meshach.Prelude.{◌≡◌, refl, inl, true, false, some, List, [], ◌∷◌, Text}
use meshach.Adapter.Zookeeper.{
  node_children_changed, children_of, Conn, PathCache, replaced_by, set_of, watch_children,
  watched_children, on_event, dispatch, count_event, new_path_cache, first_watch, opened,
  empty_cache,
}
use meshach.Adapter.Zookeeper.Steps.{World, fire, receive, deliver, Reach, start, later}

-- A connection that answers with these children
abbrev serving : List Text → Conn
serving children = record { get_w = λ k. true; children_w = λ k. some children }

-- Every connection may serve, and sessions do not end.
abbrev pub orderly : World
orderly = record { Serves = λ conn. Unit; Loses = ⊥ }

-- The cache that has been opened on a node with these children
opened_with : Text → List Text → PathCache
opened_with path children = record (empty_cache path) {
  cached = set_of children [];
  watches = children_of path ∷ [];
  notices = replaced_by children ∷ [];
}

-- The children of a node change from `old` to `new`, and the cache has seen both. Its goroutines may
-- still hand the client `new` first and `old` last, so that what it ends with is out of date.
pub stale_last :
    (path : Text) (old new : List Text)
    → (p : PathCache) × Reach orderly false path p
      × (p.sent ≡ replaced_by old ∷ replaced_by new ∷ [])
      × (p.notices ≡ [])
      × (p.arrived ≡ [])
      × (p.cached ≡ set_of new [])
unfolding opened_with new_path_cache first_watch opened watch_children watched_children on_event
    dispatch count_event
stale_last path old new = (
  _,
  later
      (later
        (later
          (later (start (serving old) (opened_with path old) tt refl)
            (fire [] [] (children_of path) (node_children_changed path) refl (inl refl)))
          (receive (serving new) [] [] (node_children_changed path) tt refl refl))
        (deliver [] (replaced_by old ∷ []) (replaced_by new) refl refl))
      (deliver [] [] (replaced_by old) refl refl),
  refl,
  refl,
  refl,
  refl,
)
