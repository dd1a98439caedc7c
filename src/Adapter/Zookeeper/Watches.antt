-- ===== src/Adapter/Zookeeper/Watches.antt =====
-- A path cache of services watches every child that it has cached.
use meshach.Prelude.{
  ◌≡◌, ◌⊎◌, inl, inr, refl, sym, ap, ◌∙◌, true, false, Bool-cases, Option, none, some, List, [],
  ◌∷◌, ◌++◌, arith, Text, text_eq, text_eq_iff, lookup, lookup-insert, In,
}
use meshach.Adapter.Paths.{path_join}
use meshach.Adapter.Zookeeper.{
  ZkEvent, node_data_changed, node_children_changed, node_deleted, unsupported, Watch, data_of,
  children_of, Conn, PathCache, on_event, on_child_add, new_path_cache, add_uncached, add_children,
  watched_and_added, watch_and_add_children, dispatch, count_event, on_node_changed,
  on_child_deleted, first_watch, opened, empty_cache,
}
use meshach.Adapter.Zookeeper.Steps.{
  Fires, World, Step, fire, lose, receive, receive_child, deliver, stop, Reach, start, later,
}

-- Sessions do not end, and GetW answers.
abbrev pub reliable : World
reliable = record { Serves = λ conn. (k : Text) → conn.get_w k ≡ true; Loses = ⊥ }

-- A watch on the child waits, or its event has come and has not been handled yet.
abbrev pub Watched : List Watch → List ZkEvent → Text → Type 0
Watched watches arrived k =
    In (data_of k) watches ⊎ (In (node_data_changed k) arrived ⊎ In (node_deleted k) arrived)

abbrev pub AllWatched : PathCache → Type 0
AllWatched p = (k : Text) → lookup k p.cached ≡ some true → Watched p.watches p.arrived k

In-without :
    {A : Type 0} (x w : A) (before after : List A)
    → In x (before ++ w ∷ after)
    → (x ≡ w) ⊎ In x (before ++ after)
In-without x w [] after m = m
In-without x w (y ∷ before) after (inl e) = inr (inl e)
In-without x w (y ∷ before) after (inr m) = elim (In-without x w before after m) [
  | inl e ↦ inl e
  | inr r ↦ inr (inr r)
]

fired :
    (before after : List Watch) (arrived : List ZkEvent) (w : Watch) (e : ZkEvent) (k : Text)
    → Fires w e
    → Watched (before ++ w ∷ after) arrived k
    → Watched (before ++ after) (e ∷ arrived) k
fired before after arrived w e k f (inr (inl m)) = inr (inl (inr m))
fired before after arrived w e k f (inr (inr m)) = inr (inr (inr m))
fired before after arrived w e k f (inl m) = elim (In-without (data_of k) w before after m) [
  | inl same ↦ elim (rw (← same) at f) [
    | inl c ↦ inr (inl (inl (sym c)))
    | inr d ↦ inr (inr (inl (sym d)))
  ]
  | inr rest ↦ inl rest
]

-- The event is one on the child.
abbrev Concerns : Text → ZkEvent → Type 0
Concerns k e = (node_data_changed k ≡ e) ⊎ (node_deleted k ≡ e)

received :
    (watches : List Watch) (before after : List ZkEvent) (e : ZkEvent) (k : Text)
    → Watched watches (before ++ e ∷ after) k
    → Concerns k e ⊎ Watched watches (before ++ after) k
received watches before after e k (inl m) = inr (inl m)
received watches before after e k (inr (inl m)) =
    elim (In-without (node_data_changed k) e before after m) [
      | inl same ↦ inl (inl same)
      | inr rest ↦ inr (inr (inl rest))
    ]
received watches before after e k (inr (inr m)) =
    elim (In-without (node_deleted k) e before after m) [
      | inl same ↦ inl (inr same)
      | inr rest ↦ inr (inr (inr rest))
    ]

-- Looking for new children touches neither the watches nor what is cached.
abbrev Kept : PathCache → PathCache → Type 0
Kept p q = (q.cached ≡ p.cached) × (q.arrived ≡ p.arrived) × (q.watches ≡ p.watches)

add_uncached-Kept : (fp : Text) (p : PathCache) → Kept p (add_uncached fp p)
unfolding add_uncached
add_uncached-Kept fp p = (ground arith, ground arith, ground arith)

add_children-Kept : (children : List Text) (p : PathCache) → Kept p (add_children children p)
unfolding add_children
add_children-Kept [] p = (refl, refl, refl)
add_children-Kept (child ∷ children) p =
    let (a, b, c) = add_uncached-Kept (path_join p.path child) p in
    let (d, e, f) = add_children-Kept children (add_uncached (path_join p.path child) p) in
    (d ∙ a, e ∙ b, f ∙ c)

watched-AllWatched :
    (o : Option (List Text)) (p : PathCache) → AllWatched p → AllWatched (watched_and_added o p)
unfolding watched_and_added
watched-AllWatched none p h k l = h k l
watched-AllWatched (some children) p h k l =
    let (a, b, c) =
      add_children-Kept children (record p { watches = children_of p.path ∷ p.watches }) in
    rw (b, c) (elim (h k (rw a at l)) [ inl m ↦ inl (inr m) | inr m ↦ inr m ])

-- What is left when the event is taken out is watched but for what it concerns.
module _ (p : PathCache) (before after : List ZkEvent) (e : ZkEvent)
    (h : (k : Text)
      → lookup k p.cached ≡ some true
      → Watched p.watches (before ++ e ∷ after) k) where
  abbrev taken : PathCache
  taken = record p { arrived = before ++ after }

  unconcerned : ((k : Text) → Concerns k e → ⊥) → AllWatched taken
  unconcerned other k l = elim (received p.watches before after e k (h k l)) [
    | inl c ↦ absurd (other k c)
    | inr w ↦ w
  ]

changed-AllWatched :
    (conn : Conn) (q : Text) (p : PathCache) (before after : List ZkEvent)
    → reliable.Serves conn
    → ((k : Text)
        → lookup k p.cached ≡ some true
        → Watched p.watches (before ++ node_data_changed q ∷ after) k)
    → AllWatched (on_node_changed conn q (record p { arrived = before ++ after }))
unfolding on_node_changed
changed-AllWatched conn q p before after serves h k l =
    rw (serves q) (elim (received p.watches before after (node_data_changed q) k (h k l)) [
      | inl (inl same) ↦ inl (inl (cc same))
      | inl (inr other) ↦ cc other
      | inr (inl m) ↦ inl (inr m)
      | inr (inr m) ↦ inr m
    ])

deleted-AllWatched :
    (q : Text) (p : PathCache) (before after : List ZkEvent)
    → ((k : Text)
        → lookup k p.cached ≡ some true
        → Watched p.watches (before ++ node_deleted q ∷ after) k)
    → AllWatched (on_child_deleted q (record p { arrived = before ++ after }))
unfolding on_child_deleted
deleted-AllWatched q p before after h k l = elim (Bool-cases (text_eq q k)) [
  | inl same ↦ cc (rw (lookup-insert q k false p.cached, same) at l)
  | inr apart ↦
      elim (received p.watches before after (node_deleted q) k
        (h k (rw (lookup-insert q k false p.cached, apart) at l))) [
          | inl (inl other) ↦ cc other
          | inl (inr same) ↦ let own : q ≡ k = cc same in cc (apart, (text_eq_iff q k).1 own)
          | inr w ↦ w
        ]
]

received-AllWatched :
    (conn : Conn) (e : ZkEvent) (p : PathCache) (before after : List ZkEvent)
    → reliable.Serves conn
    → ((k : Text) → lookup k p.cached ≡ some true → Watched p.watches (before ++ e ∷ after) k)
    → AllWatched (on_event conn true e (record p { arrived = before ++ after }))
unfolding on_event dispatch count_event watch_and_add_children
received-AllWatched conn (node_data_changed q) p before after serves h =
    changed-AllWatched conn q p before after serves h
received-AllWatched conn (node_deleted q) p before after serves h =
    deleted-AllWatched q p before after h
received-AllWatched conn (node_children_changed q) p before after serves h =
    watched-AllWatched (conn.children_w p.path) (record p { arrived = before ++ after })
      (unconcerned p before after (node_children_changed q) h
        (λ k c. elim c [ inl e ↦ cc e | inr e ↦ cc e ]))
received-AllWatched conn unsupported p before after serves h =
    unconcerned p before after unsupported h (λ k c. elim c [ inl e ↦ cc e | inr e ↦ cc e ])

child-AllWatched :
    (conn : Conn) (child : Text) (p : PathCache)
    → reliable.Serves conn
    → AllWatched p
    → AllWatched (on_child_add conn child p)
unfolding on_child_add
child-AllWatched conn child p serves h k l = elim (Bool-cases (text_eq child k)) [
  | inl same ↦ rw (serves child) (inl (inl (ap data_of (sym ((text_eq_iff child k).0 same)))))
  | inr apart ↦
      rw (serves child)
        (elim (h k (rw (serves child, lookup-insert child k true p.cached, apart) at l)) [
          | inl m ↦ inl (inr m)
          | inr m ↦ inr m
        ])
]

Step-AllWatched : {p q : PathCache} → Step reliable true p q → AllWatched p → AllWatched q
Step-AllWatched {p} (fire before after w e at_w f) h k l =
    fired before after p.arrived w e k f (rw at_w at (h k l))
Step-AllWatched (lose before after w ends at_w) h k l = absurd ends
Step-AllWatched {p} (receive conn before after e serves running at_e) h k l =
    received-AllWatched conn e p before after serves (λ j m. rw at_e at (h j m)) k l
Step-AllWatched {p} (receive_child conn before after child serves running at_c) h k l =
    child-AllWatched conn child (record p { adding = before ++ after }) serves h k l
Step-AllWatched (deliver before after n running at_n) h k l = h k l
Step-AllWatched stop h k l = h k l

opened-AllWatched :
    (conn : Conn) (path : Text) (o : Option (List Text)) (p : PathCache)
    → opened o (watched_and_added (conn.children_w path) (empty_cache path)) ≡ some p
    → AllWatched p
unfolding opened lookup
opened-AllWatched conn path none p e = cc e
opened-AllWatched conn path (some children) p e =
    let same : watched_and_added (conn.children_w path) (empty_cache path) ≡ p = cc e in
    rw (← same) (watched-AllWatched (conn.children_w path) (empty_cache path) (λ k l. cc l))

-- As long as sessions do not end and GetW answers, in every state that a cache of services comes to, each
-- path that is cached has a watch that waits in zookeeper, or an event of that watch that is still to
-- be handled: no deletion of a cached service is missed.
pub Reach-AllWatched : {path : Text} {p : PathCache} → Reach reliable true path p → AllWatched p
unfolding new_path_cache first_watch watch_and_add_children
Reach-AllWatched {path} (start conn p serves e) =
    opened-AllWatched conn path (conn.children_w path) p e
Reach-AllWatched (later r step) = Step-AllWatched step (Reach-AllWatched r)
