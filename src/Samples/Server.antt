-- ===== src/Samples/Server.antt =====
-- An API server in memory for the examples: the objects of one kind are a list in the state, later entries
-- replace earlier ones of their name, and every write is accepted.
use meshach.Prelude.{
  ◌≡◌, refl, sym, ap, Bool, true, false, ◌&&◌, not, Bool-cases, inl, inr, Option, none, some, List,
  [], ◌∷◌, ◌++◌, arith, if◌then◌else◌, Text, text_eq, text_eq_iff, text_eq_refl, Dict, lookup,
  insert, lookup-insert, lookup-insert_self, filter,
}
use meshach.Api.{ObjectMeta}
use meshach.Client.{not_found, Result, ok, err, Call, Store, Retry}
use meshach.Client.Sync.{found_map}
use meshach.Client.Sync.Lawful.{Belongs, Lawful}
use meshach.Client.Sync.Returns.{Accepts}

abbrev pub labelled : Text → Option Text → Bool
labelled label none = false
labelled label (some l) = text_eq l label

abbrev pub belongs : Text → Text → Text → ObjectMeta → Bool
belongs key label namespace m =
    text_eq m.namespace namespace && labelled label (lookup key m.labels)

labelled-eq : (label : Text) (o : Option Text) → labelled label o ≡ true → o ≡ some label
labelled-eq label none h = cc h
labelled-eq label (some l) h = ap some ((text_eq_iff l label).0 h)

belongs-Belongs :
    (key label namespace : Text) (m : ObjectMeta)
    → belongs key label namespace m ≡ true
    → Belongs key label namespace m
belongs-Belongs key label namespace m h = record {
  in_namespace = (text_eq_iff m.namespace namespace).0 (ground arith);
  labelled = labelled-eq label (lookup key m.labels) (ground arith);
}

pub Belongs-belongs :
    (key label namespace : Text) (m : ObjectMeta)
    → Belongs key label namespace m
    → belongs key label namespace m ≡ true
Belongs-belongs key label namespace m b =
    rw (b.in_namespace, b.labelled, text_eq_refl namespace, text_eq_refl label)

abbrev pub keep_retry : {S : Type 0} → Retry S
keep_retry f = f

module _ {O : Type 0} (meta : O → ObjectMeta) where
  found_map-snoc :
      (m : Dict O) (xs : List O) (o : O)
      → found_map meta m (xs ++ o ∷ []) ≡ insert (meta o).name o (found_map meta m xs)
  unfolding found_map
  found_map-snoc m [] o = refl
  found_map-snoc m (x ∷ xs) o = found_map-snoc (insert (meta x).name x m) xs o

  filter-snoc :
      (test : O → Bool) (xs : List O) (o : O)
      → test o ≡ true
      → filter test (xs ++ o ∷ []) ≡ filter test xs ++ o ∷ []
  unfolding filter
  filter-snoc test [] o h = rw h
  filter-snoc test (x ∷ xs) o h = elim (Bool-cases (test x)) [
    | inl t ↦ rw (t, filter-snoc test xs o h)
    | inr t ↦ rw (t, filter-snoc test xs o h)
  ]

  -- What a lookup finds in the map of a filtered list passes the filter.
  found_map-passes :
      (test : O → Bool) (m : Dict O) (xs : List O)
      → ((n : Text) (o : O) → lookup n m ≡ some o → test o ≡ true)
      → (n : Text) (o : O) → lookup n (found_map meta m (filter test xs)) ≡ some o
      → test o ≡ true
  unfolding found_map filter
  found_map-passes test m [] p n o h = p n o h
  found_map-passes test m (x ∷ xs) p n o h = elim (Bool-cases (test x)) [
    | inl t ↦
        found_map-passes test (insert (meta x).name x m) xs
          (λ k y e. ground (arith, lookup-insert (meta x).name k x m, p k y, t)) n o (rw t at h)
    | inr t ↦ found_map-passes test m xs p n o (rw t at h)
  ]

  -- Dropping the objects of one name empties that name and leaves the others.
  found_map-drop :
      (test : O → Bool) (name : Text) (m m' : Dict O) (xs : List O)
      → ((n : Text) → lookup n m' ≡ (if text_eq name n then none else lookup n m))
      → (n : Text)
      → lookup n
          (found_map meta m' (filter test (filter (λ o. not (text_eq name (meta o).name)) xs)))
        ≡ (if text_eq name n then none else lookup n (found_map meta m (filter test xs)))
  unfolding found_map filter
  found_map-drop test name m m' [] p n = p n
  found_map-drop test name m m' (x ∷ xs) p n = elim (Bool-cases (text_eq name (meta x).name)) [
    | inl gone ↦ elim (Bool-cases (test x)) [
      | inl t ↦
          rw (gone, t)
            (found_map-drop test name (insert (meta x).name x m) m' xs
              (λ k. ground (
                arith,
                p k,
                lookup-insert (meta x).name k x m,
                text_eq_iff name (meta x).name,
                text_eq_iff name k,
                text_eq_iff (meta x).name k,
              ))
              n)
      | inr t ↦ rw (gone, t) (found_map-drop test name m m' xs p n)
    ]
    | inr kept ↦ elim (Bool-cases (test x)) [
      | inl t ↦
          rw (kept, t)
            (found_map-drop test name (insert (meta x).name x m) (insert (meta x).name x m') xs
              (λ k. ground (
                arith,
                p k,
                lookup-insert (meta x).name k x m,
                lookup-insert (meta x).name k x m',
                text_eq_iff name (meta x).name,
                text_eq_iff name k,
                text_eq_iff (meta x).name k,
              ))
              n)
      | inr t ↦ rw (kept, t) (found_map-drop test name m m' xs p n)
    ]
  ]

  module _ {S : Type 0} (view : S → List O) (put : List O → S → S)
      (view-put : (xs : List O) (s : S) → view (put xs s) ≡ xs) (key : Text) where
    abbrev find : Text → Text → List O → Option O
    find namespace name xs =
        lookup name (found_map meta [] (filter (λ o. text_eq (meta o).namespace namespace) xs))

    abbrev found_or : Option O → Result O
    found_or none = err not_found
    found_or (some o) = ok o

    abbrev write : O → Call S Unit
    write o s = (ok tt, put (view s ++ o ∷ []) s)

    abbrev pub server : Store S O
    server = record {
      get = λ namespace name s. found_or (find namespace name (view s));
      list = λ namespace label s. ok (filter (λ o. belongs key label namespace (meta o)) (view s));
      create = write;
      update = write;
      delete =
          λ o s. (ok tt, put (filter (λ x. not (text_eq (meta o).name (meta x).name)) (view s)) s);
    }

    -- An object that has been created is the one that is found.
    pub get-create :
        (o : O) (s s' : S)
        → server.create o s ≡ (ok tt, s')
        → server.get (meta o).namespace (meta o).name s' ≡ ok o
    get-create o s s' h =
        let test : O → Bool = λ x. text_eq (meta x).namespace (meta o).namespace in
        let e : s' ≡ put (view s ++ o ∷ []) s = sym (ap (λ (p : Result Unit × S). p.1) h) in
        rw (
          e,
          view-put (view s ++ o ∷ []) s,
          filter-snoc test (view s) o (text_eq_refl (meta o).namespace),
          found_map-snoc [] (filter test (view s)) o,
          lookup-insert_self (meta o).name o (found_map meta [] (filter test (view s))),
        )

    pub server-Accepts : Accepts server keep_retry
    server-Accepts = record { creates = λ o s. refl; updates = λ o s. refl; deletes = λ o s. refl }

    module _ (label namespace : Text) where
      abbrev pub contents : S → Text → Option O
      contents s n =
          lookup n (found_map meta [] (filter (λ o. belongs key label namespace (meta o)) (view s)))

      written :
          (o : O) (s s' : S)
          → write o s ≡ (ok tt, s')
          → Belongs key label namespace (meta o)
          → (n : Text) → contents s' n ≡ (if text_eq (meta o).name n then some o else contents s n)
      written o s s' h b n =
          let test : O → Bool = λ x. belongs key label namespace (meta x) in
          let e : s' ≡ put (view s ++ o ∷ []) s = sym (ap (λ (p : Result Unit × S). p.1) h) in
          rw (
            e,
            view-put (view s ++ o ∷ []) s,
            filter-snoc test (view s) o (Belongs-belongs key label namespace (meta o) b),
            found_map-snoc [] (filter test (view s)) o,
            lookup-insert (meta o).name n o (found_map meta [] (filter test (view s))),
          )

      listed_items :
          (items : List O) (s : S)
          → server.list namespace label s ≡ ok items
          → items ≡ filter (λ o. belongs key label namespace (meta o)) (view s)
      listed_items items s h = cc h

      deleted :
          (o : O) (s s' : S)
          → server.delete o s ≡ (ok tt, s')
          → (n : Text) → contents s' n ≡ (if text_eq (meta o).name n then none else contents s n)
      unfolding lookup
      deleted o s s' h n =
          let kept = filter (λ x. not (text_eq (meta o).name (meta x).name)) (view s) in
          let e : s' ≡ put kept s = sym (ap (λ (p : Result Unit × S). p.1) h) in
          rw (e, view-put kept s)
            (found_map-drop (λ x. belongs key label namespace (meta x)) (meta o).name [] [] (view s)
              (λ k. ground arith) n)

      pub server-Lawful : Lawful server meta keep_retry key label namespace contents
      unfolding lookup
      server-Lawful = record {
        list_ok = λ s items h n. rw (listed_items items s h);
        listed = λ s n o h. belongs-Belongs key label namespace (meta o) (
            found_map-passes (λ x. belongs key label namespace (meta x)) [] (view s) (λ k y e. cc e)
              n o h);
        create_ok = written;
        update_ok = written;
        delete_ok = λ o s s' h n. deleted o s s' h n;
        update_err = λ o s s' e h. cc (ap (λ (p : Result Unit × S). p.0) h);
        retry_ok = λ f s s' errs h. h;
      }
