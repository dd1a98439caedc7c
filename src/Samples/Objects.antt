-- ===== src/Samples/Objects.antt =====
-- A cluster in memory that keeps the objects of one kind in a list, later ones in front, and accepts
-- every write.
use meshach.Prelude.{
  ◌≡◌, refl, inl, inr, true, Bool-cases, List, [], ◌∷◌, arith, if◌then◌else◌, Text, text_eq_iff,
}
use meshach.Api.{ObjectMeta}
use meshach.Client.{not_found, Result, ok, err, Store}
use meshach.Adapter.Handler.Puts.{Tracks, Answers, has_key, same_key}
use meshach.Samples.Server.{keep_retry}

module _ {O : Type 0} (meta : O → ObjectMeta) where
  abbrev found : Text → Text → List O → Result O
  found namespace name [] = err not_found
  found namespace name (o ∷ s) =
      if has_key (meta o) namespace name then ok o else found namespace name s

  abbrev without : ObjectMeta → List O → List O
  without m [] = []
  without m (o ∷ s) =
      let rest = without m s in if has_key (meta o) m.namespace m.name then rest else o ∷ rest

  abbrev pub object_store : Store (List O) O
  object_store = record {
    get = found;
    list = λ namespace label s. ok s;
    create = λ o s. (ok tt, o ∷ s);
    update = λ o s. (ok tt, o ∷ s);
    delete = λ o s. (ok tt, without (meta o) s);
  }

  found-without :
      (m : ObjectMeta) (s : List O) (namespace name : Text)
      → found namespace name (without m s)
        ≡ (if has_key m namespace name then err not_found else found namespace name s)
  found-without m [] namespace name = ground arith
  found-without m (o ∷ s) namespace name = elim (Bool-cases (has_key (meta o) m.namespace m.name)) [
    | inl same ↦
        let (e, f) = same_key (meta o) m.namespace m.name same in
        rw (same, e, f, found-without m s namespace name) (ground arith)
    | inr apart ↦
        rw (apart, found-without m s namespace name)
          (ground (
            arith,
            text_eq_iff (meta o).namespace namespace,
            text_eq_iff (meta o).name name,
            text_eq_iff m.namespace namespace,
            text_eq_iff m.name name,
            text_eq_iff (meta o).namespace m.namespace,
            text_eq_iff (meta o).name m.name,
          ))
  ]

  found-keyed :
      (namespace name : Text) (s : List O) (o : O)
      → found namespace name s ≡ ok o
      → has_key (meta o) namespace name ≡ true
  found-keyed namespace name [] o h = cc h
  found-keyed namespace name (x ∷ s) o h = elim (Bool-cases (has_key (meta x) namespace name)) [
    | inl same ↦ let own : x ≡ o = cc (rw same at h) in rw (← own) same
    | inr apart ↦ found-keyed namespace name s o (rw apart at h)
  ]

  pub object_store-Tracks : Tracks object_store meta keep_retry
  object_store-Tracks = record {
    creates = λ o s. refl;
    updates = λ o s. refl;
    get_created = λ o s namespace name. refl;
    get_updated = λ o s namespace name. refl;
    deletes = λ o s. refl;
    get_deleted = λ o s namespace name. found-without (meta o) s namespace name;
    keyed = found-keyed;
    no_retry = λ f s s' h. h;
  }

  pub object_store-Answers :
      (namespace name : Text) (s : List O) → Answers (object_store.get namespace name s)
  object_store-Answers namespace name [] = tt
  object_store-Answers namespace name (o ∷ s) =
      elim (Bool-cases (has_key (meta o) namespace name)) [
        | inl same ↦ rw same tt
        | inr apart ↦ rw apart (object_store-Answers namespace name s)
      ]
