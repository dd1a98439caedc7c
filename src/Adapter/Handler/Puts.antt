-- ===== src/Adapter/Handler/Puts.antt =====
-- What a retried create-or-update of a handler leaves in the cluster.
use meshach.Prelude.{
  ◌≡◌, inl, inr, refl, ◌∙◌, second, Bool, true, ◌&&◌, Bool-cases, if◌then◌else◌, Text, text_eq,
  text_eq_iff, arith,
}
use meshach.Api.{ObjectMeta}
use meshach.Client.{not_found, already_exists, conflict, other, Result, ok, err, Call, Store, Retry}
use meshach.Adapter.Handler.{put_once, put}

abbrev pub has_key : ObjectMeta → Text → Text → Bool
has_key m namespace name = text_eq m.namespace namespace && text_eq m.name name

-- A write that is accepted is what Get returns, and other objects stay; what Get returns has the key that
-- was asked for; and a call that succeeds is not retried.
pub record Tracks {S O : Type 0} (store : Store S O) (meta : O → ObjectMeta) (retry : Retry S)
    : Type 0 where
  pub creates : (o : O) (s : S) → (store.create o s).0 ≡ ok tt
  pub updates : (o : O) (s : S) → (store.update o s).0 ≡ ok tt
  pub get_created :
      (o : O) (s : S) (namespace name : Text)
      → store.get namespace name (store.create o s).1
        ≡ (if has_key (meta o) namespace name then ok o else store.get namespace name s)
  pub get_updated :
      (o : O) (s : S) (namespace name : Text)
      → store.get namespace name (store.update o s).1
        ≡ (if has_key (meta o) namespace name then ok o else store.get namespace name s)
  pub deletes : (o : O) (s : S) → (store.delete o s).0 ≡ ok tt
  pub get_deleted :
      (o : O) (s : S) (namespace name : Text)
      → store.get namespace name (store.delete o s).1
        ≡ (if has_key (meta o) namespace name then err not_found else store.get namespace name s)
  pub keyed :
      (namespace name : Text) (s : S) (o : O)
      → store.get namespace name s ≡ ok o
      → (has_key (meta o) namespace name ≡ true)
  pub no_retry : (f : Call S Unit) (s s' : S) → f s ≡ (ok tt, s') → retry f s ≡ (ok tt, s')

-- Get finds the object or reports that there is none.
abbrev pub Answers : {O : Type 0} → Result O → Type 0
Answers (ok o) = Unit
Answers (err not_found) = Unit
Answers (err e) = ⊥

pub same_key :
    (m : ObjectMeta) (namespace name : Text)
    → has_key m namespace name ≡ true
    → (m.namespace ≡ namespace) × (m.name ≡ name)
same_key m namespace name h = (
  (text_eq_iff m.namespace namespace).0 (ground arith),
  (text_eq_iff m.name name).0 (ground arith),
)

module _ {S O : Type 0} (store : Store S O) (meta : O → ObjectMeta) (retry : Retry S)
    (unchanged : O → O → Bool) (with_spec : O → O → O) where
  -- What is stored in the end, by what Get answered.
  abbrev pub kept_object : O → Result O → O
  kept_object o (err e) = o
  kept_object o (ok found) = if unchanged found o then found else with_spec o found

  -- The call succeeds, and stores `x` under the key and leaves all else.
  abbrev pub Stored : Text → Text → O → S → Result Unit × S → Type 0
  Stored namespace name x s p =
      (p.0 ≡ ok tt)
      × ((ns n : Text)
          → store.get ns n p.1
            ≡ (if text_eq namespace ns && text_eq name n then ok x else store.get ns n s))

  module _ (tracks : Tracks store meta retry)
      (spec_meta : (o found : O) → meta (with_spec o found) ≡ meta found) where
    created :
        (namespace name : Text) (o : O) (s : S)
        → has_key (meta o) namespace name ≡ true
        → Stored namespace name o s (store.create o s)
    created namespace name o s h =
        let (e, f) = same_key (meta o) namespace name h in
        (tracks.creates o s, λ ns n. tracks.get_created o s ns n ∙ rw (e, f))

    updated :
        (namespace name : Text) (o : O) (s : S)
        → has_key (meta o) namespace name ≡ true
        → Stored namespace name o s (store.update o s)
    updated namespace name o s h =
        let (e, f) = same_key (meta o) namespace name h in
        (tracks.updates o s, λ ns n. tracks.get_updated o s ns n ∙ rw (e, f))

    kept :
        (namespace name : Text) (o : O) (s : S)
        → store.get namespace name s ≡ ok o
        → Stored namespace name o s (ok tt, s)
    kept namespace name o s g = (
      refl,
      λ ns n. elim (Bool-cases (text_eq namespace ns && text_eq name n)) [
        | inl same ↦
            rw
              (
                same,
                ← (text_eq_iff namespace ns).0 (ground arith),
                ← (text_eq_iff name n).0 (ground arith),
              )
              g
        | inr other_key ↦ rw other_key
      ],
    )

    put_once_lem :
        (namespace name : Text) (o : O) (s : S) (r : Result O)
        → store.get namespace name s ≡ r
        → Answers r
        → has_key (meta o) namespace name ≡ true
        → Stored namespace name
            (kept_object o r)
            s
            (put_once store retry unchanged with_spec namespace name o s)
    unfolding put_once
    put_once_lem namespace name o s (err not_found) g a h = rw g (created namespace name o s h)
    put_once_lem namespace name o s (err already_exists) g a h = absurd a
    put_once_lem namespace name o s (err conflict) g a h = absurd a
    put_once_lem namespace name o s (err other) g a h = absurd a
    put_once_lem namespace name o s (ok found) g a h = elim (Bool-cases (unchanged found o)) [
      | inl u ↦ rw (g, u) (kept namespace name found s g)
      | inr u ↦
          rw (g, u)
            (updated namespace name (with_spec o found) s
              (rw (spec_meta o found) (tracks.keyed namespace name s found g)))
    ]

    -- The retried call succeeds too.
    pub put_lem :
        (namespace name : Text) (o : O) (s : S)
        → Answers (store.get namespace name s)
        → has_key (meta o) namespace name ≡ true
        → Stored namespace name
            (kept_object o (store.get namespace name s))
            s
            (put store retry unchanged with_spec namespace name o s)
    unfolding put
    put_lem namespace name o s a h =
        let once = put_once_lem namespace name o s _ refl a h in
        rw
          (tracks.no_retry (put_once store retry unchanged with_spec namespace name o) s _
            (second _ once.0))
          (refl, once.1)
