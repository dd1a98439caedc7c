-- ===== src/Client/Sync/Converges.antt =====
-- What the steps that the reconcile functions share leave in the cluster.
use meshach.Prelude.{
  ◌≡◌, ◌≢◌, inl, inr, refl, sym, ap, Bool, true, false, Bool-cases, Option, none, some, is_some,
  Option-cases, [], ◌∷◌, arith, if◌then◌else◌, Text, text_eq, text_eq_iff, Dict, lookup, delete,
  lookup-delete,
}
use meshach.Api.{ObjectMeta}
use meshach.Client.{not_found, already_exists, conflict, other, Result, ok, err, Store, Retry}
use meshach.Client.Actions.{Outcome, done}
use meshach.Client.Sync.{prune, sync}
use meshach.Client.Sync.Lawful.{Belongs, Lawful}
use meshach.Client.Sync.Keys.{Keyed, Keyed-delete}

-- The object that a reconcile function leaves: the wanted one if there was none, else the old one,
-- which is changed if it differs.
abbrev pub synced : {O : Type 0} → (O → O → Bool) → (O → O → O) → O → Option O → O
synced differs copy_into o none = o
synced differs copy_into o (some old) = if differs o old then copy_into o old else old

module _ {S O : Type 0} (store : Store S O) where
  prune-nil : (s s' : S) → prune store [] s ≡ (done tt, s') → s' ≡ s
  unfolding prune
  prune-nil s s' h = sym (ap (λ (p : Outcome Unit × S). p.1) h)

  -- A prune that returns has deleted its first object and pruned the rest.
  prune-cons :
      (n : Text) (o : O) (rest : Dict O) (s s' : S) (r : Result Unit × S)
      → store.delete o s ≡ r
      → prune store ((n, o) ∷ rest) s ≡ (done tt, s')
      → (t : S) × (store.delete o s ≡ (ok tt, t)) × (prune store rest t ≡ (done tt, s'))
  unfolding prune
  prune-cons n o rest s s' (ok u, t) e h = (t, e, rw e at h)
  prune-cons n o rest s s' (err x, t) e h = cc (rw e at h)

  module _ (meta : O → ObjectMeta) (retry : Retry S) {label_key label namespace : Text}
      {contents : S → Text → Option O}
      (lawful : Lawful store meta retry label_key label namespace contents) where
    pub prune-contents :
        (m : Dict O) (s s' : S)
        → Keyed meta m
        → prune store m s ≡ (done tt, s')
        → (n : Text) → contents s' n ≡ (if is_some (lookup n m) then none else contents s n)
    unfolding lookup
    prune-contents [] s s' k h n = rw (prune-nil s s' h)
    prune-contents ((j, o) ∷ m) s s' k h n =
        let (t, e, h') = prune-cons j o m s s' _ refl h in
        ground (arith, lawful.delete_ok o s t e n, prune-contents m t s' k.1 h' n, k.0)

    module _ (differs : O → O → Bool) (copy_into : O → O → O) where
      sync-new :
          (o : O) (found : Dict O) (s s' : S) (r : Result Unit × S)
          → lookup (meta o).name found ≡ none
          → store.create o s ≡ r
          → r.0 ≢ err already_exists
          → sync store meta retry differs copy_into o found s ≡ (done tt, s')
          → (t : S) × (store.create o s ≡ (ok tt, t)) × (prune store found t ≡ (done tt, s'))
      unfolding sync
      sync-new o found s s' (ok u, t) l e x h = (t, e, rw (l, e) at h)
      sync-new o found s s' (err already_exists, t) l e x h = absurd (x refl)
      sync-new o found s s' (err not_found, t) l e x h = cc (rw (l, e) at h)
      sync-new o found s s' (err conflict, t) l e x h = cc (rw (l, e) at h)
      sync-new o found s s' (err other, t) l e x h = cc (rw (l, e) at h)

      sync-same :
          (o old : O) (found : Dict O) (s s' : S)
          → lookup (meta o).name found ≡ some old
          → differs o old ≡ false
          → sync store meta retry differs copy_into o found s ≡ (done tt, s')
          → prune store (delete (meta o).name found) s ≡ (done tt, s')
      unfolding sync
      sync-same o old found s s' l d h = rw (l, d) at h

      sync-changed :
          (o old : O) (found : Dict O) (s s' : S) (r : Result Unit × S)
          → lookup (meta o).name found ≡ some old
          → differs o old ≡ true
          → retry (store.update (copy_into o old)) s ≡ r
          → sync store meta retry differs copy_into o found s ≡ (done tt, s')
          → (t : S) × (retry (store.update (copy_into o old)) s ≡ (ok tt, t))
            × (prune store (delete (meta o).name found) t ≡ (done tt, s'))
      unfolding sync
      sync-changed o old found s s' (ok u, t) l d e h = (t, e, rw (l, d, e) at h)
      sync-changed o old found s s' (err x, t) l d e h = cc (rw (l, d, e) at h)

      module _ (o : O) (found : Dict O) (s s' : S) (keyed : Keyed meta found)
          (mine : Belongs label_key label namespace (meta o))
          (seen : (n : Text) → lookup n found ≡ contents s n)
          (ends : sync store meta retry differs copy_into o found s ≡ (done tt, s')) where
        -- After the write, all but the written object is deleted.
        pruned :
            (t : S) (x : O)
            → ((n : Text)
                → contents t n ≡ (if text_eq (meta o).name n then some x else contents s n))
            → prune store (delete (meta o).name found) t ≡ (done tt, s')
            → (n : Text) → contents s' n ≡ (if text_eq (meta o).name n then some x else none)
        pruned t x written h n = ground (
          arith,
          prune-contents (delete (meta o).name found) t s'
              (Keyed-delete meta (meta o).name found keyed) h n,
          lookup-delete (meta o).name n found,
          written n,
          seen n,
        )

        converges_new :
            lookup (meta o).name found ≡ none
            → (store.create o s).0 ≢ err already_exists
            → (n : Text) → contents s' n ≡ (if text_eq (meta o).name n then some o else none)
        converges_new l fresh n =
            let (t, e, h) = sync-new o found s s' _ l refl fresh ends in
            ground (
              arith,
              prune-contents found t s' keyed h n,
              lawful.create_ok o s t e mine n,
              seen n,
              text_eq_iff (meta o).name n,
              absent n,
            )
          where
            absent : (n : Text) → text_eq (meta o).name n ≡ true → lookup n found ≡ none
            absent n same = rw ((text_eq_iff (meta o).name n).0 same) at l

        converges_changed :
            (old : O)
            → lookup (meta o).name found ≡ some old
            → differs o old ≡ true
            → Belongs label_key label namespace (meta (copy_into o old))
            → (meta (copy_into o old)).name ≡ (meta o).name
            → (n : Text)
            → contents s' n ≡ (if text_eq (meta o).name n then some (copy_into o old) else none)
        converges_changed old l d copied same n =
            let (t, e, h) = sync-changed o old found s s' _ l d refl ends in
            let written =
              lawful.update_ok (copy_into o old) s t
                (lawful.retry_ok (store.update (copy_into o old)) s t
                  (λ a b x. lawful.update_err (copy_into o old) a b x) e)
                copied in
            pruned t (copy_into o old) (λ m. rw same at written m) h n

        converges_same :
            (old : O)
            → lookup (meta o).name found ≡ some old
            → differs o old ≡ false
            → (n : Text) → contents s' n ≡ (if text_eq (meta o).name n then some old else none)
        converges_same old l d n =
            pruned s old (λ m. ground (arith, text_eq_iff (meta o).name m, here m, seen m))
              (sync-same o old found s s' l d ends) n
          where
            here : (m : Text) → text_eq (meta o).name m ≡ true → lookup m found ≡ some old
            here m same = rw ((text_eq_iff (meta o).name m).0 same) at l

        -- When `sync` returns, the cluster lists the wanted object under its name and no other one.
        pub sync_converges :
            ((old : O)
              → lookup (meta o).name found ≡ some old
              → Belongs label_key label namespace (meta (copy_into o old))
                × ((meta (copy_into o old)).name ≡ (meta o).name))
            → (lookup (meta o).name found ≡ none → (store.create o s).0 ≢ err already_exists)
            → (n : Text)
            → contents s' n ≡ (
                if text_eq (meta o).name n
                then some (synced differs copy_into o (lookup (meta o).name found))
                else none)
        sync_converges copies fresh n = elim (Option-cases (lookup (meta o).name found)) [
          | inl l ↦ rw l (converges_new l (fresh l) n)
          | inr (old, l) ↦ elim (Bool-cases (differs o old)) [
            | inl d ↦
                let (copied, same) = copies old l in
                rw (l, d) (converges_changed old l d copied same n)
            | inr d ↦ rw (l, d) (converges_same old l d n)
          ]
        ]
