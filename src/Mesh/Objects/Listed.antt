-- ===== src/Mesh/Objects/Listed.antt =====
-- The step from the listed objects to the return of a reconcile function, for a builder that sets the
-- label by which the controller lists.
use meshach.Prelude.{
  ◌≡◌, ◌≢◌, refl, sym, ◌∙◌, Option, none, some, List, [], if◌then◌else◌, Bool, Text, text_eq,
}
use meshach.Api.{ObjectMeta}
use meshach.Client.{already_exists, Result, ok, err, Store, Retry, SetOwner}
use meshach.Client.Actions.{done}
use meshach.Client.Sync.{found_map, sync, publish}
use meshach.Client.Sync.Lawful.{Belongs, Lawful}
use meshach.Client.Sync.Keys.{Keyed-found_map, Keyed-lookup}
use meshach.Client.Sync.Converges.{synced, sync_converges}
use meshach.Mesh.Objects.{copy_meta}
use meshach.Mesh.Objects.Copies.{SetOwnerLaw, Belongs-copy_meta}

-- From `s` to `s'` the listed objects become the one object: `o` if there was none of its name, else the
-- old one, with the new content copied into it if it differs.
abbrev pub Published :
    {S O : Type 0}
    → (O → ObjectMeta)
    → (O → O → Bool)
    → (O → O → O)
    → (S → Text → Option O)
    → O
    → (s s' : S) → Type 0
Published meta differs copy_into contents o s s' =
    (n : Text)
    → contents s' n ≡ (
        if text_eq (meta o).name n
        then some (synced differs copy_into o (contents s (meta o).name))
        else none)

module _ {S O : Type 0} (store : Store S O) (meta : O → ObjectMeta) (retry : Retry S)
    {label_key label namespace : Text} {contents : S → Text → Option O}
    (lawful : Lawful store meta retry label_key label namespace contents) (differs : O → O → Bool)
    (copy_into : O → O → O) (with_meta : O → ObjectMeta → O)
    (with_own : (o : O) → with_meta o (meta o) ≡ o)
    (copies : (o old : O) → meta (copy_into o old) ≡ copy_meta (meta o) (meta old)) where
  pub sync_listed :
      (o : O) (items : List O) (s s' : S)
      → store.list namespace label s ≡ ok items
      → Belongs label_key label namespace (meta o)
      → sync store meta retry differs copy_into o (found_map meta [] items) s ≡ (done tt, s')
      → (contents s (meta o).name ≡ none → (store.create o s).0 ≢ err already_exists)
      → Published meta differs copy_into contents o s s'
  sync_listed o items s s' l mine h fresh n =
      let keyed = Keyed-found_map meta items [] tt in
      let seen = lawful.list_ok s items l in
      rw (← seen (meta o).name) (
        sync_converges store meta retry lawful differs copy_into o (found_map meta [] items) s s'
          keyed mine seen h
          (λ old found.
            let same = Keyed-lookup meta (meta o).name _ old keyed found in
            let old_listed = lawful.listed s (meta o).name old (sym (seen (meta o).name) ∙ found) in
            (rw copies (Belongs-copy_meta mine old_listed), rw copies same))
          (λ absent. fresh (sym (seen (meta o).name) ∙ absent)) n)

  module _ {set_owner : SetOwner} (law : SetOwnerLaw set_owner) (owner : ObjectMeta)
      (items : List O) (s s' : S) where
    pub publish_owned :
        (o : O) (r : Result ObjectMeta)
        → set_owner owner (meta o) ≡ r
        → publish store meta retry differs copy_into set_owner with_meta owner (some o) items s
          ≡ (done tt, s')
        → sync store meta retry differs copy_into o (found_map meta [] items) s ≡ (done tt, s')
    unfolding publish
    publish_owned o (ok owned) e h = rw (law.same owner (meta o) owned e, with_own o) at (rw e at h)
    publish_owned o (err x) e h = cc (rw e at h)

    pub publish_converges :
        (built : Option O)
        → store.list namespace label s ≡ ok items
        → ((o : O) → built ≡ some o → Belongs label_key label namespace (meta o))
        → publish store meta retry differs copy_into set_owner with_meta owner built items s
          ≡ (done tt, s')
        → ((o : O)
            → built ≡ some o
            → contents s (meta o).name ≡ none
            → (store.create o s).0 ≢ err already_exists)
        → (o : O) × (built ≡ some o) × Published meta differs copy_into contents o s s'
    unfolding publish
    publish_converges none l mine h fresh = cc
    publish_converges (some o) l mine h fresh = (
      o,
      refl,
      sync_listed o items s s' l (mine o refl) (publish_owned o _ refl h) (fresh o refl),
    )
