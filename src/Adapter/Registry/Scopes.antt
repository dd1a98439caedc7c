-- ===== src/Adapter/Registry/Scopes.antt =====
-- Which services the registry client remembers for an application.
use meshach.Prelude.{
  ◌≡◌, refl, ◌∙◌, inl, inr, false, Bool-cases, Option, none, some, List, [], ◌∷◌, arith, Text, Dict,
  text_eq, text_eq_iff, text_eq_refl, lookup, insert, lookup-insert, lookup-insert_self, bytes, In,
  any-In,
}
use meshach.Adapter.Types.{Instance, Service}
use meshach.Adapter.Registry.{ParseUrl, RegistryClient, collect, make_accessor_instance}
use meshach.Adapter.Registry.Instances.{lookup-collect}
use meshach.Adapter.Registry.Events.{
  add_scoped, add_scopes, add_accessor, found_or_new, replace_accessor_instances,
  get_cached_scoped_mapping, or_no_text, or_empty_map,
}

-- The service is remembered for the scope.
abbrev pub Scoped : Dict (Dict Unit) → Text → Text → Type 0
Scoped mapping scope name = lookup name (or_empty_map (lookup scope mapping)) ≡ some tt

Scoped-self :
    (name scope : Text) (mapping : Dict (Dict Unit))
    → text_eq scope [] ≡ false
    → Scoped (add_scoped name scope mapping) scope name
unfolding add_scoped
Scoped-self name scope mapping e =
    rw (e, lookup-insert_self scope (insert name tt (or_empty_map (lookup scope mapping))) mapping)
      (lookup-insert_self name tt (or_empty_map (lookup scope mapping)))

Scoped-kept :
    (name scope : Text) (mapping : Dict (Dict Unit)) (k n : Text)
    → Scoped mapping k n
    → Scoped (add_scoped name scope mapping) k n
unfolding add_scoped
Scoped-kept name scope mapping k n h = elim (Bool-cases (text_eq scope [])) [
  | inl e ↦ rw e h
  | inr e ↦ elim (Bool-cases (text_eq scope k)) [
    | inl same ↦
        rw
          (
            e,
            lookup-insert scope k (insert name tt (or_empty_map (lookup scope mapping))) mapping,
            same,
            lookup-insert name n tt (or_empty_map (lookup scope mapping)),
            (text_eq_iff scope k).0 same,
            h,
          )
          (ground arith)
    | inr apart ↦
        rw
          (
            e,
            lookup-insert scope k (insert name tt (or_empty_map (lookup scope mapping))) mapping,
            apart,
          )
          h
  ]
]

scopes_kept :
    (name : Text) (instances : Dict Instance) (mapping : Dict (Dict Unit)) (k n : Text)
    → Scoped mapping k n
    → Scoped (add_scopes name instances mapping) k n
unfolding add_scopes
scopes_kept name [] mapping k n h = h
scopes_kept name ((url, i) ∷ instances) mapping k n h =
    scopes_kept name instances
      (add_scoped name (or_no_text (lookup (bytes "app") i.labels)) mapping) k n
      (Scoped-kept name (or_no_text (lookup (bytes "app") i.labels)) mapping k n h)

scopes_added :
    (name : Text) (instances : Dict Instance) (mapping : Dict (Dict Unit)) (url : Text)
    (i : Instance) (app : Text)
    → lookup url instances ≡ some i
    → lookup (bytes "app") i.labels ≡ some app
    → text_eq app [] ≡ false
    → Scoped (add_scopes name instances mapping) app name
unfolding add_scopes lookup
scopes_added name [] mapping url i app l a e = cc l
scopes_added name ((u, x) ∷ instances) mapping url i app l a e = elim (Bool-cases (text_eq u url)) [
  | inl same ↦
      let own : x ≡ i = cc (rw same at l) in
      scopes_kept name instances
        (add_scoped name (or_no_text (lookup (bytes "app") x.labels)) mapping) app name
        (rw (own, a) (Scoped-self name app mapping e))
  | inr apart ↦
      scopes_added name instances
        (add_scoped name (or_no_text (lookup (bytes "app") x.labels)) mapping) url i app
        (rw apart at l) a e
]

found_name :
    (hostname : Text) (o : Option Service)
    → ((s : Service) → o ≡ some s → s.name ≡ hostname)
    → (found_or_new hostname o).name ≡ hostname
unfolding found_or_new
found_name hostname none h = refl
found_name hostname (some s) h = h s refl

collected :
    (make : Text → Option Instance) (urls : List Text) (url : Text) (i : Instance)
    → In url urls
    → make url ≡ some i
    → lookup url (collect make urls []) ≡ some i
collected make urls url i m e =
    lookup-collect make urls [] url
    ∙ rw (any-In (λ x. text_eq x url) urls url m (text_eq_refl url), e) refl

module _ (parse : ParseUrl) where
  -- After the consumers of a service are replaced, it is remembered for the application of every consumer
  -- whose URL parses with a label `app` that is not empty, and whatever was remembered before still is: a
  -- service is never forgotten, also when the application does not consume it any more. Accessors are
  -- filed under their names.
  pub replace_accessor_instances_lem :
      (hostname : Text) (urls : List Text) (c : RegistryClient)
      → ((h : Text) (s : Service) → lookup h c.accessors ≡ some s → s.name ≡ h)
      → ((url app : Text) (i : Instance)
          → In url urls
          → make_accessor_instance parse url ≡ some i
          → lookup (bytes "app") i.labels ≡ some app
          → text_eq app [] ≡ false
          → lookup hostname
              (get_cached_scoped_mapping (replace_accessor_instances parse hostname urls c) app)
            ≡ some tt)
        × ((app name : Text)
            → lookup name (get_cached_scoped_mapping c app) ≡ some tt
            → lookup name
                (get_cached_scoped_mapping (replace_accessor_instances parse hostname urls c) app)
              ≡ some tt)
  unfolding replace_accessor_instances add_accessor get_cached_scoped_mapping
  replace_accessor_instances_lem hostname urls c named =
      let make = make_accessor_instance parse in
      let instances = collect make urls [] in
      let name = found_name hostname (lookup hostname c.accessors) (named hostname) in
      (
        λ url app i m e a full. rw name (
            scopes_added hostname instances c.scoped_accessors_mapping url i app
              (collected make urls url i m e) a full),
        λ app n h. rw name (scopes_kept hostname instances c.scoped_accessors_mapping app n h),
      )
