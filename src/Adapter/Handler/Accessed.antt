-- ===== src/Adapter/Handler/Accessed.antt =====
-- What ReplaceAccessorInstances leaves in a cluster that answers and accepts writes.
use meshach.Prelude.{
  ◌≡◌, ◌↔◌, ◌⊎◌, ◌∙◌, inl, inr, refl, ap, Bool, true, Bool-cases, Option, none, some, List, [], ◌∷◌,
  arith, bytes, Text, text_eq, text_eq_iff, text_eq_refl, Dict, lookup, lookup-insert,
  lookup-insert_self, sym, In,
}
use meshach.Api.{ServiceAccessor, ServiceAccessorSpec}
use meshach.Utils.{format_to_dns1123}
use meshach.Client.{Result, ok, err}
use meshach.Client.Actions.{done}
use meshach.Adapter.Types.{Instance, ServiceEvent}
use meshach.Adapter.Handler.{
  KubeHandler, default_namespace, before, insert_sorted, sort_strings, keys, add_scope,
  changed_scopes, ScopedServices, scoped_accessor, accessor_spec, put_accessor, replace_scopes,
  replace_accessor_instances,
}
use meshach.Adapter.Handler.Puts.{Tracks, Answers, kept_object, put_lem}

case : {A B C : Type 0} → (A → C) → (B → C) → A ⊎ B → C
case f g (inl a) = f a
case f g (inr b) = g b

In-insert_sorted : (z x : Text) (ys : List Text) → In z (insert_sorted x ys) ↔ ((z ≡ x) ⊎ In z ys)
unfolding insert_sorted
In-insert_sorted z x [] = ((λ m. m), λ m. m)
In-insert_sorted z x (y ∷ ys) =
    let (there, back) = In-insert_sorted z x ys in
    elim (Bool-cases (before y x)) [
      | inl b ↦ rw b (
        case (λ e. inr (inl e)) (λ m. case (λ e. inl e) (λ r. inr (inr r)) (there m)),
        case (λ e. inr (back (inl e))) (case (λ e. inl e) (λ r. inr (back (inr r)))),
      )
      | inr b ↦ rw b ((λ m. m), λ m. m)
    ]

In-sort_strings : (z : Text) (xs : List Text) → In z (sort_strings xs) ↔ In z xs
unfolding sort_strings
In-sort_strings z [] = ((λ m. m), λ m. m)
In-sort_strings z (x ∷ xs) =
    let (there, back) = In-insert_sorted z x (sort_strings xs) in
    let (down, up) = In-sort_strings z xs in
    (
      (λ m. case (λ e. inl e) (λ r. inr (down r)) (there m)),
      case (λ e. back (inl e)) (λ r. back (inr (up r))),
    )

lookup-keys : (k : Text) (m : Dict Unit) → (lookup k m ≡ some tt) ↔ In k (keys m)
unfolding lookup keys
lookup-keys k [] = ((λ e. cc e), λ m. absurd m)
lookup-keys k ((j, u) ∷ m) =
    let (down, up) = lookup-keys k m in
    let iff = text_eq_iff j k in
    elim (Bool-cases (text_eq j k)) [
      | inl same ↦ rw same ((λ e. inl (sym (iff.0 same))), λ m. refl)
      | inr apart ↦ rw apart ((λ e. inr (down e)), case (λ e. cc (iff.1 (sym e), apart)) up)
    ]

lookup-add_scope :
    (app : Text) (o : Option Text) (scopes : Dict Unit)
    → lookup app scopes ≡ some tt
    → lookup app (add_scope o scopes) ≡ some tt
unfolding add_scope
lookup-add_scope app none scopes h = h
lookup-add_scope app (some sk) scopes h = rw (lookup-insert sk app tt scopes, h) (ground arith)

changed_kept :
    (app : Text) (instances : Dict Instance) (scopes : Dict Unit)
    → lookup app scopes ≡ some tt
    → lookup app (changed_scopes instances scopes) ≡ some tt
unfolding changed_scopes
changed_kept app [] scopes h = h
changed_kept app ((url, ins) ∷ rest) scopes h =
    changed_kept app rest (add_scope (lookup (bytes "app") ins.labels) scopes)
      (lookup-add_scope app (lookup (bytes "app") ins.labels) scopes h)

changed_found :
    (app url : Text) (i : Instance) (instances : Dict Instance) (scopes : Dict Unit)
    → In (url, i) instances
    → lookup (bytes "app") i.labels ≡ some app
    → lookup app (changed_scopes instances scopes) ≡ some tt
unfolding changed_scopes add_scope
changed_found app url i [] scopes m h = absurd m
changed_found app url i ((u, ins) ∷ rest) scopes (inl e) h =
    let own : i ≡ ins = ap (λ p. p.1) e in
    let labelled : lookup (bytes "app") ins.labels ≡ some app = rw (← own) h in
    changed_kept app rest (add_scope (lookup (bytes "app") ins.labels) scopes)
      (rw labelled (lookup-insert_self app tt scopes))
changed_found app url i ((u, ins) ∷ rest) scopes (inr m) h =
    changed_found app url i rest (add_scope (lookup (bytes "app") ins.labels) scopes) m h

module _ {S : Type 0} (h : KubeHandler S) (g : ScopedServices)
    (tracks : Tracks h.accessors (λ o. o.meta) h.retry)
    (equal_specs : (a b : ServiceAccessorSpec) → h.deep_equal a b ≡ true → a ≡ b)
    (answers : (namespace name : Text) (s : S) → Answers (h.accessors.get namespace name s)) where
  -- A ServiceAccessor of this name holds the services of an application of that DNS name.
  abbrev Accessed : Text → S → Type 0
  Accessed name s =
      (sa : ServiceAccessor) × (scope : Text) × (h.accessors.get default_namespace name s ≡ ok sa)
      × (format_to_dns1123 scope ≡ name)
      × (sa.spec.access_hosts ≡ sort_strings (keys (g scope)))

  abbrev unchanged : ServiceAccessor → ServiceAccessor → Bool
  unchanged found o = h.deep_equal found.spec o.spec

  spec_kept :
      (o : ServiceAccessor) (r : Result ServiceAccessor)
      → (kept_object h.accessors (λ o. o.meta) h.retry unchanged accessor_spec o r).spec ≡ o.spec
  spec_kept o (err e) = refl
  spec_kept o (ok found) = elim (Bool-cases (unchanged found o)) [
    | inl same ↦ rw same (equal_specs found.spec o.spec same)
    | inr apart ↦ rw apart
  ]

  put_scope :
      (scope name : Text) (s : S)
      → (((text_eq (format_to_dns1123 scope) name) ≡ true) ⊎ Accessed name s)
      → Accessed name (put_accessor h (scoped_accessor g scope) s).1
  unfolding put_accessor scoped_accessor
  put_scope scope name s c =
      let o = scoped_accessor g scope in
      let stored =
        put_lem h.accessors (λ o. o.meta) h.retry unchanged accessor_spec tracks (λ o found. refl)
          default_namespace (format_to_dns1123 scope) o s
          (answers default_namespace (format_to_dns1123 scope) s)
          (rw (text_eq_refl default_namespace, text_eq_refl (format_to_dns1123 scope)) refl) in
      elim (Bool-cases (text_eq (format_to_dns1123 scope) name)) [
        | inl same ↦ (
          kept_object h.accessors (λ o. o.meta) h.retry unchanged accessor_spec o
              (h.accessors.get default_namespace (format_to_dns1123 scope) s),
          scope,
          stored.1 default_namespace name ∙ rw (text_eq_refl default_namespace, same) refl,
          (text_eq_iff (format_to_dns1123 scope) name).0 same,
          ap (λ spec. spec.access_hosts) (spec_kept o _),
        )
        | inr apart ↦
            case (λ same. cc (same, apart))
              (λ (sa, sc, e, f, q). (
                sa,
                sc,
                stored.1 default_namespace name ∙ rw (text_eq_refl default_namespace, apart) e,
                f,
                q,
              ))
              c
      ]

  replace_scopes_kept :
      (name : Text) (scopes : Dict Unit) (s : S)
      → Accessed name s
      → Accessed name (replace_scopes h g scopes s)
  unfolding replace_scopes
  replace_scopes_kept name [] s a = a
  replace_scopes_kept name ((scope, u) ∷ rest) s a =
      replace_scopes_kept name rest (put_accessor h (scoped_accessor g scope) s).1
        (put_scope scope name s (inr a))

  replace_scopes_found :
      (app : Text) (scopes : Dict Unit) (s : S)
      → In app (keys scopes)
      → Accessed (format_to_dns1123 app) (replace_scopes h g scopes s)
  unfolding replace_scopes keys
  replace_scopes_found app [] s m = absurd m
  replace_scopes_found app ((scope, u) ∷ rest) s (inl e) =
      replace_scopes_kept (format_to_dns1123 app) rest
        (put_accessor h (scoped_accessor g scope) s).1
        (put_scope scope (format_to_dns1123 app) s
          (inl (rw e (text_eq_refl (format_to_dns1123 scope)))))
  replace_scopes_found app ((scope, u) ∷ rest) s (inr m) =
      replace_scopes_found app rest (put_accessor h (scoped_accessor g scope) s).1 m

  -- ReplaceAccessorInstances returns, and for every instance with a label `app` there is a ServiceAccessor
  -- under the DNS name of the label, whose hosts are the services of an application of that DNS name: of
  -- this one, if no other has the name. Get always answers, the writes are accepted, and specs that
  -- DeepEqual takes for equal are the same.
  pub replace_accessors_lem :
      (e : ServiceEvent) (s : S)
      → ((replace_accessor_instances h e g s).0 ≡ done tt)
        × ((url app : Text) (i : Instance)
            → In (url, i) e.instances
            → lookup (bytes "app") i.labels ≡ some app
            → (sa : ServiceAccessor) × (scope : Text) × (h.accessors.get default_namespace
                  (format_to_dns1123 app)
                  (replace_accessor_instances h e g s).1
                ≡ ok sa)
              × (format_to_dns1123 scope ≡ format_to_dns1123 app)
              × ((host : Text) → In host sa.spec.access_hosts ↔ (lookup host (g scope) ≡ some tt)))
  unfolding replace_accessor_instances
  replace_accessors_lem e s = (
    refl,
    λ url app i m labelled.
        let found = changed_found app url i e.instances [] m labelled in
        let (sa, scope, got, named, hosts) =
          replace_scopes_found app (changed_scopes e.instances []) s
            ((lookup-keys app _).0 found) in
        (
          sa,
          scope,
          got,
          named,
          λ host.
              let (down, up) = In-sort_strings host (keys (g scope)) in
              let (to, from) = lookup-keys host (g scope) in
              rw hosts ((λ k. from (down k)), λ k. up (to k)),
        ),
  )
