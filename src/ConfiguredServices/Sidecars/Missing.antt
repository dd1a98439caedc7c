-- ===== src/ConfiguredServices/Sidecars/Missing.antt =====
-- When reconcileSidecar of controllers/configuredservice/sidecar.go returns without an error, and what it
-- does in the first namespace without a Sidecar.
use meshach.Prelude.{
  ◌≡◌, ◌↔◌, ◌∙◌, inl, inr, refl, sym, ap, second, Bool, true, false, Option-cases, List, [], ◌∷◌,
  ◌++◌, Text, text_eq, Dict, lookup, All,
}
use meshach.Api.{MeshConfigSpec, ConfiguredService}
use meshach.Istio.{Sidecar}
use meshach.Cluster.{Cluster}
use meshach.Client.{
  Error, not_found, already_exists, conflict, other, Result, Result-cases, ok, err,
}
use meshach.Client.Actions.{done, fail, check, throw, ◌>>◌}
use meshach.ConfiguredServices.Sidecars.{
  build_sidecar, get_app_name, get_app_namespace, create_default, create_defaults,
  init_default_sidecars_by_deploy, sidecar_missing, check_sidecar, sidecars_in, reconcile_sidecar,
}

module _ {S : Type 0} (cluster : Cluster S) (mesh : MeshConfigSpec) where
  -- The state in which the namespaces are looked at: behind the creation of the default Sidecars, where
  -- they have not been created before.
  abbrev pub after_init : Bool → S → S
  after_init true s = s
  after_init false s = (init_default_sidecars_by_deploy cluster mesh s).1

  create_default-done :
      (dep : Text × Dict Text) (s : S)
      → create_default cluster mesh dep s ≡ (done tt, (create_default cluster mesh dep s).1)
  unfolding create_default
  create_default-done (namespace, labels) s =
      elim (Option-cases (lookup mesh.sidecar_select_label labels)) [
        | inl e ↦ rw (e, create_default)
        | inr (name, e) ↦ rw (e, create_default)
      ]

  create_defaults-done :
      (deps : List (Text × Dict Text)) (s : S)
      → create_defaults cluster mesh deps s ≡ (done tt, (create_defaults cluster mesh deps s).1)
  unfolding create_defaults
  create_defaults-done [] s = refl
  create_defaults-done (dep ∷ rest) s =
      rw (create_default-done dep s)
        (create_defaults-done rest (create_default cluster mesh dep s).1)

  abbrev pub HasSidecar : Text → S → Text → Type 0
  HasSidecar app_name s ns = (o : Sidecar) × (cluster.sidecars.get ns app_name s ≡ ok o)

  sidecars_in-missing :
      (app_name ns : Text) (before rest : List Text) (s s' : S)
      → All (HasSidecar app_name s) before
      → cluster.sidecars.get ns app_name s ≡ err not_found
      → cluster.sidecars.create (build_sidecar mesh ns app_name) s ≡ (ok tt, s')
      → sidecars_in cluster mesh app_name (before ++ ns ∷ rest) s ≡ (fail not_found, s')
  unfolding sidecars_in check_sidecar
  sidecars_in-missing app_name ns [] rest s s' h g c = rw (g, c)
  sidecars_in-missing app_name ns (b ∷ before) rest s s' ((o, e), h) g c =
      rw e (sidecars_in-missing app_name ns before rest s s' h g c)

  sidecars_in-All :
      (app_name : Text) (nss : List Text) (s : S)
      → All (HasSidecar app_name s) nss
      → sidecars_in cluster mesh app_name nss s ≡ (done tt, s)
  unfolding sidecars_in check_sidecar
  sidecars_in-All app_name [] s h = refl
  sidecars_in-All app_name (ns ∷ nss) s ((o, e), h) = rw e (sidecars_in-All app_name nss s h)

  throws :
      (r : Result Unit) (t : S)
      → (x : Error) × (((check r >> throw {A = Unit} not_found) t).0 ≡ fail x)
  throws (ok u) t = (not_found, refl)
  throws (err e) t = (e, refl)

  sidecar_missing-fails :
      (ns app_name : Text) (e : Error) (s : S)
      → (x : Error) × ((sidecar_missing cluster mesh ns app_name e s).0 ≡ fail x)
  unfolding sidecar_missing
  sidecar_missing-fails ns app_name not_found s =
      let (r, t) = cluster.sidecars.create (build_sidecar mesh ns app_name) s in throws r t
  sidecar_missing-fails ns app_name already_exists s = (already_exists, refl)
  sidecar_missing-fails ns app_name conflict s = (conflict, refl)
  sidecar_missing-fails ns app_name other s = (other, refl)

  All-sidecars_in :
      (app_name : Text) (nss : List Text) (s : S)
      → (sidecars_in cluster mesh app_name nss s).0 ≡ done tt
      → All (HasSidecar app_name s) nss
  unfolding sidecars_in check_sidecar
  All-sidecars_in app_name [] s h = tt
  All-sidecars_in app_name (ns ∷ nss) s h =
      elim (Result-cases (cluster.sidecars.get ns app_name s)) [
        | inl (o, e) ↦ ((o, e), All-sidecars_in app_name nss s (rw e at h))
        | inr (x, e) ↦
            let (y, f) = sidecar_missing-fails ns app_name x s in
            cc (rw (second (sidecar_missing cluster mesh ns app_name x s) f) at (rw e at h))
      ]

  init-done :
      (s : S)
      → init_default_sidecars_by_deploy cluster mesh s
        ≡ (done tt, (init_default_sidecars_by_deploy cluster mesh s).1)
  unfolding init_default_sidecars_by_deploy
  init-done s =
      let deps : List (Text × Dict Text) = elim (cluster.list_deployments s) [
        | ok deps ↦ deps
        | err _ ↦ []
      ] in
      create_defaults-done deps s

  looked_at :
      (initialised : Bool) (cs : ConfiguredService) (s : S)
      → text_eq (get_app_name mesh cs.spec.instances) [] ≡ false
      → reconcile_sidecar cluster mesh initialised cs s
        ≡ sidecars_in cluster mesh
            (get_app_name mesh cs.spec.instances)
            (get_app_namespace cluster mesh
              (get_app_name mesh cs.spec.instances)
              (after_init initialised s))
            (after_init initialised s)
  unfolding reconcile_sidecar
  looked_at true cs s named = rw named
  looked_at false cs s named = rw (named, init-done s)

  -- For a service whose instances name an application, reconcileSidecar returns without an error exactly
  -- where every namespace of the application's pods has a Sidecar of its name, and then it creates none
  -- there. At the first namespace without one, where Get reports NotFound, it creates it, and still returns
  -- the error NotFound, so that the later namespaces are not looked at. All this is in the state behind the
  -- creation of the default Sidecars, where these have not been created before.
  pub reconcile_sidecar-missing :
      (initialised : Bool) (cs : ConfiguredService) (s : S)
      → text_eq (get_app_name mesh cs.spec.instances) [] ≡ false
      → let app_name = get_app_name mesh cs.spec.instances in
        let t = after_init initialised s in
        (((reconcile_sidecar cluster mesh initialised cs s).0 ≡ done tt)
          ↔ All (HasSidecar app_name t) (get_app_namespace cluster mesh app_name t))
        × ((reconcile_sidecar cluster mesh initialised cs s).0 ≡ done tt
            → reconcile_sidecar cluster mesh initialised cs s ≡ (done tt, t))
        × ((before rest : List Text) (ns : Text) (t' : S)
            → get_app_namespace cluster mesh app_name t ≡ before ++ ns ∷ rest
            → All (HasSidecar app_name t) before
            → cluster.sidecars.get ns app_name t ≡ err not_found
            → cluster.sidecars.create (build_sidecar mesh ns app_name) t ≡ (ok tt, t')
            → reconcile_sidecar cluster mesh initialised cs s ≡ (fail not_found, t'))
  reconcile_sidecar-missing initialised cs s named =
      let app_name = get_app_name mesh cs.spec.instances in
      let t = after_init initialised s in
      let nss = get_app_namespace cluster mesh app_name t in
      let looked = looked_at initialised cs s named in
      let all = λ (h : (reconcile_sidecar cluster mesh initialised cs s).0 ≡ done tt).
        All-sidecars_in app_name nss t (sym (ap (λ p. p.0) looked) ∙ h) in
      (
        (all, λ a. ap (λ p. p.0) (looked ∙ sidecars_in-All app_name nss t a)),
        (λ h. looked ∙ sidecars_in-All app_name nss t (all h)),
        λ before rest ns t' e has g c.
            looked ∙ rw e (sidecars_in-missing app_name ns before rest t t' has g c),
      )
