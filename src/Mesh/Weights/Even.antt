-- ===== src/Mesh/Weights/Even.antt =====
-- The weights of a canary subset without instances: rerouteSubset of
-- controllers/serviceconfig/virtualservice.go.
use meshach.Prelude.{
  ℕ, zero, suc, ◌+◌, ◌-◌, ◌*◌, ◌/◌, ◌<◌, ◌≡◌, refl, ap, ◌∙◌, ◌≢◌, true, false, some, List, [], ◌∷◌,
  map, arith, ltb, if◌then◌else◌, pos, length, Text,
}
use meshach.Api.{Subset, is_in}
use meshach.Istio.{HttpRouteDestination}
use meshach.Mesh.Weights.{route_to, even_routes, reroute_subset}
use meshach.Mesh.Weights.Totals.{total, add_pos, shares_le, even_share, even_weight_lem}

abbrev plain_total : ℕ → ℕ → ℕ
plain_total n m = (m - 1) * (100 / n) + (if ltb 1 n then 100 - 100 / n * (n - 1) else 100 / n)

suc-sub-one : (k : ℕ) → suc k - 1 ≡ k
suc-sub-one k = omega arith

add_share : (q c k : ℕ) → q + ((suc k - 1) * q + c) ≡ (suc (suc k) - 1) * q + c
add_share q c k = rw (suc-sub-one k, suc-sub-one (suc k)) (omega arith)

even_share_early : (n i : ℕ) → i + 1 < n → even_share n i ≡ 100 / n
even_share_early n i h = ground arith

-- One round of the loop.
even_routes-cons :
    (host : Text) (n i : ℕ) (a : Subset) (rest : List Subset) {rs : List HttpRouteDestination}
    → 0 < n
    → even_routes host n (i + 1) rest ≡ some rs
    → even_routes host n i (a ∷ rest) ≡ some (route_to host a.name (pos (even_share n i)) ∷ rs)
unfolding even_routes
even_routes-cons host n i a rest p e = rw (even_weight_lem n i p, e)

even_routes-total :
    (host : Text) (n i : ℕ) (a : Subset) (rest : List Subset)
    → i + suc (length rest) ≡ n
    → (rs : List HttpRouteDestination) × (even_routes host n i (a ∷ rest) ≡ some rs)
      × (total rs ≡ pos (plain_total n (suc (length rest))))
      × (map (λ r. r.subset) rs ≡ map (λ s. s.name) (a ∷ rest))
unfolding total
even_routes-total host n i a [] h = (
  route_to host a.name (pos (even_share n i)) ∷ [],
  even_routes-cons host n i a [] (omega arith) (unfold even_routes in refl),
  add_pos _ _ ∙ ap pos (ground arith),
  refl,
)
even_routes-total host n i a (b ∷ rest) h =
    let (rs, e, t, names) = even_routes-total host n (i + 1) b rest (omega arith) in
    (
      route_to host a.name (pos (even_share n i)) ∷ rs,
      even_routes-cons host n i a (b ∷ rest) (omega arith) e,
      rw (t, even_share_early n i (omega arith))
          (add_pos _ _ ∙ ap pos (add_share _ _ (length rest))),
      rw names,
    )

plain_total_all : (n : ℕ) → 0 < n → plain_total n n ≡ 100
plain_total_all zero h = elim h [ ]
plain_total_all (suc zero) h = refl
plain_total_all (suc (suc k)) h = ground (arith, shares_le (suc (suc k)))

-- A canary subset that has no instance is routed to every actual subset, other canaries included, in their
-- order, with weights that sum to 100, however many actual subsets there are (one at least).
pub reroute_canary_total :
    (host : Text) (subset : Subset) (actual : List Subset)
    → subset.is_canary ≡ true
    → is_in subset actual ≡ false
    → actual ≢ []
    → (rs : List HttpRouteDestination) × (reroute_subset host subset actual ≡ some rs)
      × (total rs ≡ pos 100)
      × (map (λ r. r.subset) rs ≡ map (λ s. s.name) actual)
reroute_canary_total host subset [] canary missing h = absurd (h refl)
reroute_canary_total host subset (a ∷ rest) canary missing h =
    let n = suc (length rest) in
    let (rs, e, t, names) = even_routes-total host n 0 a rest (omega arith) in
    (
      rs,
      unfold reroute_subset in rw (canary, missing) e,
      t ∙ ap pos (plain_total_all n (omega arith)),
      names,
    )
