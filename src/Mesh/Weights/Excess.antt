-- ===== src/Mesh/Weights/Excess.antt =====
-- The weights of a missing normal subset where no actual subset is a canary: rerouteSubset of
-- controllers/serviceconfig/virtualservice.go.
use native.Mathlib.Nat.{le-div_iff_mul-le, div-le_self, zero-add}
use meshach.Prelude.{
  ℕ, suc, ◌+◌, ◌-◌, ◌*◌, ◌/◌, ◌≤◌, ◌<◌, ◌≡◌, ap, ◌∙◌, true, false, some, List, ◌∷◌, arith, pos,
  length, Text,
}
use meshach.Api.{Subset, is_in}
use meshach.Istio.{HttpRouteDestination}
use meshach.Mesh.Weights.{route_to, reroute_subset}
use meshach.Mesh.Weights.Totals.{total, add_pos}
use meshach.Mesh.Weights.Normal.{normals, ends_normal_all, spread, reroute_normal_total}

pos-share : (n : ℕ) → 0 < n → n ≤ 100 → 0 < 100 / n
pos-share n p h = (le-div_iff_mul-le p).1 (omega arith)

excess_lem : (q m : ℕ) → q ≤ 100 → suc m * q + (100 - q) ≡ 100 + m * q
excess_lem q m h = omega arith

pos-mul : (a b : ℕ) → 0 < a → 0 < b → 0 < a * b
pos-mul a b h k = grind arith

spread-true : (n l m : ℕ) → 1 < n → spread n l m true ≡ (m - 1) * (100 / l) + (100 - 100 / l)
spread-true n l m h = ground arith

spread_excess : (n : ℕ) → 3 ≤ n → n ≤ 100 → spread n n n true ≡ 100 + (n - 2) * (100 / n)
spread_excess n h k =
    let step : n - 1 ≡ suc (n - 2) = omega arith in
    rw (spread-true n n n (omega arith), step) (excess_lem (100 / n) (n - 2) (div-le_self 100 n))

-- For a missing normal subset and three to a hundred actual subsets, none a canary, the weights sum to
-- 100 and `n - 2` shares more, which is above 100.
pub reroute_normal_excess :
    (host : Text) (subset : Subset) (actual : List Subset)
    → subset.is_canary ≡ false
    → is_in subset actual ≡ false
    → normals actual ≡ length actual
    → 3 ≤ length actual
    → length actual ≤ 100
    → (rs : List HttpRouteDestination) × (reroute_subset host subset actual ≡ some rs)
      × (total rs ≡ pos (100 + (length actual - 2) * (100 / length actual)))
      × (0 < (length actual - 2) * (100 / length actual))
reroute_normal_excess host subset actual canary missing normal low high =
    let (rs, e, t) = reroute_normal_total host subset actual canary missing in
    (
      route_to host subset.name (pos 0) ∷ rs,
      e,
      unfold total in
          rw (t, normal, ends_normal_all actual (omega arith) normal)
            (add_pos 0 _ ∙ ap pos (zero-add _ ∙ spread_excess (length actual) low high)),
      pos-mul _ _ (omega arith) (pos-share (length actual) (omega arith) high),
    )
