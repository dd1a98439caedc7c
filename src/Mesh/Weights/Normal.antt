-- ===== src/Mesh/Weights/Normal.antt =====
-- The weights of a normal subset without instances: rerouteSubset of
-- controllers/serviceconfig/virtualservice.go.
use meshach.Prelude.{
  ℕ, zero, suc, ◌+◌, ◌-◌, ◌*◌, ◌/◌, ◌≤◌, ◌<◌, ◌≡◌, refl, ap, ◌∙◌, Bool, true, false, ◌&&◌, not,
  Bool-cases, inl, inr, some, List, [], ◌∷◌, arith, ltb, if◌then◌else◌, pos, length, Text,
}
use meshach.Api.{Subset, is_in}
use meshach.Istio.{HttpRouteDestination}
use meshach.Mesh.Weights.{route_to, normal_routes, without_canaries, reroute_subset}
use meshach.Mesh.Weights.Totals.{total, add_pos, normal_share, normal_weight_lem}

-- How many subsets are no canaries.
abbrev pub normals : List Subset → ℕ
normals [] = 0
normals (a ∷ rest) = if a.is_canary then normals rest else suc (normals rest)

-- The last subset is no canary.
abbrev pub ends_normal : List Subset → Bool
ends_normal [] = false
ends_normal (a ∷ []) = not a.is_canary
ends_normal (a ∷ b ∷ rest) = ends_normal (b ∷ rest)

pub normals-le : (xs : List Subset) → normals xs ≤ length xs
normals-le [] = omega arith
normals-le (a ∷ xs) = ground (arith, normals-le xs)

ends_normal_pos : (xs : List Subset) → ends_normal xs ≡ true → 0 < normals xs
ends_normal_pos [] h = cc
ends_normal_pos (a ∷ []) h = ground arith
ends_normal_pos (a ∷ b ∷ rest) h = ground (arith, ends_normal_pos (b ∷ rest) h)

pub ends_normal_all :
    (xs : List Subset) → 0 < length xs → normals xs ≡ length xs → ends_normal xs ≡ true
ends_normal_all [] p h = absurd (omega arith)
ends_normal_all (a ∷ []) p h = ground arith
ends_normal_all (a ∷ b ∷ rest) p h =
    ground (arith, ends_normal_all (b ∷ rest), normals-le (b ∷ rest))

without_canaries_lem :
    (l : ℕ) (xs : List Subset) → length xs ≤ l → without_canaries l xs + length xs ≡ l + normals xs
unfolding without_canaries
without_canaries_lem l [] h = omega arith
without_canaries_lem l (a ∷ xs) h =
    ground (arith, without_canaries_lem l xs, without_canaries_lem (l - 1) xs)

-- What the weights sum to, with `m` normal subsets left of `n` subsets, `l` of them normal: the last of
-- `actual`, if it is normal, gets what one share leaves.
abbrev pub spread : ℕ → ℕ → ℕ → Bool → ℕ
spread n l m last = if last && ltb 1 n then (m - 1) * (100 / l) + (100 - 100 / l) else m * (100 / l)

spread-suc :
    (n l m : ℕ) (last : Bool)
    → 1 < n
    → (last ≡ true → 0 < m)
    → 100 / l + spread n l m last ≡ spread n l (suc m) last
spread-suc n l zero true h p = absurd (omega (arith, p refl))
spread-suc n l (suc m) true h p = ground arith
spread-suc n l m false h p = ground arith

share_early : (n l i : ℕ) → i + 1 < n → normal_share n l i ≡ 100 / l
share_early n l i h = ground arith

spread_one : (n l i : ℕ) → i + 1 ≡ n → normal_share n l i + 0 ≡ spread n l 1 true
spread_one n l i h = ground arith

normal_routes-nil : (host : Text) (n l i : ℕ) → normal_routes host n l i [] ≡ some []
unfolding normal_routes
normal_routes-nil host n l i = refl

module _ (host : Text) (n l i : ℕ) (a : Subset) (rest : List Subset) where
  normal_routes-canary :
      a.is_canary ≡ true → normal_routes host n l i (a ∷ rest) ≡ normal_routes host n l (i + 1) rest
  unfolding normal_routes
  normal_routes-canary c = rw c

  normal_routes-normal :
      {rs : List HttpRouteDestination}
      → a.is_canary ≡ false
      → 0 < l
      → normal_routes host n l (i + 1) rest ≡ some rs
      → normal_routes host n l i (a ∷ rest)
        ≡ some (route_to host a.name (pos (normal_share n l i)) ∷ rs)
  unfolding normal_routes
  normal_routes-normal c p e = rw (c, normal_weight_lem n l i p, e)

normals-canary :
    (a : Subset) (xs : List Subset) → a.is_canary ≡ true → normals (a ∷ xs) ≡ normals xs
normals-canary a xs c = rw c

normals-normal :
    (a : Subset) (xs : List Subset) → a.is_canary ≡ false → normals (a ∷ xs) ≡ suc (normals xs)
normals-normal a xs c = rw c

-- The loop does not panic, and its weights sum to `spread`.
Spreads : Text → ℕ → ℕ → ℕ → List Subset → Type 0
Spreads host n l i xs =
    (rs : List HttpRouteDestination) × (normal_routes host n l i xs ≡ some rs)
    × (total rs ≡ pos (spread n l (normals xs) (ends_normal xs)))

normal_routes_total :
    (host : Text) (n l i : ℕ) (xs : List Subset)
    → i + length xs ≡ n
    → (0 < normals xs → 0 < l)
    → Spreads host n l i xs
unfolding Spreads total
normal_routes_total host n l i [] h p = ([], normal_routes-nil host n l i, ground arith)
normal_routes_total host n l i (a ∷ []) h p = elim (Bool-cases a.is_canary) [
  | inl c ↦ (
    [],
    normal_routes-canary host n l i a [] c ∙ normal_routes-nil host n l (i + 1),
    rw c (ground arith),
  )
  | inr c ↦ (
    route_to host a.name (pos (normal_share n l i)) ∷ [],
    normal_routes-normal host n l i a [] c (p (omega (arith, normals-normal a [] c)))
        (normal_routes-nil host n l (i + 1)),
    rw c (add_pos _ _ ∙ ap pos (spread_one n l i h)),
  )
]
normal_routes_total host n l i (a ∷ b ∷ rest) h p = elim (Bool-cases a.is_canary) [
  | inl c ↦
      let less = normals-canary a (b ∷ rest) c in
      let (rs, e, t) =
        normal_routes_total host n l (i + 1) (b ∷ rest) (omega arith) (λ q. p (rw less q)) in
      (rs, normal_routes-canary host n l i a (b ∷ rest) c ∙ e, rw less t)
  | inr c ↦
      let more = normals-normal a (b ∷ rest) c in
      let positive : 0 < l = p (rw more (omega arith)) in
      let (rs, e, t) =
        normal_routes_total host n l (i + 1) (b ∷ rest) (omega arith) (λ _. positive) in
      (
        route_to host a.name (pos (normal_share n l i)) ∷ rs,
        normal_routes-normal host n l i a (b ∷ rest) c positive e,
        rw (t, more, share_early n l i (omega arith))
            (add_pos _ _
              ∙ ap pos (
                  spread-suc n l (normals (b ∷ rest)) (ends_normal (b ∷ rest)) (omega arith)
                    (ends_normal_pos (b ∷ rest)))),
      )
]

-- A normal subset that has no instance gets weight 0, no division by zero happens, and the weights of
-- the other routes sum to `spread`: every actual normal subset gets one share of 100, but the last of
-- the actual subsets, if it is normal and not alone, gets 100 less one share.
pub reroute_normal_total :
    (host : Text) (subset : Subset) (actual : List Subset)
    → subset.is_canary ≡ false
    → is_in subset actual ≡ false
    → (rs : List HttpRouteDestination) × (reroute_subset host subset actual
        ≡ some (route_to host subset.name (pos 0) ∷ rs))
      × (total rs
          ≡ pos (spread (length actual) (normals actual) (normals actual) (ends_normal actual)))
unfolding Spreads
reroute_normal_total host subset actual canary missing =
    let n = length actual in
    let count : without_canaries n actual ≡ normals actual =
      omega (arith, without_canaries_lem n actual) in
    let (rs, e, t) = normal_routes_total host n (normals actual) 0 actual (omega arith) (λ h. h) in
    (rs, unfold reroute_subset in rw (canary, missing, count, e), t)
