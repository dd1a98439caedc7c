-- ===== src/Mesh/Weights/Totals.antt =====
-- Sums of the weights of controllers/serviceconfig/virtualservice.go, and the weights as plain numbers.
use native.Mathlib.Nat.{div-mul-le_self, div-le_self, div-eq_of_lt}
use native.Mathlib.Decide.{dec_lt}
use meshach.Prelude.{
  ℕ, zero, suc, ◌+◌, ◌-◌, ◌*◌, ◌/◌, ◌≤◌, ◌<◌, ◌≡◌, inl, inr, ◌&&◌, some, List, [], ◌∷◌, arith, ltb,
  ◌==◌, if◌then◌else◌, Bool-cases, ℤ, pos, ◌+ℤ◌, ◌-ℤ◌, ◌*ℤ◌, int32, int32_small, mul_pos, zero_mul,
}
use meshach.Istio.{HttpRouteDestination}
use meshach.Mesh.Weights.{even_weight, normal_weight}

-- The sum of the weights of a route.
unfoldable pub total : List HttpRouteDestination → ℤ
unfolding ◌+ℤ◌
total [] = pos 0
total (r ∷ rs) = r.weight +ℤ total rs

pub add_pos : (a b : ℕ) → pos a +ℤ pos b ≡ pos (a + b)
unfolding ◌+ℤ◌
add_pos a b = ground arith

sub_pos : (a b : ℕ) → b ≤ a → pos a -ℤ pos b ≡ pos (a - b)
unfolding ◌-ℤ◌
sub_pos a b h = ground arith

-- The shares of all but the last of `n` parts of 100 leave something for the last.
pub shares_le : (n : ℕ) → 100 / n * (n - 1) ≤ 100
shares_le zero = omega arith
shares_le (suc k) = grind (arith, div-mul-le_self 100 (suc k))

-- Where there are more than 100 parts, their number may wrap: it is multiplied by 0.
product_lem :
    (n : ℕ) → int32 (int32 (pos (100 / n)) *ℤ int32 (pos (n - 1))) ≡ pos (100 / n * (n - 1))
product_lem n = elim (dec_lt 100 n) [
  | yes big ↦
      rw
        (
          div-eq_of_lt big,
          int32_small 0 (omega arith),
          zero_mul (int32 (pos (n - 1))),
          int32_small 0 (omega arith),
        )
        (ground arith)
  | no small ↦ rw (
    int32_small (100 / n) (omega (arith, div-le_self 100 n)),
    int32_small (n - 1) (omega arith),
    mul_pos,
    int32_small (100 / n * (n - 1)) (omega (arith, shares_le n)),
  )
]

-- The weights as plain numbers.
abbrev pub even_share : ℕ → ℕ → ℕ
even_share n i = if i == n - 1 && ltb 1 n then 100 - 100 / n * (n - 1) else 100 / n

abbrev pub normal_share : ℕ → ℕ → ℕ → ℕ
normal_share n l i = if i == n - 1 && ltb 1 n then 100 - 100 / l else 100 / l

pub even_weight_lem : (n i : ℕ) → 0 < n → even_weight n i ≡ some (pos (even_share n i))
unfolding even_weight
even_weight_lem zero i h = absurd (omega arith)
even_weight_lem (suc k) i h = elim (Bool-cases (i == suc k - 1 && ltb 1 (suc k))) [
  | inl last ↦ rw (
    last,
    product_lem (suc k),
    sub_pos 100 _ (shares_le (suc k)),
    int32_small (100 - 100 / suc k * (suc k - 1)) (omega arith),
  )
  | inr other ↦ rw (other, int32_small (100 / suc k) (omega (arith, div-le_self 100 (suc k))))
]

pub normal_weight_lem : (n l i : ℕ) → 0 < l → normal_weight n l i ≡ some (pos (normal_share n l i))
unfolding normal_weight
normal_weight_lem n zero i h = absurd (omega arith)
normal_weight_lem n (suc l) i h =
    let small : 100 / suc l ≤ 100 = div-le_self 100 (suc l) in
    elim (Bool-cases (i == n - 1 && ltb 1 n)) [
      | inl last ↦ rw (
        last,
        int32_small (100 / suc l) (omega arith),
        sub_pos 100 _ small,
        int32_small (100 - 100 / suc l) (omega arith),
      )
      | inr other ↦ rw (other, int32_small (100 / suc l) (omega arith))
    ]
