-- ===== src/Utils/Numbers.antt =====
-- Numbers in decimal, as the controllers print them into names and parse them from labels.
use meshach.Prelude.{
  ℕ, zero, suc, ◌+◌, ◌-◌, ◌*◌, ◌/◌, ◌%◌, ◌<◌, ◌≤◌, ◌≡◌, ◌≢◌, get_elem?, pos, int32_small, uint32,
  lt→ltb, refl, sym, ap, ◌∙◌, true, false, none, some, List, [], ◌∷◌, ◌++◌, arith, ltb, ◌==◌,
  if◌then◌else◌, Text, Bool-cases, inl, inr, length, take, drop,
}
use meshach.Utils.{
  is_digit, digits, decimal_fuel, decimal, unsigned, parse_int, parse_positive, in_range, saturated,
  parse_value, half32, to_uint32, to_int32, delete_in_slice,
}

-- Reading on after the digits of `s`.
digits-append : (acc n : ℕ) (s t : Text) → digits acc s ≡ some n → digits acc (s ++ t) ≡ digits n t
unfolding digits
digits-append acc n [] t h = ground arith
digits-append acc n (b ∷ s) t h = elim (Bool-cases (is_digit b)) [
  | inl d ↦ rw d (digits-append (acc * 10 + (b - b'0')) n s t (rw d at h))
  | inr d ↦ cc (rw d at h)
]

digits-last : (acc d : ℕ) → d < 10 → digits acc ((d + b'0') ∷ []) ≡ some (acc * 10 + d)
unfolding digits is_digit
digits-last acc d h = ground arith

div-lt : (n fuel : ℕ) → n < suc fuel → 10 ≤ n → n / 10 < fuel
div-lt n fuel h k = omega arith

digits-decimal_fuel : (fuel n : ℕ) → n < fuel → digits 0 (decimal_fuel fuel n) ≡ some n
unfolding decimal_fuel
digits-decimal_fuel zero n h = absurd (omega arith)
digits-decimal_fuel (suc fuel) n h = elim (Bool-cases (ltb n 10)) [
  | inl small ↦ rw small (digits-last 0 n (ground arith) ∙ ap some (omega arith))
  | inr large ↦
      rw
        (
          large,
          digits-append 0 (n / 10) (decimal_fuel fuel (n / 10)) ((n % 10 + b'0') ∷ [])
              (digits-decimal_fuel fuel (n / 10) (div-lt n fuel h (ground arith))),
          digits-last (n / 10) (n % 10) (omega arith),
        )
        (ap some (omega arith))
]

-- The last byte that is printed is a digit.
decimal_fuel-snoc :
    (fuel n : ℕ)
    → (front : Text) × (d : ℕ) × (d < 10) × (decimal_fuel (suc fuel) n ≡ front ++ (d + b'0') ∷ [])
unfolding decimal_fuel
decimal_fuel-snoc fuel n = elim (Bool-cases (ltb n 10)) [
  | inl small ↦ ([], n, ground arith, rw small)
  | inr large ↦ (decimal_fuel fuel (n / 10), n % 10, omega arith, rw large)
]

pub decimal-snoc :
    (n : ℕ) → (front : Text) × (d : ℕ) × (d < 10) × (decimal n ≡ front ++ (d + b'0') ∷ [])
unfolding decimal
decimal-snoc n = decimal_fuel-snoc n n

-- A first digit is no sign.
parse_int-digits :
    (half n : ℕ) (s : Text)
    → s ≢ []
    → digits 0 s ≡ some n
    → n < half
    → (parse_int half s ≡ some (pos n)) × (parse_value half s ≡ pos n)
parse_int-digits half n [] h e small = absurd (h refl)
parse_int-digits half n (b ∷ s) h e small = elim (Bool-cases (is_digit b)) [
  | inl d ↦
      let (minus, plus) = no_sign b d in
      (
        unfold parse_int parse_positive in_range unsigned in
            rw (minus, plus, e, lt→ltb n half small),
        unfold parse_value saturated unsigned in rw (minus, plus, e, lt→ltb n half small),
      )
  | inr d ↦ cc (not_digit d)
]
  where
    not_digit : is_digit b ≡ false → digits 0 (b ∷ s) ≡ none
    not_digit d = unfold digits in rw d

    no_sign : (b : ℕ) → is_digit b ≡ true → ((b == b'-') ≡ false) × ((b == b'+') ≡ false)
    no_sign b d = unfold is_digit in ground arith

snoc-not_nil : {A : Type 0} (xs : List A) (x : A) → xs ++ x ∷ [] ≢ []
snoc-not_nil [] x h = cc
snoc-not_nil (y ∷ ys) x h = cc

decimal-not_nil : (n : ℕ) → decimal n ≢ []
unfolding decimal
decimal-not_nil n h =
    let (front, d, _, e) = decimal_fuel-snoc n n in snoc-not_nil front (d + b'0') (sym e ∙ h)

digits-decimal : (n : ℕ) → digits 0 (decimal n) ≡ some n
unfolding decimal
digits-decimal n = digits-decimal_fuel (suc n) n (omega arith)

-- A number below the bound of the word is read back as it was printed.
pub parse_int-decimal : (half n : ℕ) → n < half → parse_int half (decimal n) ≡ some (pos n)
parse_int-decimal half n h =
    (parse_int-digits half n (decimal n) (decimal-not_nil n) (digits-decimal n) h).0

-- ToUint32 and ToInt32 read a number below 2^31 back as it is printed in decimal.
pub to_uint32-decimal :
    (n : ℕ) → n < half32 → (to_uint32 (decimal n) ≡ n) × (to_int32 (decimal n) ≡ pos n)
unfolding to_uint32 to_int32
to_uint32-decimal n h =
    let e = (parse_int-digits half32 n (decimal n) (decimal-not_nil n) (digits-decimal n) h).1 in
    (rw e (unfold uint32 in ground arith), rw e (int32_small n (omega arith)))

-- Different numbers are printed differently.
pub decimal_injective : (a b : ℕ) → decimal a ≡ decimal b → a ≡ b
decimal_injective a b h = ground (arith, digits-decimal a, digits-decimal b, ap (digits 0) h)

append-cancel : {A : Type 0} (s t u : List A) → s ++ t ≡ s ++ u → t ≡ u
append-cancel [] t u h = h
append-cancel (x ∷ s) t u h = append-cancel s t u (cc h)

get_elem?-suc :
    {A : Type 0} (x : A) (s : List A) (i j : ℕ)
    → get_elem? s (if ltb j i then j else suc j)
      ≡ get_elem? (x ∷ s) (if ltb (suc j) (suc i) then suc j else suc (suc j))
get_elem?-suc x s i j = elim (Bool-cases (ltb j i)) [
  | inl h ↦ let k : ltb (suc j) (suc i) ≡ true = ground arith in rw (h, k)
  | inr h ↦ let k : ltb (suc j) (suc i) ≡ false = ground arith in rw (h, k)
]

get_elem?-delete :
    {A : Type 0} (s : List A) (i j : ℕ)
    → get_elem? (take i s ++ drop (suc i) s) j ≡ get_elem? s (if ltb j i then j else suc j)
get_elem?-delete [] zero j = ground arith
get_elem?-delete [] (suc i) j = ground arith
get_elem?-delete (x ∷ s) zero j = ground arith
get_elem?-delete (x ∷ s) (suc i) zero = ground arith
get_elem?-delete (x ∷ s) (suc i) (suc j) = get_elem?-delete s i j ∙ get_elem?-suc x s i j

length-delete :
    {A : Type 0} (s : List A) (i : ℕ)
    → i < length s
    → suc (length (take i s ++ drop (suc i) s)) ≡ length s
length-delete [] i h = absurd (omega arith)
length-delete (x ∷ s) zero h = refl
length-delete (x ∷ s) (suc i) h = omega (arith, length-delete s i (omega arith))

-- For an index in range, DeleteInSlice returns the slice without that element: it is shorter by one, the
-- elements before the index stay, and those after it move down by one place.
pub delete_in_slice_lem :
    {A : Type 0} (s : List A) (i : ℕ)
    → i < length s
    → (r : List A) × (delete_in_slice s i ≡ some r)
      × (suc (length r) ≡ length s)
      × ((j : ℕ) → get_elem? r j ≡ get_elem? s (if ltb j i then j else suc j))
unfolding delete_in_slice
delete_in_slice_lem s i h = (
  take i s ++ drop (suc i) s,
  rw (lt→ltb i (length s) h),
  length-delete s i h,
  get_elem?-delete s i,
)
