-- ===== src/Utils/Durations.antt =====
-- The durations of pkg/utils/utils.go: StringToDuration.
use meshach.Prelude.{
  ℕ, zero, suc, ◌+◌, ◌-◌, ◌*◌, ◌/◌, ◌%◌, ◌<◌, ◌≡◌, ◌≢◌, refl, sym, ap, ◌∙◌, inl, inr, true, false,
  none, some, List, [], ◌∷◌, ◌++◌, arith, Bool-cases, Text, bytes, text_eq, text_eq_iff,
  text_eq_refl, has_suffix, trim_suffix, length, length-append, take, drop, ℤ, pos, ◌*ℤ◌,
  int32_small, mul_pos, zero_mul, int64_small, int64, quot, rem,
}
use meshach.Utils.{
  is_digit, digits, unsigned, parse_int, parse_positive, parse_negative, half64, or_zero,
  seconds_of, millis_of, decimal, string_to_duration,
}
use meshach.Utils.Numbers.{decimal-snoc, parse_int-decimal}

take-append : {A : Type 0} (s t : List A) → take (length s) (s ++ t) ≡ s
take-append [] t = refl
take-append (x ∷ s) t = ap (λ r. x ∷ r) (take-append s t)

drop-append : {A : Type 0} (s t : List A) → drop (length s) (s ++ t) ≡ t
drop-append [] t = refl
drop-append (x ∷ s) t = drop-append s t

front_length : {A : Type 0} (s t : List A) → length (s ++ t) - length t ≡ length s
front_length s t = omega (arith, length-append s t)

-- A text has the suffix that is put behind it, and loses it again.
has_suffix-append : (s t : Text) → has_suffix (s ++ t) t ≡ true
unfolding has_suffix
has_suffix-append s t =
    rw (front_length s t, drop-append s t, text_eq_refl t) (ground (arith, length-append s t))

trim_suffix-append : (s t : Text) → trim_suffix (s ++ t) t ≡ s
unfolding trim_suffix
trim_suffix-append s t = rw (has_suffix-append s t, front_length s t, take-append s t)

snoc-last : {A : Type 0} (s t : List A) (x y : A) → s ++ x ∷ [] ≡ t ++ y ∷ [] → x ≡ y
snoc-last [] [] x y h = cc (h)
snoc-last [] (b ∷ []) x y h = cc (h)
snoc-last [] (b ∷ c ∷ t) x y h = cc (h)
snoc-last (a ∷ []) [] x y h = cc (h)
snoc-last (a ∷ b ∷ s) [] x y h = cc (h)
snoc-last (a ∷ s) (b ∷ t) x y h = snoc-last s t x y (cc h)

take-drop : {A : Type 0} (n : ℕ) (s : List A) → take n s ++ drop n s ≡ s
take-drop zero s = refl
take-drop (suc n) [] = refl
take-drop (suc n) (x ∷ s) = ap (λ r. x ∷ r) (take-drop n s)

append_assoc : {A : Type 0} (s t u : List A) → s ++ (t ++ u) ≡ (s ++ t) ++ u
append_assoc [] t u = refl
append_assoc (x ∷ s) t u = ap (λ r. x ∷ r) (append_assoc s t u)

has_suffix-split :
    (s suffix : Text) → has_suffix s suffix ≡ true → s ≡ take (length s - length suffix) s ++ suffix
unfolding has_suffix
has_suffix-split s suffix h =
    let ends : text_eq (drop (length s - length suffix) s) suffix ≡ true = ground arith in
    sym (take-drop (length s - length suffix) s)
    ∙ ap (λ r. take (length s - length suffix) s ++ r) ((text_eq_iff _ suffix).0 ends)

-- A text that ends in another byte does not have the suffix.
has_suffix-other : (s t : Text) (x y : ℕ) → x ≢ y → has_suffix (s ++ x ∷ []) (t ++ y ∷ []) ≡ false
has_suffix-other s t x y apart = elim (Bool-cases (has_suffix (s ++ x ∷ []) (t ++ y ∷ []))) [
  | inl h ↦
      let front = take (length (s ++ x ∷ []) - length (t ++ y ∷ [])) (s ++ x ∷ []) in
      absurd (
        apart (
          snoc-last s (front ++ t) x y
            (has_suffix-split (s ++ x ∷ []) (t ++ y ∷ []) h ∙ append_assoc front t (y ∷ []))))
  | inr h ↦ h
]

-- Behind an "m" no number is read.
digits-m : (acc : ℕ) (s : Text) → digits acc (s ++ b'm' ∷ []) ≡ none
unfolding digits is_digit
digits-m acc [] = refl
digits-m acc (b ∷ s) = elim (Bool-cases (is_digit b)) [
  | inl d ↦ rw (d, digits-m (acc * 10 + (b - b'0')) s)
  | inr d ↦ rw d
]

unsigned-m : (s : Text) → unsigned (s ++ b'm' ∷ []) ≡ none
unfolding unsigned
unsigned-m [] = digits-m 0 []
unsigned-m (b ∷ s) = digits-m 0 (b ∷ s)

parse_int-m : (half : ℕ) (s : Text) → parse_int half (s ++ b'm' ∷ []) ≡ none
unfolding parse_int parse_positive parse_negative
parse_int-m half [] = refl
parse_int-m half (b ∷ s) = ground (arith, unsigned-m s, unsigned-m (b ∷ s))

not_empty : (s : Text) (x : ℕ) → text_eq (s ++ x ∷ []) [] ≡ false
not_empty [] x = unfold text_eq in refl
not_empty (y ∷ s) x = unfold text_eq in refl

-- What has the suffix "s" is read as seconds.
ends_in_s :
    (s : Text) (repeat : ℤ)
    → string_to_duration (s ++ bytes "s") repeat ≡ some (seconds_of (parse_int half64 s) repeat)
unfolding string_to_duration
ends_in_s s repeat =
    rw (not_empty s b's', has_suffix-append s (bytes "s"), trim_suffix-append s (bytes "s"))

seconds_of-none : (repeat : ℤ) → seconds_of none repeat ≡ record { seconds = pos 0; nanos = pos 0 }
unfolding seconds_of
seconds_of-none repeat = rw (zero_mul repeat, int64_small 0 (omega arith))

seconds_of-some :
    (n r : ℕ)
    → n * r < half64
    → seconds_of (some (pos n)) (pos r) ≡ record { seconds = pos (n * r); nanos = pos 0 }
unfolding seconds_of
seconds_of-some n r fits = rw (mul_pos n r, int64_small (n * r) (omega arith))

-- "20ms" has the suffix "s": whatever stands before "ms", the duration is 0.
pub string_to_duration-ms :
    (s : Text) (repeat : ℤ)
    → string_to_duration (s ++ bytes "ms") repeat ≡ some (record { seconds = pos 0; nanos = pos 0 })
string_to_duration-ms s repeat = rw (
  append_assoc s (b'm' ∷ []) (bytes "s"),
  ends_in_s (s ++ b'm' ∷ []) repeat,
  parse_int-m half64 s,
  seconds_of-none repeat,
)

-- A number of seconds in decimal, with "s" behind it, becomes that number times the retries in seconds,
-- where the product fits into an int64.
pub string_to_duration-seconds :
    (n r : ℕ)
    → n < half64
    → n * r < half64
    → string_to_duration (decimal n ++ bytes "s") (pos r)
      ≡ some (record { seconds = pos (n * r); nanos = pos 0 })
string_to_duration-seconds n r small fits =
    rw (ends_in_s (decimal n) (pos r), parse_int-decimal half64 n small, seconds_of-some n r fits)

millis_of-pos :
    (t : ℕ)
    → millis_of (pos t) ≡ record { seconds = pos (t / 1000); nanos = pos (t % 1000 * 1000000) }
unfolding millis_of quot rem
millis_of-pos t = rw (
  int32_small (t % 1000) (omega arith),
  mul_pos (t % 1000) 1000000,
  int32_small (t % 1000 * 1000000) (omega arith),
)

-- A number without a unit is read as milliseconds.
plain_number :
    (n : ℕ) (repeat : ℤ)
    → string_to_duration (decimal n) repeat
      ≡ some (millis_of (int64 (or_zero (parse_int half64 (decimal n)) *ℤ repeat)))
unfolding string_to_duration trim_suffix
plain_number n repeat =
    let (front, d, digit, e) = decimal-snoc n in
    let apart : d + b'0' ≢ b's' = λ h. omega (arith, h) in
    rw (
      e,
      not_empty front (d + b'0'),
      has_suffix-other front [] (d + b'0') b's' apart,
      has_suffix-other front (bytes "m") (d + b'0') b's' apart,
    )

-- A number without a unit is a number of milliseconds: times the retries, it becomes a duration of as
-- many nanoseconds in all, less than a second of them in `nanos`, where the product fits into an int64.
pub string_to_duration-plain :
    (n r : ℕ)
    → n < half64
    → n * r < half64
    → (secs nanos : ℕ) × (string_to_duration (decimal n) (pos r)
        ≡ some (record { seconds = pos secs; nanos = pos nanos }))
      × (nanos < 1000000000)
      × (secs * 1000000000 + nanos ≡ n * r * 1000000)
string_to_duration-plain n r small fits = (
  n * r / 1000,
  n * r % 1000 * 1000000,
  rw (
    plain_number n (pos r),
    parse_int-decimal half64 n small,
    mul_pos n r,
    int64_small (n * r) (omega arith),
    millis_of-pos (n * r),
  ),
  omega arith,
  omega arith,
)
