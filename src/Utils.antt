-- ===== src/Utils.antt =====
-- pkg/utils/utils.go, with the functions of package strconv and net that it calls.
pub mod Numbers
pub mod Durations
pub mod Addresses
pub mod WorkPool
use meshach.Prelude.{
  ℕ, zero, suc, ◌+◌, ◌-◌, ◌*◌, ◌/◌, ◌%◌, ◌<◌, ◌≡◌, refl, Bool, true, false, ◌&&◌, ◌||◌, Option,
  none, some, List, [], ◌∷◌, ◌++◌, arith, ltb, leb, ◌==◌, if◌then◌else◌, ◌>>=◌, Text, bytes,
  text_eq, has_suffix, trim_suffix, replace_byte, to_lower, ℤ, pos, negsuc, ◌*ℤ◌, sub_ℕ, quot, rem,
  int32, int64, uint32, length, take, drop,
}
use meshach.Istio.{Duration}

unfoldable pub format_to_dns1123 : Text → Text
unfolding to_lower replace_byte
format_to_dns1123 name = to_lower (replace_byte b'_' b'-' name)

unfoldable pub is_digit : ℕ → Bool
is_digit b = leb b'0' b && leb b b'9'

decimal_fuel : ℕ → ℕ → Text
decimal_fuel zero n = []
decimal_fuel (suc fuel) n =
    let front = decimal_fuel fuel (n / 10) in
    if ltb n 10 then (n + b'0') ∷ [] else front ++ (n % 10 + b'0') ∷ []

-- The verb %d of fmt, at a number that is not negative
unfoldable pub decimal : ℕ → Text
unfolding decimal_fuel
decimal n = decimal_fuel (suc n) n

-- The value of a row of digits after `acc`; `none` at any other byte.
unfoldable pub digits : ℕ → Text → Option ℕ
unfolding is_digit
digits acc [] = some acc
digits acc (b ∷ s) =
    let rest = digits (acc * 10 + (b - b'0')) s in if is_digit b then rest else none

-- At least one digit
unfoldable pub unsigned : Text → Option ℕ
unfolding digits
unsigned [] = none
unsigned (b ∷ s) = digits 0 (b ∷ s)

-- The size bound of `strconv.ParseInt(s, 10, w)`: -2^(w-1) ≤ n < 2^(w-1).
in_range : ℕ → ℤ → Option ℤ
in_range half (pos n) = if ltb n half then some (pos n) else none
in_range half (negsuc n) = if ltb n half then some (negsuc n) else none

parse_positive : ℕ → Option ℕ → Option ℤ
unfolding in_range
parse_positive half none = none
parse_positive half (some n) = in_range half (pos n)

parse_negative : ℕ → Option ℕ → Option ℤ
unfolding in_range
parse_negative half none = none
parse_negative half (some n) = in_range half (sub_ℕ 0 n)

-- strconv.ParseInt at base 10, where `half` is 2^(w-1). `none` is an error.
unfoldable pub parse_int : ℕ → Text → Option ℤ
unfolding parse_positive parse_negative unsigned
parse_int half [] = none
parse_int half (b ∷ s) =
    if b == b'-'
    then parse_negative half (unsigned s)
    else if b == b'+'
    then parse_positive half (unsigned s)
    else parse_positive half (unsigned (b ∷ s))

abbrev pub half64 : ℕ
half64 = 9223372036854775808

abbrev pub half32 : ℕ
half32 = 2147483648

-- `t, err := ParseInt(s, 10, 64)`, with 0 for `t` on an error
abbrev pub or_zero : Option ℤ → ℤ
or_zero none = pos 0
or_zero (some t) = t

-- `t *= repeat` in int64, and the duration of `t` seconds
unfoldable pub seconds_of : Option ℤ → ℤ → Duration
unfolding int64 ◌*ℤ◌
seconds_of parsed repeat = record { seconds = int64 (or_zero parsed *ℤ repeat); nanos = pos 0 }

-- The duration of `t` milliseconds: `int32(t%1000) * 1000000` does not wrap.
unfoldable pub millis_of : ℤ → Duration
unfolding int32 ◌*ℤ◌ quot rem
millis_of t = record { seconds = quot t 1000; nanos = int32 (int32 (rem t 1000) *ℤ pos 1000000) }

-- A nil duration is `none`.
unfoldable pub string_to_duration : Text → ℤ → Option Duration
string_to_duration s repeat =
    if text_eq s []
    then none
    else if has_suffix s (bytes "s")
    then some (seconds_of (parse_int half64 (trim_suffix s (bytes "s"))) repeat)
    else some
        (millis_of (int64 (or_zero (parse_int half64 (trim_suffix s (bytes "ms"))) *ℤ repeat)))

-- reflect.AppendSlice(value.Slice(0, index), value.Slice(index+1, len)); `none` where it panics.
-- Only the returned slice is modelled: Go moves the elements within the array that `s` shares. A value that
-- is no slice is returned as it is; here the type rules it out.
unfoldable pub delete_in_slice {ℓ} : {A : Type ℓ} → List A → ℕ → Option (List A)
delete_in_slice s index =
    if ltb index (length s) then some (take index s ++ drop (suc index) s) else none

-- What ParseInt returns beside an error: 0 for a syntax error, the nearest value for a number out of
-- range.
saturated : ℕ → Bool → Option ℕ → ℤ
saturated half negative none = pos 0
saturated half false (some n) = if ltb n half then pos n else pos (half - 1)
saturated half true (some n) = if leb n half then sub_ℕ 0 n else negsuc (half - 1)

-- The value of `strconv.ParseInt` at base 10 where its error is ignored.
unfoldable pub parse_value : ℕ → Text → ℤ
unfolding saturated unsigned
parse_value half [] = pos 0
parse_value half (b ∷ s) =
    if b == b'-'
    then saturated half true (unsigned s)
    else if b == b'+'
    then saturated half false (unsigned s)
    else saturated half false (unsigned (b ∷ s))

unfoldable pub to_uint32 : Text → ℕ
unfolding parse_value uint32
to_uint32 port_str = uint32 (parse_value half32 port_str)

unfoldable pub to_int32 : Text → ℤ
unfolding parse_value int32
to_int32 port_str = int32 (parse_value half32 port_str)
