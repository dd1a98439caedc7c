-- ===== src/Prelude/Texts.antt =====
-- Go strings: sequences of bytes, with the functions of package strings that the program calls.
use Prim.Native.Nat.{ℕ, ◌+◌, ◌-◌}
use Prim.Native.Char.{code}
use Prim.Native.String.{String}
use mathlib.Core.Path.{◌≡◌, refl}
use mathlib.Core.Logic.{◌↔◌}
use mathlib.Core.Bool.{Bool, true, false, ◌&&◌}
use mathlib.Core.List.{List, [], ◌∷◌, map, reverse}
use native.Mathlib.Omega.{arith}
use meshach.Prelude.Tests.{leb, ◌==◌, if◌then◌else◌}
use meshach.Prelude.Lists.{length, take, drop}

abbrev pub Text : Type 0
Text = List ℕ

-- The bytes of an ASCII literal.
abbrev pub bytes : String → Text
bytes String.[] = []
bytes (String.◌∷◌ c s) = code c ∷ bytes s

-- `s == t`
unfoldable pub text_eq : Text → Text → Bool
text_eq [] [] = true
text_eq (a ∷ s) (b ∷ t) = a == b && text_eq s t
text_eq _ _ = false

pub text_eq_iff : (s t : Text) → (text_eq s t ≡ true) ↔ (s ≡ t)
unfolding text_eq
text_eq_iff [] [] = ground arith
text_eq_iff [] (b ∷ t) = ground arith
text_eq_iff (a ∷ s) [] = ground arith
text_eq_iff (a ∷ s) (b ∷ t) = ground (arith, text_eq_iff s t)

pub text_eq_refl : (s : Text) → text_eq s s ≡ true
text_eq_refl s = (text_eq_iff s s).1 refl

-- strings.HasPrefix
unfoldable pub has_prefix : Text → Text → Bool
has_prefix s [] = true
has_prefix [] (c ∷ p) = false
has_prefix (b ∷ s) (c ∷ p) = b == c && has_prefix s p

-- strings.HasSuffix: the last `len(suffix)` bytes are the suffix.
unfoldable pub has_suffix : Text → Text → Bool
unfolding text_eq
has_suffix s suffix =
    leb (length suffix) (length s) && text_eq (drop (length s - length suffix) s) suffix

-- strings.TrimSuffix
unfoldable pub trim_suffix : Text → Text → Text
unfolding has_suffix
trim_suffix s suffix = if has_suffix s suffix then take (length s - length suffix) s else s

-- strings.TrimLeft with one byte for the cutset
unfoldable pub trim_left : ℕ → Text → Text
trim_left c [] = []
trim_left c (b ∷ s) = let rest = trim_left c s in if b == c then rest else b ∷ s

-- strings.Trim with one byte for the cutset
unfoldable pub trim : ℕ → Text → Text
unfolding trim_left
trim c s = reverse (trim_left c (reverse (trim_left c s)))

-- strings.ReplaceAll of one byte by another
unfoldable pub replace_byte : ℕ → ℕ → Text → Text
replace_byte old new = map (λ b. if b == old then new else b)

-- strings.ToLower on ASCII
unfoldable pub to_lower : Text → Text
to_lower = map (λ b. if leb b'A' b && leb b b'Z' then b + 32 else b)
