-- ===== src/Adapter/Paths.antt =====
-- The functions of packages path, strings and net/url that the adapter calls on the paths of zookeeper
-- and the names of its nodes.
use meshach.Prelude.{
  ℕ, ◌+◌, ◌-◌, ◌*◌, Bool, true, false, ◌&&◌, ◌||◌, Option, none, some, List, [], ◌∷◌, ◌++◌, reverse,
  leb, ◌==◌, if◌then◌else◌, ◌>>=◌, Text, bytes, text_eq, has_prefix, to_lower,
}

cut : ℕ → ℕ → List Text → List Text
cut c b [] = []
cut c b (e ∷ elements) = if b == c then [] ∷ e ∷ elements else (b ∷ e) ∷ elements

-- strings.Split(s, c)
unfoldable pub split_on : ℕ → Text → List Text
unfolding cut
split_on c [] = [] ∷ []
split_on c (b ∷ s) = cut c b (split_on c s)

-- The elements of the path that is cleaned, the last one first
parent : Bool → List Text → List Text
unfolding text_eq
parent true [] = []
parent false [] = bytes ".." ∷ []
parent rooted (e ∷ stack) = if text_eq e (bytes "..") then bytes ".." ∷ e ∷ stack else stack

clean_element : Bool → List Text → Text → List Text
unfolding parent text_eq
clean_element rooted stack e =
    if text_eq e [] || text_eq e (bytes ".")
    then stack
    else if text_eq e (bytes "..")
    then parent rooted stack
    else e ∷ stack

clean_elements : Bool → List Text → List Text → List Text
unfolding clean_element
clean_elements rooted stack [] = stack
clean_elements rooted stack (e ∷ elements) =
    clean_elements rooted (clean_element rooted stack e) elements

unfoldable pub join_with : ℕ → List Text → Text
join_with c [] = []
join_with c (e ∷ []) = e
join_with c (e ∷ f ∷ elements) = e ++ c ∷ join_with c (f ∷ elements)

or_dot : Text → Text
or_dot [] = bytes "."
or_dot (b ∷ s) = b ∷ s

-- path.Clean
unfoldable pub clean : Text → Text
unfolding clean_elements split_on join_with or_dot has_prefix
clean path =
    let rooted = has_prefix path (bytes "/") in
    let joined = join_with b'/' (reverse (clean_elements rooted [] (split_on b'/' path))) in
    if rooted then b'/' ∷ joined else or_dot joined

-- path.Join(dir, file) at a `file` that is not empty
unfoldable pub path_join : Text → Text → Text
unfolding clean
path_join [] file = clean file
path_join (b ∷ dir) file = clean ((b ∷ dir) ++ b'/' ∷ file)

-- strings.EqualFold with an ASCII text that has no `k` and no `s`: only letters of ASCII fold to its own.
unfoldable pub equal_fold : Text → Text → Bool
unfolding text_eq to_lower
equal_fold s t = text_eq (to_lower s) (to_lower t)

-- Where url.QueryUnescape stands in an escape: before it, behind the `%`, behind its first digit
pub data Escape : Type 0 where
  plain percent : Escape
  digit : ℕ → Escape

hex_value : ℕ → Option ℕ
hex_value b =
    if leb b'0' b && leb b b'9'
    then some (b - b'0')
    else if leb b'a' b && leb b b'f'
    then some (b - b'a' + 10)
    else if leb b'A' b && leb b b'F'
    then some (b - b'A' + 10)
    else none

unescape_byte : Escape → ℕ → Option (Escape × Text)
unfolding hex_value
unescape_byte plain b =
    some (
      if b == b'%'
      then (percent, [])
      else if b == b'+'
      then (plain, b' ' ∷ [])
      else (plain, b ∷ []))
unescape_byte percent b = do h ← hex_value b; some (digit h, [])
unescape_byte (digit h) b = do l ← hex_value b; some (plain, (h * 16 + l) ∷ [])

unescape_from : Escape → Text → Option Text
unfolding unescape_byte
unescape_from plain [] = some []
unescape_from percent [] = none
unescape_from (digit h) [] = none
unescape_from escape (b ∷ s) =
    unescape_byte escape b >>= λ step. unescape_from step.0 s >>= λ rest. some (step.1 ++ rest)

-- url.QueryUnescape; `none` is an error.
unfoldable pub query_unescape : Text → Option Text
unfolding unescape_from
query_unescape = unescape_from plain
