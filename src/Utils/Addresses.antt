-- ===== src/Utils/Addresses.antt =====
-- pkg/utils/utils.go: RemovePort and ResolveServiceName, with the functions of packages net, path and
-- strings that they call.
use meshach.Prelude.{
  Bool-cases, inl, inr, ℕ, suc, ◌-◌, ◌≡◌, refl, Bool, true, false, not, ◌&&◌, ◌||◌, Option, none,
  some, [], ◌∷◌, ◌++◌, reverse, any, arith, ◌==◌, if◌then◌else◌, ◌>>=◌, Text, bytes, has_prefix,
  length, take, drop, trim_left,
}

-- strings.IndexByte(s, c) >= 0
unfoldable pub contains_byte : ℕ → Text → Bool
unfolding any
contains_byte c s = any (λ b. b == c) s

-- strings.IndexByte, `none` for -1
unfoldable pub index_byte : ℕ → Text → Option ℕ
index_byte c [] = none
index_byte c (b ∷ s) =
    let later = (do i ← index_byte c s; some (suc i)) in if b == c then some 0 else later

after_last : ℕ → ℕ → Text → Option (Text × Text) → Option (Text × Text)
after_last c b s (some (front, back)) = some (b ∷ front, back)
after_last c b s none = if b == c then some ([], s) else none

-- `s[:i]` and `s[i+1:]` at the last `c`, which is at `i`
unfoldable pub split_last : ℕ → Text → Option (Text × Text)
unfolding after_last
split_last c [] = none
split_last c (b ∷ s) = after_last c b s (split_last c s)

-- The host in brackets: the first `]` stands just before the last colon, and no other bracket is there.
bracketed : Text → Text → Text → Option ℕ → Option (Text × Text)
unfolding contains_byte
bracketed s front port none = none
bracketed s front port (some end) =
    if suc end == length front
      && not (contains_byte b'[' (drop 1 s) || contains_byte b']' (drop (suc end) s))
    then some (take (end - 1) (drop 1 s), port)
    else none

host_and_port : Text → Option (Text × Text) → Option (Text × Text)
unfolding bracketed contains_byte index_byte
host_and_port s none = none
host_and_port s (some (front, port)) =
    if has_prefix s (bytes "[")
    then bracketed s front port (index_byte b']' s)
    else if contains_byte b':' front || contains_byte b'[' s || contains_byte b']' s
    then none
    else some (front, port)

-- net.SplitHostPort; `none` is an error, beside which the host and the port are empty.
unfoldable pub split_host_port : Text → Option (Text × Text)
unfolding split_last host_and_port has_prefix
split_host_port s = host_and_port s (split_last b':' s)

host_or : Text → Option (Text × Text) → Text
host_or address none = address
host_or address (some (host, port)) = host

unfoldable pub remove_port : Text → Text
unfolding split_host_port host_or
remove_port address_with_port = host_or address_with_port (split_host_port address_with_port)

-- What stands behind the last slash
last_element : Text → Option (Text × Text) → Text
last_element s none = s
last_element s (some (dir, file)) = file

stripped : Text → Text → Text
unfolding split_last last_element
stripped path [] = bytes "/"
stripped path (b ∷ s) = last_element (b ∷ s) (split_last b'/' (b ∷ s))

-- path.Base
unfoldable pub base : Text → Text
unfolding stripped trim_left
base [] = bytes "."
base (b ∷ s) = stripped (b ∷ s) (reverse (trim_left b'/' (reverse (b ∷ s))))

-- strings.Replace(s, old, "", 1) at an `old` that is not empty
unfoldable pub remove_first : Text → Text → Text
unfolding has_prefix
remove_first old [] = []
remove_first old (b ∷ s) =
    let rest = b ∷ remove_first old s in
    if has_prefix (b ∷ s) old then drop (length old) (b ∷ s) else rest

unfoldable pub resolve_service_name : Text → Text
unfolding base remove_first
resolve_service_name configurator_path =
    remove_first (bytes ".configurators") (base configurator_path)

-- Neither a colon nor a bracket
abbrev pub is_plain : Text → Bool
is_plain s = not (contains_byte b':' s || contains_byte b'[' s || contains_byte b']' s)

contains_byte-append :
    (c : ℕ) (s t : Text) → contains_byte c (s ++ t) ≡ (contains_byte c s || contains_byte c t)
unfolding contains_byte
contains_byte-append c [] t = refl
contains_byte-append c (b ∷ s) t = ground (arith, contains_byte-append c s t)

split_last-none : (c : ℕ) (s : Text) → contains_byte c s ≡ false → split_last c s ≡ none
unfolding split_last contains_byte
split_last-none c [] h = refl
split_last-none c (b ∷ s) h = elim (Bool-cases (b == c)) [
  | inl e ↦ cc (rw e at h)
  | inr e ↦ rw (split_last-none c s (rw e at h), e)
]

split_last-join :
    (c : ℕ) (s t : Text) → contains_byte c t ≡ false → split_last c (s ++ c ∷ t) ≡ some (s, t)
unfolding split_last
split_last-join c [] t h = rw (split_last-none c t h) (ground arith)
split_last-join c (b ∷ s) t h = rw (split_last-join c s t h)

plain_bytes :
    (s : Text)
    → is_plain s ≡ true
    → (contains_byte b':' s ≡ false)
      × (contains_byte b'[' s ≡ false)
      × (contains_byte b']' s ≡ false)
plain_bytes s h = ground arith

no_bracket :
    (s t : Text) → contains_byte b'[' s ≡ false → has_prefix (s ++ b':' ∷ t) (bytes "[") ≡ false
unfolding has_prefix contains_byte
no_bracket [] t h = refl
no_bracket (b ∷ s) t h = ground arith

-- RemovePort takes off the port of an address whose host and port have no colon and no bracket, and
-- leaves an address without a colon as it is.
pub remove_port-join :
    (host port : Text)
    → is_plain host ≡ true
    → is_plain port ≡ true
    → (remove_port (host ++ b':' ∷ port) ≡ host) × (remove_port host ≡ host)
unfolding remove_port split_host_port
remove_port-join host port h p =
    let (h1, h2, h3) = plain_bytes host h in
    let (p1, p2, p3) = plain_bytes port p in
    (
      rw
          (
            split_last-join b':' host port p1,
            no_bracket host port h2,
            contains_byte-append b'[' host (b':' ∷ port),
            contains_byte-append b']' host (b':' ∷ port),
            h1,
            h2,
            h3,
          )
          (unfold contains_byte in ground arith),
      rw (split_last-none b':' host h1),
    )
