-- ===== src/Net.antt =====
-- What the program uses of Go's package net: addresses of datagrams, and the parsing of addresses.
use tarion.Base.{
  ℕ, ◌+◌, ◌-◌, ◌*◌, Bool, not, ◌&&◌, ◌||◌, Option, none, some, [], ◌∷◌, leb, ◌==◌, if◌then◌else◌,
  length, take, drop, all_by,
}
use mathlib.Core.Option
use tarion.Text.{Text, str_eq}

-- A `net.Addr`: a `*net.UDPAddr` with the bytes of its IP, a relay's `Addr`, or any other with its
-- string.
pub data Addr : Type 0 where
  udp : Text → ℕ → Addr
  relayed : Text → Addr
  other : Text → Addr

-- The four bytes of an IPv4 address that stands in sixteen.
unfoldable pub to4 : Text → Text
to4 ip =
    if length ip == 16
      && str_eq (take 12 ip) (0 ∷ 0 ∷ 0 ∷ 0 ∷ 0 ∷ 0 ∷ 0 ∷ 0 ∷ 0 ∷ 0 ∷ 255 ∷ 255 ∷ [])
    then drop 12 ip
    else ip

-- `a.Equal(b)` for IPs.
unfoldable pub ip_equal : Text → Text → Bool
ip_equal a b = str_eq (to4 a) (to4 b)

-- Whether a byte stands in a string: `strings.IndexByte(s, c) >= 0`.
abbrev pub has_byte : ℕ → Text → Bool
has_byte c s = not (all_by (λ b. not (b == c)) s)

-- What stands before and after the first `c`.
unfoldable pub split_first : ℕ → Text → Option (Text × Text)
split_first c [] = none
split_first c (b ∷ s) =
    let rest = split_first c s in
    if b == c then some ([], s) else Option.map (λ p. (b ∷ p.0, p.1)) rest

-- The same for the last `c`.
unfoldable pub split_last : ℕ → Text → Option (Text × Text)
split_last c [] = none
split_last c (b ∷ s) = elim (split_last c s) [
  | some p ↦ some (b ∷ p.0, p.1)
  | none ↦ if b == c then some ([], s) else none
]

-- The host of "[host]:port", checked against what `net.SplitHostPort` refuses.
bracketed : Option (Text × Text) → Option (Text × Text)
bracketed none = none
bracketed (some (host, [])) = none
bracketed (some (host, c ∷ port)) =
    if c == b':'
      && not (has_byte b':' port || has_byte b'[' host || has_byte b'[' port || has_byte b']' port)
    then some (host, port)
    else none

plain : Text → Option (Text × Text) → Option (Text × Text)
plain s none = none
plain s (some (host, port)) =
    if has_byte b':' host || has_byte b'[' s || has_byte b']' s then none else some (host, port)

-- `net.SplitHostPort(s)`
unfoldable pub split_host_port : Text → Option (Text × Text)
unfolding bracketed plain
split_host_port [] = none
split_host_port (b ∷ s) =
    if b == b'[' then bracketed (split_first b']' s) else plain (b ∷ s) (split_last b':' (b ∷ s))

is_digit_byte : ℕ → Bool
is_digit_byte b = leb b'0' b && leb b b'9'

decimal_value : ℕ → Text → ℕ
decimal_value acc [] = acc
decimal_value acc (b ∷ s) = decimal_value (acc * 10 + (b - b'0')) s

-- `strconv.Atoi(s)` where it is a number above zero; a sign may stand in front.
unfoldable pub atoi : Text → Option ℕ
unfolding is_digit_byte decimal_value
atoi [] = none
atoi (b ∷ s) =
    let digits = if b == b'+' then s else b ∷ s in
    if not (str_eq digits []) && all_by is_digit_byte digits
    then some (decimal_value 0 digits)
    else none
