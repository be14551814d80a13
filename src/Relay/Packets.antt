-- ===== src/Relay/Packets.antt =====
-- The packets and addresses of internal/relay/relay.go. A session ID is a text of eight bytes.
use tarion.Base.{
  ℕ, Bool, not, ◌||◌, Option, none, some, [], ◌∷◌, ◌++◌, leb, ◌==◌, if◌then◌else◌, length, take,
  drop,
}
use tarion.Text.{Text, text, str_eq}
use tarion.Text.Hex.{encode, decode}
use tarion.Text.Search.{has_prefix}

abbrev pub header_len : ℕ
header_len = 12

abbrev pub magic : Text
magic = 0 ∷ b'T' ∷ b'R' ∷ b'L' ∷ []

abbrev pub probe_magic : Text
probe_magic = 0 ∷ b'T' ∷ b'P' ∷ b'R' ∷ []

-- ID.String
abbrev pub id_string : Text → Text
id_string id = encode id

unfoldable pub id_of : Option Text → Option Text
id_of none = none
id_of (some b) = if length b == 8 then some b else none

unfoldable pub parse_id : Text → Option Text
unfolding id_of
parse_id s = id_of (decode s)

-- Wrap prefixes a payload with the relay header.
unfoldable pub wrap : Text → Text → Text
wrap id payload = magic ++ (id ++ payload)

-- Unwrap splits a relay packet; `none` for anything else.
unfoldable pub unwrap : Text → Option (Text × Text)
unwrap pkt =
    if leb (length pkt) header_len || not (str_eq (take 4 pkt) magic)
    then none
    else some (take 8 (drop 4 pkt), drop header_len pkt)

abbrev pub addr_prefix : Text
addr_prefix = text "relay:"

-- Addr.String
unfoldable pub addr_string : Text → Text
addr_string id = addr_prefix ++ id_string id

unfoldable pub is_addr : Text → Bool
is_addr s = has_prefix s addr_prefix

unfoldable pub parse_addr : Text → Option Text
parse_addr s = if is_addr s then parse_id (drop (length addr_prefix) s) else none

unfoldable pub probe : Text → Text
probe nonce = probe_magic ++ nonce

unfoldable pub parse_probe : Text → Option Text
parse_probe pkt =
    if not (length pkt == header_len) || not (str_eq (take 4 pkt) probe_magic)
    then none
    else some (drop 4 pkt)
