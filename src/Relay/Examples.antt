-- ===== src/Relay/Examples.antt =====
-- Relay packets at concrete inputs.
use tarion.Base.{◌≡◌, refl, ◌≢◌, ◌↔◌, true, false, some, [], ◌∷◌, arith, found, length}
use tarion.Text.{Text, text, str_eq, IsBytes}
use tarion.Dict.{get, put, delete}
use tarion.Net.{udp, relayed, to4, ip_equal}
use tarion.Relay.Packets.{wrap, unwrap, parse_addr, addr_string}
use tarion.Relay.RoundTrips.{unwrap-wrap_iff, parse_addr-addr_string}
use tarion.Relay.Conn.{Conn, from_server, read_packet, known}
use tarion.Relay.Conn.Accepted.{read_packet-relayed}

abbrev id : Text
id = 1 ∷ 2 ∷ 3 ∷ 4 ∷ 5 ∷ 6 ∷ 7 ∷ 8 ∷ []

abbrev server_ip : Text
server_ip = 192 ∷ 0 ∷ 2 ∷ 1 ∷ []

abbrev conn : Conn
conn = record {
  server = some (server_ip, 63425);
  sessions = (id, 5) ∷ [];
  strict = false;
  probes = [];
  closed = [];
}

unwrap-wrap_iff_example :
    (unwrap (wrap id (text "hi")) ≡ some (id, text "hi"))
    ↔ ((length id ≡ 8) × (text "hi" ≢ []) × (wrap id (text "hi") ≡ wrap id (text "hi")))
unwrap-wrap_iff_example = unwrap-wrap_iff (wrap id (text "hi")) id (text "hi")

id-IsBytes : IsBytes id
id-IsBytes = ground arith

parse_addr-addr_string_example : parse_addr (addr_string id) ≡ some id
parse_addr-addr_string_example = parse_addr-addr_string id id-IsBytes refl

direct : udp server_ip 63425 ≢ relayed id
direct e = cc

abbrev after : Conn
after = record conn { sessions = (id, 7) ∷ [] }

was_read :
    read_packet conn (wrap id (text "hi")) (udp server_ip 63425) 7
    ≡ (some (text "hi", relayed id), after)
unfolding read_packet unwrap wrap from_server known str_eq ip_equal to4 get put delete
was_read = refl

read_packet-relayed_example :
    (wrap id (text "hi") ≡ wrap id (text "hi"))
    × (from_server conn (udp server_ip 63425) ≡ true)
    × (found (get conn.sessions id) ≡ true)
read_packet-relayed_example =
    read_packet-relayed conn after (wrap id (text "hi")) (text "hi") id (udp server_ip 63425) 7
      direct was_read
