-- ===== src/Relay/Conn.antt =====
-- The connection of internal/relay/relay.go that a client reads and writes. Each function is what the
-- source does under its lock; the socket's packets and the time are arguments.
pub mod Accepted
use tarion.Base.{
  ℕ, ◌-◌, Bool, true, false, not, ◌&&◌, Option, none, some, List, [], ◌∷◌, ltb, ◌==◌, if◌then◌else◌,
  found,
}
use tarion.Text.{Text}
use tarion.Dict.{Dict, get, put, delete, retain}
use tarion.Net.{Addr, udp, relayed, other, ip_equal}
use tarion.Relay.Packets.{wrap, unwrap, parse_probe}

-- 10 minutes, in nanoseconds.
abbrev pub session_idle : ℕ
session_idle = 600_000_000_000

-- `server` is the IP and port of the relay; `probes` maps a nonce to the channel that waits for it, and
-- `closed` has the channels that are closed.
pub record Conn : Type 0 where
  pub server : Option (Text × ℕ)
  pub sessions : Dict ℕ
  pub strict : Bool
  pub probes : Dict ℕ
  pub closed : List ℕ

abbrev pub new_conn : Conn
new_conn = record { server = none; sessions = []; strict = false; probes = []; closed = [] }

-- ExpectProbe with a new channel, and the function that it returns.
unfoldable pub expect_probe : Conn → ℕ → Text → Conn
expect_probe c channel nonce = record c { probes = put c.probes nonce channel }

unfoldable pub stop_waiting : Conn → Text → Conn
stop_waiting c nonce = record c { probes = delete c.probes nonce }

got_waiting : Conn → Text → Option ℕ → Conn
got_waiting c nonce none = c
got_waiting c nonce (some channel) = record c {
  probes = delete c.probes nonce;
  closed = channel ∷ c.closed;
}

unfoldable pub got_probe : Conn → Text → Conn
unfolding got_waiting
got_probe c nonce = got_waiting c nonce (get c.probes nonce)

unfoldable pub set_server : Conn → Text → ℕ → Conn
set_server c ip port = record c { server = some (ip, port) }

-- Allow accepts relay packets for a session, and forgets idle ones.
unfoldable pub allow_session : Conn → Text → ℕ → Conn
allow_session c id now = record c {
  sessions = put (retain (λ k t. not (ltb session_idle (now - t))) c.sessions) id now;
}

unfoldable pub simulate_strict_nat : Conn → Bool → Conn
simulate_strict_nat c on = record c { strict = on }

abbrev is_server : Option (Text × ℕ) → Addr → Bool
is_server (some (ip, port)) (udp ip' port') = port' == port && ip_equal ip' ip
is_server (some (ip, port)) (relayed id) = false
is_server (some (ip, port)) (other s) = false
is_server none a = false

unfoldable pub from_server : Conn → Addr → Bool
from_server c a = is_server c.server a

-- known, which also notes the time.
unfoldable pub known : Conn → Text → ℕ → Bool × Conn
known c id now =
    if found (get c.sessions id)
    then (true, record c { sessions = put c.sessions id now })
    else (false, c)

probed : Conn → Text → Addr → Option Text → Option (Text × Addr) × Conn
unfolding got_probe
probed c pkt a (some nonce) = (none, got_probe c nonce)
probed c pkt a none = (some (pkt, a), c)

relay_packet : Conn → Addr → ℕ → Text × Text → Option (Text × Addr) × Conn
relay_packet c a now (id, payload) =
    let (is_known, c') = known c id now in
    if not (from_server c a)
    then (none, c)
    else if not is_known
    then (none, c')
    else (some (payload, relayed id), c')

unwrapped : Conn → Text → Addr → ℕ → Option (Text × Text) → Option (Text × Addr) × Conn
unfolding probed relay_packet
unwrapped c pkt a now (some p) = relay_packet c a now p
unwrapped c pkt a now none =
    if c.strict && not (from_server c a) then (none, c) else probed c pkt a (parse_probe pkt)

-- One turn of the loop of ReadFrom: what it returns for a packet, or `none` to read the next one.
unfoldable pub read_packet : Conn → Text → Addr → ℕ → Option (Text × Addr) × Conn
unfolding unwrapped
read_packet c pkt a now = unwrapped c pkt a now (unwrap pkt)

-- ReadFrom, over the packets that arrive: the first that it returns, and those that are still to come.
unfoldable pub read_from :
    Conn → List (Text × Addr × ℕ) → Option (Text × Addr) × Conn × List (Text × Addr × ℕ)
read_from c [] = (none, c, [])
read_from c ((pkt, a, now) ∷ rest) =
    let (r, c') = read_packet c pkt a now in
    let later = read_from c' rest in if found r then (r, c', rest) else later

-- Where WriteTo sends a packet to, and what; `none` for its error.
unfoldable pub write_to : Conn → Text → Addr → Option (Text × Addr)
write_to c p (udp ip port) = some (p, udp ip port)
write_to c p (other s) = some (p, other s)
write_to c p (relayed id) = elim c.server [ none ↦ none | some s ↦ some (wrap id p, udp s.0 s.1) ]
