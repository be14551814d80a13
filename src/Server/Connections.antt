-- ===== src/Server/Connections.antt =====
-- Connections of server/server.go: admit, release, the session that handleConn makes, and endSession.
pub mod Counted
use tarion.Base.{
  ℕ, zero, suc, ◌+◌, ◌-◌, ◌/◌, ◌%◌, ◌^◌, Bool, true, false, not, ◌||◌, Option, none, some, [], ◌∷◌,
  map, ltb, leb, if◌then◌else◌,
}
use tarion.Text.{Text, str_eq, is_empty}
use tarion.Dict.{Dict, get, put, delete}
use tarion.Net.{Addr}
use tarion.Limiter.{allow}
use tarion.Proto.{name_key}
use tarion.Server.{Server, Session, Env, set_session}

abbrev pub max_conns : ℕ
max_conns = 10000

abbrev pub max_conns_per_ip : ℕ
max_conns_per_ip = 16

-- m[k] for a map of numbers.
abbrev pub or_zero : Option ℕ → ℕ
or_zero none = 0
or_zero (some n) = n

-- admit counts a new connection, unless it is one too many.
unfoldable pub admit : Server → Text → ℕ → Bool × Server
admit s ip now =
    let (allowed, limit) = allow s.conn_limit ip now in
    let s' : Server = record s { conn_limit = limit } in
    let count = or_zero (get s.conns_per_ip ip) in
    if not allowed
    then (false, s')
    else if leb max_conns s.active || leb max_conns_per_ip count
    then (false, s')
    else (
      true,
      record s' { active = s.active + 1; conns_per_ip = put s.conns_per_ip ip (count + 1) },
    )

-- release, of a connection that was admitted.
unfoldable pub release : Server → Text → Server
release s ip =
    let count = or_zero (get s.conns_per_ip ip) - 1 in
    record s {
      active = s.active - 1;
      conns_per_ip = if leb count 0 then delete s.conns_per_ip ip else put s.conns_per_ip ip count;
    }

digit_of : ℕ → ℕ
digit_of d = b'0' + d % 10

-- The decimal digits of a number below 10 ^ fuel.
digits : ℕ → ℕ → Text → Text
digits zero n acc = acc
digits (suc fuel) n acc =
    let rest = digits fuel (n / 10) (digit_of n ∷ acc) in
    if ltb n 10 then digit_of n ∷ acc else rest

-- `strconv.FormatUint(n, 10)`: a 64-bit number has at most 20 digits.
unfoldable pub format_uint : ℕ → Text
unfolding digits digit_of
format_uint n = digits 20 n []

-- The session that handleConn makes for a connection whose peer has this key; a connection whose
-- certificates have no key is closed and gets none.
unfoldable pub open_session : Server → Text → Text → Text → Text → Addr → Text × Server
open_session s peer_id pub_key ip addr udp_addr =
    let n = (s.next_id + 1) % 2 ^ 64 in
    let id = format_uint n in
    (
      id,
      set_session (record s { next_id = n })
          (record {
            id = id;
            peer_id = peer_id;
            pub_key = pub_key;
            ip = ip;
            addr = addr;
            udp = udp_addr;
            user = [];
            local_addrs = [];
            public_addr = [];
            accept_relay = false;
            is_open = true;
          }),
    )

is_session : Option Text → Text → Bool
is_session none id = false
is_session (some i) id = str_eq i id

-- endSession, when the connection has ended: the account is offline, unless another session took over.
unfoldable pub end_session : Env → Server → Session → Server
unfolding is_session
end_session e s sess =
    let s' = set_session s (record sess { is_open = false }) in
    let key = name_key e.unicode sess.user in
    if is_empty sess.user
    then s'
    else if is_session (get s.sessions key) sess.id
    then record s' { sessions = delete s.sessions key }
    else s'
