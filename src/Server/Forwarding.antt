-- ===== src/Server/Forwarding.antt =====
-- The relay of server/server.go: openRelay, ServeRelay, sameAddr, sweepRelays.
pub mod Moved
pub mod Members
pub mod Delivery
use tarion.Base.{
  ℕ, ◌+◌, ◌-◌, Bool, true, false, not, ◌&&◌, ◌||◌, Option, none, some, [], ◌∷◌, ◌++◌, map, ltb, leb,
  ◌==◌, if◌then◌else◌, found, length, take,
}
use mathlib.Core.Option
use tarion.Text.{Text, text, str_eq, is_empty}
use tarion.Dict.{Dict, get, put, retain}
use tarion.Net.{Addr, udp, relayed, other, ip_equal}
use tarion.Limiter.{allow, allow_n}
use tarion.Access.Bans.{banned}
use tarion.Relay.Packets.{unwrap, id_string, addr_string}
use tarion.Proto.{name_key, not_logged_in, relay_off, offline, relay_refused, rate_limited}
use tarion.Proto.Messages.{Request, Response, accepted, fail, push_relay}
use tarion.Server.{Server, Session, RelaySession, Env, World, pushed, sent, session_of, emit}

-- The part of a packet that fits in the buffer of ServeRelay.
abbrev pub buffer_size : ℕ
buffer_size = 2048

abbrev pub in_buffer : Text → Text
in_buffer pkt = take buffer_size pkt

-- 2 minutes, in nanoseconds.
abbrev pub relay_idle : ℕ
relay_idle = 120_000_000_000

-- How many relays a session opened.
unfoldable pub count_open : Text → Dict RelaySession → ℕ
count_open id [] = 0
count_open id ((k, r) ∷ m) = (if str_eq r.a id then 1 else 0) + count_open id m

-- The address of a member, while the server remembers its session.
unfoldable pub member_addr : Server → Text → Option Addr
member_addr s id = Option.map (λ o. o.udp) (get s.objects id)

is_closed_session : Option Session → Bool
is_closed_session none = true
is_closed_session (some o) = not o.is_open

-- Idle, or a member went offline.
unfoldable pub is_stale : Server → ℕ → RelaySession → Bool
unfolding is_closed_session
is_stale s now r =
    ltb relay_idle (now - r.last)
    || is_closed_session (get s.objects r.a)
    || is_closed_session (get s.objects r.b)

unfoldable pub sweep_relays : Server → ℕ → Server
sweep_relays s now = record s { relays = retain (λ id r. not (is_stale s now r)) s.relays }

module _ (e : Env) where
  -- `a.String()`.
  unfoldable pub string_of : Addr → Text
  string_of (udp ip port) = e.udp_string ip port
  string_of (relayed id) = addr_string id
  string_of (other s) = s

  unfoldable pub same_addr : Addr → Addr → Bool
  same_addr (udp ip port) (udp ip' port') = port == port' && ip_equal ip ip'
  same_addr a b = str_eq (string_of a) (string_of b)

  is_from : Addr → Option Addr → Bool
  is_from from none = false
  is_from from (some a) = same_addr from a

  -- The other member of a relay, for a packet from one of its two.
  unfoldable pub peer_addr : Server → Addr → RelaySession → Option Addr
  unfolding is_from
  peer_addr s from r =
      if is_from from (member_addr s r.a)
      then member_addr s r.b
      else if is_from from (member_addr s r.b)
      then member_addr s r.a
      else none

  -- A packet for `to`, if it is within the limits.
  limited : Server → Text → Text → ℕ → Option Addr → Server
  limited s id pkt now none = s
  limited s id pkt now (some to) =
      let (each_ok, each) = allow_n s.relay_rate (id_string id) (length pkt) now in
      let (all_ok, all) = allow_n s.relay_total [] (length pkt) now in
      let s1 : Server = record s { relay_rate = each } in
      let s2 : Server = record s1 { relay_total = all } in
      if not each_ok then s1 else if not all_ok then s2 else emit (sent pkt to) s2

  forward_in : Server → Addr → Text → Text → ℕ → Option RelaySession → Server
  unfolding limited
  forward_in s from id pkt now none = s
  forward_in s from id pkt now (some r) =
      let to = peer_addr s from r in
      let touched : Server = record s { relays = put s.relays id (record r { last = now }) } in
      limited (if found to then touched else s) id pkt now to

  forward_unwrapped : Server → Addr → Text → ℕ → Option (Text × Text) → Server
  unfolding forward_in
  forward_unwrapped s from pkt now none = s
  forward_unwrapped s from pkt now (some (id, payload)) =
      forward_in s from id pkt now (get s.relays id)

  -- One turn of the loop of ServeRelay: what does not fit in the buffer is lost.
  unfoldable pub forward : Server → Addr → Text → ℕ → Server
  unfolding forward_unwrapped
  forward s from pkt now =
      let read = in_buffer pkt in forward_unwrapped s from read now (unwrap read)

  relay_to : World → Server → Session → Session → Response × Server
  relay_to w s sess target =
      let id = w.relay_id in
      let s' : Server = record s {
        relays = put s.relays id (record { a = sess.id; b = target.id; last = w.now });
      } in
      if not target.accept_relay
      then (fail relay_refused, s)
      else if leb s.opts.max_relays_per_user (count_open sess.id s.relays)
      then (fail rate_limited, s)
      else (
        record accepted { user = target.user; peer_id = target.peer_id; relay = id_string id },
        emit (pushed target.id (push_relay sess.user sess.peer_id (id_string id))) s',
      )

  relay_checked : World → Server → Session → Session → Response × Server
  unfolding relay_to
  relay_checked w s sess target =
      let (is_banned, bans) = banned e.unicode w.ban_file s.bans target.user target.peer_id in
      let (allowed, limit) = allow s.punch_limit (sess.id ++ (text ">relay>" ++ target.id)) w.now in
      let s1 : Server = record s { bans = bans } in
      let s2 : Server = record s1 { punch_limit = limit } in
      if is_banned
      then (fail offline, s1)
      else if not allowed
      then (fail offline, s2)
      else relay_to w s2 sess target

  relay_found : World → Server → Session → Option Session → Response × Server
  unfolding relay_checked
  relay_found w s sess none = (fail offline, s)
  relay_found w s sess (some target) =
      if str_eq target.id sess.id then (fail offline, s) else relay_checked w s sess target

  -- openRelay makes a relay from a session to the target user, and tells the target.
  unfoldable pub open_relay : World → Server → Session → Request → Response × Server
  unfolding relay_found
  open_relay w s sess req =
      if is_empty sess.user
      then (fail not_logged_in, s)
      else if not s.opts.relay
      then (fail relay_off, s)
      else relay_found w s sess (session_of s (name_key e.unicode req.target))
