-- ===== src/Server/Directory.antt =====
-- Who is online, in server/server.go: list, lookup, revokedKeys, broadcastRevoked, advertise, sendProbe.
pub mod Moved
pub mod Probes
use tarion.Base.{
  ℕ, Bool, true, false, not, ◌&&◌, Option, none, some, List, [], ◌∷◌, ◌++◌, ltb, if◌then◌else◌,
  length, take,
}
use mathlib.Core.Option
use tarion.Base.Sort.{sort}
use tarion.Text.{Text, str_eq, is_empty}
use tarion.Text.Lower.{to_lower}
use tarion.Text.Order.{str_lt}
use tarion.Text.Sets.{add}
use tarion.Dict.{Dict, get}
use tarion.Net.{Addr, udp, relayed, other, ip_equal}
use tarion.Limiter.{allow}
use tarion.Accounts.{Account, get_account}
use tarion.Access.Bans.{banned, snapshot, BanList, refresh}
use tarion.Relay.Packets.{parse_id, probe}
use tarion.Proto.{
  name_key, valid_username, max_listed_users, max_revoked, not_logged_in, offline, bad_request,
  rate_limited, server_error, probe_off, probe_not_yours,
}
use tarion.Proto.Messages.{
  Request, Response, accepted, fail, Push, push_punch, push_revoked, valid_public_addr,
}
use tarion.Server.{Server, Session, Env, World, Effect, pushed, sent, session_of, set_session, emit}

abbrev pub user_of : Option Session → List Text
user_of none = []
user_of (some o) = o.user ∷ []

-- The users of the sessions other than `id`.
unfoldable pub other_users : Dict Session → Text → Dict Text → List Text
other_users objects id [] = []
other_users objects id ((k, i) ∷ m) =
    let rest = other_users objects id m in
    if str_eq i id then rest else user_of (get objects i) ++ rest

unfoldable pub list_users : Server → Session → Response
list_users s sess =
    let names = sort str_lt (other_users s.objects sess.id s.sessions) in
    if is_empty sess.user
    then fail not_logged_in
    else if ltb max_listed_users (length names)
    then record accepted { users = take max_listed_users names; truncated = true }
    else record accepted { users = names }

unfoldable pub all_users : Dict Text → List Text
all_users [] = []
all_users ((k, i) ∷ m) = i ∷ all_users m

add_all : List Text → List Text → List Text
add_all set [] = set
add_all set (k ∷ ks) = add_all (add k set) ks

-- The broadcast of one push to each of the sessions.
unfoldable pub push_all : List Text → Push → Server → Server
push_all [] p s = s
push_all (i ∷ is) p s = push_all is p (emit (pushed i p) s)

-- Whether an address has the IP that the server sees.
unfoldable pub is_own : Text → Addr → Bool
is_own ip (udp seen port) = ip_equal ip seen
is_own ip (relayed id) = false
is_own ip (other s) = false

-- SetProbeConn gives the server a socket for probes.
unfoldable pub set_probe_conn : Server → Server
set_probe_conn s = record s { has_probe = true }

module _ (e : Env) where
  abbrev pub key_of : Option Account → List Text
  key_of none = []
  key_of (some a) = if is_empty a.peer_id then [] else to_lower e.unicode a.peer_id ∷ []

  -- The keys that are linked to banned names.
  unfoldable pub linked_keys : Server → List Text → List Text
  linked_keys s [] = []
  linked_keys s (n ∷ ns) = key_of (get_account e.unicode s.accounts n) ++ linked_keys s ns

  -- revokedKeys: every banned key, and the key linked to each banned name.
  unfoldable pub revoked_keys : World → Server → List Text × Server
  unfolding add_all
  revoked_keys w s =
      let (names, keys) = snapshot e.unicode w.ban_file s.bans in
      (
        take max_revoked (sort str_lt (add_all (add_all [] keys) (linked_keys s names))),
        record s { bans = (refresh e.unicode w.ban_file s.bans).1 },
      )

  unfoldable pub broadcast_revoked : World → Server → Server
  broadcast_revoked w s =
      let (keys, s') = revoked_keys w s in push_all (all_users s.sessions) (push_revoked keys) s'

  found_user : World → Server → Session → Session → Response × Server
  found_user w s sess target =
      let (is_banned, bans) = banned e.unicode w.ban_file s.bans target.user target.peer_id in
      let near = str_eq target.ip sess.ip in
      let (allowed, limit) = allow s.punch_limit (sess.id ++ (b'>' ∷ target.id)) w.now in
      let push =
        push_punch sess.user sess.peer_id sess.addr (if near then sess.local_addrs else []) in
      let s' : Server = record s { bans = bans } in
      let s'' : Server = record s' { punch_limit = limit } in
      if is_banned then (fail offline, s') else (
        record accepted {
          user = target.user;
          addr = target.addr;
          peer_id = target.peer_id;
          public_addr = target.public_addr;
          local_addrs = if near then target.local_addrs else [];
        },
        if allowed then emit (pushed target.id push) s'' else s'',
      )

  looked_up : World → Server → Session → Option Session → Response × Server
  unfolding found_user
  looked_up w s sess none = (fail offline, s)
  looked_up w s sess (some target) =
      if str_eq target.id sess.id then (fail offline, s) else found_user w s sess target

  unfoldable pub lookup : World → Server → Session → Request → Response × Server
  unfolding looked_up
  lookup w s sess req =
      if is_empty sess.user
      then (fail not_logged_in, s)
      else if not (valid_username e.unicode req.target)
      then (fail offline, s)
      else looked_up w s sess (session_of s (name_key e.unicode req.target))

  -- advertise sets or clears the address that a user made reachable.
  unfoldable pub advertise : Server → Session → Request → Response × Server
  advertise s sess req =
      if is_empty sess.user
      then (fail not_logged_in, s)
      else if not (is_empty req.public_addr) && not (valid_public_addr e.is_ip req.public_addr)
      then (fail bad_request, s)
      else (accepted, set_session s (record sess { public_addr = req.public_addr }))

  probe_to : World → Server → Session → Text → Option (Text × ℕ) → Response × Server
  probe_to w s sess nonce none = (fail probe_not_yours, s)
  probe_to w s sess nonce (some (ip, port)) =
      if not (is_own ip sess.udp)
      then (fail probe_not_yours, s)
      else if not w.probe_written
      then (fail server_error, s)
      else (accepted, emit (sent (probe nonce) (udp ip port)) s)

  probe_nonce : World → Server → Session → Option Text → Response × Server
  unfolding probe_to
  probe_nonce w s sess none = (fail bad_request, s)
  probe_nonce w s sess (some nonce) =
      let (allowed, limit) = allow s.probe_limit sess.id w.now in
      let s' : Server = record s { probe_limit = limit } in
      if is_empty sess.public_addr
      then (fail bad_request, s)
      else if not allowed
      then (fail rate_limited, s')
      else probe_to w s' sess nonce (e.resolve_udp sess.public_addr)

  -- sendProbe sends a test packet to the user's advertised address, if that has the user's own IP.
  unfoldable pub send_probe : World → Server → Session → Request → Response × Server
  unfolding probe_nonce
  send_probe w s sess req =
      if is_empty sess.user
      then (fail not_logged_in, s)
      else if not s.has_probe
      then (fail probe_off, s)
      else probe_nonce w s sess (parse_id req.nonce)
