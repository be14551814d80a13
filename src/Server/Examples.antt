-- ===== src/Server/Examples.antt =====
-- The server at concrete inputs: two users who are online, and a relay between them.
use tarion.Base.{
  ◌*◌, ◌≤◌, ◌≡◌, refl, ◌≢◌, true, false, none, some, List, [], ◌∷◌, arith, found, length,
}
use tarion.Text.{Text, text, str_eq}
use tarion.Text.Lower.{to_lower, is_ascii, lower_bytes}
use tarion.Text.Sets.{member}
use tarion.Text.Utf8.{runes, valid_string}
use tarion.Dict.{get}
use tarion.Net.{udp, relayed, ip_equal, to4}
use tarion.Limiter.{Limiter, allow, allow_n, bucket_of, refill}
use tarion.Accounts.{
  Account, get_account, login_key, save, key_found, check_password, check_found, delete_account,
}
use tarion.Access.Bans.{banned, refresh, is_banned}
use tarion.Proto.{name_key, valid_username}
use tarion.Proto.Messages.{
  Request, empty_request, op_login, op_probe, op_delete_account, op_mailbox_put, op_mailbox_fetch,
}
use tarion.Relay.Packets.{wrap}
use tarion.Relay.Conn.{Conn, from_server, read_packet, write_to}
use tarion.Samples.{ascii_tables, sample_env, sample_world, sample_session, low_cost}
use tarion.Server.{Server, Session, RelaySession, default_options, session_of, sent}
use tarion.Server.Connections.Counted.{ConnEvent, arrives, ends, run, IsCounted, run-IsCounted}
use tarion.Server.Directory.{send_probe}
use tarion.Server.Directory.Probes.{ProbesOwn, send_probe-ProbesOwn}
use tarion.Server.Login.{login, logged_in, bind, bound}
use tarion.Server.Login.Bound.{Proven, login-Proven, session_of-bind}
use tarion.Server.Forwarding.{buffer_size, in_buffer, forward, member_addr}
use tarion.Server.Forwarding.Members.{Forwarded, forward-Forwarded}
use tarion.Server.Forwarding.Delivery.{IsAllowed, forward-delivery}
use tarion.Mailbox.{read_letters, Disk}
use tarion.Mailbox.Examples.{good_disk, good-AllRead}
use tarion.Server.Handle.Limits.{Work, asks, ticks, serve, HasLimits, serve-HasLimits}
use tarion.Server.Passwords.{delete_user, delete_op, delete_checked, password_check}
use tarion.Server.Passwords.Deleted.{IsDeleted, delete_user-IsDeleted}

abbrev full_limit : Limiter
full_limit = record { scale = 1_000_000_000; gain = 1; burst = 5000; buckets = [] }

abbrev alice : Account
alice = record { name = text "Alice"; hash = text "secret"; peer_id = text "k1"; created = 3 }

abbrev alice_session : Session
alice_session = sample_session (text "1") (text "Alice") (text "k1")

abbrev bob_session : Session
bob_session = sample_session (text "22") (text "Bob") (text "k2")

abbrev relay_id : Text
relay_id = 1 ∷ 2 ∷ 3 ∷ 4 ∷ 5 ∷ 6 ∷ 7 ∷ 8 ∷ []

abbrev relay : RelaySession
relay = record { a = text "1"; b = text "22"; last = 4 }

abbrev server : Server
server = record {
  accounts = record { by_key = (text "alice", alice) ∷ []; params = low_cost; saved = alice ∷ [] };
  opts = default_options;
  bans = record { mod_time = none; size = 0; names = []; keys = [] };
  invites = [];
  deletions = [];
  objects = (text "1", alice_session) ∷ (text "22", bob_session) ∷ [];
  sessions = (text "alice", text "1") ∷ (text "bob", text "22") ∷ [];
  conns_per_ip = [];
  active = 0;
  conn_limit = full_limit;
  auth_limit = full_limit;
  user_limit = full_limit;
  reg_limit = full_limit;
  req_limit = full_limit;
  punch_limit = full_limit;
  next_id = 2;
  has_probe = true;
  probe_limit = full_limit;
  relays = (relay_id, relay) ∷ [];
  relay_rate = full_limit;
  relay_total = full_limit;
  mailbox = none;
  mail_limit = full_limit;
  effects = [];
}

abbrev new_session : Session
new_session = sample_session (text "333") [] (text "k1")

abbrev login_request : Request
login_request = record (empty_request op_login) { user = text "ALICE" }

was_ok : (login sample_env sample_world server new_session login_request).0.is_ok ≡ true
unfolding login banned refresh is_banned logged_in login_key key_found get_account get name_key
    to_lower is_ascii lower_bytes valid_username runes valid_string str_eq bind member
was_ok = refl

login-Proven_example : Proven sample_env sample_world server new_session login_request
login-Proven_example = login-Proven sample_env sample_world server new_session login_request was_ok

session_of-bind_example :
    let s' = (bind sample_env sample_world server new_session (text "Alice") login_request).1 in
    (session_of s' (name_key ascii_tables (text "Alice"))
      ≡ some (bound sample_env new_session (text "Alice") login_request))
    × (str_eq (name_key ascii_tables (text "Alice")) (text "bob") ≡ false
        → get s'.sessions (text "bob") ≡ get server.sessions (text "bob"))
session_of-bind_example =
    session_of-bind sample_env sample_world server new_session (text "Alice") login_request
      (text "bob")

forward-Forwarded_example :
    Forwarded sample_env server alice_session.udp
      (in_buffer (wrap relay_id (text "hi")))
      (forward sample_env server alice_session.udp (wrap relay_id (text "hi")) 9).effects
forward-Forwarded_example =
    forward-Forwarded sample_env server alice_session.udp (wrap relay_id (text "hi")) 9

abbrev client : Conn
client = record {
  server = some (192 ∷ 0 ∷ 2 ∷ 1 ∷ [], 63425);
  sessions = (relay_id, 5) ∷ [];
  strict = false;
  probes = [];
  closed = [];
}

hi_ne : text "hi" ≢ []
hi_ne e = cc

relay_entry : get server.relays relay_id ≡ some relay
unfolding get str_eq
relay_entry = refl

alice_addr : member_addr server relay.a ≡ some (udp (10 ∷ 0 ∷ 0 ∷ 1 ∷ []) 1)
unfolding member_addr get str_eq
alice_addr = refl

bob_addr : member_addr server relay.b ≡ some (udp (10 ∷ 0 ∷ 0 ∷ 1 ∷ []) 2)
unfolding member_addr get str_eq
bob_addr = refl

allowed : IsAllowed sample_env server relay_id (length (wrap relay_id (text "hi"))) 9
unfolding allow_n bucket_of refill get wrap
allowed = (refl, refl)

hi_fits : length (wrap relay_id (text "hi")) ≤ buffer_size
unfolding wrap
hi_fits = omega arith

from_relay : from_server client (udp (192 ∷ 0 ∷ 2 ∷ 1 ∷ []) 63425) ≡ true
unfolding from_server ip_equal to4 str_eq
from_relay = refl

client_knows : found (get client.sessions relay_id) ≡ true
unfolding get str_eq
client_knows = refl

forward-delivery_example :
    let pkt = wrap relay_id (text "hi") in
    (write_to client (text "hi") (relayed relay_id) ≡ some (pkt, udp (192 ∷ 0 ∷ 2 ∷ 1 ∷ []) 63425))
    × ((forward sample_env server (udp (10 ∷ 0 ∷ 0 ∷ 1 ∷ []) 1) pkt 9).effects
        ≡ sent pkt (udp (10 ∷ 0 ∷ 0 ∷ 1 ∷ []) 2) ∷ [])
    × ((read_packet client pkt (udp (192 ∷ 0 ∷ 2 ∷ 1 ∷ []) 63425) 11).0
        ≡ some (text "hi", relayed relay_id))
forward-delivery_example =
    forward-delivery sample_env server client client (10 ∷ 0 ∷ 0 ∷ 1 ∷ []) (192 ∷ 0 ∷ 2 ∷ 1 ∷ []) 1
      63425 relay_id (text "hi") 9 11 (udp (10 ∷ 0 ∷ 0 ∷ 1 ∷ []) 2) relay refl hi_ne hi_fits
      relay_entry alice_addr bob_addr allowed refl from_relay client_knows

abbrev arrivals : List ConnEvent
arrivals = arrives (text "a") 5 ∷ arrives (text "b") 6 ∷ ends (text "a") ∷ arrives (text "a") 7 ∷ []

none_open : IsCounted server []
unfolding get
none_open = record {
  total = refl;
  total_le = omega arith;
  each = λ ip. refl;
  each_le = λ ip. omega arith;
}

run-IsCounted_example : IsCounted (run (server, []) arrivals).0 (run (server, []) arrivals).1
run-IsCounted_example = run-IsCounted (server, []) arrivals none_open

send_probe-ProbesOwn_example :
    ProbesOwn sample_env server alice_session
      (text "0102030405060708")
      (send_probe sample_env sample_world server alice_session
        (record (empty_request op_probe) { nonce = text "0102030405060708" })).1.effects
send_probe-ProbesOwn_example =
    send_probe-ProbesOwn sample_env sample_world server alice_session
      (record (empty_request op_probe) { nonce = text "0102030405060708" })

abbrev delete_request : Request
delete_request = record (empty_request op_delete_account) { pass = text "secret" }

deletes : (delete_user sample_env sample_world server alice_session delete_request).0.is_ok ≡ true
unfolding delete_user password_check delete_op delete_checked check_password check_found get_account
    delete_account allow allow_n bucket_of refill get name_key to_lower is_ascii lower_bytes str_eq
    save
deletes = refl

delete_user-IsDeleted_example :
    (alice_session.user ≢ [])
    × (check_password ascii_tables sample_env.scheme server.accounts (text "Alice") (text "secret")
        ≡ none)
    × IsDeleted sample_env server
        (delete_user sample_env sample_world server alice_session delete_request).1
        (text "Alice")
delete_user-IsDeleted_example =
    delete_user-IsDeleted sample_env sample_world server alice_session delete_request deletes

-- A server with an empty mailbox of the usual limits.
abbrev with_mailbox : Server
with_mailbox = record server {
  mailbox = some (record {
    max_items = 200;
    max_bytes = 4 * 1024 * 1024;
    per_peer = 50;
    keep_time = 604_800_000_000_000;
    users = [];
    disk = good_disk;
  });
}

abbrev mailbox_work : List (Disk × Work)
mailbox_work =
    (
      good_disk,
      asks sample_world alice_session
          (record (empty_request op_mailbox_put) { target = text "bob"; sealed = 1 ∷ [] }),
    )
    ∷ (good_disk, ticks 1_000_000_000_000)
    ∷ (good_disk, asks sample_world alice_session (empty_request op_mailbox_fetch))
    ∷ []

empty-HasLimits : HasLimits sample_env with_mailbox.mailbox
unfolding read_letters get
empty-HasLimits dir = record {
  items = omega arith;
  bytes = omega arith;
  senders = λ s. omega arith;
}

serve-HasLimits_example : HasLimits sample_env (serve sample_env with_mailbox mailbox_work).mailbox
serve-HasLimits_example =
    serve-HasLimits sample_env with_mailbox mailbox_work
      (good-AllRead, (good-AllRead, (good-AllRead, tt))) empty-HasLimits
