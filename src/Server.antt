-- ===== src/Server.antt =====
-- server/server.go: the directory server. A handler is a function of the server's state and of what the
-- world decides while it runs, and gives the response and the next state. The two halves of an account
-- operation run one after the other here; Accounts has what holds when others come between.
pub mod Connections
pub mod Moves
pub mod Login
pub mod Directory
pub mod Forwarding
pub mod Passwords
pub mod Letters
pub mod Handle
pub mod Examples
use tarion.Base.{ℕ, ◌*◌, Bool, false, Option, none, some, List, [], ◌∷◌, ◌++◌, ltb, if◌then◌else◌}
use tarion.Text.{Text}
use tarion.Text.Lower.{Unicode}
use tarion.Dict.{Dict, get, put}
use tarion.Net.{Addr}
use tarion.Limiter.{Limiter, new_limiter, new_byte_limiter}
use tarion.Mailbox.{MailboxStore}
use tarion.Passwords.{PasswordScheme}
use tarion.Accounts.{Accounts}
use tarion.Access.{Registration, reg_open}
use tarion.Access.Bans.{BanList, BanFile}
use tarion.Proto.{CloseCode, default_min_password}
use tarion.Proto.Messages.{Push}

-- What the server takes from libraries: Unicode tables, the parsing of IPs, name resolution, the strings
-- of UDP addresses, ed25519 and the password hashes.
pub record Env : Type 0 where
  pub unicode : Unicode
  pub map_upper : Text → Text
  pub is_ip : Text → Bool
  pub resolve_udp : Text → Option (Text × ℕ)
  pub udp_string : Text → ℕ → Text
  pub ed25519_verify : Text → Text → Text → Bool
  pub scheme : PasswordScheme

-- What the world decides while one handler runs: the time in nanoseconds, which files could be written or
-- removed, the random draws, and what a look at the ban file gives.
pub record World : Type 0 where
  pub now : ℕ
  pub accounts_written : Bool
  pub invite_written : Bool
  pub deletion_removed : Bool
  pub mailbox_written : Bool
  pub mailbox_removed : Bool
  pub probe_written : Bool
  pub salt : Option Text
  pub letter_id : Option Text
  pub relay_id : Text
  pub ban_file : BanFile

pub record Options : Type 0 where
  pub registration : Registration
  pub min_password : ℕ
  pub relay : Bool
  pub relay_rate : ℕ
  pub relay_total : ℕ
  pub max_relays_per_user : ℕ
  pub mailbox : Bool
  pub mailbox_days : ℕ

pub record Session : Type 0 where
  pub id : Text
  pub peer_id : Text
  pub pub_key : Text
  pub ip : Text
  pub addr : Text
  pub udp : Addr
  pub user : Text
  pub local_addrs : List Text
  pub public_addr : Text
  pub accept_relay : Bool
  pub is_open : Bool

-- The members are IDs of sessions.
pub record RelaySession : Type 0 where
  pub a : Text
  pub b : Text
  pub last : ℕ

-- What the server sends, besides responses: pushes, closes of connections, and datagrams.
pub data Effect : Type 0 where
  pushed : Text → Push → Effect
  closed : Text → CloseCode → Effect
  sent : Text → Addr → Effect

-- `objects` has the session of every connection by its ID; a `*session` of the source is an ID here.
pub record Server : Type 0 where
  pub accounts : Accounts
  pub opts : Options
  pub bans : BanList
  pub invites : List Text
  pub deletions : List Text
  pub objects : Dict Session
  pub sessions : Dict Text
  pub conns_per_ip : Dict ℕ
  pub active : ℕ
  pub conn_limit : Limiter
  pub auth_limit : Limiter
  pub user_limit : Limiter
  pub reg_limit : Limiter
  pub req_limit : Limiter
  pub punch_limit : Limiter
  pub next_id : ℕ
  pub has_probe : Bool
  pub probe_limit : Limiter
  pub relays : Dict RelaySession
  pub relay_rate : Limiter
  pub relay_total : Limiter
  pub mailbox : Option MailboxStore
  pub mail_limit : Limiter
  pub effects : List Effect

abbrev pub default_options : Options
default_options = record {
  registration = reg_open;
  min_password = default_min_password;
  relay = false;
  relay_rate = 256 * 1024;
  relay_total = 8 * 1024 * 1024;
  max_relays_per_user = 8;
  mailbox = false;
  mailbox_days = 7;
}

abbrev pub or_default : ℕ → ℕ → ℕ
or_default n d = if ltb n 1 then d else n

abbrev pub seconds : ℕ → ℕ
seconds n = n * 1_000_000_000

-- NewServer's defaults. Where the source has an empty registration mode, which stands for the open one,
-- the mode is `reg_open` here.
unfoldable pub with_defaults : Options → Options
with_defaults o = record o {
  min_password = or_default o.min_password default_min_password;
  relay_rate = or_default o.relay_rate default_options.relay_rate;
  relay_total = or_default o.relay_total default_options.relay_total;
  max_relays_per_user = or_default o.max_relays_per_user default_options.max_relays_per_user;
  mailbox_days = or_default o.mailbox_days default_options.mailbox_days;
}

-- The mailbox, if the operator turned it on and gave it a directory with these folders.
abbrev pub new_mailbox : Options → Option MailboxStore → Option MailboxStore
new_mailbox o none = none
new_mailbox o (some folders) =
    if o.mailbox
    then some (record {
      max_items = 200;
      max_bytes = 4 * 1024 * 1024;
      per_peer = 50;
      keep_time = o.mailbox_days * 24 * seconds 3600;
      users = folders.users;
      disk = folders.disk;
    })
    else none

unfoldable pub new_server :
    Options → Accounts → BanList → List Text → List Text → Option MailboxStore → Server
unfolding with_defaults
new_server opts accounts bans invites deletions folders =
    let o = with_defaults opts in
    record {
      accounts = accounts;
      opts = o;
      bans = bans;
      invites = invites;
      deletions = deletions;
      objects = [];
      sessions = [];
      conns_per_ip = [];
      active = 0;
      conn_limit = new_limiter (seconds 2) 20;
      auth_limit = new_limiter (seconds 10) 10;
      user_limit = new_limiter (seconds 30) 10;
      reg_limit = new_limiter (seconds 600) 3;
      req_limit = new_limiter 500_000_000 30;
      punch_limit = new_limiter (seconds 2) 3;
      next_id = 0;
      has_probe = false;
      probe_limit = new_limiter (seconds 10) 3;
      relays = [];
      relay_rate = new_byte_limiter o.relay_rate;
      relay_total = new_byte_limiter o.relay_total;
      mailbox = new_mailbox o folders;
      mail_limit = new_limiter (seconds 6) 20;
      effects = [];
    }

-- The session that stands for an account key.
unfoldable pub session_of : Server → Text → Option Session
session_of s key = elim (get s.sessions key) [ none ↦ none | some id ↦ get s.objects id ]

unfoldable pub set_session : Server → Session → Server
set_session s sess = record s { objects = put s.objects sess.id sess }

abbrev pub emit : Effect → Server → Server
emit e s = record s { effects = s.effects ++ e ∷ [] }
