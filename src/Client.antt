-- ===== src/Client.antt =====
-- main.go: the rules of a running client. Whom it accepts messages from, which failures are worth
-- another try, and how it names and reaches contacts.
pub mod Routes
pub mod Deliver
pub mod Flush
pub mod Fates
pub mod InOrder
pub mod NothingLost
pub mod Fetch
pub mod Handled
pub mod Examples
use tarion.Base.{
  ℕ, ◌+◌, ◌-◌, ◌*◌, Bool, true, false, not, ◌&&◌, ◌||◌, Option, none, some, List, [], ◌∷◌, ltb, leb,
  ◌==◌, if◌then◌else◌, found, keep, all_by,
}
use tarion.Text.{Text, text, str_eq, is_empty}
use tarion.Text.Lower.{Unicode, to_lower, equal_fold}
use tarion.Text.Sets.{member, add}
use tarion.Text.Trim.{trim_space}
use tarion.Storage.Held.{Held}
use tarion.Storage.Config.{
  Config, Contact, enforces_server_bans, mailbox_enabled, default_port, save_revoked,
}
use tarion.Storage.Peers.{Peer, peer_by_name, peer_by_id}

-- The banned keys are kept in lower case.
unfoldable pub is_revoked : Unicode → Config → List Text → Text → Bool
is_revoked u cfg revoked id =
    if not (enforces_server_bans cfg) then false else member (to_lower u id) revoked

lower_all : Unicode → List Text → List Text
lower_all u [] = []
lower_all u (k ∷ ks) = add (to_lower u k) (lower_all u ks)

-- setRevoked: the set, and the file of banned keys.
unfoldable pub set_revoked :
    Unicode → Bool → Option (List Text) → List Text → List Text × Option (List Text)
unfolding lower_all
set_revoked u written file keys = (lower_all u keys, (save_revoked written file keys).0)

-- strings.ReplaceAll(s, " ", "")
abbrev pub without_blanks : Text → Text
without_blanks s = keep (λ b. not (b == b' ')) s

-- Why a message is refused.
pub data Refusal : Type 0 where
  banned_here contacts_only : Refusal

is_contact_id : Unicode → List Contact → Text → Bool
is_contact_id u cs id = not (all_by (λ c. not (equal_fold u (without_blanks c.contact_id) id)) cs)

-- acceptFor, applied to a peer.
unfoldable pub accept_for : Unicode → Config → Held (List Peer) → Text → Option Refusal
unfolding is_contact_id
accept_for u cfg peers id =
    if not (str_eq cfg.accept_rule (text "contacts"))
    then none
    else if is_contact_id u cfg.contacts id || found (peer_by_id u peers id)
    then none
    else some contacts_only

-- acceptRule
unfoldable pub accept_rule_for :
    Unicode → Config → List Text → Held (List Peer) → Text → Option Refusal
accept_rule_for u cfg revoked peers id =
    if is_revoked u cfg revoked id then some banned_here else accept_for u cfg peers id

-- configuredID
unfoldable pub configured_id : Unicode → List Contact → Text → Text
configured_id u [] name = []
configured_id u (c ∷ cs) name =
    let rest = configured_id u cs name in
    if equal_fold u c.contact_name name then without_blanks (trim_space c.contact_id) else rest

abbrev addr_of : Option Peer → Text
addr_of none = []
addr_of (some p) = p.addr

-- pinnedAddr
unfoldable pub pinned_addr : Unicode → Held (List Peer) → Text → Text
pinned_addr u peers name = addr_of (peer_by_name u peers name)

-- knownAddr
unfoldable pub known_addr : Unicode → List Contact → Held (List Peer) → Text → Text
known_addr u [] peers name = pinned_addr u peers name
known_addr u (c ∷ cs) peers name =
    let rest = known_addr u cs peers name in
    if equal_fold u c.contact_name name && not (is_empty c.contact_addr)
    then c.contact_addr
    else rest

-- controlPort
unfoldable pub control_port_of : Config → ℕ
control_port_of cfg =
    let port = if cfg.port == 0 then default_port else cfg.port in
    if not (cfg.control_port == 0)
    then cfg.control_port
    else if ltb 65535 (port + 10000)
    then port - 10000
    else port + 10000

-- senderName, with what os.Hostname gives.
unfoldable pub sender_name : Config → Option Text → Text
sender_name cfg host =
    if not (is_empty (trim_space cfg.username)) then trim_space cfg.username else elim host [
      | none ↦ text "tarion-peer"
      | some h ↦ if is_empty (trim_space h) then text "tarion-peer" else trim_space h
    ]

-- Why a message was not delivered: the contact is banned, another key answered, the peer refused it with a
-- reason, there is nowhere to look for the contact, the server says that they are offline, or another
-- failure, each with the text of the error.
pub data Failure : Type 0 where
  revoked_peer wrong_key no_address_known offline unreachable : Text → Failure
  refused_by_peer : Text → Text → Failure

abbrev pub failure_text : Failure → Text
failure_text (revoked_peer t) = t
failure_text (wrong_key t) = t
failure_text (no_address_known t) = t
failure_text (offline t) = t
failure_text (unreachable t) = t
failure_text (refused_by_peer reason t) = t

-- retryable; `has_dir` says whether there is a server.
unfoldable pub retryable : Bool → Failure → Bool
retryable has_dir (revoked_peer t) = false
retryable has_dir (wrong_key t) = false
retryable has_dir (refused_by_peer reason t) = str_eq reason (text "receiver busy")
retryable has_dir (no_address_known t) = has_dir
retryable has_dir (offline t) = true
retryable has_dir (unreachable t) = true

-- mailboxOn
unfoldable pub mailbox_on : Bool → Config → Bool
mailbox_on has_dir cfg = has_dir && mailbox_enabled cfg

abbrev pub second : ℕ
second = 1_000_000_000

abbrev pub mailbox_grace : ℕ
mailbox_grace = 60 * second

abbrev is_offline : Failure → Bool
is_offline (offline t) = true
is_offline _ = false

-- useMailbox, at a time, for a message that waits since another.
unfoldable pub use_mailbox : Bool → Config → ℕ → Failure → ℕ → Bool
use_mailbox has_dir cfg now f since =
    mailbox_on has_dir cfg && (is_offline f || leb mailbox_grace (now - since))
