-- ===== src/Client/Routes.antt =====
-- deliverMsg of main.go: where a contact can be reached, the relay sessions that are kept, and the
-- errors. `SendMessage` and the server's client are a record of functions.
use tarion.Base.{
  ℕ, ◌-◌, ◌*◌, Bool, true, false, not, ◌&&◌, Option, none, some, List, [], ◌∷◌, ◌++◌, ltb,
  if◌then◌else◌, Result, ok, err,
}
use tarion.Text.{Text, text, is_empty, str_eq}
use tarion.Text.Lower.{Unicode, to_lower}
use tarion.Dict.{Dict, get, put, delete}
use tarion.Storage.Held.{Held, HeldError}
use tarion.Storage.Peers.{Peer}
use tarion.Storage.Peers.Names.{short}
use tarion.Client.{
  Failure, revoked_peer, wrong_key, no_address_known, offline, unreachable, refused_by_peer,
  failure_text, second,
}

-- The answer to Lookup: a peer ID with the local addresses, the public one and the one that the server
-- saw, that the user is offline, or another error.
pub data LookedUp : Type 0 where
  known_to : Text → List Text → Text → Text → LookedUp
  user_offline no_answer_of : LookedUp

pub record PeerRelay : Type 0 where
  pub session_addr : Text
  pub session_peer : Text
  pub used : ℕ

-- An attempt that was made: where, for how long, for which key, which key answered, and how it ended.
pub record Try : Type 0 where
  pub at : Text
  pub timeout : ℕ
  pub want : Text
  pub answered_by : Text
  pub outcome : Option Failure

-- What `SendMessage` calls with the key of the peer: it may write the peer list. The time and what
-- writing gives stand first.
abbrev pub Check : Type 0
Check = ℕ → Option HeldError → Text → Held (List Peer) → Option Failure × Held (List Peer)

-- The world, with a state of its own: `SendMessage` of the message, which returns the key of the peer and
-- calls the check, `Relay` and `time.Now`.
pub record World (S : Type 0) : Type 0 where
  pub sent :
      S → Text → ℕ → Check → Held (List Peer) → Option Failure × (Text × (S × Held (List Peer)))
  pub relayed_by : S → Text → Result Text (Text × Text) × S
  pub clock : S → ℕ
  pub file_error_text : HeldError → Text

-- A delivery under way, with the attempts that were made, the last one first.
pub record Course (S : Type 0) : Type 0 where
  pub net : S
  pub pinned : Held (List Peer)
  pub relays : Dict PeerRelay
  pub tries : List Try

abbrev pub relay_memory : ℕ
relay_memory = 600 * second

abbrev pub relay_session_ttl : ℕ
relay_session_ttl = 90 * second

abbrev pub quick : ℕ
quick = 3 * second

abbrev pub revoked_error : Text → Failure
revoked_error name = revoked_peer (name ++ text " is banned on your server")

-- IdentityMismatchError.Error
unfoldable pub mismatch_text : Text → Text → Text → Text
mismatch_text name expected got =
    text "identity of "
    ++ name
    ++ text " changed (pinned "
    ++ short expected
    ++ text ", got "
    ++ short got
    ++ text
        "); refusing to send. If they really reinstalled, verify the new ID with them and run: tarion forget "
    ++ name

-- isIdentityErr
unfoldable pub is_final : Failure → Bool
is_final (revoked_peer t) = true
is_final (wrong_key t) = true
is_final (refused_by_peer reason t) = true
is_final _ = false

-- The error of an attempt after which no other is made, or none.
abbrev pub settled : Option Failure → Bool
settled none = true
settled (some f) = is_final f

-- relayedRecently
unfoldable pub relayed_recently : Unicode → ℕ → Dict PeerRelay → Text → Bool
relayed_recently u now relays name = elim (get relays (to_lower u name)) [
  | none ↦ false
  | some s ↦ ltb (now - s.used) relay_memory
]

-- relaySession
unfoldable pub relay_session : Unicode → ℕ → Dict PeerRelay → Text → Option PeerRelay
relay_session u now relays name = elim (get relays (to_lower u name)) [
  | none ↦ none
  | some s ↦
      if not (is_empty s.session_addr) && ltb (now - s.used) relay_session_ttl then some s else none
]

-- setRelaySession
unfoldable pub set_relay_session : Unicode → ℕ → Dict PeerRelay → Text → PeerRelay → Dict PeerRelay
set_relay_session u now relays name s = put relays (to_lower u name) (record s { used = now })

-- clearRelay
unfoldable pub clear_relay : Unicode → Dict PeerRelay → Text → Dict PeerRelay
clear_relay u relays name = delete relays (to_lower u name)

-- The addresses to try, the key that the server knows, and whether the server says that they are offline.
pub record Route : Type 0 where
  pub candidates : List Text
  pub dir_id : Text
  pub says_off : Bool

unfoldable pub route_of : LookedUp → Route
route_of (known_to id local_addrs public_addr addr) = record {
  candidates =
      local_addrs
      ++ ((if not (is_empty public_addr) && not (str_eq public_addr addr)
            then public_addr ∷ []
            else [])
          ++ (addr ∷ []));
  dir_id = id;
  says_off = false;
}
route_of user_offline = record { candidates = []; dir_id = []; says_off = true }
route_of no_answer_of = record { candidates = []; dir_id = []; says_off = false }

abbrev pub nowhere : Text → Bool → Failure
nowhere name off =
    if off
    then offline (name ++ text " is offline")
    else no_address_known (text "no address for " ++ name)

-- The addresses, or without any the one that is known.
unfoldable pub or_known : Text → Text → Text → Bool → List Text → Result Failure (List Text)
or_known name addr known off (c ∷ cs) = ok (c ∷ cs)
or_known name addr known off [] =
    let a = if is_empty addr then known else addr in
    if not (is_empty a) then ok (a ∷ []) else err (nowhere name off)

-- fmt.Errorf with %w: the kind of the error stays.
unfoldable pub reworded : Failure → Text → Failure
reworded (revoked_peer t) s = revoked_peer s
reworded (wrong_key t) s = wrong_key s
reworded (no_address_known t) s = no_address_known s
reworded (offline t) s = offline s
reworded (unreachable t) s = unreachable s
reworded (refused_by_peer reason t) s = refused_by_peer reason s

-- The last error with that of the relay.
unfoldable pub with_relay : Option Failure → Text → Failure
unfolding reworded
with_relay none t = unreachable (text "%!w(<nil>) (relay: " ++ t ++ text ")")
with_relay (some f) t = reworded f (failure_text f ++ text " (relay: " ++ t ++ text ")")

text_of : Option Failure → Text
text_of none = text "%!w(<nil>)"
text_of (some f) = failure_text f

unfoldable pub nothing_at : Text → Option Failure → Failure
unfolding text_of
nothing_at name last =
    offline (
      name ++ text " is offline (nothing at their last known address: " ++ text_of last ++ text ")")
