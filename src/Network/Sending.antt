-- ===== src/Network/Sending.antt =====
-- Sending of internal/network/quic.go: connections to peers, and a message with its answer. What the
-- world does during an attempt is a record of functions.
pub mod Verified
pub mod Reaching
use tarion.Base.{
  ℕ, Bool, true, false, not, ◌&&◌, ◌||◌, Option, none, some, List, [], ◌∷◌, ◌++◌, map, ltb, ◌==◌,
  if◌then◌else◌, length, take,
}
use mathlib.Core.Option
use tarion.Text.{Text, text, str_eq, is_empty}
use tarion.Text.Trim.{trim_space}
use tarion.Text.Hex
use tarion.Dict.{Dict, get, put, delete}
use tarion.Net.{Addr, relayed}
use tarion.Relay.Packets.{is_addr, parse_addr}
use tarion.Network.{protocol_version, max_body_bytes, max_name_bytes, max_id_bytes, Envelope}

-- A connection, with its number and the peer ID of its certificates, where they have one.
pub record PeerConn : Type 0 where
  pub number : ℕ
  pub peer : Option Text

-- An attempt: which connections are alive, what `net.ResolveUDPAddr` and the dialing of an address give,
-- and what is read as the answer to a message, if anything is.
pub record Attempt : Type 0 where
  pub alive : PeerConn → Bool
  pub resolve_udp : Text → Option Addr
  pub dial : Addr → Option PeerConn
  pub answer : PeerConn → Envelope → Option Envelope

pub data SendError (E : Type 0) : Type 0 where
  not_started no_address no_message message_too_large bad_message_id : SendError E
  not_dialed no_identity no_answer : SendError E
  not_verified : E → SendError E
  rejected : Text → SendError E

-- resolve
unfoldable pub resolve : Attempt → Text → Option Addr
resolve w addr = if is_addr addr then Option.map relayed (parse_addr addr) else w.resolve_udp addr

-- A cached connection that is alive.
unfoldable pub live : Attempt → Option PeerConn → Option PeerConn
live w none = none
live w (some c) = if w.alive c then some c else none

dial_to : Attempt → Option Addr → Option PeerConn
dial_to w none = none
dial_to w (some a) = w.dial a

-- The connection, whether it is a cached one, and the connections kept then.
abbrev pub Connected : Type 0
Connected = Option (PeerConn × Bool) × Dict PeerConn

dialed : Text → Dict PeerConn → Option PeerConn → Connected
dialed addr conns none = (none, conns)
dialed addr conns (some c) = (some (c, false), put conns addr c)

reuse : Attempt → Text → Dict PeerConn → Option PeerConn → Connected
unfolding dialed dial_to
reuse w addr conns (some c) = (some (c, true), conns)
reuse w addr conns none = dialed addr conns (dial_to w (resolve w addr))

-- conn
unfoldable pub conn_to : Attempt → Text → Bool → Dict PeerConn → Connected
unfolding live reuse
conn_to w addr fresh conns = reuse w addr conns (if fresh then none else live w (get conns addr))

-- dropConn: the connection is forgotten if it is the one that is kept.
drop_found : Text → PeerConn → Option PeerConn → Dict PeerConn → Dict PeerConn
drop_found addr c none conns = conns
drop_found addr c (some old) conns = if old.number == c.number then delete conns addr else conns

unfoldable pub drop_conn : Text → PeerConn → Dict PeerConn → Dict PeerConn
unfolding drop_found
drop_conn addr c conns = drop_found addr c (get conns addr) conns

-- sendOnStream: none where the peer acknowledged the message.
check_answer : {E : Type 0} → Envelope → Option Envelope → Option (SendError E)
check_answer e none = some no_answer
check_answer e (some r) =
    if not (str_eq r.kind (text "ack")) || not (str_eq r.id e.id)
    then some (rejected (if is_empty r.error then text "unexpected reply " ++ r.kind else r.error))
    else none

unfoldable pub send_on_stream : {E : Type 0} → Attempt → PeerConn → Envelope → Option (SendError E)
unfolding check_answer
send_on_stream w c e = check_answer e (w.answer c e)

abbrev pub is_rejected : {E : Type 0} → SendError E → Bool
is_rejected (rejected r) = true
is_rejected _ = false

-- How an attempt ends: with the peer ID and the error that are returned, or with an error after which
-- another attempt is made; the connections kept then, and what was sent to whom.
pub record Ended (E : Type 0) : Type 0 where
  pub again : Bool
  pub peer_id : Text
  pub failed : Option (SendError E)
  pub conns : Dict PeerConn
  pub sends : List (Text × Envelope)

module _ {E : Type 0} (verify : Text → Option E) where
  answered :
      Text → Envelope → Text → PeerConn → Bool → Dict PeerConn → Option (SendError E) → Ended E
  answered addr e p c cached conns none = record {
    again = false;
    peer_id = p;
    failed = none;
    conns = conns;
    sends = (p, e) ∷ [];
  }
  answered addr e p c cached conns (some x) = record {
    again = cached && not (is_rejected x);
    peer_id = p;
    failed = some x;
    conns = drop_conn addr c conns;
    sends = (p, e) ∷ [];
  }

  checked : Attempt → Text → Envelope → Text → PeerConn → Bool → Dict PeerConn → Option E → Ended E
  unfolding answered
  checked w addr e p c cached conns (some x) = record {
    again = false;
    peer_id = p;
    failed = some (not_verified x);
    conns = drop_conn addr c conns;
    sends = [];
  }
  checked w addr e p c cached conns none = answered addr e p c cached conns (send_on_stream w c e)

  identified : Attempt → Text → Envelope → PeerConn → Bool → Dict PeerConn → Option Text → Ended E
  unfolding checked
  identified w addr e c cached conns none = record {
    again = false;
    peer_id = [];
    failed = some no_identity;
    conns = drop_conn addr c conns;
    sends = [];
  }
  identified w addr e c cached conns (some p) = checked w addr e p c cached conns (verify p)

  connected : Attempt → Text → Envelope → Connected → Ended E
  unfolding identified
  connected w addr e (none, conns) = record {
    again = false;
    peer_id = [];
    failed = some not_dialed;
    conns = conns;
    sends = [];
  }
  connected w addr e (some (c, cached), conns) = identified w addr e c cached conns c.peer

  -- One round of the loop of SendMessage.
  unfoldable pub attempt : Attempt → Text → Envelope → Bool → Dict PeerConn → Ended E
  unfolding connected
  attempt w addr e fresh conns = connected w addr e (conn_to w addr fresh conns)

  -- The loop, over the attempts that are left, after an error.
  unfoldable pub send_loop :
      List Attempt → Text → Envelope → Bool → Dict PeerConn → Option (SendError E) → Ended E
  send_loop [] addr e fresh conns last = record {
    again = false;
    peer_id = [];
    failed = last;
    conns = conns;
    sends = [];
  }
  send_loop (w ∷ ws) addr e fresh conns last =
      let r = attempt w addr e fresh conns in
      let rest = send_loop ws addr e true r.conns r.failed in
      if r.again then record rest { sends = r.sends ++ rest.sends } else r

  abbrev failure : Dict PeerConn → SendError E → Ended E
  failure conns x = record {
    again = false;
    peer_id = [];
    failed = some x;
    conns = conns;
    sends = [];
  }

  -- The message that is sent; a name that is too long is cut.
  abbrev pub outgoing_envelope : Text → ℕ → Text → Text → Envelope
  outgoing_envelope id sent from body = record {
    v = protocol_version;
    kind = text "msg";
    id = id;
    ts = sent;
    from = take max_name_bytes (trim_space from);
    body = body;
    error = [];
  }

  -- SendMessage, with the two attempts that it may make.
  unfoldable pub send_message :
      Bool → Attempt → Attempt → Dict PeerConn → Text → ℕ → Text → Text → Text → Ended E
  send_message started w1 w2 conns id sent addr from body =
      if not started
      then failure conns not_started
      else if is_empty addr
      then failure conns no_address
      else if is_empty body
      then failure conns no_message
      else if ltb max_body_bytes (length body)
      then failure conns message_too_large
      else if is_empty id || ltb max_id_bytes (length id)
      then failure conns bad_message_id
      else send_loop (w1 ∷ w2 ∷ []) addr (outgoing_envelope id sent from body) false conns none

-- NewMessageID, of the sixteen bytes that are drawn.
unfoldable pub new_message_id : Text → Text
new_message_id drawn = Hex.encode drawn
