-- ===== src/Client/Deliver/Examples.antt =====
-- A delivery to Bob, over SendMessage of the network: nobody answers at the address in the local network,
-- and Bob answers at the other one.
use tarion.Base.{
  ◌≡◌, refl, ap, ◌⊎◌, inl, inr, true, Option, none, some, List, [], ◌∷◌, arith, if◌then◌else◌,
  found, err,
}
use tarion.Text.{Text, text, str_eq}
use tarion.Text.Lower.{equal_fold, is_ascii, lower_bytes, to_lower}
use tarion.Samples.{ascii_tables}
use tarion.Net.{udp}
use tarion.Dict.{Dict, get, put, delete}
use tarion.Storage.Held.{Held, held, load_list, save_list}
use tarion.Storage.Config.{default_config, enforces_server_bans, relay_enabled}
use tarion.Storage.Peers.{
  Peer, change_peer, find_peer, peer_by_name, pin_list, pin_outgoing, storable_addr,
}
use tarion.Network.{Envelope}
use tarion.Network.Sending.{
  PeerConn, Attempt, SendError, not_verified, rejected, outgoing_envelope, send_message, Ended,
  attempt, conn_to, drop_conn, live, resolve, send_loop, send_on_stream,
}
use tarion.Network.Sending.Verified.{AnyAcked, send_message-IsSending}
use tarion.Client.{
  Failure, refused_by_peer, unreachable, configured_id, is_revoked, known_addr, pinned_addr,
}
use tarion.Relay.Packets.{id_of, is_addr, parse_addr, parse_id}
use tarion.Text.Trim.{trim_space}
use tarion.Text.Utf8.{runes, valid_string}
use tarion.Text.Hex.{decode, hex_value}
use tarion.Text.Sets.{member}
use tarion.Storage.Peers.Names.{short}
use tarion.Proto.{valid_username}
use tarion.Text.Search.{has_prefix}
use tarion.Client.Routes.{
  LookedUp, known_to, Check, World, Course, clear_relay, is_final, or_known, relay_session,
  relayed_recently, route_of, set_relay_session,
}
use tarion.Client.Deliver.{
  route_to, deliver_msg, check_peer, deliver_routed, try_all, try_at, via_relay,
}
use tarion.Storage.Peers.Examples.{ascii-FoldLaws}
use tarion.Client.Deliver.Tries.{IsDelivery}
use tarion.Client.Deliver.Ended.{deliver_msg-IsDelivery}
use tarion.Client.Deliver.Accepted.{IsHonest, Reached, deliver_msg-Reached}

abbrev bob_conn : PeerConn
bob_conn = record { number = 1; peer = some (text "bobkey") }

abbrev ack_to : Envelope → Envelope
ack_to e = record e { kind = text "ack"; body = [] }

abbrev near : Attempt
near = record {
  alive = λ c. true;
  resolve_udp = λ addr. if str_eq addr (text "lan:1") then none else some (udp addr 9);
  dial = λ a. some bob_conn;
  answer = λ c e. some (ack_to e);
}

abbrev kind_of : SendError Failure → Failure
kind_of (not_verified f) = f
kind_of (rejected t) = refused_by_peer t t
kind_of _ = unreachable (text "not sent")

abbrev failure_of : Option (SendError Failure) → Option Failure
failure_of none = none
failure_of (some x) = some (kind_of x)

abbrev verify_with : Check → Held (List Peer) → Text → Option Failure
verify_with check file p = (check 1 none p file).0

abbrev send_to : Dict PeerConn → Text → Check → Held (List Peer) → Ended Failure
send_to conns cand check file =
    send_message (verify_with check file) true near near conns (text "m1") 1 cand (text "al")
      (text "hi")

abbrev net_world : World (Dict PeerConn)
net_world = record {
  sent = λ s cand timeout check file.
      let r = send_to s cand check file in
      (failure_of r.failed, (r.peer_id, (r.conns, (check 1 none r.peer_id file).1)));
  relayed_by = λ s name. (err (text "relay is off"), s);
  clock = λ s. 1;
  file_error_text = λ e. text "peer list";
}

failure_none : (x : Option (SendError Failure)) → failure_of x ≡ none → found x ≡ true → ⊥
failure_none none h f = absurd (ground (arith, f))
failure_none (some x) h f = cc

acked :
    (verify : Text → Option Failure) (e : Envelope) (p : Text) (x : Option (SendError Failure))
    → failure_of x ≡ none
    → (found x ≡ true) ⊎ AnyAcked verify e p (near ∷ near ∷ [])
    → verify p ≡ none
acked verify e p x h (inl f) = absurd (failure_none x h f)
acked verify e p x h (inr (inl (c, r, (cp, (v, a))))) = v
acked verify e p x h (inr (inr (inl (c, r, (cp, (v, a)))))) = v
acked verify e p x h (inr (inr (inr k))) = absurd k

first_none :
    {A : Type 0} (r : Option Failure × A) → r.0 ≡ none → ◌≡◌ {A = Option Failure × A} r (none, r.1)
first_none r h = ap (λ o. (o, r.1)) h

net_world-IsHonest : IsHonest net_world
net_world-IsHonest s cand timeout check file h =
    let r = send_to s cand check file in
    let verify = verify_with check file in
    let (sends, (most, ends)) =
      send_message-IsSending verify true near near s (text "m1") 1 cand (text "al") (text "hi") in
    let e = outgoing_envelope verify (text "m1") 1 (text "al") (text "hi") in
    (
      1,
      none,
      file,
      first_none (check 1 none r.peer_id file) (acked verify e r.peer_id r.failed h ends),
    )

abbrev lookup_bob : Text → LookedUp
lookup_bob name = known_to (text "bobkey") (text "lan:1" ∷ []) [] (text "b:9")

abbrev start : Course (Dict PeerConn)
start = record { net = []; pinned = held []; relays = []; tries = [] }

deliver_msg-IsDelivery_example :
    IsDelivery 4
      (deliver_msg ascii_tables default_config [] 9 net_world (text "bob") true lookup_bob [] start)
unfolding route_to route_of valid_username runes valid_string
deliver_msg-IsDelivery_example =
    deliver_msg-IsDelivery ascii_tables default_config [] 9 net_world (text "bob") true lookup_bob
      [] start refl

delivered :
    (deliver_msg ascii_tables default_config [] 9 net_world (text "bob") true lookup_bob [] start).0
    ≡ none
unfolding peer_by_name load_list find_peer configured_id default_config or_known route_to route_of
    valid_username runes valid_string deliver_routed relay_enabled try_all try_at send_message
    check_peer clear_relay is_final relay_session relayed_recently set_relay_session via_relay
    is_revoked known_addr pinned_addr attempt conn_to drop_conn live resolve send_loop
    send_on_stream id_of is_addr parse_addr parse_id enforces_server_bans save_list short
    change_peer pin_list pin_outgoing storable_addr decode hex_value equal_fold is_ascii lower_bytes
    to_lower has_prefix member trim_space deliver_msg str_eq get put delete
delivered = refl

deliver_msg-Reached_example :
    Reached ascii_tables default_config []
      (text "bob")
      (deliver_msg ascii_tables default_config [] 9 net_world
        (text "bob")
        true
        lookup_bob
        []
        start).1
deliver_msg-Reached_example =
    deliver_msg-Reached ascii_tables default_config [] 9 net_world (text "bob") true lookup_bob []
      start ascii-FoldLaws net_world-IsHonest refl delivered
