-- ===== src/Network/Examples.antt =====
-- Messages between clients at concrete inputs.
use tarion.Base.{
  ℕ, ◌≤◌, ◌≡◌, refl, true, Option, none, some, List, [], ◌∷◌, arith, if◌then◌else◌, ok,
}
use tarion.Text.{Text, text, str_eq}
use tarion.Dict.{get, put, delete}
use tarion.Net.{udp}
use tarion.Relay.Packets.{is_addr}
use tarion.Text.Search.{has_prefix}
use tarion.Network.{
  IncomingMessage, incoming_message, Meanwhile, marks, reads, Envelope, Inbox, make_room, mark_seen,
  unmark_seen, message_key, send_on,
}
use tarion.Network.Bounded.{Event, stream, reading, run, IsBounded, run-IsBounded}
use tarion.Network.Once.{
  message_key_of, Handlers, Move, begins, hands_over, gives_up, reader_takes, find_under_way,
  drop_under_way, move, move_all, all_calm, copies, NoneUnderWay, run-once,
}
use tarion.Network.Sending.{PeerConn, Attempt, resolve, live, outgoing_envelope, send_message}
use tarion.Network.Sending.Verified.{IsSending, send_message-IsSending}
use tarion.Network.Sending.Reaching.{IsReachable, IsHarmless, IsDelivered, send_message-IsDelivered}

abbrev hello : Envelope
hello = record {
  v = 2;
  kind = text "msg";
  id = text "m1";
  ts = 1;
  from = text "bob";
  body = text "hi";
  error = [];
}

abbrev empty_box : Inbox
empty_box = record { seen = []; waiting = [] }

abbrev bob_id : Text
bob_id = text "bob"

abbrev bob_message : IncomingMessage
bob_message = incoming_message bob_id [] hello

-- While Bob's stream is handled, the reader takes a message; then he sends it again.
abbrev busy_while : Meanwhile
busy_while = record { before_send = marks 5 (text "eve/m7") ∷ reads ∷ []; before_unmark = [] }

abbrev later : List Event
later =
    stream 9 bob_id [] none (ok hello) busy_while
    ∷ reading
    ∷ stream 12 bob_id [] none (ok hello) busy_while
    ∷ []

run-IsBounded_example : IsBounded (run empty_box later)
run-IsBounded_example = run-IsBounded empty_box later (omega arith, omega arith)

-- Bob's message was marked and sent, and waits for the reader.
abbrev acked : Handlers
acked =
    move_all (record { box = empty_box; under_way = [] })
      (begins 5 bob_message ∷ hands_over (message_key_of bob_message) ∷ [])

-- He sends it twice again, and both streams are handled at the same time.
abbrev again : List Move
again =
    begins 9 bob_message
    ∷ begins 10 bob_message
    ∷ hands_over (message_key_of bob_message)
    ∷ gives_up (message_key_of bob_message)
    ∷ reader_takes
    ∷ []

in_table : get acked.box.seen (message_key_of bob_message) ≡ some 5
unfolding move_all move mark_seen make_room get put delete message_key str_eq find_under_way send_on
    drop_under_way
in_table = refl

not_under_way : NoneUnderWay (message_key_of bob_message) acked.under_way
unfolding move_all move mark_seen make_room get put delete message_key str_eq find_under_way send_on
    drop_under_way
not_under_way = tt

calm : all_calm 5 acked again ≡ true
unfolding move_all move mark_seen make_room get put delete message_key str_eq find_under_way send_on
    drop_under_way all_calm unmark_seen
calm = refl

run-once_example :
    let w = move_all acked again in
    (get w.box.seen (message_key_of bob_message) ≡ some 5)
    × ((copies (message_key_of bob_message) w ≤ copies (message_key_of bob_message) acked)
        × NoneUnderWay (message_key_of bob_message) w.under_way)
run-once_example = run-once (message_key_of bob_message) 5 acked again in_table not_under_way calm

-- Bob's address, where he answers every message with an ack.
abbrev bob_conn : PeerConn
bob_conn = record { number = 1; peer = some bob_id }

abbrev ack_of : Envelope → Envelope
ack_of e = record hello { kind = text "ack"; id = e.id }

abbrev reaching : Attempt
reaching = record {
  alive = λ c. true;
  resolve_udp = λ addr. some (udp addr 9);
  dial = λ a. some bob_conn;
  answer = λ c e. some (ack_of e);
}

abbrev only_bob : Text → Option ℕ
only_bob p = if str_eq p (text "bob") then none else some 0

abbrev message_out : Envelope
message_out = outgoing_envelope only_bob (text "m1") 1 (text "al") (text "hi")

send_message-IsSending_example : IsSending only_bob message_out (reaching ∷ reaching ∷ []) 2 (
    send_message only_bob true reaching reaching []
      (text "m1")
      1
      (text "b:9")
      (text "al")
      (text "hi"))
send_message-IsSending_example =
    send_message-IsSending only_bob true reaching reaching [] (text "m1") 1 (text "b:9") (text "al")
      (text "hi")

is_bob : only_bob (text "bob") ≡ none
unfolding str_eq
is_bob = refl

reachable : IsReachable only_bob message_out (text "bob") (text "b:9") reaching
unfolding resolve is_addr has_prefix
reachable = (
  udp (text "b:9") 9,
  bob_conn,
  (refl, (refl, (refl, (ack_of message_out, (refl, (refl, refl)))))),
)

harmless :
    IsHarmless only_bob message_out
      (text "bob")
      (text "b:9")
      reaching
      (live reaching (get [] (text "b:9")))
unfolding live get
harmless = tt

send_message-IsDelivered_example : IsDelivered only_bob message_out (text "bob") (text "b:9") (
    send_message only_bob true reaching reaching []
      (text "m1")
      1
      (text "b:9")
      (text "al")
      (text "hi"))
send_message-IsDelivered_example =
    send_message-IsDelivered only_bob reaching reaching [] (text "m1") 1 (text "b:9") (text "al")
      (text "hi") (text "bob") refl refl refl is_bob reachable reachable harmless
