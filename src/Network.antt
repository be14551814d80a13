-- ===== src/Network.antt =====
-- internal/network/quic.go: messages between clients. This module has what is received: the checks of a
-- message, the table of the messages seen, and the answer to each. Times count nanoseconds.
pub mod Seen
pub mod Bounded
pub mod Once
pub mod Sending
pub mod Examples
use tarion.Base.{
  ℕ, ◌-◌, ◌*◌, Bool, true, false, not, ◌||◌, Option, none, some, List, [], ◌∷◌, ◌++◌, ltb, leb,
  ◌==◌, if◌then◌else◌, length, drop, Result, ok, err,
}
use tarion.Text.{Text, text, str_eq, is_empty}
use tarion.Text.Utf8.{valid_string}
use tarion.Text.Trim.{trim_space}
use tarion.Dict.{Dict, get, put, delete, retain}
use tarion.Wire.{FrameError}

abbrev pub protocol_version : ℕ
protocol_version = 2

abbrev pub max_body_bytes : ℕ
max_body_bytes = 16 * 1024

abbrev pub max_name_bytes : ℕ
max_name_bytes = 64

abbrev pub max_id_bytes : ℕ
max_id_bytes = 64

abbrev pub seen_ttl : ℕ
seen_ttl = 10 * 60 * 1_000_000_000

abbrev pub max_seen : ℕ
max_seen = 4096

-- The room in MessageChan.
abbrev pub chan_size : ℕ
chan_size = 100

pub record Envelope : Type 0 where
  pub v : ℕ
  pub kind : Text
  pub id : Text
  pub ts : ℕ
  pub from : Text
  pub body : Text
  pub error : Text

pub record IncomingMessage : Type 0 where
  pub id : Text
  pub peer_id : Text
  pub name : Text
  pub addr : Text
  pub body : Text
  pub sent : ℕ

-- The errors of validateIncoming.
pub data Invalid : Type 0 where
  bad_version bad_kind bad_id no_body large_body long_name no_utf8 : Invalid

unfoldable pub validate_incoming : Envelope → Option Invalid
validate_incoming e =
    if not (e.v == protocol_version)
    then some bad_version
    else if not (str_eq e.kind (text "msg"))
    then some bad_kind
    else if is_empty e.id || ltb max_id_bytes (length e.id)
    then some bad_id
    else if is_empty e.body
    then some no_body
    else if ltb max_body_bytes (length e.body)
    then some large_body
    else if ltb max_name_bytes (length e.from)
    then some long_name
    else if not (valid_string e.body) || not (valid_string e.from)
    then some no_utf8
    else none

-- What a manager keeps of the messages that arrive: when it saw which, and those that wait in
-- MessageChan.
pub record Inbox : Type 0 where
  pub seen : Dict ℕ
  pub waiting : List IncomingMessage

abbrev pub seen_recently : ℕ → Option ℕ → Bool
seen_recently now none = false
seen_recently now (some t) = ltb (now - t) seen_ttl

-- The table with room for one more.
unfoldable pub make_room : ℕ → Dict ℕ → Dict ℕ
make_room now seen =
    let young = retain (λ k t. ltb (now - t) seen_ttl) seen in
    if leb max_seen (length seen) then if leb max_seen (length young) then [] else young else seen

-- markSeen
unfoldable pub mark_seen : ℕ → Text → Dict ℕ → Bool × Dict ℕ
mark_seen now key seen =
    if seen_recently now (get seen key)
    then (false, seen)
    else (true, put (make_room now seen) key now)

-- unmarkSeen
unfoldable pub unmark_seen : Text → Dict ℕ → Dict ℕ
unmark_seen key seen = delete seen key

unfoldable pub message_key : Text → Text → Text
message_key peer_id id = peer_id ++ (b'/' ∷ id)

-- Why a message is answered with a nack.
pub data Nack : Type 0 where
  unread : FrameError → Nack
  invalid : Invalid → Nack
  refused : Text → Nack
  receiver_busy : Nack

-- The answer: the message's ID, and no reason for an ack.
pub record Reply : Type 0 where
  pub reply_id : Text
  pub nack : Option Nack

abbrev pub incoming_message : Text → Text → Envelope → IncomingMessage
incoming_message peer_id addr e = record {
  id = e.id;
  peer_id = peer_id;
  name = trim_space e.from;
  addr = addr;
  body = e.body;
  sent = e.ts;
}

-- What the other goroutines do with the table and the channel, one step at a time: a message is marked,
-- sent on the channel, or forgotten again, or the reader takes one.
pub data Turn : Type 0 where
  marks : ℕ → Text → Turn
  sends : IncomingMessage → Turn
  forgets : Text → Turn
  reads : Turn

-- A send on the channel: whether it has room, and what waits then.
unfoldable pub send_on : IncomingMessage → List IncomingMessage → Bool × List IncomingMessage
send_on msg waiting =
    if ltb (length waiting) chan_size then (true, waiting ++ (msg ∷ [])) else (false, waiting)

unfoldable pub advance : Inbox → Turn → Inbox
advance box (marks now key) = record box { seen = (mark_seen now key box.seen).1 }
advance box (sends msg) = record box { waiting = (send_on msg box.waiting).1 }
advance box (forgets key) = record box { seen = unmark_seen key box.seen }
advance box reads = record box { waiting = drop 1 box.waiting }

unfoldable pub advance_all : Inbox → List Turn → Inbox
advance_all box [] = box
advance_all box (x ∷ xs) = advance_all (advance box x) xs

-- What the others do between markSeen and the send, and between a send that failed and unmarkSeen.
pub record Meanwhile : Type 0 where
  pub before_send : List Turn
  pub before_unmark : List Turn

sent_or_unmarked : Text → List Turn → Bool × Inbox → Bool × Inbox
sent_or_unmarked key steps (true, box) = (true, box)
sent_or_unmarked key steps (false, box) =
    let box' = advance_all box steps in (false, record box' { seen = unmark_seen key box'.seen })

-- The message is sent, where `in_time` says whether it may be, or it is unmarked.
send_marked : Text → IncomingMessage → Bool → Meanwhile → Inbox → Bool × Inbox
unfolding sent_or_unmarked
send_marked key msg in_time m box =
    let box' = advance_all box m.before_send in
    let (was_sent, waiting) = send_on msg box'.waiting in
    sent_or_unmarked key m.before_unmark
      (if in_time then (was_sent, record box' { waiting = waiting }) else (false, box'))

handle_sent : Bool × Inbox → Option Nack × Inbox
handle_sent (true, box) = (none, box)
handle_sent (false, box) = (some receiver_busy, box)

handle_marked : Text → IncomingMessage → Meanwhile → Bool × Inbox → Option Nack × Inbox
unfolding handle_sent send_marked
handle_marked key msg m (false, box) = (none, box)
handle_marked key msg m (true, box) = handle_sent (send_marked key msg true m box)

-- The box after markSeen, and whether the message is new.
abbrev pub marked : ℕ → Text → Inbox → Bool × Inbox
marked now key box = let r = mark_seen now key box.seen in (r.0, record box { seen = r.1 })

handle_valid : ℕ → Text → Text → Envelope → Option Text → Meanwhile → Inbox → Option Nack × Inbox
unfolding handle_marked
handle_valid now peer_id addr e (some reason) m box = (some (refused reason), box)
handle_valid now peer_id addr e none m box =
    let key = message_key peer_id e.id in
    handle_marked key (incoming_message peer_id addr e) m (marked now key box)

handle_checked :
    ℕ
    → Text
    → Text
    → Envelope
    → Option Text
    → Meanwhile
    → Option Invalid
    → Inbox
    → Option Nack × Inbox
unfolding handle_valid
handle_checked now peer_id addr e rule m (some why) box = (some (invalid why), box)
handle_checked now peer_id addr e rule m none box = handle_valid now peer_id addr e rule m box

-- handleStream, for the envelope that ReadFrame reads; `rule` is what Accept says of the peer, where
-- `none` is that it accepts or is not set.
unfoldable pub handle_stream :
    ℕ → Text → Text → Option Text → Result FrameError Envelope → Meanwhile → Inbox → Reply × Inbox
unfolding handle_checked
handle_stream now peer_id addr rule (err e) m box =
    (record { reply_id = []; nack = some (unread e) }, box)
handle_stream now peer_id addr rule (ok e) m box =
    let r = handle_checked now peer_id addr e rule m (validate_incoming e) box in
    (record { reply_id = e.id; nack = r.0 }, r.1)

-- The errors of Deliver.
pub data DeliverError : Type 0 where
  not_valid : Invalid → DeliverError
  busy : DeliverError

abbrev pub as_envelope : IncomingMessage → Envelope
as_envelope m = record {
  v = protocol_version;
  kind = text "msg";
  id = m.id;
  ts = 0;
  from = m.name;
  body = m.body;
  error = [];
}

deliver_sent : Bool × Inbox → Option DeliverError × Inbox
deliver_sent (true, box) = (none, box)
deliver_sent (false, box) = (some busy, box)

deliver_marked :
    Text → IncomingMessage → Bool → Meanwhile → Bool × Inbox → Option DeliverError × Inbox
unfolding deliver_sent send_marked
deliver_marked key msg in_time m (false, box) = (none, box)
deliver_marked key msg in_time m (true, box) = deliver_sent (send_marked key msg in_time m box)

deliver_checked :
    ℕ → IncomingMessage → Bool → Meanwhile → Option Invalid → Inbox → Option DeliverError × Inbox
unfolding deliver_marked
deliver_checked now msg in_time m (some why) box = (some (not_valid why), box)
deliver_checked now msg in_time m none box =
    let key = message_key msg.peer_id msg.id in
    deliver_marked key (record msg { name = trim_space msg.name }) in_time m (marked now key box)

-- Deliver; `in_time` says whether the wait ends with the send, and what happens during the wait stands
-- before the send.
unfoldable pub deliver :
    ℕ → IncomingMessage → Bool → Meanwhile → Inbox → Option DeliverError × Inbox
unfolding deliver_checked
deliver now msg in_time m box =
    deliver_checked now msg in_time m (validate_incoming (as_envelope msg)) box
