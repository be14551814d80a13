-- ===== src/Network/Bounded.antt =====
-- What a client keeps of the messages that arrive stays within its bounds, whatever arrives.
use tarion.Base.{
  ℕ, ◌≤◌, Bool, true, false, Option, none, some, List, [], ◌∷◌, arith, length, drop, length-append,
  length-drop, Result, ok, err,
}
use tarion.Text.{Text}
use tarion.Wire.{FrameError}
use tarion.Network.{
  max_seen, chan_size, Envelope, IncomingMessage, Invalid, validate_incoming, unmark_seen,
  message_key, Inbox, incoming_message, Turn, marks, sends, forgets, reads, send_on, advance,
  advance_all, Meanwhile, sent_or_unmarked, send_marked, handle_sent, handle_marked, marked,
  handle_valid, handle_checked, handle_stream, as_envelope, deliver_sent, deliver_marked,
  deliver_checked, deliver,
}
use tarion.Network.Seen.{length-mark_seen-le, length-unmark_seen-le}

-- A stream with its time, its peer, the address, what Accept says, what is read, and what happens
-- meanwhile; a letter that is delivered, with its time, whether it is sent in time, and what happens
-- meanwhile; or the reader takes a message.
pub data Event : Type 0 where
  stream : ℕ → Text → Text → Option Text → Result FrameError Envelope → Meanwhile → Event
  delivery : ℕ → IncomingMessage → Bool → Meanwhile → Event
  reading : Event

unfoldable pub step : Inbox → Event → Inbox
step box (stream now peer_id addr rule frame m) =
    (handle_stream now peer_id addr rule frame m box).1
step box (delivery now msg in_time m) = (deliver now msg in_time m box).1
step box reading = record box { waiting = drop 1 box.waiting }

unfoldable pub run : Inbox → List Event → Inbox
run box [] = box
run box (e ∷ es) = run (step box e) es

-- At most 4096 messages are remembered, and at most 100 wait.
abbrev pub IsBounded : Inbox → Type 0
IsBounded box = (length box.seen ≤ max_seen) × (length box.waiting ≤ chan_size)

length-send_on-le :
    (msg : IncomingMessage) (waiting : List IncomingMessage)
    → length waiting ≤ chan_size
    → length (send_on msg waiting).1 ≤ chan_size
unfolding send_on
length-send_on-le msg waiting h = ground (arith, h, length-append waiting (msg ∷ []))

unmark-IsBounded :
    (key : Text) (box : Inbox)
    → IsBounded box
    → IsBounded (record box { seen = unmark_seen key box.seen })
unmark-IsBounded key box h = (omega (arith, h.0, length-unmark_seen-le key box.seen), h.1)

advance-IsBounded : (box : Inbox) (x : Turn) → IsBounded box → IsBounded (advance box x)
unfolding advance
advance-IsBounded box (marks now key) h = (length-mark_seen-le now key box.seen h.0, h.1)
advance-IsBounded box (sends msg) h = (h.0, length-send_on-le msg box.waiting h.1)
advance-IsBounded box (forgets key) h = unmark-IsBounded key box h
advance-IsBounded box reads h = (h.0, omega (arith, h.1, length-drop 1 box.waiting))

advance_all-IsBounded :
    (xs : List Turn) (box : Inbox) → IsBounded box → IsBounded (advance_all box xs)
unfolding advance_all
advance_all-IsBounded [] box h = h
advance_all-IsBounded (x ∷ xs) box h =
    advance_all-IsBounded xs (advance box x) (advance-IsBounded box x h)

sent_or_unmarked-IsBounded :
    (key : Text) (xs : List Turn) (r : Bool × Inbox)
    → IsBounded r.1
    → IsBounded (sent_or_unmarked key xs r).1
unfolding sent_or_unmarked
sent_or_unmarked-IsBounded key xs (true, box) h = h
sent_or_unmarked-IsBounded key xs (false, box) h =
    unmark-IsBounded key (advance_all box xs) (advance_all-IsBounded xs box h)

send_marked-IsBounded :
    (key : Text) (msg : IncomingMessage) (in_time : Bool) (m : Meanwhile) (box : Inbox)
    → IsBounded box
    → IsBounded (send_marked key msg in_time m box).1
unfolding send_marked
send_marked-IsBounded key msg true m box h =
    let h' = advance_all-IsBounded m.before_send box h in
    let box' = advance_all box m.before_send in
    let sent = send_on msg box'.waiting in
    sent_or_unmarked-IsBounded key m.before_unmark (sent.0, record box' { waiting = sent.1 })
      (h'.0, length-send_on-le msg box'.waiting h'.1)
send_marked-IsBounded key msg false m box h =
    sent_or_unmarked-IsBounded key m.before_unmark (false, advance_all box m.before_send)
      (advance_all-IsBounded m.before_send box h)

handle_sent-IsBounded : (r : Bool × Inbox) → IsBounded r.1 → IsBounded (handle_sent r).1
unfolding handle_sent
handle_sent-IsBounded (true, box) h = h
handle_sent-IsBounded (false, box) h = h

deliver_sent-IsBounded : (r : Bool × Inbox) → IsBounded r.1 → IsBounded (deliver_sent r).1
unfolding deliver_sent
deliver_sent-IsBounded (true, box) h = h
deliver_sent-IsBounded (false, box) h = h

handle_marked-IsBounded :
    (key : Text) (msg : IncomingMessage) (m : Meanwhile) (r : Bool × Inbox)
    → IsBounded r.1
    → IsBounded (handle_marked key msg m r).1
unfolding handle_marked
handle_marked-IsBounded key msg m (false, box) h = h
handle_marked-IsBounded key msg m (true, box) h =
    handle_sent-IsBounded (send_marked key msg true m box)
      (send_marked-IsBounded key msg true m box h)

deliver_marked-IsBounded :
    (key : Text) (msg : IncomingMessage) (in_time : Bool) (m : Meanwhile) (r : Bool × Inbox)
    → IsBounded r.1
    → IsBounded (deliver_marked key msg in_time m r).1
unfolding deliver_marked
deliver_marked-IsBounded key msg in_time m (false, box) h = h
deliver_marked-IsBounded key msg in_time m (true, box) h =
    deliver_sent-IsBounded (send_marked key msg in_time m box)
      (send_marked-IsBounded key msg in_time m box h)

marked-IsBounded :
    (now : ℕ) (key : Text) (box : Inbox) → IsBounded box → IsBounded (marked now key box).1
marked-IsBounded now key box h = (length-mark_seen-le now key box.seen h.0, h.1)

handle_checked-IsBounded :
    (now : ℕ) (peer_id addr : Text) (e : Envelope) (rule : Option Text) (m : Meanwhile)
    (why : Option Invalid) (box : Inbox)
    → IsBounded box
    → IsBounded (handle_checked now peer_id addr e rule m why box).1
unfolding handle_checked handle_valid
handle_checked-IsBounded now peer_id addr e rule m (some why) box h = h
handle_checked-IsBounded now peer_id addr e (some reason) m none box h = h
handle_checked-IsBounded now peer_id addr e none m none box h =
    let key = message_key peer_id e.id in
    handle_marked-IsBounded key (incoming_message peer_id addr e) m (marked now key box)
      (marked-IsBounded now key box h)

deliver_checked-IsBounded :
    (now : ℕ) (msg : IncomingMessage) (in_time : Bool) (m : Meanwhile) (why : Option Invalid)
    (box : Inbox)
    → IsBounded box
    → IsBounded (deliver_checked now msg in_time m why box).1
unfolding deliver_checked
deliver_checked-IsBounded now msg in_time m (some why) box h = h
deliver_checked-IsBounded now msg in_time m none box h =
    let key = message_key msg.peer_id msg.id in
    deliver_marked-IsBounded key _ in_time m (marked now key box) (marked-IsBounded now key box h)

pub deliver-IsBounded :
    (now : ℕ) (msg : IncomingMessage) (in_time : Bool) (m : Meanwhile) (box : Inbox)
    → IsBounded box
    → IsBounded (deliver now msg in_time m box).1
unfolding deliver
deliver-IsBounded now msg in_time m box h =
    deliver_checked-IsBounded now msg in_time m (validate_incoming (as_envelope msg)) box h

step-IsBounded : (box : Inbox) (e : Event) → IsBounded box → IsBounded (step box e)
unfolding step handle_stream
step-IsBounded box (stream now peer_id addr rule (err x) m) h = h
step-IsBounded box (stream now peer_id addr rule (ok x) m) h =
    handle_checked-IsBounded now peer_id addr x rule m (validate_incoming x) box h
step-IsBounded box (delivery now msg in_time m) h = deliver-IsBounded now msg in_time m box h
step-IsBounded box reading h = (h.0, omega (arith, h.1, length-drop 1 box.waiting))

-- If at most 4096 messages are remembered and at most 100 wait, that is so after any streams,
-- letters and readings, whoever sends them, and whatever other goroutines do with the table and the
-- channel while one is handled.
pub run-IsBounded : (box : Inbox) (es : List Event) → IsBounded box → IsBounded (run box es)
unfolding run
run-IsBounded box [] h = h
run-IsBounded box (e ∷ es) h = run-IsBounded (step box e) es (step-IsBounded box e h)
