-- ===== src/Client/Fetch.antt =====
-- openLetter and fetchMail of mailbox.go: letters that the server holds are opened, checked like direct
-- messages, handed on, and then deleted from the server.
use tarion.Base.{
  ℕ, zero, suc, Bool, true, false, not, ◌||◌, Option, none, some, List, [], ◌∷◌, ◌++◌,
  if◌then◌else◌, Result, ok, err,
}
use tarion.Text.{Text}
use tarion.Network.{
  IncomingMessage, Invalid, Inbox, Meanwhile, DeliverError, not_valid, busy, deliver,
}
use tarion.Letter.{MailLetter, UnixTime, since_1970, before_1970, LetterError}
use tarion.Client.{Refusal}

-- A letter of the server: its ID, and what opening it gives, which is the letter and the ID of its
-- sender.
pub record Waiting : Type 0 where
  pub letter_id : Text
  pub opening : Result LetterError (MailLetter × Text)

-- What a client knows when a letter arrives: the time, whom it refuses, and whether the reader makes room
-- in time, and what other goroutines do with the messages meanwhile.
pub record Moment : Type 0 where
  pub now : ℕ
  pub rule : Text → Option Refusal
  pub in_time : Bool
  pub meanwhile : Meanwhile

-- What became of a letter: it was handed on or was a duplicate, was logged as dropped for a reason, or
-- stays on the server.
pub data Handling : Type 0 where
  handed_on stays : Handling
  not_opened : LetterError → Handling
  refused_sender : Refusal → Handling
  rejected_message : Invalid → Handling

abbrev unix_seconds : UnixTime → ℕ
unix_seconds (since_1970 n) = n
unix_seconds (before_1970 n) = 0

-- The message of a letter; a time before 1970 counts as 1970.
abbrev pub message_of : MailLetter → Text → IncomingMessage
message_of l peer_id = record {
  id = l.id;
  peer_id = peer_id;
  name = l.from;
  addr = [];
  body = l.body;
  sent = unix_seconds l.ts;
}

unfoldable pub handling_of : Option DeliverError → Handling
handling_of none = handed_on
handling_of (some busy) = stays
handling_of (some (not_valid why)) = rejected_message why

unfoldable pub hand_on : Moment → MailLetter → Text → Option Refusal → Inbox → Handling × Inbox
hand_on t l peer_id (some r) box = (refused_sender r, box)
hand_on t l peer_id none box =
    let d = deliver t.now (message_of l peer_id) t.in_time t.meanwhile box in (handling_of d.0, d.1)

-- openLetter
unfoldable pub open_waiting :
    Moment → Result LetterError (MailLetter × Text) → Inbox → Handling × Inbox
open_waiting t (err e) box = (not_opened e, box)
open_waiting t (ok (l, peer_id)) box = hand_on t l peer_id (t.rule peer_id) box

-- The letters of a batch up to the first that stays: those that were handled, with what became of them,
-- whether one stayed, and the inbox.
pub record Batch : Type 0 where
  pub handled : List (Text × Handling)
  pub is_busy : Bool
  pub inbox : Inbox

abbrev pub has_stayed : Handling → Bool
has_stayed stays = true
has_stayed _ = false

unfoldable pub open_batch : List (Moment × Waiting) → Inbox → Batch
open_batch [] box = record { handled = []; is_busy = false; inbox = box }
open_batch ((t, l) ∷ ls) box =
    let r = open_waiting t l.opening box in
    let rest = open_batch ls r.1 in
    if has_stayed r.0
    then record { handled = []; is_busy = true; inbox = r.1 }
    else record rest { handled = (l.letter_id, r.0) ∷ rest.handled }

-- A round: what the server answers to the fetch, with whether it has more, and whether it answers the ack.
pub record Round : Type 0 where
  pub fetched : Option (List (Moment × Waiting) × Bool)
  pub is_acked : Bool

-- The letters that the server was asked to delete, with what became of them, and the inbox.
abbrev pub Fetched : Type 0
Fetched = List (Text × Handling) × Inbox

-- What a round does with a batch, before the rounds that are left.
unfoldable pub round_of :
    List (Moment × Waiting) → Bool → Bool → Inbox → (Inbox → Fetched) → Fetched
round_of [] more acked box next = ([], box)
round_of (l ∷ ls) more acked box next =
    let b = open_batch (l ∷ ls) box in
    let rest = next b.inbox in
    if not acked || (b.is_busy || not more)
    then (b.handled, b.inbox)
    else (b.handled ++ rest.0, rest.1)

-- The loop of fetchMail, over the rounds in which the server is connected, of which there are at most a
-- hundred.
unfoldable pub fetch_rounds : ℕ → List Round → Inbox → Fetched
unfolding round_of
fetch_rounds zero rs box = ([], box)
fetch_rounds (suc n) [] box = ([], box)
fetch_rounds (suc n) (r ∷ rs) box = elim r.fetched [
  | none ↦ ([], box)
  | some (ls, more) ↦ round_of ls more r.is_acked box (fetch_rounds n rs)
]

-- fetchMail
unfoldable pub fetch_mail : List Round → Inbox → Fetched
fetch_mail rs box = fetch_rounds 100 rs box
