-- ===== src/Client/Flush.antt =====
-- flushOutbox of main.go, and mailWhenOffline of mailbox.go: a pass over the messages that wait.
use tarion.Base.{
  ℕ, ◌+◌, ◌-◌, ◌*◌, ◌^◌, min, Bool, true, false, not, ◌&&◌, Option, none, some, List, [], ◌∷◌, ◌++◌,
  ltb, if◌then◌else◌, found, length,
}
use tarion.Text.{Text, text}
use tarion.Text.Lower.{Unicode, to_lower}
use tarion.Text.Sets.{member, add}
use tarion.Dict.{Dict, get, put, delete}
use tarion.Proto.{valid_username}
use tarion.Storage.Held.{Held, HeldError}
use tarion.Storage.Config.{Config}
use tarion.Storage.Outbox.{OutboxItem, queued_items, update_outbox, remove_outbox}
use tarion.Client.{Failure, failure_text, retryable, mailbox_on, second, use_mailbox}

abbrev pub outbox_retry_base : ℕ
outbox_retry_base = 15 * second

abbrev pub outbox_retry_max : ℕ
outbox_retry_max = 600 * second

abbrev pub outbox_expiry : ℕ
outbox_expiry = 7 * 24 * 3600 * second

-- What the world does during a pass: the time, whether there is a server and a connection to it, whom it
-- lists, what delivering a message gives, whether the server says that a contact is offline, what
-- leaving a message in a mailbox gives, and what saving the outbox gives.
pub record PassWorld : Type 0 where
  pub now : ℕ
  pub has_dir : Bool
  pub is_connected : Bool
  pub listed : List Text
  pub delivered : OutboxItem → Option Failure
  pub says_offline : OutboxItem → Bool
  pub deposited : OutboxItem → Option Text
  pub saved : OutboxItem → Option HeldError

-- What a pass keeps: the outbox, the contacts whose later messages wait, and when messages were looked
-- up.
pub record Pass : Type 0 where
  pub file : Held (List OutboxItem)
  pub blocked : List Text
  pub mail_tried : Dict ℕ

-- What becomes of a message in a pass.
pub data Fate : Type 0 where
  skipped gave_up not_due delivered_later not_delivered left_in_mailbox : Fate
  tried_again : Text → Fate

module _ (u : Unicode) (cfg : Config) (w : PassWorld) where
  abbrev pub contact_key : OutboxItem → Text
  contact_key it = to_lower u it.to

  -- The contacts whom the server lists.
  online_set : List Text → List Text
  online_set [] = []
  online_set (x ∷ xs) = add (to_lower u x) (online_set xs)

  unfoldable pub is_online : OutboxItem → Bool
  unfolding online_set
  is_online it = w.has_dir && (w.is_connected && member (contact_key it) (online_set w.listed))

  abbrev tried_lately : Option ℕ → Bool
  tried_lately none = false
  tried_lately (some t) = ltb (w.now - t) (60 * second)

  -- Whether mailWhenOffline asks the server about the message.
  unfoldable pub asks_server : Dict ℕ → OutboxItem → Bool
  asks_server tried it =
      not (tried_lately (get tried it.id)) && (w.is_connected && valid_username u it.to)

  -- The times of the messages that were looked up, with this one.
  unfoldable pub mark_tried : Dict ℕ → OutboxItem → Dict ℕ
  mark_tried tried it =
      let marked = put tried it.id w.now in
      if ltb 1000 (length marked) then (it.id, w.now) ∷ [] else marked

  -- mailWhenOffline: whether the message was left in the mailbox, and the times then.
  unfoldable pub mail_when_offline : Dict ℕ → OutboxItem → Bool × Dict ℕ
  mail_when_offline tried it =
      let marked = mark_tried tried it in
      if not (asks_server tried it)
      then (false, tried)
      else if w.says_offline it && not (found (w.deposited it))
      then (true, delete marked it.id)
      else (false, marked)

  -- A message that is not due: it may go to the mailbox of a contact who has gone offline.
  unfoldable pub fate_not_due : Dict ℕ → OutboxItem → Fate × Dict ℕ
  fate_not_due tried it =
      let r = mail_when_offline tried it in
      if not (mailbox_on w.has_dir cfg)
      then (not_due, tried)
      else if r.0
      then (left_in_mailbox, r.1)
      else (not_due, r.1)

  -- A message whose delivery failed.
  unfoldable pub fate_failed : OutboxItem → Failure → Fate
  fate_failed it f =
      if not (retryable w.has_dir f)
      then not_delivered
      else if not (use_mailbox w.has_dir cfg w.now f it.created)
      then tried_again (failure_text f)
      else elim (w.deposited it) [
        | none ↦ left_in_mailbox
        | some e ↦ tried_again (failure_text f ++ (text "; mailbox: " ++ e))
      ]

  unfoldable pub fate_tried : OutboxItem → Option Failure → Fate
  unfolding fate_failed
  fate_tried it none = delivered_later
  fate_tried it (some f) = fate_failed it f

  -- What becomes of one message.
  unfoldable pub fate : List Text → Dict ℕ → OutboxItem → Fate × Dict ℕ
  unfolding fate_not_due fate_tried
  fate blocked tried it =
      if member (contact_key it) blocked
      then (skipped, tried)
      else if ltb outbox_expiry (w.now - it.created)
      then (gave_up, tried)
      else if ltb w.now it.next_try && not (is_online it)
      then fate_not_due tried it
      else (fate_tried it (w.delivered it), tried)

  -- The message after a try that failed.
  unfoldable pub retried_item : OutboxItem → Text → OutboxItem
  retried_item it error =
      let attempts = it.attempts + 1 in
      record it {
        attempts = attempts;
        next_try = w.now + min (outbox_retry_base * 2 ^ min attempts 6) outbox_retry_max;
        last_error = error;
      }

  -- The outbox after that.
  unfoldable pub file_after : Fate → OutboxItem → Held (List OutboxItem) → Held (List OutboxItem)
  file_after skipped it file = file
  file_after not_due it file = file
  file_after gave_up it file = (remove_outbox (w.saved it) file it.id).0
  file_after delivered_later it file = (remove_outbox (w.saved it) file it.id).0
  file_after not_delivered it file = (remove_outbox (w.saved it) file it.id).0
  file_after left_in_mailbox it file = (remove_outbox (w.saved it) file it.id).0
  file_after (tried_again error) it file =
      (update_outbox (w.saved it) file (retried_item it error)).0

  -- A contact waits after a message that is not due or was tried in vain.
  abbrev pub blocks : Fate → Bool
  blocks not_due = true
  blocks (tried_again error) = true
  blocks _ = false

  -- One round of the loop.
  unfoldable pub pass_item : Pass → OutboxItem → Fate × Pass
  pass_item p it =
      let r = fate p.blocked p.mail_tried it in
      (
        r.0,
        record {
          file = file_after r.0 it p.file;
          blocked = if blocks r.0 then add (contact_key it) p.blocked else p.blocked;
          mail_tried = r.1;
        },
      )

  -- The loop, with what becomes of each message.
  unfoldable pub pass_items : Pass → List OutboxItem → List (OutboxItem × Fate) × Pass
  pass_items p [] = ([], p)
  pass_items p (it ∷ its) =
      let r = pass_item p it in let rest = pass_items r.1 its in ((it, r.0) ∷ rest.0, rest.1)

  -- flushOutbox: a pass over the messages, oldest first; nothing where the outbox cannot be read.
  unfoldable pub flush_outbox : Held (List OutboxItem) → Dict ℕ → List (OutboxItem × Fate) × Pass
  flush_outbox file tried =
      pass_items (record { file = file; blocked = []; mail_tried = tried }) (queued_items file).0
