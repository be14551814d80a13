-- ===== src/Server/Letters.antt =====
-- The mailbox handlers of server/server.go.
pub mod Moved
use tarion.Base.{
  ◌/◌, Bool, true, false, not, ◌||◌, Option, none, some, List, [], ◌∷◌, ltb, if◌then◌else◌, length,
  Result, ok, err,
}
use tarion.Text.{Text, str_eq, is_empty}
use tarion.Text.Lower.{equal_fold}
use tarion.Limiter.{allow}
use tarion.Accounts.{Account, get_account}
use tarion.Access.Bans.{banned}
use tarion.Mailbox.{MailboxStore, BoxRecord, MailError, key, put_letter}
use tarion.Mailbox as Box
use tarion.Mailbox.Delivery.{fetch, ack}
use tarion.Proto.{ErrorCode, name_key, valid_username, max_sealed_letter, max_ack_ids}
use tarion.Proto as Code
use tarion.Proto.Messages.{Request, Response, accepted, fail, push_mail}
use tarion.Server.{Server, Session, Env, World, pushed, session_of, emit}

abbrev pub put_error : MailError → ErrorCode
put_error Box.full = Code.mailbox_full
put_error Box.no_box = Code.mailbox_refused
put_error Box.io_error = Code.server_error

module _ (e : Env) where
  -- The recipient's account and box key; a key of a device that the account no longer uses is refused.
  box_found : Bool → Account → Result MailError BoxRecord → Result ErrorCode (Account × BoxRecord)
  box_found is_banned acct (err x) = err Code.mailbox_refused
  box_found is_banned acct (ok rec) =
      if is_banned || not (equal_fold e.unicode rec.peer_id acct.peer_id)
      then err Code.mailbox_refused
      else ok (acct, rec)

  -- Banned, and its refresh, come only after the key was found.
  key_refused : Result MailError BoxRecord → Bool
  key_refused (err x) = true
  key_refused (ok rec) = false

  account_found :
      World
      → Server
      → MailboxStore
      → Option Account
      → Result ErrorCode (Account × BoxRecord) × Server
  unfolding box_found key_refused
  account_found w s m none = (err Code.no_such_user, s)
  account_found w s m (some acct) =
      let rec = key e.unicode m acct.name in
      let (is_banned, bans) = banned e.unicode w.ban_file s.bans acct.name acct.peer_id in
      (box_found is_banned acct rec, if key_refused rec then s else record s { bans = bans })

  target_in :
      World
      → Server
      → Session
      → Text
      → Option MailboxStore
      → Result ErrorCode (Account × BoxRecord) × Server
  unfolding account_found
  target_in w s sess target none = (err Code.mailbox_off, s)
  target_in w s sess target (some m) =
      if not (valid_username e.unicode target)
        || str_eq (name_key e.unicode target) (name_key e.unicode sess.user)
      then (err Code.no_such_user, s)
      else account_found w s m (get_account e.unicode s.accounts target)

  unfoldable pub mailbox_target :
      World → Server → Session → Text → Result ErrorCode (Account × BoxRecord) × Server
  unfolding target_in
  mailbox_target w s sess target =
      if is_empty sess.user
      then (err Code.not_logged_in, s)
      else target_in w s sess target s.mailbox

  key_response : Result ErrorCode (Account × BoxRecord) → Response
  key_response (err x) = fail x
  key_response (ok (acct, rec)) = record accepted {
    user = acct.name;
    peer_id = rec.peer_id;
    pub_key = rec.pub_key;
    box_key = rec.box_key;
    box_sig = rec.box_sig;
  }

  -- mailboxKey returns what a sender needs to seal a letter to the target.
  unfoldable pub mailbox_key : World → Server → Session → Request → Response × Server
  unfolding key_response
  mailbox_key w s sess req =
      let (r, s') = mailbox_target w s sess req.target in (key_response r, s')

  abbrev is_device : Text → Option Session → List Text
  is_device peer_id none = []
  is_device peer_id (some o) = if str_eq o.peer_id peer_id then o.id ∷ [] else []

  tell : List Text → Server → Server
  tell [] s = s
  tell (id ∷ ids) s = tell ids (emit (pushed id push_mail) s)

  put_result : Server → Account → BoxRecord → Result MailError Text → Response × Server
  unfolding tell
  put_result s acct rec (err x) = (fail (put_error x), s)
  put_result s acct rec (ok id) = (
    record accepted { user = acct.name },
    tell (is_device rec.peer_id (session_of s (name_key e.unicode acct.name))) s,
  )

  put_in :
      World
      → Server
      → Session
      → Request
      → Account
      → BoxRecord
      → Option MailboxStore
      → Response × Server
  unfolding put_result
  put_in w s sess req acct rec none = (fail Code.mailbox_off, s)
  put_in w s sess req acct rec (some m) =
      let (r, m') =
        put_letter e.unicode w.letter_id w.mailbox_written m acct.name sess.user rec.peer_id
          req.sealed (w.now / 1_000_000_000) in
      put_result (record s { mailbox = some m' }) acct rec r

  put_to :
      World
      → Server
      → Session
      → Request
      → Result ErrorCode (Account × BoxRecord)
      → Response × Server
  unfolding put_in
  put_to w s sess req (err x) = (fail x, s)
  put_to w s sess req (ok (acct, rec)) =
      let (allowed, limit) = allow s.mail_limit (name_key e.unicode sess.user) w.now in
      let s' : Server = record s { mail_limit = limit } in
      if is_empty req.sealed
      then (fail Code.bad_request, s)
      else if ltb max_sealed_letter (length req.sealed)
      then (fail Code.too_large, s)
      else if not allowed
      then (fail Code.rate_limited, s')
      else put_in w s' sess req acct rec s'.mailbox

  -- mailboxPut stores a sealed letter, and tells the recipient if they are online after all.
  unfoldable pub mailbox_put : World → Server → Session → Request → Response × Server
  unfolding put_to
  mailbox_put w s sess req =
      let (r, s') = mailbox_target w s sess req.target in put_to w s' sess req r

  fetch_in : Session → Option MailboxStore → Response
  fetch_in sess none = fail Code.mailbox_off
  fetch_in sess (some m) =
      let (letters, more) = fetch e.unicode m sess.user sess.peer_id in
      record accepted { letters = letters; more = more }

  unfoldable pub mailbox_fetch : Server → Session → Response × Server
  unfolding fetch_in
  mailbox_fetch s sess =
      (if is_empty sess.user then fail Code.not_logged_in else fetch_in sess s.mailbox, s)

  ack_in : Server → Session → Request → Option MailboxStore → Response × Server
  ack_in s sess req none = (fail Code.mailbox_off, s)
  ack_in s sess req (some m) =
      if ltb max_ack_ids (length req.ids)
      then (fail Code.bad_request, s)
      else (accepted, record s { mailbox = some (ack e.unicode m sess.user req.ids) })

  unfoldable pub mailbox_ack : Server → Session → Request → Response × Server
  unfolding ack_in
  mailbox_ack s sess req =
      if is_empty sess.user then (fail Code.not_logged_in, s) else ack_in s sess req s.mailbox
