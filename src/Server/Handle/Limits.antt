-- ===== src/Server/Handle/Limits.antt =====
-- The mailbox keeps its limits, whatever clients ask of the server.
use tarion.Base.{ℕ, inl, inr, Option, none, some, List, [], ◌∷◌, Bool-cases, All}
use tarion.Limiter.{allow}
use tarion.Mailbox.{MailboxStore, Disk}
use tarion.Mailbox.Tidy.{AllRead}
use tarion.Mailbox.Bounded.{expires, perform, IsWithin, perform-IsWithin, disk-IsWithin}
use tarion.Proto.Messages.{
  Op, op_register, op_login, op_list, op_lookup, op_relay, op_advertise, op_probe,
  op_change_password, op_delete_account, op_mailbox_key, op_mailbox_put, op_mailbox_fetch,
  op_mailbox_ack, unknown_op, Request,
}
use tarion.Server.{Server, Session, Env, World}
use tarion.Server.Moves.{Moves, stays, performs, same-Moves}
use tarion.Server.Directory.Moved.{advertise-mailbox, lookup-mailbox, send_probe-mailbox}
use tarion.Server.Forwarding.{sweep_relays}
use tarion.Server.Forwarding.Moved.{open_relay-mailbox}
use tarion.Server.Letters.{mailbox_fetch}
use tarion.Server.Letters.Moved.{mailbox_key-mailbox, mailbox_put-Moves, mailbox_ack-Moves}
use tarion.Server.Login.Moved.{register-Moves, login-Moves}
use tarion.Server.Passwords.Moved.{change_password-mailbox, delete_user-Moves}
use tarion.Server.Handle.{sweep_limits, expired, minute, dispatch, handle}

-- What makes the server work: a request of a session, or a minute that has passed.
pub data Work : Type 0 where
  asks : World → Session → Request → Work
  ticks : ℕ → Work

module _ (e : Env) where
  dispatch-Moves :
      (w : World) (s : Server) (sess : Session) (req : Request) (op : Op)
      → Moves e.unicode s.mailbox (dispatch e w s sess req op).1.mailbox
  unfolding dispatch mailbox_fetch
  dispatch-Moves w s sess req op_register = register-Moves e w s sess req
  dispatch-Moves w s sess req op_login = login-Moves e w s sess req
  dispatch-Moves w s sess req op_list = stays s.mailbox
  dispatch-Moves w s sess req op_lookup =
      same-Moves e.unicode s.mailbox _ (lookup-mailbox e w s sess req)
  dispatch-Moves w s sess req op_relay =
      same-Moves e.unicode s.mailbox _ (open_relay-mailbox e w s sess req)
  dispatch-Moves w s sess req op_advertise =
      same-Moves e.unicode s.mailbox _ (advertise-mailbox e s sess req)
  dispatch-Moves w s sess req op_probe =
      same-Moves e.unicode s.mailbox _ (send_probe-mailbox e w s sess req)
  dispatch-Moves w s sess req op_change_password =
      same-Moves e.unicode s.mailbox _ (change_password-mailbox e w s sess req)
  dispatch-Moves w s sess req op_delete_account = delete_user-Moves e w s sess req
  dispatch-Moves w s sess req op_mailbox_key =
      same-Moves e.unicode s.mailbox _ (mailbox_key-mailbox e w s sess req)
  dispatch-Moves w s sess req op_mailbox_put = mailbox_put-Moves e w s sess req
  dispatch-Moves w s sess req op_mailbox_fetch = stays s.mailbox
  dispatch-Moves w s sess req op_mailbox_ack = mailbox_ack-Moves e s sess req
  dispatch-Moves w s sess req unknown_op = stays s.mailbox

  handle-Moves :
      (w : World) (s : Server) (sess : Session) (req : Request)
      → Moves e.unicode s.mailbox (handle e w s sess req).1.mailbox
  unfolding handle
  handle-Moves w s sess req = elim (Bool-cases (allow s.req_limit sess.id w.now).0) [
    | inr a ↦ rw a (stays s.mailbox)
    | inl a ↦ rw a (
        dispatch-Moves w (record s { req_limit = (allow s.req_limit sess.id w.now).1 }) sess req
          req.op)
  ]

  expired-Moves : (now : ℕ) (o : Option MailboxStore) → Moves e.unicode o (expired e now o)
  unfolding expired perform
  expired-Moves now none = stays none
  expired-Moves now (some m) = performs m (expires now)

  minute-Moves : (s : Server) (now : ℕ) → Moves e.unicode s.mailbox (minute e s now).mailbox
  unfolding minute sweep_relays sweep_limits
  minute-Moves s now = expired-Moves now s.mailbox

  -- What the file system does while the server works.
  with_disk : Disk → Option MailboxStore → Option MailboxStore
  with_disk d none = none
  with_disk d (some m) = some (record m { disk = d })

  abbrev on_disk : Disk → Server → Server
  on_disk d s = record s { mailbox = with_disk d s.mailbox }

  unfoldable pub serve : Server → List (Disk × Work) → Server
  unfolding with_disk
  serve s [] = s
  serve s ((d, asks w sess req) ∷ ws) = serve (handle e w (on_disk d s) sess req).1 ws
  serve s ((d, ticks now) ∷ ws) = serve (minute e (on_disk d s) now) ws

  -- The mailbox, if the server has one, is within its limits.
  abbrev pub HasLimits : Option MailboxStore → Type 0
  HasLimits none = Unit {0}
  HasLimits (some m) = IsWithin e.unicode m

  abbrev Reads : Option MailboxStore → Type 0
  Reads none = Unit {0}
  Reads (some m) = AllRead m.disk

  Moves-HasLimits :
      (o p : Option MailboxStore) → Moves e.unicode o p → Reads o → HasLimits o → HasLimits p
  Moves-HasLimits o p (stays _) r h = h
  Moves-HasLimits _ _ (performs m c) r h = perform-IsWithin e.unicode m c r h

  disk-HasLimits : (d : Disk) (o : Option MailboxStore) → HasLimits o → HasLimits (with_disk d o)
  unfolding with_disk
  disk-HasLimits d none h = h
  disk-HasLimits d (some m) h = disk-IsWithin e.unicode m d h

  disk-Reads : (d : Disk) (o : Option MailboxStore) → AllRead d → Reads (with_disk d o)
  unfolding with_disk
  disk-Reads d none r = tt
  disk-Reads d (some m) r = r

  -- If the server's mailbox, where it has one, is within its limits in every folder, it still is
  -- after any requests of any sessions and any minutes during which every file of the mailbox can
  -- be read, whatever else the world decides while they are handled.
  pub serve-HasLimits :
      (s : Server) (ws : List (Disk × Work))
      → All (λ w. AllRead w.0) ws
      → HasLimits s.mailbox
      → HasLimits (serve s ws).mailbox
  unfolding serve
  serve-HasLimits s [] r h = h
  serve-HasLimits s ((d, asks w sess req) ∷ ws) r h =
      serve-HasLimits (handle e w (on_disk d s) sess req).1 ws r.1 (
        Moves-HasLimits (with_disk d s.mailbox) _ (handle-Moves w (on_disk d s) sess req)
          (disk-Reads d s.mailbox r.0) (disk-HasLimits d s.mailbox h))
  serve-HasLimits s ((d, ticks now) ∷ ws) r h =
      serve-HasLimits (minute e (on_disk d s) now) ws r.1 (
        Moves-HasLimits (with_disk d s.mailbox) _ (minute-Moves (on_disk d s) now)
          (disk-Reads d s.mailbox r.0) (disk-HasLimits d s.mailbox h))
