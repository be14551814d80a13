-- ===== src/Server/Login.antt =====
-- Registration and login in server/server.go: register, login, bind, updateMailbox.
pub mod Moved
pub mod Bound
use tarion.Base.{
  ℕ, zero, suc, Bool, false, not, ◌&&◌, Option, none, some, List, [], ◌∷◌, ◌++◌, ltb, ◌==◌,
  if◌then◌else◌, found, length, Result, ok, err,
}
use tarion.Text.{Text, text, str_eq, is_empty}
use tarion.Dict.{get, put}
use tarion.Net.{split_host_port}
use tarion.Limiter.{allow}
use tarion.Accounts.{
  Accounts, AccountError, get_account, create_hash, create_commit, login_key, login_verify,
  login_commit,
}
use tarion.Accounts as Db
use tarion.Access.{is_invite, is_closed}
use tarion.Access.Bans.{banned}
use tarion.Access.Invites.{consume, restore}
use tarion.Access.PasswordRules.{PasswordProblem, password_problem}
use tarion.Mailbox.{MailboxStore, BoxRecord, set_key, remove}
use tarion.Mailbox.Delivery.{count}
use tarion.Proto.{ErrorCode, name_key, valid_username, max_local_addrs, max_password_len, replaced}
use tarion.Proto as Code
use tarion.Proto.Messages.{Request, Response, accepted, empty_response, fail, valid_public_addr}
use tarion.Server.{Server, Session, Env, World, Effect, closed, session_of, set_session, emit}
use tarion.Server.Directory.{revoked_keys}

abbrev pub box_key_context : Text
box_key_context = text "tarion-mailbox-key-v1:"

good_addr : (Text → Bool) → Option (Text × Text) → Bool
good_addr is_ip none = false
good_addr is_ip (some (host, port)) = is_ip host && not (is_empty port)

-- The local addresses that bind keeps: the first few that have an IP and a port.
unfoldable pub clean_addrs : (Text → Bool) → ℕ → List Text → List Text
unfolding good_addr
clean_addrs is_ip n [] = []
clean_addrs is_ip zero (a ∷ as') = []
clean_addrs is_ip (suc n) (a ∷ as') =
    let kept = a ∷ clean_addrs is_ip n as' in
    let skipped = clean_addrs is_ip (suc n) as' in
    if good_addr is_ip (split_host_port a) then kept else skipped

-- An older session of the account is closed.
unfoldable pub close_old : Option Text → Text → Server → Server
close_old none id s = s
close_old (some old) id s = if str_eq old id then s else emit (closed old replaced) s

module _ (e : Env) where
  -- mailbox.VerifyBoxKey
  unfoldable pub verify_box_key : Text → Text → Text → Bool
  verify_box_key pub_key box_key sig =
      length pub_key == 32
      && (length box_key == 32 && e.ed25519_verify pub_key (box_key_context ++ box_key) sig)

  unfoldable pub update_box : World → MailboxStore → Session → Text → Request → ℕ × MailboxStore
  update_box w m sess name req =
      let removed = (remove e.unicode w.mailbox_removed m name).1 in
      let rec : BoxRecord = record {
        peer_id = sess.peer_id;
        pub_key = sess.pub_key;
        box_key = req.box_key;
        box_sig = req.box_sig;
      } in
      let (is_set, m') = set_key e.unicode w.mailbox_written m name rec in
      if not req.accept_mailbox
      then (0, removed)
      else if not (verify_box_key sess.pub_key req.box_key req.box_sig)
      then (0, m)
      else if not is_set
      then (0, m')
      else (count e.unicode m' name sess.peer_id, m')

  -- updateMailbox publishes the user's box key, or deletes their mailbox when they turned it off.
  update_store : World → Server → Session → Text → Request → Option MailboxStore → ℕ × Server
  update_store w s sess name req none = (0, s)
  update_store w s sess name req (some m) =
      let (n, m') = update_box w m sess name req in (n, record s { mailbox = some m' })

  unfoldable pub update_mailbox : World → Server → Session → Text → Request → ℕ × Server
  unfolding update_store
  update_mailbox w s sess name req = update_store w s sess name req s.mailbox

  -- The session as bind leaves it.
  abbrev pub bound : Session → Text → Request → Session
  bound sess name req = record sess {
    user = name;
    local_addrs = clean_addrs e.is_ip max_local_addrs req.local_addrs;
    public_addr = if valid_public_addr e.is_ip req.public_addr then req.public_addr else [];
    accept_relay = req.accept_relay;
  }

  -- bind makes a session the account's live one.
  unfoldable pub bind : World → Server → Session → Text → Request → Response × Server
  bind w s sess name req =
      let key = name_key e.unicode name in
      let s1 = set_session s (bound sess name req) in
      let s2 =
        close_old (get s.sessions key) sess.id
          (record s1 { sessions = put s.sessions key sess.id }) in
      let (revoked, s3) = revoked_keys e w s2 in
      let (mail, s4) = update_mailbox w s3 sess name req in
      (record accepted { user = name; your_addr = sess.addr; revoked = revoked; mail = mail }, s4)

  abbrev restored : World → Server → Request → Server
  restored w s req =
      if is_invite s.opts.registration
      then record s { invites = restore e.map_upper w.invite_written s.invites req.invite }
      else s

  registered :
      World → Server → Session → Request → Result AccountError Text × Accounts → Response × Server
  registered w s sess req (ok name, db) = bind w (record s { accounts = db }) sess name req
  registered w s sess req (err Db.name_taken, db) =
      (fail Code.name_taken, restored w (record s { accounts = db }) req)
  registered w s sess req (err x, db) =
      (fail Code.server_error, restored w (record s { accounts = db }) req)

  -- Create, both halves.
  account_created :
      World
      → Server
      → Session
      → Request
      → Result AccountError Text
      → Result AccountError Text × Accounts
  account_created w s sess req (err x) = (err x, s.accounts)
  account_created w s sess req (ok hash) =
      create_commit e.unicode w.accounts_written w.now s.accounts req.user hash sess.peer_id

  abbrev create_account : World → Server → Session → Request → Result AccountError Text × Accounts
  create_account w s sess req =
      account_created w s sess req
        (create_hash e.unicode e.scheme w.salt s.accounts req.user req.pass)

  -- From the invite on; the name was free.
  register_new : World → Server → Session → Request → Response × Server
  unfolding registered account_created
  register_new w s sess req =
      let (used, invites) = consume e.map_upper s.invites req.invite in
      let s' : Server = record s { invites = invites } in
      if is_invite s.opts.registration
      then (if used
          then registered w s' sess req (create_account w s' sess req)
          else (fail Code.bad_invite, s))
      else registered w s sess req (create_account w s sess req)

  register_checked : World → Server → Session → Request → Option PasswordProblem → Response × Server
  unfolding register_new
  register_checked w s sess req (some problem) =
      (record empty_response { error = some Code.weak_password; detail = some problem }, s)
  register_checked w s sess req none =
      let (allowed, limit) = allow s.reg_limit sess.ip w.now in
      let s' : Server = record s { reg_limit = limit } in
      if is_invite s.opts.registration && is_empty req.invite
      then (fail Code.invite_required, s)
      else if not allowed
      then (fail Code.rate_limited, s')
      else if found (get_account e.unicode s.accounts req.user)
      then (fail Code.name_taken, s')
      else register_new w s' sess req

  unfoldable pub register : World → Server → Session → Request → Response × Server
  unfolding register_checked
  register w s sess req =
      let (is_banned, bans) = banned e.unicode w.ban_file s.bans req.user sess.peer_id in
      let s' : Server = record s { bans = bans } in
      if not (is_empty sess.user)
      then (fail Code.bad_request, s)
      else if is_closed s.opts.registration
      then (fail Code.registration_closed, s)
      else if not (valid_username e.unicode req.user)
      then (fail Code.invalid_name, s)
      else if is_banned
      then (fail Code.banned, s')
      else register_checked w s' sess req
          (password_problem e.unicode req.user req.pass s.opts.min_password)

  -- The response to a login that the user database refused.
  unfoldable pub login_error : AccountError → ErrorCode
  login_error Db.no_such_user = Code.no_such_user
  login_error Db.password_required = Code.password_required
  login_error Db.auth_failed = Code.auth_failed
  login_error Db.name_taken = Code.server_error
  login_error Db.io_error = Code.server_error

  unfoldable pub logged_in :
      World → Server → Session → Request → Result AccountError Text → Response × Server
  logged_in w s sess req (ok name) = bind w s sess name req
  logged_in w s sess req (err x) = (fail (login_error x), s)

  abbrev fst_ok : Result AccountError (Text × Bool) → Result AccountError Text
  fst_ok (ok r) = ok r.0
  fst_ok (err x) = err x

  with_password :
      World → Server → Session → Request → Result AccountError Db.Verified → Response × Server
  unfolding logged_in
  with_password w s sess req (err x) = logged_in w s sess req (err x)
  with_password w s sess req (ok v) =
      let (r, db) = login_commit e.unicode w.accounts_written s.accounts req.user sess.peer_id v in
      logged_in w (record s { accounts = db }) sess req (fst_ok r)

  password_login : World → Server → Session → Request → Response × Server
  unfolding with_password
  password_login w s sess req =
      let (ip_ok, auth) = allow s.auth_limit sess.ip w.now in
      let (user_ok, users) = allow s.user_limit (name_key e.unicode req.user) w.now in
      let s1 : Server = record s { auth_limit = auth } in
      let s2 : Server = record s1 { user_limit = users } in
      if ltb max_password_len (length req.pass)
      then (fail Code.auth_failed, s)
      else if not ip_ok
      then (fail Code.rate_limited, s1)
      else if not user_ok
      then (fail Code.rate_limited, s2)
      else with_password w s2 sess req
          (login_verify e.unicode e.scheme w.salt s.accounts req.user req.pass)

  unfoldable pub login : World → Server → Session → Request → Response × Server
  unfolding password_login logged_in
  login w s sess req =
      let (is_banned, bans) = banned e.unicode w.ban_file s.bans req.user sess.peer_id in
      let s' : Server = record s { bans = bans } in
      if not (is_empty sess.user)
      then (fail Code.bad_request, s)
      else if not (valid_username e.unicode req.user)
      then (fail Code.no_such_user, s)
      else if is_banned
      then (fail Code.banned, s')
      else if is_empty req.pass
      then logged_in w s' sess req (login_key e.unicode s.accounts req.user sess.peer_id)
      else password_login w s' sess req
