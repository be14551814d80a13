-- ===== src/Server/Passwords.antt =====
-- Passwords and the end of accounts in server/server.go: passwordCheck, changePassword, deleteAccount,
-- processDeletions, endAccount, kickBanned, removeMailbox.
pub mod Moved
pub mod Deleted
use tarion.Base.{Bool, not, Option, none, some, List, [], ◌∷◌, if◌then◌else◌, Result, ok, err}
use tarion.Text.{Text, is_empty}
use tarion.Dict.{Dict, get, delete}
use tarion.Limiter.{allow}
use tarion.Accounts.{
  Accounts, AccountError, change_hash, change_commit, check_password, delete_account,
}
use tarion.Accounts as Db
use tarion.Access.Bans.{banned, is_banned, refresh}
use tarion.Access.Deletions.{pending, done}
use tarion.Access.PasswordRules.{PasswordProblem, password_problem}
use tarion.Mailbox.{MailboxStore, remove}
use tarion.Proto.{ErrorCode, CloseCode, name_key, deleted, banned_close}
use tarion.Proto as Code
use tarion.Proto.Messages.{Request, Response, accepted, empty_response, fail}
use tarion.Server.{Server, Session, Env, World, closed, emit}

-- The response to a check that the user database refused.
unfoldable pub check_error : AccountError → ErrorCode
check_error Db.auth_failed = Code.auth_failed
check_error Db.no_such_user = Code.no_such_user
check_error Db.name_taken = Code.server_error
check_error Db.password_required = Code.server_error
check_error Db.io_error = Code.server_error

abbrev pub check_response : Text → Option AccountError → Response
check_response user none = record accepted { user = user }
check_response user (some x) = fail (check_error x)

abbrev pub error_of {ℓ} : {A : Type ℓ} → Result AccountError A → Option AccountError
error_of (ok a) = none
error_of (err x) = some x

close_ended : Option Text → CloseCode → Server → Server
close_ended none code s = s
close_ended (some id) code s = emit (closed id code) s

-- The sessions that a predicate picks are closed with a code.
close_each : (Session → Bool) → CloseCode → Dict Session → Dict Text → Server → Server
close_each p code objects [] s = s
close_each p code objects ((k, id) ∷ m) s = elim (get objects id) [
  | none ↦ close_each p code objects m s
  | some o ↦ close_each p code objects m (if p o then emit (closed id code) s else s)
]

module _ (e : Env) where
  -- passwordCheck: an operation that checks a password, within the limits.
  unfoldable pub password_check :
      World
      → Server
      → Session
      → Text
      → (Accounts → Option AccountError × Accounts)
      → Response × Server
  password_check w s sess user op =
      let (ip_ok, auth) = allow s.auth_limit sess.ip w.now in
      let (user_ok, users) = allow s.user_limit (name_key e.unicode user) w.now in
      let s1 : Server = record s { auth_limit = auth } in
      let s2 : Server = record s1 { user_limit = users } in
      let (x, db) = op s.accounts in
      if not ip_ok
      then (fail Code.rate_limited, s1)
      else if not user_ok
      then (fail Code.rate_limited, s2)
      else (check_response user x, record s2 { accounts = db })

  -- ChangePassword, both halves.
  hash_changed :
      World → Text → Accounts → Result AccountError (Text × Text) → Option AccountError × Accounts
  hash_changed w user db (err x) = (some x, db)
  hash_changed w user db (ok (checked, hash)) =
      let (r, db') = change_commit e.unicode w.accounts_written db user checked hash in
      (error_of r, db')

  change_op : World → Text → Request → Accounts → Option AccountError × Accounts
  unfolding hash_changed
  change_op w user req db =
      hash_changed w user db (change_hash e.unicode e.scheme w.salt db user req.pass req.new_pass)

  change_checked : World → Server → Session → Request → Option PasswordProblem → Response × Server
  unfolding change_op
  change_checked w s sess req (some problem) =
      (record empty_response { error = some Code.weak_password; detail = some problem }, s)
  change_checked w s sess req none = password_check w s sess sess.user (change_op w sess.user req)

  unfoldable pub change_password : World → Server → Session → Request → Response × Server
  unfolding change_checked
  change_password w s sess req =
      if is_empty sess.user
      then (fail Code.not_logged_in, s)
      else change_checked w s sess req
          (password_problem e.unicode sess.user req.new_pass s.opts.min_password)

  removed_from : World → Text → Server → Option MailboxStore → Server
  removed_from w name s none = s
  removed_from w name s (some m) = record s {
    mailbox = some (remove e.unicode w.mailbox_removed m name).1;
  }

  unfoldable pub remove_mailbox : World → Server → Text → Server
  unfolding removed_from
  remove_mailbox w s name = removed_from w name s s.mailbox

  -- endAccount closes the live session of a deleted account.
  unfoldable pub end_account : Server → Text → Server
  unfolding close_ended
  end_account s name =
      let key = name_key e.unicode name in
      close_ended (get s.sessions key) deleted (record s { sessions = delete s.sessions key })

  unfoldable pub delete_checked :
      World → Text → Accounts → Option AccountError → Option AccountError × Accounts
  delete_checked w user db (some x) = (some x, db)
  delete_checked w user db none =
      let (r, db') = delete_account e.unicode w.accounts_written db user in (error_of r, db')

  unfoldable pub delete_op : World → Text → Request → Accounts → Option AccountError × Accounts
  unfolding delete_checked
  delete_op w user req db =
      delete_checked w user db (check_password e.unicode e.scheme db user req.pass)

  unfoldable pub delete_user : World → Server → Session → Request → Response × Server
  unfolding delete_op
  delete_user w s sess req =
      let (resp, s') = password_check w s sess sess.user (delete_op w sess.user req) in
      if is_empty sess.user
      then (fail Code.not_logged_in, s)
      else (resp, if resp.is_ok then end_account (remove_mailbox w s' sess.user) sess.user else s')

  deleted_one : World → Server → Text → Result AccountError Bool → Server
  deleted_one w s name (err x) = s
  deleted_one w s name (ok existed) =
      let s' = if existed then end_account (remove_mailbox w s name) name else s in
      record s' { deletions = done e.unicode w.deletion_removed s'.deletions name }

  unfoldable pub delete_names : World → Server → List Text → Server
  unfolding deleted_one
  delete_names w s [] = s
  delete_names w s (name ∷ names) =
      let (r, db) = delete_account e.unicode w.accounts_written s.accounts name in
      delete_names w (deleted_one w (record s { accounts = db }) name r) names

  -- processDeletions carries out the requests of the operator.
  unfoldable pub process_deletions : World → Server → Server
  process_deletions w s = delete_names w s (pending e.unicode s.deletions)

  -- kickBanned closes the sessions of users or keys that were just banned.
  unfoldable pub kick_banned : World → Server → Server
  unfolding close_each
  kick_banned w s =
      let bans = (refresh e.unicode w.ban_file s.bans).1 in
      close_each (λ o. is_banned e.unicode bans o.user o.peer_id) banned_close s.objects s.sessions
        (record s { bans = bans })
