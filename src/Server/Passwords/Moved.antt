-- ===== src/Server/Passwords/Moved.antt =====
-- A change of a password leaves the mailbox alone, and a deletion may remove one.
use tarion.Base.{◌≡◌, refl, sym, subst, inl, inr, Option, none, some, arith, Bool-cases}
use tarion.Text.{Text, is_empty}
use tarion.Dict.{get, delete}
use tarion.Accounts.{Accounts, AccountError}
use tarion.Access.PasswordRules.{PasswordProblem}
use tarion.Mailbox.{MailboxStore}
use tarion.Mailbox.Bounded.{removes, perform}
use tarion.Proto.{name_key, CloseCode, deleted}
use tarion.Proto.Messages.{Request}
use tarion.Server.{Server, Session, Env, World}
use tarion.Server.Moves.{Moves, stays, performs, same-Moves}
use tarion.Server.Passwords.{
  password_check, change_checked, change_op, change_password, remove_mailbox, removed_from,
  close_ended, end_account, delete_op, delete_user,
}

close_ended-mailbox :
    (o : Option Text) (c : CloseCode) (s : Server) → (close_ended o c s).mailbox ≡ s.mailbox
unfolding close_ended
close_ended-mailbox none c s = refl
close_ended-mailbox (some id) c s = refl

module _ (e : Env) where
  password_check-mailbox :
      (w : World) (s : Server) (sess : Session) (user : Text)
      (op : Accounts → Option AccountError × Accounts)
      → (password_check e w s sess user op).1.mailbox ≡ s.mailbox
  unfolding password_check
  password_check-mailbox w s sess user op = ground arith

  change_checked-mailbox :
      (w : World) (s : Server) (sess : Session) (req : Request) (o : Option PasswordProblem)
      → (change_checked e w s sess req o).1.mailbox ≡ s.mailbox
  unfolding change_checked
  change_checked-mailbox w s sess req (some x) = refl
  change_checked-mailbox w s sess req none =
      password_check-mailbox w s sess sess.user (change_op e w sess.user req)

  pub change_password-mailbox :
      (w : World) (s : Server) (sess : Session) (req : Request)
      → (change_password e w s sess req).1.mailbox ≡ s.mailbox
  unfolding change_password
  change_password-mailbox w s sess req = elim (Bool-cases (is_empty sess.user)) [
    | inl a ↦ rw a refl
    | inr a ↦ rw a (change_checked-mailbox w s sess req _)
  ]

  removed_from-Moves :
      (w : World) (name : Text) (s : Server) (o : Option MailboxStore)
      → s.mailbox ≡ o
      → Moves e.unicode o (removed_from e w name s o).mailbox
  unfolding removed_from perform
  removed_from-Moves w name s none h = same-Moves e.unicode none s.mailbox h
  removed_from-Moves w name s (some m) h = performs m (removes w.mailbox_removed name)

  end_account-mailbox : (s : Server) (name : Text) → (end_account e s name).mailbox ≡ s.mailbox
  unfolding end_account
  end_account-mailbox s name =
      let key = name_key e.unicode name in
      close_ended-mailbox (get s.sessions key) deleted
        (record s { sessions = delete s.sessions key })

  ended-Moves :
      (w : World) (s : Server) (name : Text)
      → Moves e.unicode s.mailbox (end_account e (remove_mailbox e w s name) name).mailbox
  unfolding remove_mailbox
  ended-Moves w s name =
      subst (Moves e.unicode s.mailbox) (sym (end_account-mailbox (remove_mailbox e w s name) name))
        (removed_from-Moves w name s s.mailbox refl)

  pub delete_user-Moves :
      (w : World) (s : Server) (sess : Session) (req : Request)
      → Moves e.unicode s.mailbox (delete_user e w s sess req).1.mailbox
  unfolding delete_user
  delete_user-Moves w s sess req =
      let checked = password_check e w s sess sess.user (delete_op e w sess.user req) in
      let same = password_check-mailbox w s sess sess.user (delete_op e w sess.user req) in
      elim (Bool-cases (is_empty sess.user)) [
        | inl a ↦ rw a (stays s.mailbox)
        | inr a ↦ elim (Bool-cases checked.0.is_ok) [
          | inr b ↦ rw (a, b) (same-Moves e.unicode s.mailbox checked.1.mailbox same)
          | inl b ↦
              rw (a, b)
                (subst
                  (λ o.
                    Moves e.unicode o
                      (end_account e (remove_mailbox e w checked.1 sess.user) sess.user).mailbox)
                  same (ended-Moves w checked.1 sess.user))
        ]
      ]
