-- ===== src/Server/Passwords/Deleted.antt =====
-- What a deletion by the owner needs, and what it leaves.
use tarion.Base.{
  ◌≡◌, refl, sym, ap, ◌∙◌, ◌≢◌, inl, inr, true, Option, none, some, List, [], ◌∷◌, ◌++◌, arith,
  if◌then◌else◌, Bool-cases,
}
use tarion.Text.{Text, str_eq, is_empty}
use tarion.Dict.{get, delete, get-delete}
use tarion.Limiter.{allow}
use tarion.Mailbox.{MailboxStore}
use tarion.Accounts.{Accounts, AccountError, get_account, check_password, delete_account}
use tarion.Accounts.Changes.{get-delete_account}
use tarion.Proto.{name_key, deleted}
use tarion.Proto.Messages.{Request}
use mathlib.Core.List.{append-nil}
use tarion.Server.{Server, Session, Env, World, Effect, closed}
use tarion.Server.Passwords.{
  password_check, check_response, close_ended, remove_mailbox, removed_from, end_account,
  delete_checked, delete_op, delete_user,
}

check_response-ok :
    (user : Text) (x : Option AccountError) → (check_response user x).is_ok ≡ true → x ≡ none
check_response-ok user none h = refl
check_response-ok user (some x) h = absurd (ground (arith, h))

-- The connection of the session with this ID is closed.
abbrev pub closes : Option Text → List Effect
closes none = []
closes (some id) = closed id deleted ∷ []

close_ended-same :
    (o : Option Text) (s : Server)
    → ((close_ended o deleted s).sessions ≡ s.sessions)
      × ((close_ended o deleted s).accounts ≡ s.accounts)
      × ((close_ended o deleted s).effects ≡ s.effects ++ closes o)
unfolding close_ended
close_ended-same none s = (refl, refl, sym (append-nil s.effects))
close_ended-same (some id) s = (refl, refl, refl)

module _ (e : Env) where
  password_check-ok :
      (w : World) (s : Server) (sess : Session) (user : Text)
      (op : Accounts → Option AccountError × Accounts)
      → (password_check e w s sess user op).0.is_ok ≡ true
      → ((op s.accounts).0 ≡ none)
        × ((password_check e w s sess user op).1.accounts ≡ (op s.accounts).1)
        × ((password_check e w s sess user op).1.sessions ≡ s.sessions)
        × ((password_check e w s sess user op).1.effects ≡ s.effects)
  unfolding password_check
  password_check-ok w s sess user op h = elim (Bool-cases (allow s.auth_limit sess.ip w.now).0) [
    | inr a ↦ absurd (ground (arith, rw a at h))
    | inl a ↦ elim (Bool-cases (allow s.user_limit (name_key e.unicode user) w.now).0) [
      | inr b ↦ absurd (ground (arith, rw (a, b) at h))
      | inl b ↦ (
        check_response-ok user (op s.accounts).0 (rw (a, b) at h),
        rw (a, b) refl,
        rw (a, b) refl,
        rw (a, b) refl,
      )
    ]
  ]

  delete_checked-ok :
      (w : World) (user : Text) (db : Accounts) (o : Option AccountError)
      → (delete_checked e w user db o).0 ≡ none
      → (o ≡ none)
        × ((delete_checked e w user db o).1
            ≡ (delete_account e.unicode w.accounts_written db user).1)
  unfolding delete_checked
  delete_checked-ok w user db none h = (refl, refl)
  delete_checked-ok w user db (some x) h = absurd (ground (arith, h))

  removed_from-same :
      (w : World) (name : Text) (s : Server) (o : Option MailboxStore)
      → ((removed_from e w name s o).sessions ≡ s.sessions)
        × ((removed_from e w name s o).accounts ≡ s.accounts)
        × ((removed_from e w name s o).effects ≡ s.effects)
  unfolding removed_from
  removed_from-same w name s none = (refl, refl, refl)
  removed_from-same w name s (some m) = (refl, refl, refl)

  ended :
      (w : World) (s : Server) (name : Text)
      → ((end_account e (remove_mailbox e w s name) name).sessions
          ≡ delete s.sessions (name_key e.unicode name))
        × ((end_account e (remove_mailbox e w s name) name).accounts ≡ s.accounts)
        × ((end_account e (remove_mailbox e w s name) name).effects
            ≡ s.effects ++ closes (get s.sessions (name_key e.unicode name)))
  unfolding end_account remove_mailbox
  ended w s name =
      let (a, b, f) = removed_from-same w name s s.mailbox in
      let t = removed_from e w name s s.mailbox in
      let key = name_key e.unicode name in
      let (c, d, g) =
        close_ended-same (get t.sessions key) (record t { sessions = delete t.sessions key }) in
      (
        c ∙ ap (λ m. delete m key) a,
        d ∙ b,
        g
            ∙ ap (λ x. x ++ closes (get t.sessions key)) f
            ∙ ap (λ m. s.effects ++ closes (get m key)) a,
      )

  -- What is left: no account of the user, no entry in the table of sessions, and all others; and the
  -- connection of the session that stood in the table is closed.
  pub record IsDeleted (s s' : Server) (user : Text) : Type 0 where
    pub account :
        (j : Text)
        → get_account e.unicode s'.accounts j ≡ (
            if str_eq (name_key e.unicode user) (name_key e.unicode j)
            then none
            else get_account e.unicode s.accounts j)
    pub session :
        (k : Text)
        → get s'.sessions k
          ≡ (if str_eq (name_key e.unicode user) k then none else get s.sessions k)
    pub closing : s'.effects ≡ s.effects ++ closes (get s.sessions (name_key e.unicode user))

  end_account-IsDeleted :
      (w : World) (s t : Server) (user : Text)
      → t.accounts ≡ (delete_account e.unicode w.accounts_written s.accounts user).1
      → t.sessions ≡ s.sessions
      → t.effects ≡ s.effects
      → IsDeleted s (end_account e (remove_mailbox e w t user) user) user
  end_account-IsDeleted w s t user a b f =
      let (c, d, g) = ended w t user in
      record {
        account = λ j.
            ap (λ x. get_account e.unicode x j) (d ∙ a)
            ∙ get-delete_account e.unicode w.accounts_written s.accounts user j;
        session = λ k.
            ap (λ x. get x k) (c ∙ ap (λ m. delete m (name_key e.unicode user)) b)
            ∙ get-delete s.sessions (name_key e.unicode user) k;
        closing =
            g
            ∙ ap (λ x. x ++ closes (get t.sessions (name_key e.unicode user))) f
            ∙ ap (λ m. s.effects ++ closes (get m (name_key e.unicode user))) b;
      }

  -- If the server accepts a deletion by the owner, then the session had a user, the password was
  -- that user's, no account of that name is left and no session stands under that name in the
  -- table, the connection of the session that stood there is closed with the code for a deletion,
  -- and all other accounts and entries of the table are as before.
  pub delete_user-IsDeleted :
      (w : World) (s : Server) (sess : Session) (req : Request)
      → (delete_user e w s sess req).0.is_ok ≡ true
      → (sess.user ≢ [])
        × (check_password e.unicode e.scheme s.accounts sess.user req.pass ≡ none)
        × IsDeleted s (delete_user e w s sess req).1 sess.user
  unfolding delete_user delete_op
  delete_user-IsDeleted w s sess req h = elim (Bool-cases (is_empty sess.user)) [
    | inl a ↦ absurd (ground (arith, rw a at h))
    | inr a ↦
        let checked = password_check e w s sess sess.user (delete_op e w sess.user req) in
        let is_ok : checked.0.is_ok ≡ true = rw a at h in
        let (x, db, ses, fx) =
          password_check-ok w s sess sess.user (delete_op e w sess.user req) is_ok in
        let (was_ok, gone) = delete_checked-ok w sess.user s.accounts _ x in
        (
          λ n. ground (arith, a, n),
          was_ok,
          rw (a, is_ok) (end_account-IsDeleted w s checked.1 sess.user (db ∙ gone) ses fx),
        )
  ]
