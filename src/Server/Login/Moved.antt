-- ===== src/Server/Login/Moved.antt =====
-- A login makes at most one call of the mailbox: it publishes a key or removes the mailbox.
use tarion.Base.{
  ◌≡◌, refl, subst, inl, inr, Bool, ◌&&◌, Option, none, some, arith, ltb, Bool-cases, found, length,
  Result, ok, err,
}
use tarion.Text.{Text, is_empty}
use tarion.Dict.{get, put}
use tarion.Limiter.{allow}
use tarion.Accounts.{Accounts, AccountError, Verified}
use tarion.Accounts as Db
use tarion.Accounts.{get_account}
use tarion.Access.{is_invite, is_closed}
use tarion.Access.Bans.{BanList, banned}
use tarion.Access.Invites.{consume}
use tarion.Access.PasswordRules.{PasswordProblem}
use tarion.Mailbox.{MailboxStore, BoxRecord, set_key}
use tarion.Mailbox.Bounded.{sets_key, removes, perform}
use tarion.Proto.{name_key, valid_username, max_password_len}
use tarion.Proto.Messages.{Request}
use tarion.Server.{Server, Session, Env, World, set_session}
use tarion.Server.Moves.{Moves, stays, performs, same-Moves}
use tarion.Server.Directory.{revoked_keys}
use tarion.Server.Login.{
  update_box, update_store, update_mailbox, verify_box_key, close_old, bind, bound, registered,
  register_new, register_checked, register, logged_in, with_password, password_login, login,
}

module _ (e : Env) where
  abbrev key_record : Session → Request → BoxRecord
  key_record sess req = record {
    peer_id = sess.peer_id;
    pub_key = sess.pub_key;
    box_key = req.box_key;
    box_sig = req.box_sig;
  }

  update_box-Moves :
      (w : World) (m : MailboxStore) (sess : Session) (name : Text) (req : Request)
      → Moves e.unicode (some m) (some (update_box e w m sess name req).1)
  unfolding update_box perform
  update_box-Moves w m sess name req = elim (Bool-cases req.accept_mailbox) [
    | inr a ↦ rw a (performs m (removes w.mailbox_removed name))
    | inl a ↦ elim (Bool-cases (verify_box_key e sess.pub_key req.box_key req.box_sig)) [
      | inr b ↦ rw (a, b) (stays (some m))
      | inl b ↦
          elim (Bool-cases (set_key e.unicode w.mailbox_written m name (key_record sess req)).0) [
            | inr c ↦
                rw (a, b, c) (performs m (sets_key w.mailbox_written name (key_record sess req)))
            | inl c ↦
                rw (a, b, c) (performs m (sets_key w.mailbox_written name (key_record sess req)))
          ]
    ]
  ]

  update_store-Moves :
      (w : World) (s : Server) (sess : Session) (name : Text) (req : Request)
      (o : Option MailboxStore)
      → s.mailbox ≡ o
      → Moves e.unicode o (update_store e w s sess name req o).1.mailbox
  unfolding update_store
  update_store-Moves w s sess name req none h = same-Moves e.unicode none s.mailbox h
  update_store-Moves w s sess name req (some m) h = update_box-Moves w m sess name req

  close_old-mailbox :
      (o : Option Text) (id : Text) (s : Server) → (close_old o id s).mailbox ≡ s.mailbox
  unfolding close_old
  close_old-mailbox none id s = refl
  close_old-mailbox (some old) id s = ground arith

  update_mailbox-Moves :
      (w : World) (s : Server) (sess : Session) (name : Text) (req : Request)
      → Moves e.unicode s.mailbox (update_mailbox e w s sess name req).1.mailbox
  unfolding update_mailbox
  update_mailbox-Moves w s sess name req = update_store-Moves w s sess name req s.mailbox refl

  bind-Moves :
      (w : World) (s : Server) (sess : Session) (name : Text) (req : Request)
      → Moves e.unicode s.mailbox (bind e w s sess name req).1.mailbox
  unfolding bind revoked_keys set_session
  bind-Moves w s sess name req =
      let key = name_key e.unicode name in
      let s1 = set_session s (bound e sess name req) in
      subst (λ o. Moves e.unicode o (bind e w s sess name req).1.mailbox)
        (close_old-mailbox (get s.sessions key) sess.id
          (record s1 { sessions = put s.sessions key sess.id }))
        (update_mailbox-Moves w _ sess name req)

  refused-mailbox :
      (w : World) (s : Server) (sess : Session) (req : Request) (x : AccountError) (db : Accounts)
      → (registered e w s sess req (err x, db)).1.mailbox ≡ s.mailbox
  unfolding registered
  refused-mailbox w s sess req Db.name_taken db = ground arith
  refused-mailbox w s sess req Db.no_such_user db = ground arith
  refused-mailbox w s sess req Db.auth_failed db = ground arith
  refused-mailbox w s sess req Db.password_required db = ground arith
  refused-mailbox w s sess req Db.io_error db = ground arith

  registered-Moves :
      (w : World) (s : Server) (sess : Session) (req : Request)
      (r : Result AccountError Text × Accounts)
      → Moves e.unicode s.mailbox (registered e w s sess req r).1.mailbox
  unfolding registered
  registered-Moves w s sess req (ok name, db) =
      bind-Moves w (record s { accounts = db }) sess name req
  registered-Moves w s sess req (err x, db) =
      same-Moves e.unicode s.mailbox _ (refused-mailbox w s sess req x db)

  abbrev ban_check : World → Server → Session → Request → Bool × BanList
  ban_check w s sess req = banned e.unicode w.ban_file s.bans req.user sess.peer_id

  logged_in-Moves :
      (w : World) (s : Server) (sess : Session) (req : Request) (r : Result AccountError Text)
      → Moves e.unicode s.mailbox (logged_in e w s sess req r).1.mailbox
  unfolding logged_in
  logged_in-Moves w s sess req (ok name) = bind-Moves w s sess name req
  logged_in-Moves w s sess req (err x) = stays s.mailbox

  with_password-Moves :
      (w : World) (s : Server) (sess : Session) (req : Request) (r : Result AccountError Verified)
      → Moves e.unicode s.mailbox (with_password e w s sess req r).1.mailbox
  unfolding with_password
  with_password-Moves w s sess req (ok v) = logged_in-Moves w _ sess req _
  with_password-Moves w s sess req (err x) = logged_in-Moves w s sess req (err x)

  register_new-Moves :
      (w : World) (s : Server) (sess : Session) (req : Request)
      → Moves e.unicode s.mailbox (register_new e w s sess req).1.mailbox
  unfolding register_new
  register_new-Moves w s sess req = elim (Bool-cases (is_invite s.opts.registration)) [
    | inr a ↦ rw a (registered-Moves w s sess req _)
    | inl a ↦ elim (Bool-cases (consume e.map_upper s.invites req.invite).0) [
      | inr b ↦ rw (a, b) (stays s.mailbox)
      | inl b ↦
          rw (a, b)
            (registered-Moves w
              (record s { invites = (consume e.map_upper s.invites req.invite).1 }) sess req _)
    ]
  ]

  register_checked-Moves :
      (w : World) (s : Server) (sess : Session) (req : Request) (o : Option PasswordProblem)
      → Moves e.unicode s.mailbox (register_checked e w s sess req o).1.mailbox
  unfolding register_checked
  register_checked-Moves w s sess req (some x) = stays s.mailbox
  register_checked-Moves w s sess req none =
      elim (Bool-cases (is_invite s.opts.registration && is_empty req.invite)) [
        | inl a ↦ rw a (stays s.mailbox)
        | inr a ↦ elim (Bool-cases (allow s.reg_limit sess.ip w.now).0) [
          | inr b ↦ rw (a, b) (stays s.mailbox)
          | inl b ↦ elim (Bool-cases (found (get_account e.unicode s.accounts req.user))) [
            | inl c ↦ rw (a, b, c) (stays s.mailbox)
            | inr c ↦
                rw (a, b, c)
                  (register_new-Moves w
                    (record s { reg_limit = (allow s.reg_limit sess.ip w.now).1 }) sess req)
          ]
        ]
      ]

  pub register-Moves :
      (w : World) (s : Server) (sess : Session) (req : Request)
      → Moves e.unicode s.mailbox (register e w s sess req).1.mailbox
  unfolding register
  register-Moves w s sess req = elim (Bool-cases (is_empty sess.user)) [
    | inr a ↦ rw a (stays s.mailbox)
    | inl a ↦ elim (Bool-cases (is_closed s.opts.registration)) [
      | inl b ↦ rw (a, b) (stays s.mailbox)
      | inr b ↦ elim (Bool-cases (valid_username e.unicode req.user)) [
        | inr c ↦ rw (a, b, c) (stays s.mailbox)
        | inl c ↦ elim (Bool-cases (ban_check w s sess req).0) [
          | inl d ↦ rw (a, b, c, d) (stays s.mailbox)
          | inr d ↦
              rw (a, b, c, d)
                (register_checked-Moves w (record s { bans = (ban_check w s sess req).1 }) sess req
                  _)
        ]
      ]
    ]
  ]

  password_login-Moves :
      (w : World) (s : Server) (sess : Session) (req : Request)
      → Moves e.unicode s.mailbox (password_login e w s sess req).1.mailbox
  unfolding password_login
  password_login-Moves w s sess req =
      let auth = allow s.auth_limit sess.ip w.now in
      let users = allow s.user_limit (name_key e.unicode req.user) w.now in
      elim (Bool-cases (ltb max_password_len (length req.pass))) [
        | inl a ↦ rw a (stays s.mailbox)
        | inr a ↦ elim (Bool-cases auth.0) [
          | inr b ↦ rw (a, b) (stays s.mailbox)
          | inl b ↦ elim (Bool-cases users.0) [
            | inr c ↦ rw (a, b, c) (stays s.mailbox)
            | inl c ↦
                rw (a, b, c)
                  (with_password-Moves w (record s { auth_limit = auth.1; user_limit = users.1 })
                    sess req _)
          ]
        ]
      ]

  pub login-Moves :
      (w : World) (s : Server) (sess : Session) (req : Request)
      → Moves e.unicode s.mailbox (login e w s sess req).1.mailbox
  unfolding login
  login-Moves w s sess req =
      let s' : Server = record s { bans = (ban_check w s sess req).1 } in
      elim (Bool-cases (is_empty sess.user)) [
        | inr a ↦ rw a (stays s.mailbox)
        | inl a ↦ elim (Bool-cases (valid_username e.unicode req.user)) [
          | inr b ↦ rw (a, b) (stays s.mailbox)
          | inl b ↦ elim (Bool-cases (ban_check w s sess req).0) [
            | inl c ↦ rw (a, b, c) (stays s.mailbox)
            | inr c ↦ elim (Bool-cases (is_empty req.pass)) [
              | inl d ↦ rw (a, b, c, d) (logged_in-Moves w s' sess req _)
              | inr d ↦ rw (a, b, c, d) (password_login-Moves w s' sess req)
            ]
          ]
        ]
      ]
