-- ===== src/Server/Login/Bound.antt =====
-- Who gets a session, and which.
use tarion.Base.{
  ◌≡◌, refl, ◌∙◌, ◌⊎◌, inl, inr, true, false, Option, none, some, [], arith, ltb, Bool-cases,
  length, Result, ok, err,
}
use tarion.Text.{Text, str_eq, str_eq_refl, is_empty}
use tarion.Dict.{get, put, get-put}
use tarion.Accounts.{AccountError, login_key, login_verify, Verified}
use tarion.Access.Bans.{banned}
use tarion.Limiter.{allow}
use tarion.Mailbox.{MailboxStore}
use tarion.Proto.{name_key, valid_username, max_password_len}
use tarion.Proto.Messages.{Request}
use tarion.Server.{Server, Session, Env, World, session_of, set_session}
use tarion.Server.Directory.{revoked_keys}
use tarion.Server.Login.{
  bind, bound, close_old, update_mailbox, update_store, logged_in, login, password_login,
  with_password,
}

module _ (e : Env) where
  -- What a login needs to succeed: a session without a user, a valid name that is not banned, and either
  -- no password and the key of the account, or the password.
  pub record Proven (w : World) (s : Server) (sess : Session) (req : Request) : Type 0 where
    pub fresh : sess.user ≡ []
    pub named : valid_username e.unicode req.user ≡ true
    pub not_banned : (banned e.unicode w.ban_file s.bans req.user sess.peer_id).0 ≡ false
    pub proven :
        ((req.pass ≡ [])
          × (name : Text) × (login_key e.unicode s.accounts req.user sess.peer_id ≡ ok name))
        ⊎ ((v : Verified) × (login_verify e.unicode e.scheme w.salt s.accounts req.user req.pass
              ≡ ok v))

  with_password-ok :
      (w : World) (s : Server) (sess : Session) (req : Request) (r : Result AccountError Verified)
      → (with_password e w s sess req r).0.is_ok ≡ true
      → (v : Verified) × (r ≡ ok v)
  unfolding with_password logged_in
  with_password-ok w s sess req (ok v) h = (v, refl)
  with_password-ok w s sess req (err x) h = absurd (ground (arith, h))

  password_login-ok :
      (w : World) (s : Server) (sess : Session) (req : Request)
      → (password_login e w s sess req).0.is_ok ≡ true
      → (v : Verified) × (login_verify e.unicode e.scheme w.salt s.accounts req.user req.pass
          ≡ ok v)
  unfolding password_login
  password_login-ok w s sess req h = elim (Bool-cases (ltb max_password_len (length req.pass))) [
    | inl a ↦ absurd (ground (arith, rw a at h))
    | inr a ↦ elim (Bool-cases (allow s.auth_limit sess.ip w.now).0) [
      | inr b ↦ absurd (ground (arith, rw (a, b) at h))
      | inl b ↦ elim (Bool-cases (allow s.user_limit (name_key e.unicode req.user) w.now).0) [
        | inr c ↦ absurd (ground (arith, rw (a, b, c) at h))
        | inl c ↦ with_password-ok w _ sess req _ (rw (a, b, c) at h)
      ]
    ]
  ]

  logged_in-ok :
      (w : World) (s : Server) (sess : Session) (req : Request) (r : Result AccountError Text)
      → (logged_in e w s sess req r).0.is_ok ≡ true
      → (name : Text) × (r ≡ ok name)
  unfolding logged_in
  logged_in-ok w s sess req (ok name) h = (name, refl)
  logged_in-ok w s sess req (err x) h = absurd (ground (arith, h))

  -- A login that the server accepts came from a session that had no user, named a valid user whom
  -- the ban list, as it is after a look at its file, does not ban with this key, and either had no
  -- password and LoginWithKey accepted its key, or the first half of LoginWithPassword accepted its
  -- password.
  pub login-Proven :
      (w : World) (s : Server) (sess : Session) (req : Request)
      → (login e w s sess req).0.is_ok ≡ true
      → Proven w s sess req
  unfolding login
  login-Proven w s sess req h = elim (Bool-cases (is_empty sess.user)) [
    | inr a ↦ absurd (ground (arith, rw a at h))
    | inl a ↦ elim (Bool-cases (valid_username e.unicode req.user)) [
      | inr b ↦ absurd (ground (arith, rw (a, b) at h))
      | inl b ↦ elim (Bool-cases (banned e.unicode w.ban_file s.bans req.user sess.peer_id).0) [
        | inl c ↦ absurd (ground (arith, rw (a, b, c) at h))
        | inr c ↦ record {
          fresh = ground (arith, a);
          named = b;
          not_banned = c;
          proven = elim (Bool-cases (is_empty req.pass)) [
            | inl d ↦
                let (name, same) = logged_in-ok w _ sess req _ (rw (a, b, c, d) at h) in
                inl (ground (arith, d), name, same)
            | inr d ↦ inr (password_login-ok w _ sess req (rw (a, b, c, d) at h))
          ];
        }
      ]
    ]
  ]

  -- The state after a bind, for the sessions.
  update_store-same :
      (w : World) (s : Server) (sess : Session) (name : Text) (req : Request)
      (o : Option MailboxStore)
      → ((update_store e w s sess name req o).1.sessions ≡ s.sessions)
        × ((update_store e w s sess name req o).1.objects ≡ s.objects)
  unfolding update_store
  update_store-same w s sess name req none = (refl, refl)
  update_store-same w s sess name req (some m) = (refl, refl)

  close_old-same :
      (o : Option Text) (id : Text) (s : Server)
      → ((close_old o id s).sessions ≡ s.sessions) × ((close_old o id s).objects ≡ s.objects)
  unfolding close_old
  close_old-same none id s = (refl, refl)
  close_old-same (some old) id s = elim (Bool-cases (str_eq old id)) [
    | inl h ↦ rw h (refl, refl)
    | inr h ↦ rw h (refl, refl)
  ]

  bind-sessions :
      (w : World) (s : Server) (sess : Session) (name : Text) (req : Request)
      → ((bind e w s sess name req).1.sessions ≡ put s.sessions (name_key e.unicode name) sess.id)
        × ((bind e w s sess name req).1.objects ≡ put s.objects sess.id (bound e sess name req))
  unfolding bind revoked_keys update_mailbox set_session
  bind-sessions w s sess name req =
      let old =
        close_old-same (get s.sessions (name_key e.unicode name)) sess.id
          (record (set_session s (bound e sess name req)) {
            sessions = put s.sessions (name_key e.unicode name) sess.id;
          }) in
      let new = update_store-same w _ sess name req _ in (new.0 ∙ old.0, new.1 ∙ old.1)

  -- After a session is bound to a name, the account key of that name has this session, with that
  -- name as its user, and every other account key has the session that it had.
  pub session_of-bind :
      (w : World) (s : Server) (sess : Session) (name : Text) (req : Request) (k : Text)
      → let s' = (bind e w s sess name req).1 in
        (session_of s' (name_key e.unicode name) ≡ some (bound e sess name req))
        × (str_eq (name_key e.unicode name) k ≡ false → get s'.sessions k ≡ get s.sessions k)
  unfolding session_of
  session_of-bind w s sess name req k =
      let (ses, obj) = bind-sessions w s sess name req in
      let key = name_key e.unicode name in
      (
        rw
            (
              session_of,
              ses,
              get-put s.sessions key key sess.id,
              str_eq_refl key,
              obj,
              get-put s.objects sess.id sess.id (bound e sess name req),
              str_eq_refl sess.id,
            )
            refl,
        λ h. rw (ses, get-put s.sessions key k sess.id, h) refl,
      )
