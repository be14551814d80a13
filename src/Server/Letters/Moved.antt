-- ===== src/Server/Letters/Moved.antt =====
-- The mailbox handlers make at most one call of the store.
use tarion.Base.{
  ◌/◌, ◌≡◌, refl, sym, subst, inl, inr, Option, none, some, List, [], ◌∷◌, arith, ltb, Bool-cases,
  length, Result, ok, err,
}
use tarion.Text.{Text, is_empty}
use tarion.Limiter.{allow}
use tarion.Accounts.{Account}
use tarion.Mailbox.{MailboxStore, BoxRecord, MailError}
use tarion.Mailbox.Bounded.{puts, acks, perform}
use tarion.Proto.{ErrorCode, max_sealed_letter, max_ack_ids, name_key}
use tarion.Proto.Messages.{Request}
use tarion.Server.{Server, Session, Env, World, session_of}
use tarion.Server.Moves.{Moves, stays, performs, same-Moves}
use tarion.Server.Letters.{
  account_found, target_in, mailbox_target, mailbox_key, is_device, tell, put_result, put_in,
  put_to, mailbox_put, ack_in, mailbox_ack,
}

module _ (e : Env) where
  account_found-mailbox :
      (w : World) (s : Server) (m : MailboxStore) (o : Option Account)
      → (account_found e w s m o).1.mailbox ≡ s.mailbox
  unfolding account_found
  account_found-mailbox w s m none = refl
  account_found-mailbox w s m (some acct) = ground arith

  target_in-mailbox :
      (w : World) (s : Server) (sess : Session) (target : Text) (o : Option MailboxStore)
      → (target_in e w s sess target o).1.mailbox ≡ s.mailbox
  unfolding target_in
  target_in-mailbox w s sess target none = refl
  target_in-mailbox w s sess target (some m) = ground (arith, account_found-mailbox w s m)

  mailbox_target-mailbox :
      (w : World) (s : Server) (sess : Session) (target : Text)
      → (mailbox_target e w s sess target).1.mailbox ≡ s.mailbox
  unfolding mailbox_target
  mailbox_target-mailbox w s sess target =
      ground (arith, target_in-mailbox w s sess target s.mailbox)

  pub mailbox_key-mailbox :
      (w : World) (s : Server) (sess : Session) (req : Request)
      → (mailbox_key e w s sess req).1.mailbox ≡ s.mailbox
  unfolding mailbox_key
  mailbox_key-mailbox w s sess req = mailbox_target-mailbox w s sess req.target

  tell-mailbox : (ids : List Text) (s : Server) → (tell e ids s).mailbox ≡ s.mailbox
  unfolding tell
  tell-mailbox [] s = refl
  tell-mailbox (id ∷ ids) s = tell-mailbox ids _

  put_result-mailbox :
      (s : Server) (acct : Account) (rec : BoxRecord) (r : Result MailError Text)
      → (put_result e s acct rec r).1.mailbox ≡ s.mailbox
  unfolding put_result
  put_result-mailbox s acct rec (err x) = refl
  put_result-mailbox s acct rec (ok id) =
      tell-mailbox (is_device e rec.peer_id (session_of s (name_key e.unicode acct.name))) s

  put_in-Moves :
      (w : World) (s : Server) (sess : Session) (req : Request) (acct : Account) (rec : BoxRecord)
      (o : Option MailboxStore)
      → s.mailbox ≡ o
      → Moves e.unicode o (put_in e w s sess req acct rec o).1.mailbox
  unfolding put_in perform
  put_in-Moves w s sess req acct rec none h = same-Moves e.unicode none s.mailbox h
  put_in-Moves w s sess req acct rec (some m) h =
      subst (Moves e.unicode (some m)) (sym (put_result-mailbox _ acct rec _)) (
        performs m (
          puts w.letter_id w.mailbox_written acct.name sess.user rec.peer_id req.sealed
            (w.now / 1_000_000_000)))

  put_to-Moves :
      (w : World) (s : Server) (sess : Session) (req : Request)
      (r : Result ErrorCode (Account × BoxRecord))
      → Moves e.unicode s.mailbox (put_to e w s sess req r).1.mailbox
  unfolding put_to
  put_to-Moves w s sess req (err x) = stays s.mailbox
  put_to-Moves w s sess req (ok (acct, rec)) = elim (Bool-cases (is_empty req.sealed)) [
    | inl a ↦ rw a (stays s.mailbox)
    | inr a ↦ elim (Bool-cases (ltb max_sealed_letter (length req.sealed))) [
      | inl b ↦ rw (a, b) (stays s.mailbox)
      | inr b ↦ elim (Bool-cases (allow s.mail_limit (name_key e.unicode sess.user) w.now).0) [
        | inr c ↦ rw (a, b, c) (stays s.mailbox)
        | inl c ↦
            rw (a, b, c)
              (put_in-Moves w
                (record s {
                  mail_limit = (allow s.mail_limit (name_key e.unicode sess.user) w.now).1;
                })
                sess req acct rec s.mailbox refl)
      ]
    ]
  ]

  pub mailbox_put-Moves :
      (w : World) (s : Server) (sess : Session) (req : Request)
      → Moves e.unicode s.mailbox (mailbox_put e w s sess req).1.mailbox
  unfolding mailbox_put
  mailbox_put-Moves w s sess req =
      subst (λ o. Moves e.unicode o (mailbox_put e w s sess req).1.mailbox)
        (mailbox_target-mailbox w s sess req.target)
        (put_to-Moves w (mailbox_target e w s sess req.target).1 sess req
          (mailbox_target e w s sess req.target).0)

  ack_in-Moves :
      (s : Server) (sess : Session) (req : Request) (o : Option MailboxStore)
      → s.mailbox ≡ o
      → Moves e.unicode o (ack_in e s sess req o).1.mailbox
  unfolding ack_in perform
  ack_in-Moves s sess req none h = same-Moves e.unicode none s.mailbox h
  ack_in-Moves s sess req (some m) h = elim (Bool-cases (ltb max_ack_ids (length req.ids))) [
    | inl a ↦ rw a (same-Moves e.unicode (some m) s.mailbox h)
    | inr a ↦ rw a (performs m (acks sess.user req.ids))
  ]

  pub mailbox_ack-Moves :
      (s : Server) (sess : Session) (req : Request)
      → Moves e.unicode s.mailbox (mailbox_ack e s sess req).1.mailbox
  unfolding mailbox_ack
  mailbox_ack-Moves s sess req = elim (Bool-cases (is_empty sess.user)) [
    | inl a ↦ rw a (stays s.mailbox)
    | inr a ↦ rw a (ack_in-Moves s sess req s.mailbox refl)
  ]
