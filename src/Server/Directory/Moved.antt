-- ===== src/Server/Directory/Moved.antt =====
-- The handlers of this part leave the mailbox alone.
use tarion.Base.{ℕ, ◌≡◌, refl, Option, none, some, arith}
use tarion.Text.{Text}
use tarion.Proto.Messages.{Request}
use tarion.Server.{Server, Session, Env, World, set_session}
use tarion.Server.Directory.{
  lookup, looked_up, found_user, advertise, send_probe, probe_nonce, probe_to,
}

module _ (e : Env) where
  pub advertise-mailbox :
      (s : Server) (sess : Session) (req : Request) → (advertise e s sess req).1.mailbox ≡ s.mailbox
  unfolding advertise set_session
  advertise-mailbox s sess req = ground arith

  found_user-mailbox :
      (w : World) (s : Server) (sess target : Session)
      → (found_user e w s sess target).1.mailbox ≡ s.mailbox
  unfolding found_user
  found_user-mailbox w s sess target = ground arith

  looked_up-mailbox :
      (w : World) (s : Server) (sess : Session) (o : Option Session)
      → (looked_up e w s sess o).1.mailbox ≡ s.mailbox
  unfolding looked_up
  looked_up-mailbox w s sess none = refl
  looked_up-mailbox w s sess (some target) = ground (arith, found_user-mailbox w s sess target)

  pub lookup-mailbox :
      (w : World) (s : Server) (sess : Session) (req : Request)
      → (lookup e w s sess req).1.mailbox ≡ s.mailbox
  unfolding lookup
  lookup-mailbox w s sess req = ground (arith, looked_up-mailbox w s sess)

  probe_to-mailbox :
      (w : World) (s : Server) (sess : Session) (nonce : Text) (o : Option (Text × ℕ))
      → (probe_to e w s sess nonce o).1.mailbox ≡ s.mailbox
  unfolding probe_to
  probe_to-mailbox w s sess nonce none = refl
  probe_to-mailbox w s sess nonce (some (ip, port)) = ground arith

  probe_nonce-mailbox :
      (w : World) (s : Server) (sess : Session) (o : Option Text)
      → (probe_nonce e w s sess o).1.mailbox ≡ s.mailbox
  unfolding probe_nonce
  probe_nonce-mailbox w s sess none = refl
  probe_nonce-mailbox w s sess (some nonce) =
      ground (arith, probe_to-mailbox w _ sess nonce (e.resolve_udp sess.public_addr))

  pub send_probe-mailbox :
      (w : World) (s : Server) (sess : Session) (req : Request)
      → (send_probe e w s sess req).1.mailbox ≡ s.mailbox
  unfolding send_probe
  send_probe-mailbox w s sess req = ground (arith, probe_nonce-mailbox w s sess)
