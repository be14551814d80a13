-- ===== src/Server/Forwarding/Moved.antt =====
-- A request for a relay leaves the mailbox alone.
use tarion.Base.{◌≡◌, refl, Option, none, some, arith}
use tarion.Proto.Messages.{Request}
use tarion.Server.{Server, Session, Env, World}
use tarion.Server.Forwarding.{open_relay, relay_found, relay_checked, relay_to}

module _ (e : Env) where
  relay_to-mailbox :
      (w : World) (s : Server) (sess target : Session)
      → (relay_to e w s sess target).1.mailbox ≡ s.mailbox
  unfolding relay_to
  relay_to-mailbox w s sess target = ground arith

  relay_checked-mailbox :
      (w : World) (s : Server) (sess target : Session)
      → (relay_checked e w s sess target).1.mailbox ≡ s.mailbox
  unfolding relay_checked
  relay_checked-mailbox w s sess target = ground (arith, relay_to-mailbox w _ sess target)

  relay_found-mailbox :
      (w : World) (s : Server) (sess : Session) (o : Option Session)
      → (relay_found e w s sess o).1.mailbox ≡ s.mailbox
  unfolding relay_found
  relay_found-mailbox w s sess none = refl
  relay_found-mailbox w s sess (some target) = ground (arith, relay_checked-mailbox w s sess target)

  pub open_relay-mailbox :
      (w : World) (s : Server) (sess : Session) (req : Request)
      → (open_relay e w s sess req).1.mailbox ≡ s.mailbox
  unfolding open_relay
  open_relay-mailbox w s sess req = ground (arith, relay_found-mailbox w s sess)
