-- ===== src/Server/Handle.antt =====
-- The dispatch of requests and the periodic work of server/server.go: handle, and the loops of Serve.
pub mod Limits
use tarion.Base.{ℕ, Option, none, some, if◌then◌else◌}
use tarion.Limiter.{allow, sweep}
use tarion.Mailbox.{MailboxStore}
use tarion.Mailbox.Expiry.{expire}
use tarion.Access.Bans.{refresh}
use tarion.Proto.{bad_request, rate_limited}
use tarion.Proto.Messages.{
  Op, op_register, op_login, op_list, op_lookup, op_relay, op_advertise, op_probe,
  op_change_password, op_delete_account, op_mailbox_key, op_mailbox_put, op_mailbox_fetch,
  op_mailbox_ack, unknown_op, Request, Response, fail,
}
use tarion.Server.{Server, Session, Env, World}
use tarion.Server.Directory.{list_users, lookup, advertise, send_probe, broadcast_revoked}
use tarion.Server.Login.{register, login}
use tarion.Server.Forwarding.{open_relay, sweep_relays}
use tarion.Server.Passwords.{change_password, delete_user, process_deletions, kick_banned}
use tarion.Server.Letters.{mailbox_key, mailbox_put, mailbox_fetch, mailbox_ack}

-- Serve's work of every minute: all limiters but those of probes and of the relay's total.
unfoldable pub sweep_limits : Server → ℕ → Server
sweep_limits s now = record s {
  conn_limit = sweep s.conn_limit now;
  auth_limit = sweep s.auth_limit now;
  user_limit = sweep s.user_limit now;
  reg_limit = sweep s.reg_limit now;
  req_limit = sweep s.req_limit now;
  punch_limit = sweep s.punch_limit now;
  relay_rate = sweep s.relay_rate now;
  mail_limit = sweep s.mail_limit now;
}

module _ (e : Env) where
  expired : ℕ → Option MailboxStore → Option MailboxStore
  expired now none = none
  expired now (some m) = some (expire e.unicode m now).0

  unfoldable pub minute : Server → ℕ → Server
  unfolding expired
  minute s now =
      let s' = sweep_relays (sweep_limits s now) now in
      record s' { mailbox = expired now s'.mailbox }

  -- Serve's work of every two seconds.
  unfoldable pub watch_files : World → Server → Server
  watch_files w s =
      let (changed, bans) = refresh e.unicode w.ban_file s.bans in
      let s' : Server = record s { bans = bans } in
      process_deletions e w (if changed then broadcast_revoked e w (kick_banned e w s') else s')

  -- handle, after the limit on requests.
  unfoldable pub dispatch : World → Server → Session → Request → Op → Response × Server
  dispatch w s sess req op_register = register e w s sess req
  dispatch w s sess req op_login = login e w s sess req
  dispatch w s sess req op_list = (list_users s sess, s)
  dispatch w s sess req op_lookup = lookup e w s sess req
  dispatch w s sess req op_relay = open_relay e w s sess req
  dispatch w s sess req op_advertise = advertise e s sess req
  dispatch w s sess req op_probe = send_probe e w s sess req
  dispatch w s sess req op_change_password = change_password e w s sess req
  dispatch w s sess req op_delete_account = delete_user e w s sess req
  dispatch w s sess req op_mailbox_key = mailbox_key e w s sess req
  dispatch w s sess req op_mailbox_put = mailbox_put e w s sess req
  dispatch w s sess req op_mailbox_fetch = mailbox_fetch e s sess
  dispatch w s sess req op_mailbox_ack = mailbox_ack e s sess req
  dispatch w s sess req unknown_op = (fail bad_request, s)

  unfoldable pub handle : World → Server → Session → Request → Response × Server
  handle w s sess req =
      let (allowed, limit) = allow s.req_limit sess.id w.now in
      let s' : Server = record s { req_limit = limit } in
      if allowed then dispatch w s' sess req req.op else (fail rate_limited, s')
