-- ===== src/Server/Forwarding/Delivery.antt =====
-- A packet from one client of a relay to the other, all the way.
use tarion.Base.{
  ℕ, ◌≤◌, ◌≡◌, refl, ap, ◌∙◌, ◌≢◌, true, some, [], ◌∷◌, ◌++◌, arith, found, length, take_all,
}
use tarion.Text.{Text, str_eq_refl}
use tarion.Dict.{get, put}
use tarion.Net.{Addr, udp, relayed, ip_equal, to4}
use tarion.Limiter.{allow_n}
use tarion.Relay.Packets.{unwrap, wrap, id_string}
use tarion.Relay.RoundTrips.{unwrap-wrap_iff}
use tarion.Relay.Conn.{Conn, from_server, read_packet, write_to}
use tarion.Relay.Conn.Accepted.{read_packet-wrap}
use tarion.Server.{Server, RelaySession, Env, sent}
use tarion.Server.Forwarding.{
  buffer_size, member_addr, same_addr, is_from, peer_addr, limited, forward_in, forward_unwrapped,
  forward,
}

module _ (e : Env) where
  -- The limits let a packet of this size through.
  abbrev pub IsAllowed : Server → Text → ℕ → ℕ → Type 0
  IsAllowed s id size now =
      ((allow_n s.relay_rate (id_string id) size now).0 ≡ true)
      × ((allow_n s.relay_total [] size now).0 ≡ true)

  limited-sent :
      (s : Server) (id pkt : Text) (now : ℕ) (to : Addr)
      → IsAllowed s id (length pkt) now
      → (limited e s id pkt now (some to)).effects ≡ s.effects ++ sent pkt to ∷ []
  unfolding limited
  limited-sent s id pkt now to (a, b) = rw (a, b) refl

  peer_addr-first :
      (s : Server) (ip : Text) (port : ℕ) (to : Addr) (r : RelaySession)
      → member_addr s r.a ≡ some (udp ip port)
      → member_addr s r.b ≡ some to
      → peer_addr e s (udp ip port) r ≡ some to
  unfolding peer_addr is_from same_addr ip_equal
  peer_addr-first s ip port to r a b = ground (arith, a, b, str_eq_refl (to4 ip))

  forward_unwrapped-sent :
      (s : Server) (ip : Text) (port : ℕ) (id p : Text) (now : ℕ) (to : Addr) (r : RelaySession)
      → length id ≡ 8
      → p ≢ []
      → get s.relays id ≡ some r
      → member_addr s r.a ≡ some (udp ip port)
      → member_addr s r.b ≡ some to
      → IsAllowed s id (length (wrap id p)) now
      → (forward_unwrapped e s (udp ip port) (wrap id p) now (unwrap (wrap id p))).effects
        ≡ s.effects ++ sent (wrap id p) to ∷ []
  unfolding forward_unwrapped forward_in
  forward_unwrapped-sent s ip port id p now to r len some_p f a b allowed =
      rw
        (
          (unwrap-wrap_iff (wrap id p) id p).1 (len, some_p, refl),
          forward_unwrapped,
          f,
          forward_in,
          peer_addr-first s ip port to r a b,
        )
        (limited-sent (record s { relays = put s.relays id (record r { last = now }) }) id
          (wrap id p) now to allowed)

  forward-sent :
      (s : Server) (ip : Text) (port : ℕ) (id p : Text) (now : ℕ) (to : Addr) (r : RelaySession)
      → length id ≡ 8
      → p ≢ []
      → length (wrap id p) ≤ buffer_size
      → get s.relays id ≡ some r
      → member_addr s r.a ≡ some (udp ip port)
      → member_addr s r.b ≡ some to
      → IsAllowed s id (length (wrap id p)) now
      → (forward e s (udp ip port) (wrap id p) now).effects ≡ s.effects ++ sent (wrap id p) to ∷ []
  unfolding forward
  forward-sent s ip port id p now to r len some_p fits f a b allowed =
      ap (λ x. (forward_unwrapped e s (udp ip port) x now (unwrap x)).effects)
        (take_all buffer_size (wrap id p) fits)
      ∙ forward_unwrapped-sent s ip port id p now to r len some_p f a b allowed

  -- Where a relay session joins two clients that know the server's address, the receiver knows the
  -- session, the limits allow the size, and the packet has at most 2048 bytes, a payload that is
  -- not empty is wrapped and sent to the server by the first client, forwarded unchanged to the
  -- second client's address, and read there as that payload from the relay's address.
  pub forward-delivery :
      (s : Server) (sender receiver : Conn) (ip server_ip : Text) (port server_port : ℕ)
      (id p : Text) (now later : ℕ) (to : Addr) (r : RelaySession)
      → length id ≡ 8
      → p ≢ []
      → length (wrap id p) ≤ buffer_size
      → get s.relays id ≡ some r
      → member_addr s r.a ≡ some (udp ip port)
      → member_addr s r.b ≡ some to
      → IsAllowed s id (length (wrap id p)) now
      → sender.server ≡ some (server_ip, server_port)
      → from_server receiver (udp server_ip server_port) ≡ true
      → found (get receiver.sessions id) ≡ true
      → (write_to sender p (relayed id) ≡ some (wrap id p, udp server_ip server_port))
        × ((forward e s (udp ip port) (wrap id p) now).effects
            ≡ s.effects ++ sent (wrap id p) to ∷ [])
        × ((read_packet receiver (wrap id p) (udp server_ip server_port) later).0
            ≡ some (p, relayed id))
  unfolding write_to
  forward-delivery s sender receiver ip server_ip port server_port id p now later to r len some_p
        fits f a b allowed srv from_srv has =
      (
        rw srv refl,
        forward-sent s ip port id p now to r len some_p fits f a b allowed,
        ap (λ x. x.0)
            (read_packet-wrap receiver id p (udp server_ip server_port) later len some_p from_srv
              has),
      )
