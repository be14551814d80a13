-- ===== src/Relay/Conn/Accepted.antt =====
-- What ReadFrom takes for a packet of a relay session.
use tarion.Base.{
  ℕ, ◌≡◌, refl, ◌≢◌, inl, inr, true, not, ◌&&◌, Option, none, some, [], arith, Bool-cases, found,
  length,
}
use tarion.Text.{Text}
use tarion.Dict.{get, put}
use tarion.Net.{Addr, udp, relayed, other}
use tarion.Relay.Packets.{wrap, unwrap, parse_probe}
use tarion.Relay.RoundTrips.{unwrap-wrap_iff}
use tarion.Relay.Conn.{Conn, from_server, known, probed, relay_packet, unwrapped, read_packet}

abbrev pub IsRelayed : Addr → Type 0
IsRelayed (udp ip port) = ⊥
IsRelayed (other s) = ⊥
IsRelayed (relayed id) = Unit {0}

relay_packet-ok :
    (c c' : Conn) (a : Addr) (now : ℕ) (id payload p id' : Text)
    → relay_packet c a now (id, payload) ≡ (some (p, relayed id'), c')
    → (from_server c a ≡ true) × (found (get c.sessions id) ≡ true) × (p ≡ payload) × (id' ≡ id)
unfolding relay_packet known
relay_packet-ok c c' a now id payload p id' h = elim (Bool-cases (from_server c a)) [
  | inr e ↦ absurd (ground (arith, rw e at h))
  | inl e ↦ elim (Bool-cases (found (get c.sessions id))) [
    | inr f ↦ absurd (ground (arith, rw (e, f) at h))
    | inl f ↦ let h' = rw (e, f) at h in (e, f, ground (arith, h'), ground (arith, h'))
  ]
]

probed-direct :
    (c c' : Conn) (pkt p id : Text) (a : Addr) (n : Option Text)
    → probed c pkt a n ≡ (some (p, relayed id), c')
    → a ≡ relayed id
unfolding probed
probed-direct c c' pkt p id a (some nonce) h = absurd (ground (arith, h))
probed-direct c c' pkt p id a none h = ground (arith, h)

unwrapped-ok :
    (c c' : Conn) (pkt p id : Text) (a : Addr) (now : ℕ) (o : Option (Text × Text))
    → a ≢ relayed id
    → unwrapped c pkt a now o ≡ (some (p, relayed id), c')
    → (o ≡ some (id, p)) × (from_server c a ≡ true) × (found (get c.sessions id) ≡ true)
unfolding unwrapped
unwrapped-ok c c' pkt p id a now none direct h =
    elim (Bool-cases (c.strict && not (from_server c a))) [
      | inl e ↦ absurd (ground (arith, rw e at h))
      | inr e ↦ absurd (direct (probed-direct c c' pkt p id a (parse_probe pkt) (rw e at h)))
    ]
unwrapped-ok c c' pkt p id a now (some (i, q)) direct h =
    let (srv, has, same_p, same_i) = relay_packet-ok c c' a now i q p id h in
    (rw (same_p, same_i) refl, srv, rw same_i has)

-- If a client's connection returns a payload from the address of a relay session, and the packet
-- did not carry that address itself, then the packet is that payload under the header of that
-- session, it came from the server, and the session was known.
pub read_packet-relayed :
    (c c' : Conn) (pkt p id : Text) (a : Addr) (now : ℕ)
    → a ≢ relayed id
    → read_packet c pkt a now ≡ (some (p, relayed id), c')
    → (pkt ≡ wrap id p) × (from_server c a ≡ true) × (found (get c.sessions id) ≡ true)
unfolding read_packet
read_packet-relayed c c' pkt p id a now direct h =
    let (e, srv, has) = unwrapped-ok c c' pkt p id a now (unwrap pkt) direct h in
    (((unwrap-wrap_iff pkt id p).0 e).2, srv, has)

pub read_packet-wrap :
    (c : Conn) (id p : Text) (a : Addr) (now : ℕ)
    → length id ≡ 8
    → p ≢ []
    → from_server c a ≡ true
    → found (get c.sessions id) ≡ true
    → read_packet c (wrap id p) a now
      ≡ (some (p, relayed id), record c { sessions = put c.sessions id now })
unfolding read_packet unwrapped relay_packet known
read_packet-wrap c id p a now len some_p srv has =
    rw
      (
        (unwrap-wrap_iff (wrap id p) id p).1 (len, some_p, refl),
        unwrapped,
        relay_packet,
        known,
        srv,
        has,
      )
      refl
