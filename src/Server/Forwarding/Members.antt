-- ===== src/Server/Forwarding/Members.antt =====
-- Where the relay sends packets: from one member of a session to the other, unchanged.
use tarion.Base.{
  ℕ, ◌≡◌, refl, ap, ◌∙◌, ◌⊎◌, inl, inr, Bool, true, false, Option, none, some, List, [], ◌∷◌, ◌++◌,
  arith, if◌then◌else◌, Bool-cases, found, length,
}
use tarion.Text.{Text}
use tarion.Dict.{get}
use tarion.Net.{Addr}
use tarion.Limiter.{allow_n}
use tarion.Relay.Packets.{unwrap, wrap, id_string}
use tarion.Relay.RoundTrips.{unwrap-wrap_iff}
use tarion.Server.{Server, RelaySession, Env, Effect, sent}
use tarion.Server.Forwarding.{
  member_addr, same_addr, is_from, peer_addr, limited, forward_in, forward_unwrapped, forward,
  in_buffer,
}

module _ (e : Env) where
  -- The address is that of a session, as the server knows it.
  abbrev pub IsAt : Server → Addr → Text → Type 0
  IsAt s a id = (m : Addr) × (member_addr s id ≡ some m) × (same_addr e a m ≡ true)

  is_from-IsAt :
      (s : Server) (a : Addr) (id : Text) (o : Option Addr)
      → member_addr s id ≡ o
      → is_from e a o ≡ true
      → IsAt s a id
  unfolding is_from
  is_from-IsAt s a id none f h = absurd (ground (arith, h))
  is_from-IsAt s a id (some m) f h = (m, f, h)

  -- The packet goes from one member of the session to the other.
  abbrev pub Between : Server → RelaySession → Addr → Addr → Type 0
  Between s r from to =
      (IsAt s from r.a × (member_addr s r.b ≡ some to))
      ⊎ (IsAt s from r.b × (member_addr s r.a ≡ some to))

  peer_addr-Between :
      (s : Server) (from to : Addr) (r : RelaySession)
      → peer_addr e s from r ≡ some to
      → Between s r from to
  unfolding peer_addr
  peer_addr-Between s from to r h = elim (Bool-cases (is_from e from (member_addr s r.a))) [
    | inl a ↦ inl (is_from-IsAt s from r.a _ refl a, rw a at h)
    | inr a ↦ elim (Bool-cases (is_from e from (member_addr s r.b))) [
      | inl b ↦ inr (is_from-IsAt s from r.b _ refl b, rw (a, b) at h)
      | inr b ↦ absurd (ground (arith, rw (a, b) at h))
    ]
  ]

  -- What one packet made the server send.
  abbrev pub Forwarded : Server → Addr → Text → List Effect → Type 0
  Forwarded s from pkt effects =
      (effects ≡ s.effects)
      ⊎ ((id : Text) × (payload : Text) × (r : RelaySession) × (to : Addr) × (pkt ≡ wrap id payload)
          × (get s.relays id ≡ some r)
          × Between s r from to
          × (effects ≡ s.effects ++ sent pkt to ∷ []))

  limited-effects :
      (s : Server) (id pkt : Text) (now : ℕ) (o : Option Addr)
      → ((limited e s id pkt now o).effects ≡ s.effects)
        ⊎ ((to : Addr) × (o ≡ some to)
            × ((limited e s id pkt now o).effects ≡ s.effects ++ sent pkt to ∷ []))
  unfolding limited
  limited-effects s id pkt now none = inl refl
  limited-effects s id pkt now (some to) =
      elim (Bool-cases (allow_n s.relay_rate (id_string id) (length pkt) now).0) [
        | inr a ↦ inl (rw a refl)
        | inl a ↦ elim (Bool-cases (allow_n s.relay_total [] (length pkt) now).0) [
          | inr b ↦ inl (rw (a, b) refl)
          | inl b ↦ inr (to, refl, rw (a, b) refl)
        ]
      ]

  forward_to-Forwarded :
      (s : Server) (from : Addr) (id pkt payload : Text) (now : ℕ) (r : RelaySession) (t : Server)
      (o : Option Addr)
      → pkt ≡ wrap id payload
      → get s.relays id ≡ some r
      → peer_addr e s from r ≡ o
      → t.effects ≡ s.effects
      → Forwarded s from pkt (limited e t id pkt now o).effects
  forward_to-Forwarded s from id pkt payload now r t o e' f p same =
      elim (limited-effects t id pkt now o) [
        | inl h ↦ inl (h ∙ same)
        | inr (to, is_to, h) ↦ inr (
          id,
          payload,
          r,
          to,
          e',
          f,
          peer_addr-Between s from to r (p ∙ is_to),
          h ∙ ap (λ es. es ++ sent pkt to ∷ []) same,
        )
      ]

  touched_same :
      (s t : Server) (b : Bool) → t.effects ≡ s.effects → (if b then t else s).effects ≡ s.effects
  touched_same s t true h = h
  touched_same s t false h = refl

  forward_in-Forwarded :
      (s : Server) (from : Addr) (id pkt payload : Text) (now : ℕ) (o : Option RelaySession)
      → pkt ≡ wrap id payload
      → get s.relays id ≡ o
      → Forwarded s from pkt (forward_in e s from id pkt now o).effects
  unfolding forward_in
  forward_in-Forwarded s from id pkt payload now none e' f = inl refl
  forward_in-Forwarded s from id pkt payload now (some r) e' f =
      forward_to-Forwarded s from id pkt payload now r _ _ e' f refl
        (touched_same s _ (found (peer_addr e s from r)) refl)

  forward_unwrapped-Forwarded :
      (s : Server) (from : Addr) (pkt : Text) (now : ℕ) (o : Option (Text × Text))
      → unwrap pkt ≡ o
      → Forwarded s from pkt (forward_unwrapped e s from pkt now o).effects
  unfolding forward_unwrapped
  forward_unwrapped-Forwarded s from pkt now none f = inl refl
  forward_unwrapped-Forwarded s from pkt now (some (id, payload)) f =
      forward_in-Forwarded s from id pkt payload now (get s.relays id)
        ((unwrap-wrap_iff pkt id payload).0 f).2 refl

  -- For a packet that arrives, of which ServeRelay reads what fits in its buffer of 2048 bytes, the
  -- server sends nothing, or one copy of all that was read, which is the header of a relay session
  -- and a payload, from the address of one member of that session to the address of the other.
  pub forward-Forwarded :
      (s : Server) (from : Addr) (pkt : Text) (now : ℕ)
      → Forwarded s from (in_buffer pkt) (forward e s from pkt now).effects
  unfolding forward
  forward-Forwarded s from pkt now =
      forward_unwrapped-Forwarded s from (in_buffer pkt) now (unwrap (in_buffer pkt)) refl
