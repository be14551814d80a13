-- ===== src/Network/Sending/Reaching.antt =====
-- A peer that can be reached gets the message, also when the connection that was kept is dead.
use tarion.Base.{
  ℕ, ◌≡◌, refl, sym, subst, ◌⊎◌, inl, inr, Bool, true, false, ◌||◌, Option, none, some, [], ◌∷◌,
  ◌++◌, arith, ltb, if◌then◌else◌, length,
}
use tarion.Text.{Text, text, str_eq_refl, is_empty}
use tarion.Net.{Addr}
use tarion.Dict.{Dict, get}
use tarion.Network.{Envelope, max_body_bytes, max_id_bytes}
use tarion.Network.Sending.{
  PeerConn, Attempt, resolve, live, dial_to, dialed, reuse, conn_to, check_answer, send_on_stream,
  Ended, answered, checked, identified, connected, attempt, send_loop, outgoing_envelope,
  send_message,
}

module _ {E : Type 0} (verify : Text → Option E) (e : Envelope) (p : Text) (addr : Text) where
  -- The peer acknowledges the message on this connection.
  abbrev pub Acks : Attempt → PeerConn → Type 0
  Acks w c = (r : Envelope) × ((w.answer c e ≡ some r) × ((r.kind ≡ text "ack") × (r.id ≡ e.id)))

  -- A connection to the address can be made, leads to the peer, and the peer acknowledges.
  abbrev pub IsReachable : Attempt → Type 0
  IsReachable w =
      (a : Addr) × (c : PeerConn) × ((resolve w addr ≡ some a)
        × ((w.dial a ≡ some c) × ((c.peer ≡ some p) × Acks w c)))

  -- The kept connection, if there is one, leads to the peer, and is dead or acknowledges.
  abbrev pub IsHarmless : Attempt → Option PeerConn → Type 0
  IsHarmless w none = Unit {0}
  IsHarmless w (some c) = (c.peer ≡ some p) × ((w.answer c e ≡ none) ⊎ Acks w c)

  abbrev pub IsDelivered : Ended E → Type 0
  IsDelivered r = (r.failed ≡ none) × (r.peer_id ≡ p)

  abbrev IsDone : Ended E → Type 0
  IsDone r = (r.again ≡ false) × IsDelivered r

  check_answer-Acks : (w : Attempt) (c : PeerConn) → Acks w c → send_on_stream {E = E} w c e ≡ none
  unfolding send_on_stream check_answer
  check_answer-Acks w c (r, (a, (k, i))) =
      rw (a, k, i, str_eq_refl (text "ack"), str_eq_refl e.id) refl

  identified-IsDone :
      (w : Attempt) (c : PeerConn) (cached : Bool) (conns : Dict PeerConn)
      → verify p ≡ none
      → c.peer ≡ some p
      → Acks w c
      → IsDone (identified verify w addr e c cached conns c.peer)
  unfolding identified checked answered
  identified-IsDone w c cached conns v cp k =
      subst (λ o. IsDone (identified verify w addr e c cached conns o)) (sym cp)
        (subst (λ o. IsDone (checked verify w addr e p c cached conns o)) (sym v)
          (subst (λ o. IsDone (answered verify addr e p c cached conns o))
            (sym (check_answer-Acks w c k)) (refl, (refl, refl))))

  dialed-IsDone :
      (w : Attempt) (conns : Dict PeerConn)
      → verify p ≡ none
      → IsReachable w
      → IsDone (connected verify w addr e (reuse w addr conns none))
  unfolding connected reuse dialed dial_to
  dialed-IsDone w conns v (a, c, (ra, (da, (cp, k)))) =
      rw (ra, da) (identified-IsDone w c false _ v cp k)

  again_on :
      (w : Attempt) (c : PeerConn) (conns : Dict PeerConn)
      → verify p ≡ none
      → c.peer ≡ some p
      → w.answer c e ≡ none
      → (identified verify w addr e c true conns c.peer).again ≡ true
  unfolding identified checked answered send_on_stream check_answer
  again_on w c conns v cp dead =
      subst (λ o. (identified verify w addr e c true conns o).again ≡ true) (sym cp)
        (subst (λ o. (checked verify w addr e p c true conns o).again ≡ true) (sym v)
          (subst (λ o. (answered verify addr e p c true conns (check_answer e o)).again ≡ true)
            (sym dead) refl))

  -- What the first attempt does with a kept connection.
  connected-IsDone :
      (w : Attempt) (conns : Dict PeerConn) (o : Option PeerConn)
      → verify p ≡ none
      → IsReachable w
      → IsHarmless w o
      → let r = connected verify w addr e (reuse w addr conns o) in IsDone r ⊎ (r.again ≡ true)
  unfolding reuse connected
  connected-IsDone w conns none v reach h = inl (dialed-IsDone w conns v reach)
  connected-IsDone w conns (some c) v reach (cp, inr k) =
      inl (identified-IsDone w c true conns v cp k)
  connected-IsDone w conns (some c) v reach (cp, inl dead) = inr (again_on w c conns v cp dead)

  send_loop-IsDelivered :
      (w1 w2 : Attempt) (conns : Dict PeerConn)
      → verify p ≡ none
      → IsReachable w1
      → IsReachable w2
      → IsHarmless w1 (live w1 (get conns addr))
      → IsDelivered (send_loop verify (w1 ∷ w2 ∷ []) addr e false conns none)
  unfolding send_loop attempt conn_to
  send_loop-IsDelivered w1 w2 conns v reach1 reach2 h =
      let r = attempt verify w1 addr e false conns in
      let rest = attempt verify w2 addr e true r.conns in
      let last : IsDone rest = dialed-IsDone w2 r.conns v reach2 in
      let again = send_loop verify (w2 ∷ []) addr e true r.conns r.failed in
      let after = send_loop verify [] addr e true rest.conns rest.failed in
      let delivered : IsDelivered again =
        subst
          (λ b.
            IsDelivered (if b then record after { sends = rest.sends ++ after.sends } else rest))
          (sym last.0) last.1 in
      let Then : Bool → Type 0 =
        λ b. IsDelivered (if b then record again { sends = r.sends ++ again.sends } else r) in
      elim (connected-IsDone w1 conns (live w1 (get conns addr)) v reach1 h) [
        | inl d ↦ subst Then (sym d.0) d.1
        | inr a ↦ subst Then (sym a) delivered
      ]

-- If a client that has started sends a message with a body and an ID within the limits to an
-- address at which, in both attempts, a connection can be made to a peer that the check accepts and
-- that acknowledges the message, and if a connection that was kept for that address and still looks
-- alive leads to that peer and is dead or acknowledges the message as well, then SendMessage
-- returns that peer and no error.
pub send_message-IsDelivered :
    {E : Type 0} (verify : Text → Option E) (w1 w2 : Attempt) (conns : Dict PeerConn) (id : Text)
    (sent : ℕ) (addr from body p : Text)
    → is_empty addr ≡ false
    → (is_empty body || ltb max_body_bytes (length body)) ≡ false
    → (is_empty id || ltb max_id_bytes (length id)) ≡ false
    → verify p ≡ none
    → IsReachable verify (outgoing_envelope verify id sent from body) p addr w1
    → IsReachable verify (outgoing_envelope verify id sent from body) p addr w2
    → IsHarmless verify
        (outgoing_envelope verify id sent from body)
        p
        addr
        w1
        (live w1 (get conns addr))
    → IsDelivered verify
        (outgoing_envelope verify id sent from body)
        p
        addr
        (send_message verify true w1 w2 conns id sent addr from body)
unfolding send_message
send_message-IsDelivered verify w1 w2 conns id sent addr from body p ha hb hi v r1 r2 h =
    let no_body : is_empty body ≡ false = ground (arith, hb) in
    let not_large : ltb max_body_bytes (length body) ≡ false = ground (arith, hb) in
    rw (ha, no_body, not_large, hi)
      (send_loop-IsDelivered verify (outgoing_envelope verify id sent from body) p addr w1 w2 conns
        v r1 r2 h)
