-- ===== src/Network/Sending/Verified.antt =====
-- What SendMessage sends, and when it says that the message was delivered.
use tarion.Base.{
  ℕ, suc, ◌≤◌, ◌≡◌, refl, sym, subst, ◌⊎◌, inl, inr, Bool, true, false, not, ◌||◌, Option, none,
  some, List, [], ◌∷◌, ◌++◌, arith, ltb, if◌then◌else◌, Bool-cases, found, length, All,
  length-append, All-append,
}
use tarion.Text.{Text, text, str_eq, str_eq_iff, is_empty}
use tarion.Dict.{Dict}
use tarion.Network.{Envelope, max_body_bytes, max_id_bytes}
use tarion.Network.Sending.{
  PeerConn, Attempt, SendError, Connected, conn_to, check_answer, send_on_stream, Ended, answered,
  checked, identified, connected, attempt, send_loop, outgoing_envelope, send_message, failure,
  not_started, no_address, no_message, message_too_large, bad_message_id,
}

some-none : {A : Type 0} {x : A} → ◌≡◌ {A = Option A} (some x) none → ⊥
some-none h = cc

module _ {E : Type 0} (verify : Text → Option E) (e : Envelope) where
  -- The message went to a peer that was verified.
  abbrev pub IsSend : Text × Envelope → Type 0
  IsSend s = (verify s.0 ≡ none) × (s.1 ≡ e)

  -- The attempt got an ack with the message's ID from a peer that was verified.
  abbrev pub IsAcked : Text → Attempt → Type 0
  IsAcked p w =
      (c : PeerConn) × (r : Envelope) × ((c.peer ≡ some p)
        × ((verify p ≡ none) × ((w.answer c e ≡ some r) × ((r.kind ≡ text "ack") × (r.id ≡ e.id)))))

  abbrev pub AnyAcked : Text → List Attempt → Type 0
  AnyAcked p [] = ⊥
  AnyAcked p (w ∷ ws) = IsAcked p w ⊎ AnyAcked p ws

  -- Sends go to verified peers only, at most so many, and without an error one of the attempts was
  -- acknowledged.
  abbrev pub IsSending : List Attempt → ℕ → Ended E → Type 0
  IsSending ws n r =
      All IsSend r.sends
      × ((length r.sends ≤ n) × ((found r.failed ≡ true) ⊎ AnyAcked r.peer_id ws))

  -- One attempt; where another is made, this one failed.
  abbrev IsAttempt : Attempt → Ended E → Type 0
  IsAttempt w r =
      All IsSend r.sends
      × ((length r.sends ≤ 1)
          × (((found r.failed ≡ true) ⊎ IsAcked r.peer_id w)
              × ((r.again ≡ false) ⊎ (found r.failed ≡ true))))

  ack_of :
      (o : Option Envelope)
      → check_answer {E = E} e o ≡ none
      → (r : Envelope) × ((o ≡ some r) × ((r.kind ≡ text "ack") × (r.id ≡ e.id)))
  unfolding check_answer
  ack_of none h = absurd (some-none h)
  ack_of (some r) h = elim (Bool-cases (str_eq r.kind (text "ack"))) [
    | inr k ↦ absurd (some-none (rw k at h))
    | inl k ↦ elim (Bool-cases (str_eq r.id e.id)) [
      | inr i ↦ absurd (some-none (rw (k, i) at h))
      | inl i ↦ (r, (refl, ((str_eq_iff r.kind (text "ack")).0 k, (str_eq_iff r.id e.id).0 i)))
    ]
  ]

  answered_right :
      (w : Attempt) (addr p : Text) (c : PeerConn) (cached : Bool) (conns : Dict PeerConn)
      (o : Option (SendError E))
      → verify p ≡ none
      → c.peer ≡ some p
      → send_on_stream w c e ≡ o
      → IsAttempt w (answered verify addr e p c cached conns o)
  unfolding answered send_on_stream
  answered_right w addr p c cached conns none v cp h =
      let (r, (a, k)) = ack_of (w.answer c e) h in
      (((v, refl), tt), (omega arith, (inr (c, r, (cp, (v, (a, k)))), inl refl)))
  answered_right w addr p c cached conns (some x) v cp h =
      (((v, refl), tt), (omega arith, (inl refl, inr refl)))

  checked_right :
      (w : Attempt) (addr p : Text) (c : PeerConn) (cached : Bool) (conns : Dict PeerConn)
      (o : Option E)
      → verify p ≡ o
      → c.peer ≡ some p
      → IsAttempt w (checked verify w addr e p c cached conns o)
  unfolding checked
  checked_right w addr p c cached conns (some x) v cp = (tt, (omega arith, (inl refl, inl refl)))
  checked_right w addr p c cached conns none v cp =
      answered_right w addr p c cached conns (send_on_stream w c e) v cp refl

  identified_right :
      (w : Attempt) (addr : Text) (c : PeerConn) (cached : Bool) (conns : Dict PeerConn)
      (o : Option Text)
      → c.peer ≡ o
      → IsAttempt w (identified verify w addr e c cached conns o)
  unfolding identified
  identified_right w addr c cached conns none cp = (tt, (omega arith, (inl refl, inl refl)))
  identified_right w addr c cached conns (some p) cp =
      checked_right w addr p c cached conns (verify p) refl cp

  connected_right :
      (w : Attempt) (addr : Text) (k : Connected) → IsAttempt w (connected verify w addr e k)
  unfolding connected
  connected_right w addr (none, conns) = (tt, (omega arith, (inl refl, inl refl)))
  connected_right w addr (some (c, cached), conns) =
      identified_right w addr c cached conns c.peer refl

  attempt_right :
      (w : Attempt) (addr : Text) (fresh : Bool) (conns : Dict PeerConn)
      → IsAttempt w (attempt verify w addr e fresh conns)
  unfolding attempt
  attempt_right w addr fresh conns = connected_right w addr (conn_to w addr fresh conns)

  failed_of :
      (r : Ended E)
      → r.again ≡ true
      → (r.again ≡ false) ⊎ (found r.failed ≡ true)
      → found r.failed ≡ true
  failed_of r a (inl b) = absurd (ground (arith, a, b))
  failed_of r a (inr f) = f

  one_end :
      (w : Attempt) (ws : List Attempt) (r : Ended E)
      → (found r.failed ≡ true) ⊎ IsAcked r.peer_id w
      → (found r.failed ≡ true) ⊎ (IsAcked r.peer_id w ⊎ AnyAcked r.peer_id ws)
  one_end w ws r (inl f) = inl f
  one_end w ws r (inr k) = inr (inl k)

  rest_end :
      (w : Attempt) (ws : List Attempt) (r : Ended E)
      → (found r.failed ≡ true) ⊎ AnyAcked r.peer_id ws
      → (found r.failed ≡ true) ⊎ (IsAcked r.peer_id w ⊎ AnyAcked r.peer_id ws)
  rest_end w ws r (inl f) = inl f
  rest_end w ws r (inr k) = inr (inr k)

  loop_step :
      (w : Attempt) (ws : List Attempt) (addr : Text) (fresh : Bool) (conns : Dict PeerConn)
      (last : Option (SendError E))
      → ((conns' : Dict PeerConn) (last' : Option (SendError E))
          → found last' ≡ true
          → IsSending ws (length ws) (send_loop verify ws addr e true conns' last'))
      → IsSending (w ∷ ws) (suc (length ws)) (send_loop verify (w ∷ ws) addr e fresh conns last)
  unfolding send_loop
  loop_step w ws addr fresh conns last ih =
      let r = attempt verify w addr e fresh conns in
      let rest = send_loop verify ws addr e true r.conns r.failed in
      let (sends, (one, (ends, again))) = attempt_right w addr fresh conns in
      let Right : Bool → Type 0 = λ b.
        IsSending (w ∷ ws) (suc (length ws))
          (if b then record rest { sends = r.sends ++ rest.sends } else r) in
      elim (Bool-cases r.again) [
        | inr a ↦ subst Right (sym a) (sends, (omega (arith, one), one_end w ws r ends))
        | inl a ↦
            let (more, (many, end)) = ih r.conns r.failed (failed_of r a again) in
            subst Right (sym a) (
              All-append IsSend r.sends rest.sends sends more,
              (omega (arith, one, many, length-append r.sends rest.sends), rest_end w ws rest end),
            )
      ]

  loop_right :
      (ws : List Attempt) (addr : Text) (fresh : Bool) (conns : Dict PeerConn)
      (last : Option (SendError E))
      → found last ≡ true
      → IsSending ws (length ws) (send_loop verify ws addr e fresh conns last)
  unfolding send_loop
  loop_right [] addr fresh conns last h = (tt, (omega arith, inl h))
  loop_right (w ∷ ws) addr fresh conns last h =
      loop_step w ws addr fresh conns last
        (λ conns' last' f. loop_right ws addr true conns' last' f)

  guarded :
      (b : Bool) (ws : List Attempt) (n : ℕ) (conns : Dict PeerConn) (x : SendError E) (r : Ended E)
      → IsSending ws n r
      → IsSending ws n (if b then failure verify conns x else r)
  guarded true ws n conns x r h = (tt, (omega arith, inl refl))
  guarded false ws n conns x r h = h

-- If SendMessage is called with a check of the peer, then the message that it makes, with the ID,
-- the time and the body that it was given, is all that it sends, it is sent at most twice, and only
-- to peers that the check accepts; and if there is no error, then in one of the two attempts the
-- peer that is returned, which the check accepts, answered the message with an ack for its ID.
pub send_message-IsSending :
    {E : Type 0} (verify : Text → Option E) (started : Bool) (w1 w2 : Attempt)
    (conns : Dict PeerConn) (id : Text) (sent : ℕ) (addr from body : Text)
    → IsSending verify
        (outgoing_envelope verify id sent from body)
        (w1 ∷ w2 ∷ [])
        2
        (send_message verify started w1 w2 conns id sent addr from body)
unfolding send_message
send_message-IsSending verify started w1 w2 conns id sent addr from body =
    let e = outgoing_envelope verify id sent from body in
    let ws = w1 ∷ w2 ∷ [] in
    let sending =
      loop_step verify e w1 (w2 ∷ []) addr false conns none
        (λ conns' last' f. loop_right verify e (w2 ∷ []) addr true conns' last' f) in
    guarded verify e (not started) ws 2 conns not_started _ (
      guarded verify e (is_empty addr) ws 2 conns no_address _ (
        guarded verify e (is_empty body) ws 2 conns no_message _ (
          guarded verify e (ltb max_body_bytes (length body)) ws 2 conns message_too_large _ (
            guarded verify e (is_empty id || ltb max_id_bytes (length id)) ws 2 conns bad_message_id
              _ sending))))
