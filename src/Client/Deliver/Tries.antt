-- ===== src/Client/Deliver/Tries.antt =====
-- The attempts of a delivery: how many there are, and that the first answer that settles it is the last.
use tarion.Base.{
  ℕ, suc, ◌≤◌, ◌≡◌, refl, ◌⊎◌, inl, inr, true, false, Option, none, some, List, ◌∷◌, arith,
  Bool-cases, found, length, All, Result, ok, err,
}
use tarion.Text.{Text}
use tarion.Text.Lower.{Unicode}
use tarion.Storage.Config.{Config}
use tarion.Client.{Failure}
use tarion.Client.Routes.{PeerRelay, Try, World, Course, is_final, settled, quick}
use tarion.Client.Deliver.{
  Delivering, try_at, kept_session, relay_tried, relay_given, fresh_relay, session_tried,
  over_session, via_relay,
}

abbrev pub IsOpen : Try → Type 0
IsOpen t = settled t.outcome ≡ false

failed_of : (x : Option Failure) → settled x ≡ false → found x ≡ true
failed_of none h = absurd (ground (arith, h))
failed_of (some f) h = refl

module _ {S : Type 0} where
  -- The last attempt settled the delivery, none before it did, and its outcome is what is returned.
  abbrev pub Settles : Delivering S → Type 0
  Settles r =
      (t : Try) × (older : List Try) × ((r.1.tries ≡ t ∷ older)
        × (All IsOpen older × ((t.outcome ≡ r.0) × (settled r.0 ≡ true))))

  -- No attempt settled the delivery, and an error that does not settle it is returned.
  abbrev pub Fails : Delivering S → Type 0
  Fails r = All IsOpen r.1.tries × (settled r.0 ≡ false)

  -- At most so many attempts, and the delivery is settled or fails.
  abbrev pub IsDone : ℕ → Delivering S → Type 0
  IsDone k r = (length r.1.tries ≤ k) × (Settles r ⊎ Fails r)

  -- No attempt settles, and there are at most so many.
  abbrev pub IsGoing : ℕ → Course S → Type 0
  IsGoing k w = (length w.tries ≤ k) × All IsOpen w.tries

  pub more : (j k : ℕ) (r : Delivering S) → IsDone j r → j ≤ k → IsDone k r
  more j k r (h, d) l = (omega (arith, h, l), d)

  -- An open end of a delivery goes on.
  pub going : (k : ℕ) (r : Delivering S) → IsDone k r → settled r.0 ≡ false → IsGoing k r.1
  going k r (l, inl (t, older, (e, (o, (x, s))))) h = absurd (ground (arith, s, h))
  going k r (l, inr (o, s)) h = (l, o)

  -- At most so many attempts; and the delivery is settled by the last, or fails with an error.
  abbrev pub IsDelivery : ℕ → Delivering S → Type 0
  IsDelivery k r =
      (length r.1.tries ≤ k) × (Settles r ⊎ (All IsOpen r.1.tries × (found r.0 ≡ true)))

  pub IsDone-IsDelivery : (k : ℕ) (r : Delivering S) → IsDone k r → IsDelivery k r
  IsDone-IsDelivery k r (l, inl s) = (l, inl s)
  IsDone-IsDelivery k r (l, inr (o, s)) = (l, inr (o, failed_of r.0 s))

  pub failing : (k : ℕ) (f : Failure) (w : Course S) → IsGoing 0 w → IsDelivery k (some f, w)
  failing k f w (l, o) = (omega (arith, l), inr (o, refl))

module _ {S : Type 0} (u : Unicode) (cfg : Config) (revoked : List Text) (wait : ℕ) (n : World S)
    (name : Text) where
  pub try_at-IsDone :
      (w : Course S) (k : ℕ) (cand : Text) (timeout : ℕ) (want : Text)
      → IsGoing k w
      → IsDone (suc k) (try_at u cfg revoked wait n name w cand timeout want)
  unfolding try_at
  try_at-IsDone w k cand timeout want (l, o) =
      let x = (try_at u cfg revoked wait n name w cand timeout want).0 in
      elim (Bool-cases (settled x)) [
        | inl s ↦ (omega (arith, l), inl (_, w.tries, (refl, (o, (refl, s)))))
        | inr s ↦ (omega (arith, l), inr ((s, o), s))
      ]

  relay_tried-IsDone :
      (addr id : Text) (k : ℕ) (r : Delivering S)
      → IsDone k r
      → IsDone k (relay_tried u cfg revoked wait n name addr id r)
  unfolding relay_tried kept_session
  relay_tried-IsDone addr id k (some f, w) h = h
  relay_tried-IsDone addr id k (none, w) h = h

  relay_given-IsDone :
      (w : Course S) (k : ℕ) (g : Result Text (Text × Text))
      → IsGoing k w
      → IsDone (suc k) (relay_given u cfg revoked wait n name w g)
  unfolding relay_given is_final
  relay_given-IsDone w k (err t) (l, o) = (omega (arith, l), inr (o, refl))
  relay_given-IsDone w k (ok (addr, id)) h =
      relay_tried-IsDone addr id (suc k) _ (try_at-IsDone w k addr wait id h)

  fresh_relay-IsDone :
      (w : Course S) (k : ℕ)
      → IsGoing k w
      → IsDone (suc k) (fresh_relay u cfg revoked wait n name w)
  unfolding fresh_relay
  fresh_relay-IsDone w k h =
      relay_given-IsDone (record w { net = (n.relayed_by w.net name).1 }) k
        (n.relayed_by w.net name).0 h

  session_tried-IsDone :
      (s : PeerRelay) (k : ℕ) (r : Delivering S)
      → IsDone k r
      → IsDone (suc k) (session_tried u cfg revoked wait n name s r)
  unfolding session_tried kept_session
  session_tried-IsDone s k (none, w) h = more k (suc k) (none, w) h (omega arith)
  session_tried-IsDone s k (some f, w) h = elim (Bool-cases (is_final f)) [
    | inl e ↦ rw e (more k (suc k) (some f, w) h (omega arith))
    | inr e ↦ rw e (fresh_relay-IsDone w k (going k (some f, w) h e))
  ]

  over_session-IsDone :
      (w : Course S) (k : ℕ) (o : Option PeerRelay)
      → IsGoing k w
      → IsDone (suc (suc k)) (over_session u cfg revoked wait n name w o)
  unfolding over_session
  over_session-IsDone w k none h =
      more (suc k) (suc (suc k)) (fresh_relay u cfg revoked wait n name w)
        (fresh_relay-IsDone w k h) (omega arith)
  over_session-IsDone w k (some s) h =
      session_tried-IsDone s (suc k) _ (try_at-IsDone w k s.session_addr quick s.session_peer h)

  pub via_relay-IsDone :
      (w : Course S) (k : ℕ)
      → IsGoing k w
      → IsDone (suc (suc k)) (via_relay u cfg revoked wait n name w)
  unfolding via_relay
  via_relay-IsDone w k h = over_session-IsDone w k _ h
