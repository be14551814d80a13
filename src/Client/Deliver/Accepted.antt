-- ===== src/Client/Deliver/Accepted.antt =====
-- Whom a message was delivered to: the key that answered the attempt that ended the delivery.
use tarion.Base.{
  ℕ, ◌≡◌, refl, sym, ap, ◌∙◌, subst, inl, inr, Bool, true, false, not, ◌&&◌, ◌||◌, Option, none,
  some, List, [], ◌∷◌, arith, Bool-cases, All,
}
use tarion.Text.{Text, is_empty}
use tarion.Text.Lower.{Unicode, equal_fold}
use tarion.Storage.Held.{Held, HeldError}
use tarion.Storage.Config.{Config}
use tarion.Storage.Peers.{Peer, PeerError, file_error, mismatch, pin_outgoing}
use tarion.Client.{Failure, is_revoked, configured_id}
use tarion.Client.Routes.{LookedUp, Try, World, Course, Check}
use tarion.Client.Deliver.{Delivering, pinned_as, check_peer, deliver_msg}
use tarion.Client.Deliver.Tries.{IsOpen, IsDelivery}
use tarion.Client.Deliver.Ended.{deliver_msg-IsDelivery}
use tarion.Client.Deliver.Every.{deliver_msg-Every}
use tarion.Storage.Peers.Pins.{FoldLaws}
use tarion.Storage.Peers.Kept.{IsPinned}
use tarion.Storage.Peers.Named.{pin_outgoing-outcome}

-- Where `SendMessage` ends without an error, the check accepted the key that is returned, and the peer
-- list is what the check left.
abbrev pub IsHonest : {S : Type 0} → World S → Type 0
IsHonest {S} n =
    (s : S) (cand : Text) (timeout : ℕ) (check : Check) (file : Held (List Peer))
    → (n.sent s cand timeout check file).0 ≡ none
    → (now : ℕ) × (saved : Option HeldError) × (read : Held (List Peer)) × (check now saved
          (n.sent s cand timeout check file).1.0 read
        ≡ (none, (n.sent s cand timeout check file).1.1.1))

failing : {x : Failure} {o : Option Failure} → o ≡ some x → o ≡ none → ⊥
failing h k = cc

-- The key is not banned, and is the one of the config, if there is one, and the one that was wanted, if
-- there is one, and the name is pinned to it.
abbrev pub IsAllowed : Unicode → Config → List Text → Text → Try → Held (List Peer) → Type 0
IsAllowed u cfg revoked name t pinned =
    let configured = configured_id u cfg.contacts name in
    (is_revoked u cfg revoked t.answered_by ≡ false)
    × (((is_empty configured || equal_fold u configured t.answered_by) ≡ true)
        × (((is_empty t.want || equal_fold u t.want t.answered_by) ≡ true)
            × IsPinned u pinned name t.answered_by))

abbrev pub Reached : Unicode → Config → List Text → Text → {S : Type 0} → Course S → Type 0
Reached u cfg revoked name w =
    (t : Try) × (older : List Try) × ((w.tries ≡ t ∷ older)
      × ((t.outcome ≡ none) × (All IsOpen older × IsAllowed u cfg revoked name t w.pinned)))

module _ {S : Type 0} (u : Unicode) (cfg : Config) (revoked : List Text) (wait : ℕ) (n : World S)
    (name : Text) where
  pinned_as-none :
      (r : Option PeerError × Held (List Peer))
      → (pinned_as u cfg revoked wait n name r).0 ≡ none
      → (r.0 ≡ none) × ((pinned_as u cfg revoked wait n name r).1 ≡ r.1)
  unfolding pinned_as
  pinned_as-none (none, file) h = (refl, refl)
  pinned_as-none (some (file_error e), file) h = absurd (failing refl h)
  pinned_as-none (some (mismatch who old got), file) h = absurd (failing refl h)

  pin-IsPinned :
      FoldLaws u
      → (now : ℕ) (saved : Option HeldError) (file : Held (List Peer)) (peer cand : Text)
      → (pin_outgoing u now saved file name peer cand).0 ≡ none
      → IsPinned u (pin_outgoing u now saved file name peer cand).1 name peer
  pin-IsPinned laws now saved file peer cand h =
      elim (pin_outgoing-outcome u now saved file name peer cand laws) [
        | inl k ↦ k.1
        | inr (inl (x, (there, (other, (e, same))))) ↦ absurd (cc)
        | inr (inr (e, (why, (x, same)))) ↦ absurd (cc)
      ]

  check_peer-IsAllowed :
      FoldLaws u
      → (t : Try) (now : ℕ) (saved : Option HeldError) (file : Held (List Peer))
      → let r = check_peer u cfg revoked wait n name t.at t.want now saved t.answered_by file in
        r.0 ≡ none → IsAllowed u cfg revoked name t r.1
  unfolding check_peer
  check_peer-IsAllowed laws t now saved file h =
      let peer = t.answered_by in
      let c = configured_id u cfg.contacts name in
      elim (Bool-cases (is_revoked u cfg revoked peer)) [
        | inl e ↦ absurd (failing refl (rw e at h))
        | inr e ↦ elim (Bool-cases (not (is_empty c) && not (equal_fold u c peer))) [
          | inl d ↦ absurd (failing refl (rw (e, d) at h))
          | inr d ↦ elim (Bool-cases (not (is_empty t.want) && not (equal_fold u t.want peer))) [
            | inl b ↦ absurd (failing refl (rw (e, d, b) at h))
            | inr b ↦
                let pin = pin_outgoing u now saved file name peer t.at in
                let (none_at, same) = pinned_as-none pin (rw (e, d, b) at h) in
                let there : IsPinned u (pinned_as u cfg revoked wait n name pin).1 name peer =
                  subst (λ f. IsPinned u f name peer) (sym same)
                    (pin-IsPinned laws now saved file peer t.at none_at) in
                (e, (ground (arith, d), (ground (arith, b), rw (e, d, b) there)))
          ]
        ]
      ]

  -- The last attempt, if it ended without an error, reached an allowed key.
  abbrev LastReached : List Try → Held (List Peer) → Type 0
  LastReached [] pinned = Unit {0}
  LastReached (t ∷ older) pinned = t.outcome ≡ none → IsAllowed u cfg revoked name t pinned

  each :
      FoldLaws u
      → IsHonest n
      → (s : S) (file : Held (List Peer)) (cand : Text) (timeout : ℕ) (want : Text)
        (tries : List Try)
      → LastReached tries file
      → let r = n.sent s cand timeout (check_peer u cfg revoked wait n name cand want) file in
        LastReached
          (record { at = cand; timeout = timeout; want = want; answered_by = r.1.0; outcome = r.0 }
            ∷ tries)
          r.1.1.1
  each laws honest s file cand timeout want tries last h =
      let check = check_peer u cfg revoked wait n name cand want in
      let r = n.sent s cand timeout check file in
      let (now, saved, read, k) = honest s cand timeout check file h in
      let t : Try = record {
        at = cand;
        timeout = timeout;
        want = want;
        answered_by = r.1.0;
        outcome = r.0;
      } in
      subst (IsAllowed u cfg revoked name t) (ap (λ x. x.1) k)
        (check_peer-IsAllowed laws t now saved read (ap (λ x. x.0) k))

  pub IsDelivery-Reached :
      (k : ℕ) (r : Delivering S)
      → IsDelivery k r
      → LastReached r.1.tries r.1.pinned
      → r.0 ≡ none
      → Reached u cfg revoked name r.1
  IsDelivery-Reached k r (l, inr (o, f)) a h = absurd (ground (arith, rw h at f))
  IsDelivery-Reached k r (l, inl (t, older, (e, (o, (x, s))))) a h =
      let allowed : IsAllowed u cfg revoked name t r.1.pinned =
        subst (λ ts. LastReached ts r.1.pinned) e a (x ∙ h) in
      (t, older, (e, (x ∙ h, (o, allowed))))

-- If names that are equal up to case form classes, where SendMessage ends without an error its
-- check accepted the key that it returns and the peer list is what that check left, no attempt was
-- made before, and deliverMsg returns no error, then the last attempt, and no other, ended without
-- an error; and the key that answered it is not banned, is the one that the config has for the
-- contact and the one that the attempt asks for, where there is one, and is the one to which the
-- contact's name is pinned in the peer list afterwards.
pub deliver_msg-Reached :
    {S : Type 0} (u : Unicode) (cfg : Config) (revoked : List Text) (wait : ℕ) (n : World S)
    (name : Text) (connected : Bool) (lookup : Text → LookedUp) (addr : Text) (w : Course S)
    → FoldLaws u
    → IsHonest n
    → w.tries ≡ []
    → (deliver_msg u cfg revoked wait n name connected lookup addr w).0 ≡ none
    → Reached u cfg revoked name (deliver_msg u cfg revoked wait n name connected lookup addr w).1
deliver_msg-Reached u cfg revoked wait n name connected lookup addr w laws honest h d =
    let P = LastReached u cfg revoked wait n name in
    let start : P w.tries w.pinned = subst (λ ts. P ts w.pinned) (sym h) tt in
    let r = deliver_msg u cfg revoked wait n name connected lookup addr w in
    IsDelivery-Reached u cfg revoked wait n name _ r
      (deliver_msg-IsDelivery u cfg revoked wait n name connected lookup addr w h)
      (deliver_msg-Every u cfg revoked wait n name P (each u cfg revoked wait n name laws honest)
        connected lookup addr w start)
      d
