-- ===== src/Client/Deliver/Ended.antt =====
-- How a delivery ends: the loop over the addresses, the relay after it, and deliverMsg as a whole.
use tarion.Base.{
  ℕ, suc, ◌+◌, ◌≤◌, max, ◌≡◌, refl, ◌∙◌, ◌⊎◌, inl, inr, Bool, true, false, not, ◌&&◌, Option, none,
  some, List, [], ◌∷◌, arith, if◌then◌else◌, Bool-cases, length, ok, err,
}
use tarion.Text.{Text, is_empty}
use tarion.Text.Lower.{Unicode}
use tarion.Storage.Config.{Config, relay_enabled}
use tarion.Storage.Peers.{peer_by_name}
use tarion.Client.{
  Failure, revoked_peer, wrong_key, no_address_known, offline, unreachable, refused_by_peer,
  is_revoked, configured_id, known_addr,
}
use tarion.Client.Routes.{
  LookedUp, World, Course, is_final, settled, relayed_recently, Route, or_known, nowhere, reworded,
  with_relay, nothing_at,
}
use tarion.Client.Deliver.{
  Delivering, via_relay, timeout_of, Looped, after_try, try_all, relay_last, after_loop,
  deliver_routed, deliver_to, is_revoked_peer, route_to, deliver_msg,
}
use tarion.Client.Deliver.Tries.{
  Settles, Fails, IsDone, IsGoing, IsDelivery, IsDone-IsDelivery, failing, more, try_at-IsDone,
  going, via_relay-IsDone,
}

module _ {S : Type 0} (u : Unicode) (cfg : Config) (revoked : List Text) (wait : ℕ) (n : World S)
    (name : Text) where
  -- The loop is left early where an attempt settles the delivery.
  abbrev IsLooped : ℕ → Looped u cfg revoked wait n name → Type 0
  IsLooped k l =
      (length l.1.1.tries ≤ k) × (((l.0 ≡ true) × Settles l.1) ⊎ ((l.0 ≡ false) × Fails l.1))

  IsDone-Settles : (k : ℕ) (r : Delivering S) → IsDone k r → settled r.0 ≡ true → Settles r
  IsDone-Settles k r (l, inl s) h = s
  IsDone-Settles k r (l, inr (o, s)) h = absurd (ground (arith, s, h))

  after_try-IsLooped :
      (j k : ℕ) (r : Delivering S) (rest : Looped u cfg revoked wait n name)
      → IsDone j r
      → j ≤ k
      → (IsGoing j r.1 → settled r.0 ≡ false → IsLooped k rest)
      → IsLooped k (after_try u cfg revoked wait n name r rest)
  unfolding after_try
  after_try-IsLooped j k (none, w) rest h l f =
      (omega (arith, l, h.0), inl (refl, IsDone-Settles j (none, w) h refl))
  after_try-IsLooped j k (some x, w) rest h l f = elim (Bool-cases (is_final x)) [
    | inl e ↦ rw e (omega (arith, l, h.0), inl (refl, IsDone-Settles j (some x, w) h e))
    | inr e ↦ rw e (f (going j (some x, w) h e) e)
  ]

  loop_step :
      (can : Bool) (id c : Text) (cs : List Text) (last : Option Failure) (w : Course S) (k m : ℕ)
      → IsGoing k w
      → suc k ≤ m
      → ((r : Delivering S)
          → IsGoing (suc k) r.1
          → settled r.0 ≡ false
          → IsLooped m (try_all u cfg revoked wait n name can id cs r))
      → IsLooped m (try_all u cfg revoked wait n name can id (c ∷ cs) (last, w))
  unfolding try_all
  loop_step can id c cs last w k m h l f =
      let t = timeout_of u cfg revoked wait n name can cs in
      after_try-IsLooped (suc k) m _ _ (try_at-IsDone u cfg revoked wait n name w k c t id h) l
        (λ g s. f _ g s)

  loop-IsLooped :
      (can : Bool) (id : Text) (cs : List Text) (r : Delivering S) (k m : ℕ)
      → IsGoing k r.1
      → settled r.0 ≡ false
      → k + length cs ≤ m
      → IsLooped m (try_all u cfg revoked wait n name can id cs r)
  unfolding try_all
  loop-IsLooped can id [] (last, w) k m (l, o) s b = (omega (arith, l, b), inr (refl, (o, s)))
  loop-IsLooped can id (c ∷ cs) (last, w) k m h s b =
      loop_step can id c cs last w k m h (omega (arith, b))
        (λ r g t. loop-IsLooped can id cs r (suc k) m g t (omega (arith, b)))

  reworded_final : (x : Failure) (t : Text) → is_final (reworded x t) ≡ is_final x
  unfolding reworded is_final
  reworded_final (revoked_peer s) t = refl
  reworded_final (wrong_key s) t = refl
  reworded_final (no_address_known s) t = refl
  reworded_final (offline s) t = refl
  reworded_final (unreachable s) t = refl
  reworded_final (refused_by_peer reason s) t = refl

  relay_last-IsDone :
      (last : Option Failure) (k : ℕ) (r : Delivering S)
      → settled last ≡ false
      → IsDone k r
      → IsDone k (relay_last u cfg revoked wait n name last r)
  unfolding relay_last with_relay
  relay_last-IsDone last k (none, w) s h = h
  relay_last-IsDone none k (some f, w) s h = absurd (ground (arith, s))
  relay_last-IsDone (some x) k (some f, w) s h = elim (Bool-cases (is_final f)) [
    | inl e ↦ rw e h
    | inr e ↦ rw e (h.0, inr ((going k (some f, w) h e).1, reworded_final x _ ∙ s))
  ]

  after_loop-IsDone :
      (left off : Bool) (k m : ℕ) (l : Looped u cfg revoked wait n name)
      → IsLooped k l
      → (if left then suc (suc k) else k) ≤ m
      → IsDone m (after_loop u cfg revoked wait n name left off l)
  unfolding after_loop nothing_at is_final
  after_loop-IsDone left off k m (true, r) (b, inl (e, d)) h = (ground (arith, b, h), inl d)
  after_loop-IsDone left off k m (true, r) (b, inr (e, d)) h = absurd (ground (arith, e))
  after_loop-IsDone left off k m (false, (last, w)) (b, inl (e, d)) h = absurd (ground (arith, e))
  after_loop-IsDone true off k m (false, (last, w)) (b, inr (e, (o, s))) h =
      let relayed = via_relay u cfg revoked wait n name w in
      more (suc (suc k)) m (relay_last u cfg revoked wait n name last relayed)
        (relay_last-IsDone last (suc (suc k)) relayed s
          (via_relay-IsDone u cfg revoked wait n name w k (b, o)))
        h
  after_loop-IsDone false true k m (false, (last, w)) (b, inr (e, (o, s))) h =
      (omega (arith, b, h), inr (o, refl))
  after_loop-IsDone false false k m (false, (last, w)) (b, inr (e, (o, s))) h =
      (omega (arith, b, h), inr (o, s))

  first-IsLooped :
      (can : Bool) (id c : Text) (cs : List Text) (w : Course S) (k m : ℕ)
      → IsGoing k w
      → k + suc (length cs) ≤ m
      → IsLooped m (try_all u cfg revoked wait n name can id (c ∷ cs) (none, w))
  first-IsLooped can id c cs w k m h b =
      loop_step can id c cs none w k m h (omega (arith, b))
        (λ r g t. loop-IsLooped can id cs r (suc k) m g t (omega (arith, b)))

  deliver_routed-IsDone :
      (r : Route) (c : Text) (cs : List Text) (w : Course S) (m : ℕ)
      → IsGoing 0 w
      → suc (length cs) + 2 ≤ m
      → IsDone m (deliver_routed u cfg revoked wait n name r (c ∷ cs) w)
  unfolding deliver_routed
  deliver_routed-IsDone r c cs w m h b =
      let can = not (is_empty r.dir_id) && relay_enabled cfg in
      let again = relayed_recently u (n.clock w.net) w.relays name in
      let first = via_relay u cfg revoked wait n name w in
      let firsts = via_relay-IsDone u cfg revoked wait n name w 0 h in
      elim (Bool-cases (can && again)) [
        | inr e ↦ rw e (
            after_loop-IsDone can r.says_off (suc (length cs)) m _
              (first-IsLooped can r.dir_id c cs w 0 (suc (length cs)) h (omega arith))
              (ground (arith, b)))
        | inl e ↦ elim (Bool-cases (settled first.0)) [
          | inl s ↦ rw (e, s) (more 2 m first firsts (omega (arith, b)))
          | inr s ↦
              rw (e, s)
                (after_loop-IsDone false r.says_off m m _
                  (first-IsLooped can r.dir_id c cs first.1 2 m (going 2 first firsts s)
                    (omega (arith, b)))
                  (omega arith))
        ]
      ]

  deliver_one :
      (r : Route) (a : Text) (f : Failure) (w : Course S) (k : ℕ) (b : Bool)
      → IsGoing 0 w
      → 3 ≤ k
      → IsDelivery k (deliver_to u cfg revoked wait n name r (if b then ok (a ∷ []) else err f) w)
  unfolding deliver_to
  deliver_one r a f w k true h l =
      IsDone-IsDelivery k (deliver_routed u cfg revoked wait n name r (a ∷ []) w)
        (deliver_routed-IsDone r a [] w k h (omega (arith, l)))
  deliver_one r a f w k false h l = failing k f w h

  deliver_cands :
      (r : Route) (addr known : Text) (off : Bool) (cs : List Text) (w : Course S)
      → IsGoing 0 w
      → IsDelivery
          (max 1 (length cs) + 2)
          (deliver_to u cfg revoked wait n name r (or_known name addr known off cs) w)
  unfolding or_known deliver_to
  deliver_cands r addr known off (c ∷ cs) w h =
      let k = max 1 (suc (length cs)) + 2 in
      IsDone-IsDelivery k (deliver_routed u cfg revoked wait n name r (c ∷ cs) w)
        (deliver_routed-IsDone r c cs w k h (omega arith))
  deliver_cands r addr known off [] w h =
      let a = if is_empty addr then known else addr in
      deliver_one r a (nowhere name off) w (max 1 0 + 2) (not (is_empty a)) h (omega arith)

-- If no attempt was made before, then deliverMsg makes at most two attempts more than there are
-- addresses, or three where the server gives no address. Either an attempt delivers the message or
-- ends with a wrong key, a ban or a refusal of the peer, and then this is the last attempt and its
-- outcome is what deliverMsg returns; or no attempt does, and deliverMsg returns an error.
pub deliver_msg-IsDelivery :
    {S : Type 0} (u : Unicode) (cfg : Config) (revoked : List Text) (wait : ℕ) (n : World S)
    (name : Text) (connected : Bool) (lookup : Text → LookedUp) (addr : Text) (w : Course S)
    → w.tries ≡ []
    → IsDelivery
        (max 1 (length (route_to u cfg revoked wait n name connected lookup).candidates) + 2)
        (deliver_msg u cfg revoked wait n name connected lookup addr w)
unfolding deliver_msg
deliver_msg-IsDelivery u cfg revoked wait n name connected lookup addr w h =
    let r = route_to u cfg revoked wait n name connected lookup in
    let k = max 1 (length r.candidates) + 2 in
    let start : IsGoing 0 w = rw h (omega arith, tt) in
    let banned = is_revoked_peer u cfg revoked wait n name (peer_by_name u w.pinned name) in
    let configured = configured_id u cfg.contacts name in
    elim (Bool-cases banned) [
      | inl e ↦ rw e (failing k _ w start)
      | inr e ↦
          elim (Bool-cases (not (is_empty configured) && is_revoked u cfg revoked configured)) [
            | inl d ↦ rw (e, d) (failing k _ w start)
            | inr d ↦
                rw (e, d)
                  (deliver_cands u cfg revoked wait n name r addr
                    (known_addr u cfg.contacts w.pinned name) r.says_off r.candidates w start)
          ]
    ]
