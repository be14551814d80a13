-- ===== src/Client/Deliver/Every.antt =====
-- What an attempt keeps, of the attempts that were made and the peer list, a delivery keeps.
use tarion.Base.{
  ℕ, inl, inr, Bool, true, false, not, ◌&&◌, Option, none, some, List, [], ◌∷◌, Bool-cases, Result,
  ok, err,
}
use tarion.Text.{Text, is_empty}
use tarion.Text.Lower.{Unicode}
use tarion.Storage.Held.{Held}
use tarion.Storage.Config.{Config, relay_enabled}
use tarion.Storage.Peers.{Peer, peer_by_name}
use tarion.Client.{Failure, is_revoked, configured_id}
use tarion.Client.Routes.{
  LookedUp, PeerRelay, Try, World, Course, is_final, settled, relayed_recently, Route,
}
use tarion.Client.Deliver.{
  Delivering, check_peer, try_at, kept_session, relay_tried, relay_given, fresh_relay,
  session_tried, over_session, via_relay, Looped, after_try, try_all, timeout_of, relay_last,
  after_loop, deliver_routed, deliver_to, is_revoked_peer, route_to, deliver_msg,
}

module _ {S : Type 0} (u : Unicode) (cfg : Config) (revoked : List Text) (wait : ℕ) (n : World S)
    (name : Text) (P : List Try → Held (List Peer) → Type 0)
    (each : (s : S) (file : Held (List Peer)) (cand : Text) (timeout : ℕ) (want : Text)
        (tries : List Try)
      → P tries file
      → let r = n.sent s cand timeout (check_peer u cfg revoked wait n name cand want) file in
        P
          (record { at = cand; timeout = timeout; want = want; answered_by = r.1.0; outcome = r.0 }
            ∷ tries)
          r.1.1.1) where
  abbrev Every : Course S → Type 0
  Every w = P w.tries w.pinned

  try_at-Every :
      (w : Course S) (cand : Text) (timeout : ℕ) (want : Text)
      → Every w
      → Every (try_at u cfg revoked wait n name w cand timeout want).1
  unfolding try_at
  try_at-Every w cand timeout want h = each w.net w.pinned cand timeout want w.tries h

  relay_tried-Every :
      (addr id : Text) (r : Delivering S)
      → Every r.1
      → Every (relay_tried u cfg revoked wait n name addr id r).1
  unfolding relay_tried kept_session
  relay_tried-Every addr id (some f, w) h = h
  relay_tried-Every addr id (none, w) h = h

  relay_given-Every :
      (w : Course S) (g : Result Text (Text × Text))
      → Every w
      → Every (relay_given u cfg revoked wait n name w g).1
  unfolding relay_given
  relay_given-Every w (err t) h = h
  relay_given-Every w (ok (addr, id)) h =
      relay_tried-Every addr id _ (try_at-Every w addr wait id h)

  fresh_relay-Every : (w : Course S) → Every w → Every (fresh_relay u cfg revoked wait n name w).1
  unfolding fresh_relay
  fresh_relay-Every w h =
      relay_given-Every (record w { net = (n.relayed_by w.net name).1 }) (n.relayed_by w.net name).0
        h

  session_tried-Every :
      (s : PeerRelay) (r : Delivering S)
      → Every r.1
      → Every (session_tried u cfg revoked wait n name s r).1
  unfolding session_tried kept_session
  session_tried-Every s (none, w) h = h
  session_tried-Every s (some f, w) h = elim (Bool-cases (is_final f)) [
    | inl e ↦ rw e h
    | inr e ↦ rw e (fresh_relay-Every w h)
  ]

  over_session-Every :
      (w : Course S) (o : Option PeerRelay)
      → Every w
      → Every (over_session u cfg revoked wait n name w o).1
  unfolding over_session
  over_session-Every w none h = fresh_relay-Every w h
  over_session-Every w (some s) h =
      session_tried-Every s _ (try_at-Every w s.session_addr _ s.session_peer h)

  via_relay-Every : (w : Course S) → Every w → Every (via_relay u cfg revoked wait n name w).1
  unfolding via_relay
  via_relay-Every w h = over_session-Every w _ h

  after_try-Every :
      (r : Delivering S) (rest : Looped u cfg revoked wait n name)
      → Every r.1
      → Every rest.1.1
      → Every (after_try u cfg revoked wait n name r rest).1.1
  unfolding after_try
  after_try-Every (none, w) rest h k = h
  after_try-Every (some f, w) rest h k = elim (Bool-cases (is_final f)) [
    | inl e ↦ rw e h
    | inr e ↦ rw e k
  ]

  try_all-Every :
      (can : Bool) (id : Text) (cs : List Text) (r : Delivering S)
      → Every r.1
      → Every (try_all u cfg revoked wait n name can id cs r).1.1
  unfolding try_all
  try_all-Every can id [] (last, w) h = h
  try_all-Every can id (c ∷ cs) (last, w) h =
      let k = try_at-Every w c (timeout_of u cfg revoked wait n name can cs) id h in
      after_try-Every _ _ k (try_all-Every can id cs _ k)

  relay_last-Every :
      (last : Option Failure) (r : Delivering S)
      → Every r.1
      → Every (relay_last u cfg revoked wait n name last r).1
  unfolding relay_last
  relay_last-Every last (none, w) h = h
  relay_last-Every last (some f, w) h = elim (Bool-cases (is_final f)) [
    | inl e ↦ rw e h
    | inr e ↦ rw e h
  ]

  after_loop-Every :
      (left off : Bool) (l : Looped u cfg revoked wait n name)
      → Every l.1.1
      → Every (after_loop u cfg revoked wait n name left off l).1
  unfolding after_loop
  after_loop-Every left off (true, r) h = h
  after_loop-Every true off (false, (last, w)) h = relay_last-Every last _ (via_relay-Every w h)
  after_loop-Every false true (false, (last, w)) h = h
  after_loop-Every false false (false, (last, w)) h = h

  deliver_routed-Every :
      (r : Route) (cs : List Text) (w : Course S)
      → Every w
      → Every (deliver_routed u cfg revoked wait n name r cs w).1
  unfolding deliver_routed
  deliver_routed-Every r cs w h =
      let can = not (is_empty r.dir_id) && relay_enabled cfg in
      let again = relayed_recently u (n.clock w.net) w.relays name in
      let first = via_relay u cfg revoked wait n name w in
      let k = via_relay-Every w h in
      elim (Bool-cases (can && again)) [
        | inr e ↦
            rw e (after_loop-Every can r.says_off _ (try_all-Every can r.dir_id cs (none, w) h))
        | inl e ↦ elim (Bool-cases (settled first.0)) [
          | inl s ↦ rw (e, s) k
          | inr s ↦
              rw (e, s)
                (after_loop-Every false r.says_off _
                  (try_all-Every can r.dir_id cs (none, first.1) k))
        ]
      ]

  deliver_to-Every :
      (r : Route) (g : Result Failure (List Text)) (w : Course S)
      → Every w
      → Every (deliver_to u cfg revoked wait n name r g w).1
  unfolding deliver_to
  deliver_to-Every r (err f) w h = h
  deliver_to-Every r (ok cs) w h = deliver_routed-Every r cs w h

  pub deliver_msg-Every :
      (connected : Bool) (lookup : Text → LookedUp) (addr : Text) (w : Course S)
      → Every w
      → Every (deliver_msg u cfg revoked wait n name connected lookup addr w).1
  unfolding deliver_msg
  deliver_msg-Every connected lookup addr w h =
      let banned = is_revoked_peer u cfg revoked wait n name (peer_by_name u w.pinned name) in
      let configured = configured_id u cfg.contacts name in
      elim (Bool-cases banned) [
        | inl e ↦ rw e h
        | inr e ↦
            elim (Bool-cases (not (is_empty configured) && is_revoked u cfg revoked configured)) [
              | inl d ↦ rw (e, d) h
              | inr d ↦
                  rw (e, d)
                    (deliver_to-Every (route_to u cfg revoked wait n name connected lookup) _ w h)
            ]
      ]
