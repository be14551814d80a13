-- ===== src/Client/Deliver.antt =====
-- deliverMsg of main.go: the attempts at the addresses of a contact, and the way through the server's
-- relay.
pub mod Tries
pub mod Ended
pub mod Every
pub mod Accepted
pub mod Examples
use tarion.Base.{
  ℕ, ◌/◌, Bool, true, false, not, ◌&&◌, Option, none, some, List, [], ◌∷◌, if◌then◌else◌, Result,
  ok, err,
}
use mathlib.Core.List
use tarion.Text.{Text, text, is_empty, str_eq}
use tarion.Text.Lower.{Unicode, to_lower, equal_fold}
use tarion.Dict.{Dict, get, put, delete}
use tarion.Proto.{valid_username}
use tarion.Storage.Held.{Held, HeldError}
use tarion.Storage.Config.{Config, relay_enabled}
use tarion.Storage.Peers.{Peer, PeerError, file_error, mismatch, peer_by_name, pin_outgoing}
use tarion.Storage.Peers.Names.{short}
use tarion.Client.{
  Failure, revoked_peer, wrong_key, no_address_known, offline, unreachable, refused_by_peer,
  failure_text, is_revoked, configured_id, known_addr, second,
}
use tarion.Client.Routes.{
  LookedUp, PeerRelay, Try, Check, World, Course, relay_memory, relay_session_ttl, quick,
  revoked_error, mismatch_text, is_final, settled, relayed_recently, relay_session,
  set_relay_session, clear_relay, Route, route_of, nowhere, or_known, reworded, with_relay,
  nothing_at, known_to, user_offline, no_answer_of,
}

abbrev pub Delivering : Type 0 → Type 0
Delivering S = Option Failure × Course S

module _ {S : Type 0} (u : Unicode) (cfg : Config) (revoked : List Text) (wait : ℕ) (n : World S)
    (name : Text) where
  pinned_as : Option PeerError × Held (List Peer) → Option Failure × Held (List Peer)
  unfolding mismatch_text
  pinned_as (none, file) = (none, file)
  pinned_as (some (file_error e), file) = (some (unreachable (n.file_error_text e)), file)
  pinned_as (some (mismatch who old got), file) =
      (some (wrong_key (mismatch_text who old got)), file)

  -- The check of the peer that an attempt makes.
  unfoldable pub check_peer : Text → Text → Check
  unfolding pinned_as mismatch_text
  check_peer cand want now saved peer file =
      let configured = configured_id u cfg.contacts name in
      if is_revoked u cfg revoked peer
      then (some (revoked_error name), file)
      else if not (is_empty configured) && not (equal_fold u configured peer)
      then (some (wrong_key (mismatch_text name configured peer)), file)
      else if not (is_empty want) && not (equal_fold u want peer)
      then (some (wrong_key (mismatch_text name want peer)), file)
      else pinned_as (pin_outgoing u now saved file name peer cand)

  -- attempt
  unfoldable pub try_at : Course S → Text → ℕ → Text → Delivering S
  try_at w cand timeout want =
      let (x, (peer, (net, pinned))) = n.sent w.net cand timeout (check_peer cand want) w.pinned in
      let this : Try = record {
        at = cand;
        timeout = timeout;
        want = want;
        answered_by = peer;
        outcome = x;
      } in
      (x, record w { net = net; pinned = pinned; tries = this ∷ w.tries })

  kept_session : PeerRelay → Course S → Delivering S
  kept_session s w =
      (none, record w { relays = set_relay_session u (n.clock w.net) w.relays name s })

  relay_tried : Text → Text → Delivering S → Delivering S
  unfolding kept_session
  relay_tried addr id (some f, w) = (some f, w)
  relay_tried addr id (none, w) =
      kept_session (record { session_addr = addr; session_peer = id; used = 0 }) w

  relay_given : Course S → Result Text (Text × Text) → Delivering S
  unfolding relay_tried
  relay_given w (err t) = (some (unreachable t), w)
  relay_given w (ok (addr, id)) = relay_tried addr id (try_at w addr wait id)

  fresh_relay : Course S → Delivering S
  unfolding relay_given
  fresh_relay w =
      let (given, net) = n.relayed_by w.net name in relay_given (record w { net = net }) given

  session_tried : PeerRelay → Delivering S → Delivering S
  unfolding kept_session fresh_relay
  session_tried s (none, w) = kept_session s w
  session_tried s (some f, w) = if is_final f then (some f, w) else fresh_relay w

  over_session : Course S → Option PeerRelay → Delivering S
  unfolding session_tried fresh_relay
  over_session w none = fresh_relay w
  over_session w (some s) = session_tried s (try_at w s.session_addr quick s.session_peer)

  -- viaRelay
  unfoldable pub via_relay : Course S → Delivering S
  unfolding over_session
  via_relay w = over_session w (relay_session u (n.clock w.net) w.relays name)

  timeout_of : Bool → List Text → ℕ
  timeout_of can_relay [] = if can_relay then wait / 2 else wait
  timeout_of can_relay (c ∷ cs) = quick

  -- Whether there is nothing more to do, with the error and the course.
  abbrev pub Looped : Type 0
  Looped = Bool × Delivering S

  after_try : Delivering S → Looped → Looped
  after_try (none, w) rest = (true, (none, record w { relays = clear_relay u w.relays name }))
  after_try (some f, w) rest = if is_final f then (true, (some f, w)) else rest

  -- The loop over the addresses.
  unfoldable pub try_all : Bool → Text → List Text → Delivering S → Looped
  unfolding after_try timeout_of
  try_all can_relay id [] (last, w) = (false, (last, w))
  try_all can_relay id (c ∷ cs) (last, w) =
      let r = try_at w c (timeout_of can_relay cs) id in
      let rest = try_all can_relay id cs r in after_try r rest

  relay_last : Option Failure → Delivering S → Delivering S
  unfolding with_relay
  relay_last last (none, w) = (none, w)
  relay_last last (some f, w) =
      if is_final f then (some f, w) else (some (with_relay last (failure_text f)), w)

  -- After the loop.
  after_loop : Bool → Bool → Looped → Delivering S
  unfolding relay_last nothing_at
  after_loop relay_left off (true, r) = r
  after_loop relay_left off (false, (last, w)) =
      if relay_left
      then relay_last last (via_relay w)
      else if off
      then (some (nothing_at name last), w)
      else (last, w)

  unfoldable pub deliver_routed : Route → List Text → Course S → Delivering S
  unfolding after_loop
  deliver_routed r cands w =
      let can_relay = not (is_empty r.dir_id) && relay_enabled cfg in
      if can_relay && relayed_recently u (n.clock w.net) w.relays name
      then (let first = via_relay w in
          if settled first.0
          then first
          else after_loop false r.says_off (try_all can_relay r.dir_id cands (none, first.1)))
      else after_loop can_relay r.says_off (try_all can_relay r.dir_id cands (none, w))

  deliver_to : Route → Result Failure (List Text) → Course S → Delivering S
  deliver_to r (err f) w = (some f, w)
  deliver_to r (ok cands) w = deliver_routed r cands w

  is_revoked_peer : Option Peer → Bool
  is_revoked_peer none = false
  is_revoked_peer (some p) = is_revoked u cfg revoked p.id

  -- The route of a contact; `connected` says whether there is a server that is connected.
  unfoldable pub route_to : Bool → (Text → LookedUp) → Route
  route_to connected lookup =
      route_of (if connected && valid_username u name then lookup name else no_answer_of)

  -- deliverMsg
  unfoldable pub deliver_msg : Bool → (Text → LookedUp) → Text → Course S → Delivering S
  unfolding deliver_to is_revoked_peer
  deliver_msg connected lookup addr w =
      let configured = configured_id u cfg.contacts name in
      let r = route_to connected lookup in
      let known = known_addr u cfg.contacts w.pinned name in
      if is_revoked_peer (peer_by_name u w.pinned name)
      then (some (revoked_error name), w)
      else if not (is_empty configured) && is_revoked u cfg revoked configured
      then (some (revoked_error name), w)
      else deliver_to r (or_known name addr known r.says_off r.candidates) w
