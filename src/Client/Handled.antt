-- ===== src/Client/Handled.antt =====
-- Only letters that were handled are deleted from the server.
use tarion.Base.{
  ℕ, zero, suc, ◌≡◌, refl, ap, ◌≢◌, ◌⊎◌, inl, inr, Bool, true, false, not, ◌||◌, Option, none, some,
  List, [], ◌∷◌, ◌++◌, arith, Bool-cases, Option-cases, found, All, All-append, All-map, Result, ok,
  err,
}
use tarion.Text.{Text}
use tarion.Network.{Inbox, DeliverError, busy, not_valid, deliver}
use tarion.Network.Bounded.{IsBounded, deliver-IsBounded}
use tarion.Letter.{MailLetter, LetterError}
use tarion.Client.{Refusal}
use tarion.Client.Fetch.{
  handling_of, hand_on, message_of, Moment, Waiting, Handling, open_waiting, Batch, has_stayed,
  open_batch, Round, Fetched, round_of, fetch_rounds, fetch_mail,
}

-- The letter cannot be opened, or its sender is refused, or Deliver does not say that the reader is
-- busy, with what waits at that moment.
abbrev pub IsTaken : Moment → Result LetterError (MailLetter × Text) → Inbox → Type 0
IsTaken t (err e) box = Unit {0}
IsTaken t (ok (l, peer_id)) box =
    (found (t.rule peer_id) ≡ true)
    ⊎ ((deliver t.now (message_of l peer_id) t.in_time t.meanwhile box).0 ≢ some busy)

handled-not_busy : (d : Option DeliverError) → has_stayed (handling_of d) ≡ false → d ≢ some busy
unfolding handling_of
handled-not_busy none h e = cc
handled-not_busy (some busy) h e = absurd (ground (arith, h))
handled-not_busy (some (not_valid why)) h e = cc

hand_on-IsTaken :
    (t : Moment) (l : MailLetter) (peer_id : Text) (o : Option Refusal) (box : Inbox)
    → t.rule peer_id ≡ o
    → has_stayed (hand_on t l peer_id o box).0 ≡ false
    → IsTaken t (ok (l, peer_id)) box
unfolding hand_on
hand_on-IsTaken t l peer_id (some r) box e h = inl (ap found e)
hand_on-IsTaken t l peer_id none box e h = inr (handled-not_busy _ h)

open_waiting-IsTaken :
    (t : Moment) (r : Result LetterError (MailLetter × Text)) (box : Inbox)
    → has_stayed (open_waiting t r box).0 ≡ false
    → IsTaken t r box
unfolding open_waiting
open_waiting-IsTaken t (err e) box h = tt
open_waiting-IsTaken t (ok (l, peer_id)) box h =
    hand_on-IsTaken t l peer_id (t.rule peer_id) box refl h

-- One of the letters has this ID and is taken, with what waits when its turn comes.
abbrev pub TakenOf : List (Moment × Waiting) → Inbox → Text → Type 0
TakenOf [] box id = ⊥
TakenOf ((t, l) ∷ ls) box id =
    ((l.letter_id ≡ id) × IsTaken t l.opening box) ⊎ TakenOf ls (open_waiting t l.opening box).1 id

abbrev pub TakenIn : List Round → Inbox → Text → Type 0
TakenIn [] box id = ⊥
TakenIn (r ∷ rs) box id = elim r.fetched as (λ o. Type 0) [
  | none ↦ ⊥
  | some (ls, more) ↦ TakenOf ls box id ⊎ TakenIn rs (open_batch ls box).inbox id
]

open_batch-TakenOf :
    (ls : List (Moment × Waiting)) (box : Inbox)
    → All (λ x. TakenOf ls box x.0) (open_batch ls box).handled
unfolding open_batch
open_batch-TakenOf [] box = tt
open_batch-TakenOf ((t, l) ∷ ls) box =
    elim (Bool-cases (has_stayed (open_waiting t l.opening box).0)) [
      | inl e ↦ rw e tt
      | inr e ↦ rw e (
        inl (refl, open_waiting-IsTaken t l.opening box e),
        All-map _ _ _ (λ x h. inr h) (open_batch-TakenOf ls (open_waiting t l.opening box).1),
      )
    ]

-- The letter did not stay on the server.
abbrev pub IsHandled : Text × Handling → Type 0
IsHandled x = has_stayed x.1 ≡ false

open_batch-IsHandled :
    (ls : List (Moment × Waiting)) (box : Inbox) → All IsHandled (open_batch ls box).handled
unfolding open_batch
open_batch-IsHandled [] box = tt
open_batch-IsHandled ((t, l) ∷ ls) box =
    elim (Bool-cases (has_stayed (open_waiting t l.opening box).0)) [
      | inl e ↦ rw e tt
      | inr e ↦ rw e (e, open_batch-IsHandled ls (open_waiting t l.opening box).1)
    ]

-- The IDs of the letters of a batch.
abbrev pub batch_ids : List (Moment × Waiting) → List Text
batch_ids [] = []
batch_ids (x ∷ xs) = x.1.letter_id ∷ batch_ids xs

abbrev pub done_ids : List (Text × Handling) → List Text
done_ids [] = []
done_ids (x ∷ xs) = x.0 ∷ done_ids xs

-- The letters that were handled are the first ones of the batch, and all of them unless one stayed.
abbrev pub IsFront : List (Moment × Waiting) → Batch → Type 0
IsFront ls b =
    (rest : List Text) × ((batch_ids ls ≡ done_ids b.handled ++ rest)
      × (((b.is_busy ≡ false) × (rest ≡ [])) ⊎ (b.is_busy ≡ true)))

open_batch-IsFront : (ls : List (Moment × Waiting)) (box : Inbox) → IsFront ls (open_batch ls box)
unfolding open_batch
open_batch-IsFront [] box = ([], (refl, inl (refl, refl)))
open_batch-IsFront ((t, l) ∷ ls) box =
    elim (Bool-cases (has_stayed (open_waiting t l.opening box).0)) [
      | inl e ↦ rw e (l.letter_id ∷ batch_ids ls, (refl, inr refl))
      | inr e ↦
          let (rest, (ids, end)) = open_batch-IsFront ls (open_waiting t l.opening box).1 in
          rw e (rest, (ap (◌∷◌ l.letter_id) ids, end))
    ]

-- Whatever a client finds when it opens the letters of a batch, it handles the first ones, in their order,
-- up to one that stays on the server, and all where none stays; and no letter that it handled stays.
pub open_batch-handled :
    (ls : List (Moment × Waiting)) (box : Inbox)
    → let b = open_batch ls box in IsFront ls b × All IsHandled b.handled
open_batch-handled ls box = (open_batch-IsFront ls box, open_batch-IsHandled ls box)

-- What holds of the letters that the server is asked to delete, and of the inbox.
abbrev pub IsSafe : List Round → Inbox → Fetched → Type 0
IsSafe rs box r = All (λ x. TakenIn rs box x.0) r.0 × IsBounded r.1

hand_on-IsBounded :
    (t : Moment) (l : MailLetter) (peer_id : Text) (o : Option Refusal) (box : Inbox)
    → IsBounded box
    → IsBounded (hand_on t l peer_id o box).1
unfolding hand_on
hand_on-IsBounded t l peer_id (some r) box h = h
hand_on-IsBounded t l peer_id none box h =
    deliver-IsBounded t.now (message_of l peer_id) t.in_time t.meanwhile box h

open_waiting-IsBounded :
    (t : Moment) (r : Result LetterError (MailLetter × Text)) (box : Inbox)
    → IsBounded box
    → IsBounded (open_waiting t r box).1
unfolding open_waiting
open_waiting-IsBounded t (err e) box h = h
open_waiting-IsBounded t (ok (l, peer_id)) box h =
    hand_on-IsBounded t l peer_id (t.rule peer_id) box h

open_batch-IsBounded :
    (ls : List (Moment × Waiting)) (box : Inbox)
    → IsBounded box
    → IsBounded (open_batch ls box).inbox
unfolding open_batch
open_batch-IsBounded [] box h = h
open_batch-IsBounded ((t, l) ∷ ls) box h =
    let r = open_waiting t l.opening box in
    let h' = open_waiting-IsBounded t l.opening box h in
    elim (Bool-cases (has_stayed r.0)) [
      | inl e ↦ rw e h'
      | inr e ↦ rw e (open_batch-IsBounded ls r.1 h')
    ]

round_of-IsSafe :
    (ls : List (Moment × Waiting)) (more acked : Bool) (rs : List Round) (box : Inbox)
    (next : Inbox → Fetched)
    → IsBounded box
    → ((x : Inbox) → IsBounded x → IsSafe rs x (next x))
    → let r = round_of ls more acked box next in
      All (λ x. TakenOf ls box x.0 ⊎ TakenIn rs (open_batch ls box).inbox x.0) r.0 × IsBounded r.1
unfolding round_of
round_of-IsSafe [] more acked rs box next h ih = (tt, h)
round_of-IsSafe (l ∷ ls) more acked rs box next h ih =
    let b = open_batch (l ∷ ls) box in
    let taken =
      All-map (λ x. TakenOf (l ∷ ls) box x.0)
        (λ x. TakenOf (l ∷ ls) box x.0 ⊎ TakenIn rs b.inbox x.0) b.handled (λ x k. inl k)
        (open_batch-TakenOf (l ∷ ls) box) in
    let h' = open_batch-IsBounded (l ∷ ls) box h in
    let rest = ih b.inbox h' in
    let later =
      All-map (λ x. TakenIn rs b.inbox x.0) (λ x. TakenOf (l ∷ ls) box x.0 ⊎ TakenIn rs b.inbox x.0)
        (next b.inbox).0 (λ x k. inr k) rest.0 in
    elim (Bool-cases (not acked || (b.is_busy || not more))) [
      | inl e ↦ rw e (taken, h')
      | inr e ↦ rw e (All-append _ b.handled (next b.inbox).0 taken later, rest.1)
    ]

fetch_rounds-IsSafe :
    (n : ℕ) (rs : List Round) (box : Inbox) → IsBounded box → IsSafe rs box (fetch_rounds n rs box)
unfolding fetch_rounds
fetch_rounds-IsSafe zero rs box h = (tt, h)
fetch_rounds-IsSafe (suc n) [] box h = (tt, h)
fetch_rounds-IsSafe (suc n) (r ∷ rs) box h = elim (Option-cases r.fetched) [
  | inl e ↦ rw e (tt, h)
  | inr ((ls, more), e) ↦ rw e (
      round_of-IsSafe ls more r.is_acked rs box (fetch_rounds n rs) h
        (λ x hx. fetch_rounds-IsSafe n rs x hx))
]

-- Whatever the server hands out, fetchMail asks it to delete only letters that it got and could not
-- open, whose sender is refused, or which Deliver, with what waited when their turn came, took or
-- found not valid; a letter for which there was no room stays. The messages that wait and those
-- that are remembered stay within their bounds.
pub fetch_mail-IsSafe :
    (rs : List Round) (box : Inbox) → IsBounded box → IsSafe rs box (fetch_mail rs box)
unfolding fetch_mail
fetch_mail-IsSafe rs box h = fetch_rounds-IsSafe 100 rs box h
