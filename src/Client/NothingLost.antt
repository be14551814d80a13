-- ===== src/Client/NothingLost.antt =====
-- A message that leaves the outbox in a pass was delivered, left in a mailbox, or given up.
use tarion.Base.{
  ℕ, ◌≡◌, refl, ap, ◌∙◌, ◌⊎◌, inl, inr, Bool, true, false, ◌&&◌, ◌||◌, Option, none, some, List, [],
  ◌∷◌, arith, if◌then◌else◌, Bool-cases, found, All,
}
use tarion.Text.{Text, str_eq}
use tarion.Text.Lower.{Unicode}
use tarion.Dict.{Dict}
use tarion.Storage.Held.{Held, HeldError}
use tarion.Storage.Config.{Config}
use tarion.Storage.Outbox.{OutboxItem, queued_items, update_outbox, remove_outbox}
use tarion.Storage.Outbox.Queue.{IsQueue, queued}
use tarion.Storage.Outbox.Changes.{updated, removed, change, change-IsChanged}
use tarion.Client.Fates.{Means, IsOver, pass_items-Means}
use tarion.Client.Flush.{
  PassWorld, Pass, Fate, skipped, gave_up, not_due, delivered_later, not_delivered, left_in_mailbox,
  tried_again, retried_item, file_after, pass_item, pass_items, flush_outbox,
}

abbrev pub has_ended : Fate → Bool
has_ended gave_up = true
has_ended delivered_later = true
has_ended not_delivered = true
has_ended left_in_mailbox = true
has_ended _ = false

-- The pass ended a message with this ID.
abbrev pub ends : Text → List (OutboxItem × Fate) → Bool
ends id [] = false
ends id (x ∷ xs) = (str_eq x.0.id id && has_ended x.1) || ends id xs

abbrev IsHere : Held (List OutboxItem) → Text → Type 0
IsHere file id = found (queued file id) ≡ true

-- A removal takes away no other message, and an update none.
after_removal :
    (saved : Option HeldError) (file : Held (List OutboxItem)) (it : OutboxItem) (id : Text)
    → IsQueue file
    → IsHere file id
    → let file' = (remove_outbox saved file it.id).0 in
      IsQueue file' × (IsHere file' id ⊎ (str_eq it.id id ≡ true))
unfolding change
after_removal saved file it id q h =
    let (q', c) = change-IsChanged saved file (removed it.id) q tt in
    (
      q',
      elim c [
        | inl (no_error, same) ↦ elim (Bool-cases (str_eq it.id id)) [
          | inl e ↦ inr e
          | inr e ↦ inl (ap found (same id ∙ rw e refl) ∙ h)
        ]
        | inr (e, (failed, same)) ↦ inl (rw same h)
      ],
    )

still_found :
    (a b : Option OutboxItem) (it : OutboxItem) (id : Text)
    → found b ≡ true
    → found (if found a then if str_eq it.id id then some it else b else b) ≡ true
still_found none b it id h = h
still_found (some x) b it id h = ground (arith, h)

after_update :
    (saved : Option HeldError) (file : Held (List OutboxItem)) (it : OutboxItem) (id : Text)
    → IsQueue file
    → IsHere file id
    → let file' = (update_outbox saved file it).0 in IsQueue file' × IsHere file' id
unfolding change
after_update saved file it id q h =
    let (q', c) = change-IsChanged saved file (updated it) q tt in
    (
      q',
      elim c [
        | inl (no_error, same) ↦
            ap found (same id) ∙ still_found (queued file it.id) (queued file id) it id h
        | inr (e, (failed, same)) ↦ rw same h
      ],
    )

module _ (u : Unicode) (cfg : Config) (w : PassWorld) where
  -- A fate that ends a message removes it.
  ended :
      (f : Fate) (file : Held (List OutboxItem)) (it : OutboxItem) (id : Text)
      → has_ended f ≡ true
      → IsQueue file
      → IsHere file id
      → let file' = (remove_outbox (w.saved it) file it.id).0 in
        IsQueue file' × (IsHere file' id ⊎ ((str_eq it.id id && has_ended f) ≡ true))
  ended f file it id e q h =
      let (q', here) = after_removal (w.saved it) file it id q h in
      (q', elim here [ inl x ↦ inl x | inr x ↦ inr (rw (x, e) refl) ])

  after_fate :
      (f : Fate) (file : Held (List OutboxItem)) (it : OutboxItem) (id : Text)
      → IsQueue file
      → IsHere file id
      → let file' = file_after u cfg w f it file in
        IsQueue file' × (IsHere file' id ⊎ ((str_eq it.id id && has_ended f) ≡ true))
  unfolding file_after
  after_fate skipped file it id q h = (q, inl h)
  after_fate not_due file it id q h = (q, inl h)
  after_fate gave_up file it id q h = ended gave_up file it id refl q h
  after_fate delivered_later file it id q h = ended delivered_later file it id refl q h
  after_fate not_delivered file it id q h = ended not_delivered file it id refl q h
  after_fate left_in_mailbox file it id q h = ended left_in_mailbox file it id refl q h
  after_fate (tried_again error) file it id q h =
      let (q', h') = after_update (w.saved it) file (retried_item u cfg w it error) id q h in
      (q', inl h')

  -- The outbox stays a queue, whatever the messages.
  fate-IsQueue :
      (f : Fate) (file : Held (List OutboxItem)) (it : OutboxItem)
      → IsQueue file
      → IsQueue (file_after u cfg w f it file)
  unfolding file_after change
  fate-IsQueue skipped file it q = q
  fate-IsQueue not_due file it q = q
  fate-IsQueue gave_up file it q = (change-IsChanged (w.saved it) file (removed it.id) q tt).0
  fate-IsQueue delivered_later file it q =
      (change-IsChanged (w.saved it) file (removed it.id) q tt).0
  fate-IsQueue not_delivered file it q = (change-IsChanged (w.saved it) file (removed it.id) q tt).0
  fate-IsQueue left_in_mailbox file it q =
      (change-IsChanged (w.saved it) file (removed it.id) q tt).0
  fate-IsQueue (tried_again error) file it q =
      (change-IsChanged (w.saved it) file (updated (retried_item u cfg w it error)) q tt).0

  pass_items-IsQueue :
      (its : List OutboxItem) (p : Pass)
      → IsQueue p.file
      → IsQueue (pass_items u cfg w p its).1.file
  unfolding pass_items pass_item
  pass_items-IsQueue [] p q = q
  pass_items-IsQueue (it ∷ its) p q =
      pass_items-IsQueue its (pass_item u cfg w p it).1
        (fate-IsQueue (pass_item u cfg w p it).0 p.file it q)

  -- What a pass leaves in the outbox.
  pass_items-ends :
      (its : List OutboxItem) (p : Pass) (id : Text)
      → IsQueue p.file
      → IsHere p.file id
      → let r = pass_items u cfg w p its in
        IsQueue r.1.file × (IsHere r.1.file id ⊎ (ends id r.0 ≡ true))
  unfolding pass_items pass_item
  pass_items-ends [] p id q h = (q, inl h)
  pass_items-ends (it ∷ its) p id q h =
      let f = (pass_item u cfg w p it).0 in
      let p' = (pass_item u cfg w p it).1 in
      let (q', here) = after_fate f p.file it id q h in
      elim here [
        | inl h' ↦
            let (q2, rest) = pass_items-ends its p' id q' h' in
            (q2, elim rest [ inl x ↦ inl x | inr x ↦ inr (ground (arith, x)) ])
        | inr e ↦ (pass_items-IsQueue its p' q', inr (ground (arith, e)))
      ]

  -- A message with this ID, and what became of it.
  abbrev pub AnyOver : Text → List (OutboxItem × Fate) → Type 0
  AnyOver id [] = ⊥
  AnyOver id (x ∷ xs) = ((str_eq x.0.id id ≡ true) × IsOver u cfg w x.0) ⊎ AnyOver id xs

  ended-IsOver :
      (it : OutboxItem) (f : Fate) → Means u cfg w it f → has_ended f ≡ true → IsOver u cfg w it
  ended-IsOver it skipped m h = absurd (ground (arith, h))
  ended-IsOver it gave_up m h = inr (inr (inl m))
  ended-IsOver it not_due m h = absurd (ground (arith, h))
  ended-IsOver it delivered_later m h = inl m
  ended-IsOver it not_delivered m h = inr (inr (inr m))
  ended-IsOver it left_in_mailbox m h = inr (inl m)
  ended-IsOver it (tried_again e) m h = absurd (ground (arith, h))

  ends-AnyOver :
      (id : Text) (xs : List (OutboxItem × Fate))
      → All (λ x. Means u cfg w x.0 x.1) xs
      → ends id xs ≡ true
      → AnyOver id xs
  ends-AnyOver id [] m h = absurd (ground (arith, h))
  ends-AnyOver id (x ∷ xs) m h = elim (Bool-cases (str_eq x.0.id id && has_ended x.1)) [
    | inl e ↦ inl (ground (arith, e), ended-IsOver x.0 x.1 m.0 (ground (arith, e)))
    | inr e ↦ inr (ends-AnyOver id xs m.1 (ground (arith, e, h)))
  ]

  -- If the outbox has at most 500 messages, with different IDs, then so it has after a pass of
  -- flushOutbox, and a message that was in the outbox is in it after the pass, or delivering it
  -- gave no error, or the mailbox took it, or it was older than seven days, or delivering it gave
  -- an error that is not worth another try.
  pub flush_outbox-ends :
      (file : Held (List OutboxItem)) (tried : Dict ℕ) (id : Text)
      → IsQueue file
      → found (queued file id) ≡ true
      → let r = flush_outbox u cfg w file tried in
        IsQueue r.1.file × ((found (queued r.1.file id) ≡ true) ⊎ AnyOver id r.0)
  unfolding flush_outbox
  flush_outbox-ends file tried id q h =
      let p : Pass = record { file = file; blocked = []; mail_tried = tried } in
      let (q', e) = pass_items-ends (queued_items file).0 p id q h in
      (
        q',
        elim e [
          | inl here ↦ inl here
          | inr over ↦
              inr (ends-AnyOver id _ (pass_items-Means u cfg w p (queued_items file).0) over)
        ],
      )
