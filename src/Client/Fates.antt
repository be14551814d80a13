-- ===== src/Client/Fates.antt =====
-- What the outcomes of a pass over the outbox say of the deliveries.
use tarion.Base.{
  ℕ, ◌-◌, ◌≡◌, refl, ◌⊎◌, inl, inr, Bool, true, false, not, ◌&&◌, Option, none, some, List, [], ◌∷◌,
  arith, ltb, Bool-cases, Option-cases, found, All,
}
use tarion.Text.{Text}
use tarion.Text.Lower.{Unicode}
use tarion.Text.Sets.{member}
use tarion.Dict.{Dict}
use tarion.Storage.Config.{Config}
use tarion.Storage.Outbox.{OutboxItem}
use tarion.Client.{Failure, retryable, mailbox_on, use_mailbox}
use tarion.Client.Flush.{
  PassWorld, Pass, Fate, skipped, gave_up, not_due, delivered_later, not_delivered, left_in_mailbox,
  tried_again, outbox_expiry, contact_key, is_online, asks_server, mail_when_offline, fate_not_due,
  fate_failed, fate_tried, fate, pass_item, pass_items,
}

module _ (u : Unicode) (cfg : Config) (w : PassWorld) where
  -- Delivering the message failed, and may be tried again or not.
  abbrev pub FailedAs : Bool → OutboxItem → Type 0
  FailedAs again it = (f : Failure) × ((w.delivered it ≡ some f) × (retryable w.has_dir f ≡ again))

  -- The message was delivered, the mailbox took it, it is too old, or it is not worth another try.
  abbrev pub IsOver : OutboxItem → Type 0
  IsOver it =
      (w.delivered it ≡ none)
      ⊎ ((w.deposited it ≡ none)
          ⊎ ((ltb outbox_expiry (w.now - it.created) ≡ true) ⊎ FailedAs false it))

  abbrev pub Means : OutboxItem → Fate → Type 0
  Means it skipped = Unit {0}
  Means it gave_up = ltb outbox_expiry (w.now - it.created) ≡ true
  Means it not_due = ltb w.now it.next_try ≡ true
  Means it delivered_later = w.delivered it ≡ none
  Means it not_delivered = FailedAs false it
  Means it left_in_mailbox = w.deposited it ≡ none
  Means it (tried_again error) = FailedAs true it

  none_of : {A : Type 0} → (o : Option A) → found o ≡ false → o ≡ none
  none_of none h = refl
  none_of (some x) h = absurd (ground (arith, h))

  left_by :
      (tried : Dict ℕ) (it : OutboxItem)
      → (mail_when_offline u cfg w tried it).0 ≡ true
      → w.deposited it ≡ none
  unfolding mail_when_offline
  left_by tried it h =
      let b = w.says_offline it && not (found (w.deposited it)) in
      elim (Bool-cases (not (asks_server u cfg w tried it))) [
        | inl e ↦ absurd (ground (arith, rw e at h))
        | inr e ↦ elim (Bool-cases b) [
          | inl d ↦ none_of (w.deposited it) (ground (arith, d))
          | inr d ↦ absurd (ground (arith, rw (e, d) at h))
        ]
      ]

  not_due-Means :
      (tried : Dict ℕ) (it : OutboxItem)
      → ltb w.now it.next_try ≡ true
      → Means it (fate_not_due u cfg w tried it).0
  unfolding fate_not_due
  not_due-Means tried it h = elim (Bool-cases (not (mailbox_on w.has_dir cfg))) [
    | inl e ↦ rw e h
    | inr e ↦ elim (Bool-cases (mail_when_offline u cfg w tried it).0) [
      | inl d ↦ rw (e, d) (left_by tried it d)
      | inr d ↦ rw (e, d) h
    ]
  ]

  failed-Means :
      (it : OutboxItem) (f : Failure)
      → w.delivered it ≡ some f
      → Means it (fate_failed u cfg w it f)
  unfolding fate_failed
  failed-Means it f h = elim (Bool-cases (retryable w.has_dir f)) [
    | inr r ↦ rw r (f, (h, r))
    | inl r ↦ elim (Bool-cases (use_mailbox w.has_dir cfg w.now f it.created)) [
      | inr m ↦ rw (r, m) (f, (h, r))
      | inl m ↦ elim (Option-cases (w.deposited it)) [
        | inl d ↦ rw (r, m, d) d
        | inr (e, d) ↦ rw (r, m, d) (f, (h, r))
      ]
    ]
  ]

  tried-Means :
      (it : OutboxItem) (o : Option Failure)
      → w.delivered it ≡ o
      → Means it (fate_tried u cfg w it o)
  unfolding fate_tried
  tried-Means it none h = h
  tried-Means it (some f) h = failed-Means it f h

  pub fate-Means :
      (blocked : List Text) (tried : Dict ℕ) (it : OutboxItem)
      → Means it (fate u cfg w blocked tried it).0
  unfolding fate
  fate-Means blocked tried it = elim (Bool-cases (member (contact_key u cfg w it) blocked)) [
    | inl a ↦ rw a tt
    | inr a ↦ elim (Bool-cases (ltb outbox_expiry (w.now - it.created))) [
      | inl b ↦ rw (a, b) b
      | inr b ↦ elim (Bool-cases (ltb w.now it.next_try && not (is_online u cfg w it))) [
        | inl c ↦ rw (a, b, c) (not_due-Means tried it (ground (arith, c)))
        | inr c ↦ rw (a, b, c) (tried-Means it (w.delivered it) refl)
      ]
    ]
  ]

  -- Every outcome of a pass means what it says.
  pub pass_items-Means :
      (p : Pass) (its : List OutboxItem) → All (λ x. Means x.0 x.1) (pass_items u cfg w p its).0
  unfolding pass_items pass_item
  pass_items-Means p [] = tt
  pass_items-Means p (it ∷ its) =
      (fate-Means p.blocked p.mail_tried it, pass_items-Means (pass_item u cfg w p it).1 its)
