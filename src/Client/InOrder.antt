-- ===== src/Client/InOrder.antt =====
-- In a pass, the messages to one contact stay in order.
use tarion.Base.{
  ℕ, ◌≡◌, refl, ◌∙◌, ◌⊎◌, inl, inr, true, false, List, [], ◌∷◌, arith, Bool-cases, All,
}
use tarion.Text.{Text, str_eq, str_eq_iff, str_eq_refl}
use tarion.Text.Lower.{Unicode}
use tarion.Text.Sets.{member, member-add}
use tarion.Dict.{Dict}
use tarion.Storage.Held.{Held}
use tarion.Storage.Config.{Config}
use tarion.Storage.Outbox.{OutboxItem, queued_items}
use tarion.Client.Fates.{Means, IsOver, fate-Means}
use tarion.Client.Flush.{
  PassWorld, Pass, Fate, skipped, gave_up, not_due, delivered_later, not_delivered, left_in_mailbox,
  tried_again, contact_key, fate, blocks, pass_item, pass_items, flush_outbox,
}

module _ (u : Unicode) (cfg : Config) (w : PassWorld) where
  -- The message goes to another contact, or is skipped.
  abbrev pub IsOtherOrSkipped : Text → OutboxItem × Fate → Type 0
  IsOtherOrSkipped k x = (str_eq (contact_key u cfg w x.0) k ≡ false) ⊎ (x.1 ≡ skipped)

  -- A message is skipped, or the pass is done with it, or the later ones to its contact are skipped.
  abbrev pub IsInOrder : List (OutboxItem × Fate) → Type 0
  IsInOrder [] = Unit {0}
  IsInOrder (x ∷ xs) =
      ((x.1 ≡ skipped) ⊎ (IsOver u cfg w x.0 ⊎ All (IsOtherOrSkipped (contact_key u cfg w x.0)) xs))
      × IsInOrder xs

  unblocked :
      (it : OutboxItem) (f : Fate)
      → Means u cfg w it f
      → blocks u cfg w f ≡ false
      → (f ≡ skipped) ⊎ IsOver u cfg w it
  unblocked it skipped m h = inl refl
  unblocked it gave_up m h = inr (inr (inr (inl m)))
  unblocked it not_due m h = absurd (ground (arith, h))
  unblocked it delivered_later m h = inr (inl m)
  unblocked it not_delivered m h = inr (inr (inr (inr m)))
  unblocked it left_in_mailbox m h = inr (inr (inl m))
  unblocked it (tried_again e) m h = absurd (ground (arith, h))

  -- A contact that is blocked stays so.
  stays_blocked :
      (k : Text) (p : Pass) (it : OutboxItem)
      → member k p.blocked ≡ true
      → member k (pass_item u cfg w p it).1.blocked ≡ true
  unfolding pass_item
  stays_blocked k p it h = ground (arith, h, member-add (contact_key u cfg w it) k p.blocked)

  skips :
      (p : Pass) (it : OutboxItem)
      → member (contact_key u cfg w it) p.blocked ≡ true
      → (pass_item u cfg w p it).0 ≡ skipped
  unfolding pass_item fate
  skips p it h = rw h refl

  rest_skipped :
      (k : Text) (p : Pass) (its : List OutboxItem)
      → member k p.blocked ≡ true
      → All (IsOtherOrSkipped k) (pass_items u cfg w p its).0
  unfolding pass_items
  rest_skipped k p [] h = tt
  rest_skipped k p (it ∷ its) h = (
    elim (Bool-cases (str_eq (contact_key u cfg w it) k)) [
      | inl e ↦ inr (skips p it (rw ((str_eq_iff (contact_key u cfg w it) k).0 e) h))
      | inr e ↦ inl e
    ],
    rest_skipped k (pass_item u cfg w p it).1 its (stays_blocked k p it h),
  )

  now_blocked :
      (p : Pass) (it : OutboxItem)
      → blocks u cfg w (pass_item u cfg w p it).0 ≡ true
      → member (contact_key u cfg w it) (pass_item u cfg w p it).1.blocked ≡ true
  unfolding pass_item
  now_blocked p it h =
      let k = contact_key u cfg w it in rw h (member-add k k p.blocked ∙ rw (str_eq_refl k) refl)

  item-Means : (p : Pass) (it : OutboxItem) → Means u cfg w it (pass_item u cfg w p it).0
  unfolding pass_item
  item-Means p it = fate-Means u cfg w p.blocked p.mail_tried it

  pass_items-IsInOrder : (p : Pass) (its : List OutboxItem) → IsInOrder (pass_items u cfg w p its).0
  unfolding pass_items
  pass_items-IsInOrder p [] = tt
  pass_items-IsInOrder p (it ∷ its) = (
    elim (Bool-cases (blocks u cfg w (pass_item u cfg w p it).0)) [
      | inl b ↦ inr (
          inr (
            rest_skipped (contact_key u cfg w it) (pass_item u cfg w p it).1 its
              (now_blocked p it b)))
      | inr b ↦ elim (unblocked it (pass_item u cfg w p it).0 (item-Means p it) b) [
        | inl s ↦ inl s
        | inr o ↦ inr (inl o)
      ]
    ],
    pass_items-IsInOrder (pass_item u cfg w p it).1 its,
  )

  -- In a pass of flushOutbox, every message is skipped, or delivering it gave no error or one that
  -- is not worth another try, or the mailbox took it, or it was older than seven days, or all later
  -- messages to the same contact are skipped.
  pub flush_outbox-IsInOrder :
      (file : Held (List OutboxItem)) (tried : Dict ℕ)
      → IsInOrder (flush_outbox u cfg w file tried).0
  unfolding flush_outbox
  flush_outbox-IsInOrder file tried =
      pass_items-IsInOrder (record { file = file; blocked = []; mail_tried = tried })
        (queued_items file).0
