-- ===== src/Server/Moves.antt =====
-- How a handler may change the mailbox store: not at all, or by one of the store's operations.
use tarion.Base.{◌≡◌, subst, Option, some}
use tarion.Text.Lower.{Unicode}
use tarion.Mailbox.{MailboxStore}
use tarion.Mailbox.Bounded.{Call, perform}

module _ (u : Unicode) where
  -- One operation of the store, by its call.
  pub data Moves : Option MailboxStore → Option MailboxStore → Type 0 where
    stays : (o : Option MailboxStore) → Moves o o
    performs : (m : MailboxStore) (c : Call) → Moves (some m) (some (perform u m c))

  pub same-Moves : (o p : Option MailboxStore) → p ≡ o → Moves o p
  same-Moves o p h = subst (λ q. Moves q p) h (stays p)
