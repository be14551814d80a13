-- ===== src/Storage/Outbox/Examples.antt =====
-- The outbox at a concrete input.
use tarion.Base.{◌≡◌, refl, none, List, [], ◌∷◌, arith}
use tarion.Text.{Text, text, str_eq}
use tarion.Storage.Held.{Held, held}
use tarion.Storage.Outbox.{OutboxItem, item_of}
use tarion.Storage.Outbox.Changes.{added, change, IsChanged, change-IsChanged}
use tarion.Storage.Outbox.Queue.{IsQueue}

abbrev message : Text → OutboxItem
message id = record {
  id = id;
  to = text "bob";
  addr = [];
  body = text "hi";
  created = 1;
  attempts = 0;
  next_try = 1;
  last_error = [];
}

abbrev one : Held (List OutboxItem)
one = held (message (text "a") ∷ [])

is_new : item_of (message (text "a") ∷ []) (text "b") ≡ none
unfolding item_of str_eq
is_new = refl

one-IsQueue : IsQueue one
unfolding item_of
one-IsQueue = (omega arith, (refl, tt))

change-IsChanged_example :
    IsChanged one (added (message (text "b"))) (change none one (added (message (text "b"))))
change-IsChanged_example = change-IsChanged none one (added (message (text "b"))) one-IsQueue is_new
