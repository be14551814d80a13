-- ===== src/Client/Examples.antt =====
-- A pass over the outbox at a concrete input: two messages to Bob, who cannot be reached, and one to Eve.
use tarion.Base.{
  ◌≡◌, refl, ◌⊎◌, true, false, Option, none, some, List, [], ◌∷◌, arith, if◌then◌else◌, found, err,
}
use tarion.Text.{Text, text, str_eq}
use tarion.Samples.{ascii_tables}
use tarion.Storage.Held.{Held, held}
use tarion.Storage.Config.{default_config}
use tarion.Storage.Outbox.{OutboxItem, item_of}
use tarion.Storage.Outbox.Queue.{IsQueue, queued}
use tarion.Client.{Failure, unreachable}
use tarion.Client.Flush.{PassWorld, flush_outbox}
use tarion.Client.InOrder.{IsInOrder, flush_outbox-IsInOrder}
use tarion.Network.{Inbox}
use tarion.Letter.{not_for_device}
use tarion.Client.Fetch.{Round, fetch_mail}
use tarion.Client.Handled.{IsSafe, fetch_mail-IsSafe}
use tarion.Client.NothingLost.{AnyOver, flush_outbox-ends}

abbrev to_contact : Text → Text → OutboxItem
to_contact id to = record {
  id = id;
  to = to;
  addr = [];
  body = text "hi";
  created = 1;
  attempts = 1;
  next_try = 1;
  last_error = [];
}

abbrev waiting : Held (List OutboxItem)
waiting = held (
    to_contact (text "m1") (text "bob")
    ∷ to_contact (text "m2") (text "Bob")
    ∷ to_contact (text "m3") (text "eve")
    ∷ [])

abbrev only_eve : OutboxItem → Option Failure
only_eve it = if str_eq it.to (text "eve") then none else some (unreachable (text "timeout"))

abbrev world : PassWorld
world = record {
  now = 1_000_000_000;
  has_dir = false;
  is_connected = false;
  listed = [];
  delivered = only_eve;
  says_offline = λ it. false;
  deposited = λ it. none;
  saved = λ it. none;
}

waiting-IsQueue : IsQueue waiting
unfolding item_of str_eq
waiting-IsQueue = (omega arith, (refl, (refl, (refl, tt))))

is_there : found (queued waiting (text "m3")) ≡ true
unfolding item_of str_eq
is_there = refl

flush_outbox-ends_example :
    let r = flush_outbox ascii_tables default_config world waiting [] in
    IsQueue r.1.file
    × ((found (queued r.1.file (text "m3")) ≡ true)
        ⊎ AnyOver ascii_tables default_config world (text "m3") r.0)
flush_outbox-ends_example =
    flush_outbox-ends ascii_tables default_config world waiting [] (text "m3") waiting-IsQueue
      is_there

flush_outbox-IsInOrder_example :
    IsInOrder ascii_tables default_config world
      (flush_outbox ascii_tables default_config world waiting []).0
flush_outbox-IsInOrder_example = flush_outbox-IsInOrder ascii_tables default_config world waiting []

abbrev empty_box : Inbox
empty_box = record { seen = []; waiting = [] }

-- A letter that cannot be opened.
abbrev one_round : List Round
one_round =
    record {
      fetched = some (
        (
          record {
            now = 1;
            rule = λ id. none;
            in_time = true;
            meanwhile = record { before_send = []; before_unmark = [] };
          },
          record { letter_id = text "l1"; opening = err not_for_device },
        )
            ∷ [],
        false,
      );
      is_acked = true;
    }
    ∷ []

fetch_mail-IsSafe_example : IsSafe one_round empty_box (fetch_mail one_round empty_box)
fetch_mail-IsSafe_example = fetch_mail-IsSafe one_round empty_box (omega arith, omega arith)
