-- ===== src/Mailbox/Examples.antt =====
-- The mailbox at concrete inputs.
use tarion.Base.{ℕ, ◌*◌, ◌≡◌, refl, true, false, some, List, [], ◌∷◌, map, arith}
use tarion.Text.{Text, text}
use tarion.Samples.{ascii_tables}
use tarion.Dict.{get}
use tarion.Mailbox.{set_key, MailboxStore, Disk, BoxRecord, letters, read_letters}
use tarion.Mailbox.Delivery.{fetch, ack}
use tarion.Mailbox.Bounded.{perform, Call, sets_key, puts, run, IsWithin, run-IsWithin}
use tarion.Mailbox.Batches.{IsBatch, fetch-IsBatch, sealed_to}
use tarion.Mailbox.Progress.{ids}
use tarion.Mailbox.Tidy.{AllRead, AllGo}
use tarion.Mailbox.Kept.{AllTidy, run-fetch-ack}

-- Everything can be read, removed and listed.
abbrev pub good_disk : Disk
good_disk = record {
  is_hidden = λ dir file. false;
  is_stuck = λ dir file. false;
  is_unlisted = λ dir. false;
}

-- An empty store with the server's limits.
abbrev store : MailboxStore
store = record {
  max_items = 200;
  max_bytes = 4 * 1024 * 1024;
  per_peer = 50;
  keep_time = 604_800_000_000_000;
  users = [];
  disk = good_disk;
}

pub good-AllRead : AllRead good_disk
good-AllRead dir file = refl

good-AllGo : AllGo good_disk
good-AllGo dir file = refl

abbrev alice_box : BoxRecord
alice_box = record { peer_id = text "k1"; pub_key = []; box_key = []; box_sig = [] }

abbrev twelve : ℕ → Text
twelve n = n ∷ 2 ∷ 3 ∷ 4 ∷ 5 ∷ 6 ∷ 7 ∷ 8 ∷ 9 ∷ 10 ∷ 11 ∷ 12 ∷ []

-- Alice publishes a key, Bob leaves her two letters, and Eve's writes fail.
abbrev calls : List Call
calls =
    sets_key true (text "Alice") alice_box
    ∷ puts (some (twelve 1)) true (text "alice") (text "bob") (text "k1") (1 ∷ 2 ∷ []) 10
    ∷ puts (some (twelve 2)) true (text "ALICE") (text "Bob") (text "k1") (3 ∷ []) 9
    ∷ puts (some (twelve 3)) false (text "alice") (text "eve") (text "k1") (4 ∷ []) 11
    ∷ sets_key false (text "eve") alice_box
    ∷ []

abbrev history : List (Disk × Call)
history = map (λ c. (good_disk, c)) calls

empty-IsWithin : IsWithin ascii_tables store
unfolding read_letters get
empty-IsWithin dir = record { items = omega arith; bytes = omega arith; senders = λ s. omega arith }

empty-AllTidy : AllTidy ascii_tables store
unfolding get
empty-AllTidy dir = tt

run-IsWithin_example : IsWithin ascii_tables (run ascii_tables store history)
run-IsWithin_example =
    run-IsWithin ascii_tables store history
      (good-AllRead, (good-AllRead, (good-AllRead, (good-AllRead, (good-AllRead, tt)))))
      empty-IsWithin

fetch-IsBatch_example :
    IsBatch
      (sealed_to (text "k1") (letters ascii_tables (run ascii_tables store history) (text "alice")))
      (fetch ascii_tables (run ascii_tables store history) (text "alice") (text "k1"))
fetch-IsBatch_example =
    fetch-IsBatch ascii_tables (run ascii_tables store history) (text "alice") (text "k1")

end-AllRead : AllRead (run ascii_tables store history).disk
unfolding run perform set_key
end-AllRead dir file = refl

end-AllGo : AllGo (run ascii_tables store history).disk
unfolding run perform set_key
end-AllGo dir file = refl

run-fetch-ack_example :
    let m = run ascii_tables store history in
    let b = fetch-IsBatch ascii_tables m (text "alice") (text "k1") in
    sealed_to
      (text "k1")
      (letters ascii_tables (ack ascii_tables m (text "alice") (ids b.taken)) (text "alice"))
    ≡ b.rest
run-fetch-ack_example =
    run-fetch-ack ascii_tables store history (text "alice") (text "k1") (omega arith) empty-AllTidy
      end-AllRead end-AllGo
