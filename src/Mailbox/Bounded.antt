-- ===== src/Mailbox/Bounded.antt =====
-- Histories of calls of the mailbox, and that none takes it past its limits.
use tarion.Base.{ℕ, ◌≡◌, refl, Bool, Option, List, [], ◌∷◌, arith, All}
use tarion.Text.{Text}
use tarion.Text.Lower.{Unicode}
use tarion.Dict.{get, put}
use tarion.Mailbox.{
  Disk, MailboxStore, StoredLetter, BoxRecord, Folder, key_file, or_empty, read_letters, new_letter,
  key_json, folder, set_key, remove, put_letter, put_checked, put_drawn, write_letter, store_letter,
}
use tarion.Mailbox.Tidy.{AllRead}
use tarion.Mailbox.Delivery.{ack, replace_folder}
use tarion.Mailbox.Expiry.{expire}
use tarion.Mailbox.Files.{read-put_key}
use tarion.Mailbox.Limits.{Fits, Fits-empty, Fits-put, Fits-delete}
use tarion.Mailbox.Folders.{
  remove-Everywhere, set_key-Everywhere, ack-Everywhere, expire-Everywhere, put_letter-Everywhere,
}

-- The calls that change the store, with what the file system and the random source answer.
pub data Call : Type 0 where
  sets_key : Bool → Text → BoxRecord → Call
  removes : Bool → Text → Call
  puts : Option Text → Bool → Text → Text → Text → Text → ℕ → Call
  acks : Text → List Text → Call
  expires : ℕ → Call

module _ (u : Unicode) where
  unfoldable pub perform : MailboxStore → Call → MailboxStore
  perform m (sets_key written name rec) = (set_key u written m name rec).1
  perform m (removes removed name) = (remove u removed m name).1
  perform m (puts drawn written name sender peer_id sealed now) =
      (put_letter u drawn written m name sender peer_id sealed now).1
  perform m (acks name ids) = ack u m name ids
  perform m (expires now) = (expire u m now).0

  -- What happened, each call with what the file system does while it runs.
  unfoldable pub run : MailboxStore → List (Disk × Call) → MailboxStore
  run m [] = m
  run m ((d, c) ∷ cs) = run (perform (record m { disk = d }) c) cs

  -- The letters of every folder are within the store's limits.
  abbrev pub IsWithin : MailboxStore → Type 0
  IsWithin m = (dir : Text) → Fits u m (read_letters (or_empty (get m.users dir)))

  abbrev SameLimits : MailboxStore → MailboxStore → Type 0
  SameLimits m m' =
      (m'.max_items ≡ m.max_items) × (m'.max_bytes ≡ m.max_bytes) × (m'.per_peer ≡ m.per_peer)

  put_letter-SameLimits :
      (drawn : Option Text) (written : Bool) (m : MailboxStore) (name sender peer_id sealed : Text)
      (now : ℕ)
      → SameLimits m (put_letter u drawn written m name sender peer_id sealed now).1
  unfolding put_letter put_checked put_drawn write_letter store_letter
  put_letter-SameLimits drawn written m name sender peer_id sealed now =
      (ground arith, ground arith, ground arith)

  perform-SameLimits : (m : MailboxStore) (c : Call) → SameLimits m (perform m c)
  unfolding perform set_key remove ack replace_folder expire
  perform-SameLimits m (sets_key written name rec) = (ground arith, ground arith, ground arith)
  perform-SameLimits m (removes removed name) = (ground arith, ground arith, ground arith)
  perform-SameLimits m (puts drawn written name sender peer_id sealed now) =
      put_letter-SameLimits drawn written m name sender peer_id sealed now
  perform-SameLimits m (acks name ids) = (ground arith, ground arith, ground arith)
  perform-SameLimits m (expires now) = (refl, refl, refl)

  Fits-limits :
      (m m' : MailboxStore) (ls : List StoredLetter) → SameLimits m m' → Fits u m ls → Fits u m' ls
  Fits-limits m m' ls e f = record {
    items = omega (arith, f.items, e.0);
    bytes = omega (arith, f.bytes, e.1);
    senders = λ s. omega (arith, f.senders s, e.2);
  }

  abbrev FitsIn : MailboxStore → Folder → Type 0
  FitsIn m files = Fits u m (read_letters files)

  put_key-Fits :
      (m : MailboxStore) (files : Folder) (rec : BoxRecord)
      → FitsIn m files
      → FitsIn m (put files key_json (key_file rec))
  put_key-Fits m files rec f =
      rw (read-put_key files (key_file rec)) (Fits-delete u m files key_json f)

  perform-Fits :
      (m : MailboxStore) (c : Call)
      → AllRead m.disk
      → IsWithin m
      → (dir : Text) → FitsIn m (or_empty (get (perform m c).users dir))
  unfolding perform read_letters
  perform-Fits m (sets_key written name rec) reads w =
      set_key-Everywhere u (FitsIn m) (Fits-empty u m) (Fits-delete u m) written m name rec
        (put_key-Fits m (folder u m name) rec) w
  perform-Fits m (removes removed name) reads w =
      remove-Everywhere u (FitsIn m) (Fits-empty u m) (Fits-delete u m) removed m name w
  perform-Fits m (puts drawn written name sender peer_id sealed now) reads w =
      put_letter-Everywhere u (FitsIn m) (Fits-empty u m) (Fits-delete u m) written m name sender
        peer_id sealed now w drawn
        (λ d _ h f. Fits-put u m name (new_letter d sender peer_id sealed now) reads h f)
  perform-Fits m (acks name ids) reads w =
      ack-Everywhere u (FitsIn m) (Fits-empty u m) (Fits-delete u m) m name ids w
  perform-Fits m (expires now) reads w =
      expire-Everywhere u (FitsIn m) (Fits-empty u m) (Fits-delete u m) m now w

  pub perform-IsWithin :
      (m : MailboxStore) (c : Call) → AllRead m.disk → IsWithin m → IsWithin (perform m c)
  perform-IsWithin m c reads w dir =
      Fits-limits m (perform m c) _ (perform-SameLimits m c) (perform-Fits m c reads w dir)

  pub disk-IsWithin : (m : MailboxStore) (d : Disk) → IsWithin m → IsWithin (record m { disk = d })
  disk-IsWithin m d w dir = Fits-limits m (record m { disk = d }) _ (refl, refl, refl) (w dir)

  -- If every folder is within the limits of the store (letters, sealed bytes, letters per sender),
  -- it still is after any sequence of publishing a key, removing a mailbox, putting letters,
  -- acknowledging and expiring, in which every file that is there can be read; writes and removals
  -- may fail, and listings leave folders out.
  pub run-IsWithin :
      (m : MailboxStore) (cs : List (Disk × Call))
      → All (λ c. AllRead c.0) cs
      → IsWithin m
      → IsWithin (run m cs)
  unfolding run
  run-IsWithin m [] h w = w
  run-IsWithin m ((d, c) ∷ cs) h w =
      run-IsWithin (perform (record m { disk = d }) c) cs h.1
        (perform-IsWithin (record m { disk = d }) c h.0 (disk-IsWithin m d w))
