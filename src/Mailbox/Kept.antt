-- ===== src/Mailbox/Kept.antt =====
-- Every folder is tidy after any history, so that what Ack and Fetch do there holds.
use tarion.Base.{
  ℕ, ◌≡◌, refl, sym, subst, true, Option, none, some, List, [], ◌∷◌, arith, length, All,
}
use tarion.Base.Sort.{All-sort}
use tarion.Text.{Text, IsBytes}
use tarion.Text.Lower.{Unicode}
use tarion.Text.Hex.{encode, decode-encode, length-encode}
use tarion.Dict.{get, put}
use tarion.Mailbox.{
  Disk, MailboxStore, Folder, letter_file, or_empty, read_letters, older, letters, folder,
  letter_json, new_letter,
}
use tarion.Mailbox.Delivery.{is_id, ack}
use tarion.Mailbox.Folders.{
  remove-Everywhere, set_key-Everywhere, ack-Everywhere, expire-Everywhere, put_letter-Everywhere,
}
use tarion.Mailbox.Bounded.{Call, sets_key, removes, puts, acks, expires, perform, run}
use tarion.Mailbox.Tidy.{AllRead, AllGo, letters_read, IsTidy, delete-IsTidy, put-IsTidy}
use tarion.Mailbox.Batches.{fetch-IsBatch, sealed_to}
use tarion.Mailbox.Progress.{WellFormed, ids, fetch-ack}

-- The random source draws twelve bytes.
abbrev pub IsDrawn : Option Text → Type 0
IsDrawn none = Unit {0}
IsDrawn (some d) = IsBytes d × (length d ≡ 12)

abbrev pub Draws : Call → Type 0
Draws (puts drawn written name sender peer_id sealed now) = IsDrawn drawn
Draws _ = Unit {0}

encode-is_id : (d : Text) → IsBytes d → length d ≡ 12 → is_id (encode d) ≡ true
unfolding is_id
encode-is_id d b e = ground (arith, decode-encode d b, length-encode d)

put_drawn-IsTidy :
    (drawn : Option Text) (d sender peer_id sealed : Text) (now : ℕ) (files : Folder)
    → IsDrawn drawn
    → drawn ≡ some d
    → IsTidy files
    → IsTidy
        (put files (letter_json (encode d)) (letter_file (new_letter d sender peer_id sealed now)))
put_drawn-IsTidy none d sender peer_id sealed now files w e t = cc
put_drawn-IsTidy (some d') d sender peer_id sealed now files w e t =
    let same : d' ≡ d = cc e in
    put-IsTidy files _ _ (refl, encode-is_id d (rw same at w.0) (rw same at w.1)) t

read-WellFormed : (fs : Folder) → IsTidy fs → WellFormed (read_letters fs)
unfolding read_letters
read-WellFormed [] t = tt
read-WellFormed ((file, letter_file l) ∷ fs) t = ground (arith, t.0.1, read-WellFormed fs t.2)
read-WellFormed ((file, f) ∷ fs) t = read-WellFormed fs t.2

module _ (u : Unicode) where
  abbrev pub AllTidy : MailboxStore → Type 0
  AllTidy m = (dir : Text) → IsTidy (or_empty (get m.users dir))

  pub perform-AllTidy :
      (m : MailboxStore) (c : Call) → Draws c → AllTidy m → AllTidy (perform u m c)
  unfolding perform
  perform-AllTidy m (sets_key written name rec) d w =
      set_key-Everywhere u IsTidy tt delete-IsTidy written m name rec (λ t. put-IsTidy _ _ _ tt t) w
  perform-AllTidy m (removes removed name) d w =
      remove-Everywhere u IsTidy tt delete-IsTidy removed m name w
  perform-AllTidy m (puts drawn written name sender peer_id sealed now) d w =
      put_letter-Everywhere u IsTidy tt delete-IsTidy written m name sender peer_id sealed now w
        drawn
        (λ b e _ t. put_drawn-IsTidy drawn b sender peer_id sealed now (folder u m name) d e t)
  perform-AllTidy m (acks name ids) d w = ack-Everywhere u IsTidy tt delete-IsTidy m name ids w
  perform-AllTidy m (expires now) d w = expire-Everywhere u IsTidy tt delete-IsTidy m now w

  run-AllTidy :
      (m : MailboxStore) (cs : List (Disk × Call))
      → All (λ c. Draws c.1) cs
      → AllTidy m
      → AllTidy (run u m cs)
  unfolding run
  run-AllTidy m [] d w = w
  run-AllTidy m ((k, c) ∷ cs) d w =
      run-AllTidy (perform u (record m { disk = k }) c) cs d.1
        (perform-AllTidy (record m { disk = k }) c d.0 w)

  letters-WellFormed :
      (m : MailboxStore) (name : Text)
      → AllRead m.disk
      → IsTidy (folder u m name)
      → WellFormed (letters u m name)
  letters-WellFormed m name reads t =
      subst WellFormed (sym (letters_read u m name reads))
        (All-sort older _ (read_letters (folder u m name)) (read-WellFormed (folder u m name) t))

  -- From a store in which each letter stands in the file that its ID names, after any sequence of
  -- calls in which the IDs of letters are drawn as twelve bytes, whatever fails meanwhile: if every
  -- file can be read and removed, and a device acknowledges what a fetch returned, then what is
  -- waiting for the device after this is what the fetch had left out.
  pub run-fetch-ack :
      (m : MailboxStore) (cs : List (Disk × Call)) (name peer_id : Text)
      → All (λ c. Draws c.1) cs
      → AllTidy m
      → AllRead (run u m cs).disk
      → AllGo (run u m cs).disk
      → let m' = run u m cs in
        let b = fetch-IsBatch u m' name peer_id in
        sealed_to peer_id (letters u (ack u m' name (ids b.taken)) name) ≡ b.rest
  unfolding folder
  run-fetch-ack m cs name peer_id d w reads go =
      let t = run-AllTidy m cs d w _ in
      fetch-ack u (run u m cs) name peer_id reads go t
        (letters-WellFormed (run u m cs) name reads t)
