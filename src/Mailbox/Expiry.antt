-- ===== src/Mailbox/Expiry.antt =====
-- Expire of server/mailbox.go: letters that nobody fetched.
use tarion.Base.{
  ℕ, ◌+◌, ◌-◌, ◌*◌, Bool, true, false, Option, none, some, List, [], ◌∷◌, ltb, if◌then◌else◌,
}
use tarion.Text.{Text}
use tarion.Text.Lower.{Unicode}
use tarion.Text.Hex.{decode}
use tarion.Dict.{Dict, get, delete}
use tarion.Mailbox.{MailboxStore, StoredLetter, File, Folder, letters, letter_json}

-- Whether a letter is older than the keep time; `now` is in nanoseconds.
unfoldable pub is_expired : MailboxStore → ℕ → StoredLetter → Bool
is_expired m now l = ltb m.keep_time (now - l.received * 1_000_000_000)

-- Removes a file, and counts it if it was there and could be removed.
unfoldable pub remove_file : Bool → Folder → Text → Option File → Folder × ℕ
remove_file stuck files file none = (files, 0)
remove_file true files file (some f) = (files, 0)
remove_file false files file (some f) = (delete files file, 1)

unfoldable pub expire_one : MailboxStore → ℕ → Text → Folder → StoredLetter → Folder × ℕ
unfolding remove_file is_expired
expire_one m now dir files l =
    if is_expired m now l
    then remove_file (m.disk.is_stuck dir (letter_json l.id)) files (letter_json l.id)
        (get files (letter_json l.id))
    else (files, 0)

unfoldable pub expire_letters : MailboxStore → ℕ → Text → Folder → List StoredLetter → Folder × ℕ
expire_letters m now dir files [] = (files, 0)
expire_letters m now dir files (l ∷ ls) =
    let (files', n) = expire_one m now dir files l in
    let (files'', n') = expire_letters m now dir files' ls in (files'', n + n')

module _ (u : Unicode) where
  unfoldable pub expire_dir : MailboxStore → ℕ → Text → Folder → Option Text → Folder × ℕ
  expire_dir m now dir files none = (files, 0)
  expire_dir m now dir files (some name) = expire_letters m now dir files (letters u m name)

  unfoldable pub expire_users : MailboxStore → ℕ → Dict Folder → Dict Folder × ℕ
  expire_users m now [] = ([], 0)
  expire_users m now ((dir, files) ∷ rest) =
      let (files', n) =
        expire_dir m now dir files (if m.disk.is_unlisted dir then none else decode dir) in
      let (rest', n') = expire_users m now rest in ((dir, files') ∷ rest', n + n')

  -- Expire deletes letters older than the keep time, and counts them.
  unfoldable pub expire : MailboxStore → ℕ → MailboxStore × ℕ
  expire m now = let (users, n) = expire_users m now m.users in (record m { users = users }, n)
