-- ===== src/Mailbox/Delivery.antt =====
-- Fetch, Count and Ack of server/mailbox.go: how letters reach their recipient.
use tarion.Base.{
  ℕ, ◌+◌, ◌*◌, ◌/◌, Bool, true, false, not, ◌&&◌, Option, none, some, List, [], ◌∷◌, ◌++◌, ltb,
  ◌==◌, if◌then◌else◌, found, length, count_by,
}
use tarion.Text.{Text, str_eq}
use tarion.Text.Lower.{Unicode}
use tarion.Text.Hex.{decode}
use tarion.Dict.{get, put, delete}
use tarion.Proto.{Letter, max_fetch_bytes}
use tarion.Mailbox.{MailboxStore, StoredLetter, Folder, user_dir, letters, letter_json}

-- A letter's size as it will be encoded: base64 plus the other fields.
abbrev pub cost : StoredLetter → ℕ
cost l = (length l.sealed + 2) / 3 * 4 + length l.from + length l.id + 64

-- The loop of Fetch, with what it has collected and the size of that.
unfoldable pub fetch_from : Text → List Letter → ℕ → List StoredLetter → List Letter × Bool
fetch_from peer_id out size [] = (out, false)
fetch_from peer_id out size (l ∷ ls) =
    let skipped = fetch_from peer_id out size ls in
    let added = fetch_from peer_id (out ++ l.letter ∷ []) (size + cost l) ls in
    if not (str_eq l.peer_id peer_id)
    then skipped
    else if ltb 0 (length out) && ltb max_fetch_bytes (size + cost l)
    then (out, true)
    else added

-- An ID is 24 hex digits, and so never a path.
unfoldable pub is_id : Text → Bool
is_id id = found (decode id) && length id == 24

-- Whether the file of a letter is removed.
abbrev pub goes : (Text → Bool) → Text → Bool
goes stuck id = is_id id && not (stuck (letter_json id))

unfoldable pub ack_files : (Text → Bool) → Folder → List Text → Folder
ack_files stuck files [] = files
ack_files stuck files (id ∷ ids) =
    ack_files stuck (if goes stuck id then delete files (letter_json id) else files) ids

unfoldable pub replace_folder :
    MailboxStore → Text → Option Folder → (Folder → Folder) → MailboxStore
replace_folder m dir none f = m
replace_folder m dir (some files) f = record m { users = put m.users dir (f files) }

module _ (u : Unicode) where
  -- Fetch returns letters for `name` sealed to `peer_id`, oldest first, and whether more wait.
  unfoldable pub fetch : MailboxStore → Text → Text → List Letter × Bool
  fetch m name peer_id = fetch_from peer_id [] 0 (letters u m name)

  -- Count is how many letters for `name` are sealed to `peer_id`.
  unfoldable pub count : MailboxStore → Text → Text → ℕ
  count m name peer_id = count_by (λ l. str_eq l.peer_id peer_id) (letters u m name)

  -- Ack deletes letters that the recipient has received.
  unfoldable pub ack : MailboxStore → Text → List Text → MailboxStore
  unfolding replace_folder
  ack m name ids =
      replace_folder m (user_dir u name) (get m.users (user_dir u name))
        (λ files. ack_files (m.disk.is_stuck (user_dir u name)) files ids)
