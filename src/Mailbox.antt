-- ===== src/Mailbox.antt =====
-- server/mailbox.go: the letters that wait for users who are offline. The store's directory is a map
-- from folder names to folders, and a folder a map from file names to what the file holds as JSON.
-- Each operation runs under the store's lock. What the random source draws and whether a write
-- succeeds are arguments; which files cannot be read or removed at the moment stands in the store.
pub mod Delivery
pub mod Expiry
pub mod Files
pub mod Folders
pub mod Limits
pub mod Bounded
pub mod Order
pub mod Tidy
pub mod Batches
pub mod Progress
pub mod Kept
pub mod Examples
use tarion.Base.{
  ℕ, ◌+◌, ◌*◌, Bool, true, false, not, ◌||◌, Option, none, some, List, [], ◌∷◌, ◌++◌, map, ltb, leb,
  ◌==◌, if◌then◌else◌, length, sum_by, count_by, Result, ok, err,
}
use tarion.Base.Sort.{sort}
use tarion.Text.Hex.{encode, decode}
use tarion.Text.Order.{str_lt}
use tarion.Text.Search.{has_suffix}
use tarion.Text.{Text, text, str_eq, is_empty}
use tarion.Text.Lower.{Unicode}
use tarion.Dict.{Dict, get, put, delete}
use tarion.Proto.{Letter, name_key, max_fetch_bytes}

-- What a user published at login with the mailbox on.
pub record BoxRecord : Type 0 where
  pub peer_id : Text
  pub pub_key : Text
  pub box_key : Text
  pub box_sig : Text

-- One letter on disk. `peer_id` is the recipient key that it was sealed to.
pub record StoredLetter : Type 0 where
  pub letter : Letter
  pub open letter use *
  pub peer_id : Text

-- A file of a user's folder: a key, a letter, or what does not parse.
pub data File : Type 0 where
  key_file : BoxRecord → File
  letter_file : StoredLetter → File
  unreadable : File

abbrev pub Folder : Type 0
Folder = Dict File

-- What the file system does at the moment: the files, by folder and name, that cannot be read, those
-- that cannot be removed, and the folders that a listing of the store leaves out.
pub record Disk : Type 0 where
  pub is_hidden : Text → Text → Bool
  pub is_stuck : Text → Text → Bool
  pub is_unlisted : Text → Bool

pub record MailboxStore : Type 0 where
  pub max_items : ℕ
  pub max_bytes : ℕ
  pub per_peer : ℕ
  -- nanoseconds
  pub keep_time : ℕ
  pub users : Dict Folder
  pub disk : Disk

pub data MailError : Type 0 where
  full no_box io_error : MailError

abbrev pub key_json : Text
key_json = text "key.json"

abbrev pub json_suffix : Text
json_suffix = text ".json"

abbrev pub or_empty : Option Folder → Folder
or_empty none = []
or_empty (some f) = f

abbrev pub add_letter : Option StoredLetter → List StoredLetter → List StoredLetter
add_letter none ls = ls
add_letter (some l) ls = l ∷ ls

-- The letter that a file holds, if it is one: the key file, other suffixes, files that do not parse
-- and letters without an ID are skipped.
abbrev pub readable : Text → File → Option StoredLetter
readable file (letter_file l) =
    if str_eq file key_json || not (has_suffix file json_suffix) || is_empty l.id
    then none
    else some l
readable file _ = none

unfoldable pub read_letters : Folder → List StoredLetter
read_letters [] = []
read_letters ((file, f) ∷ fs) = add_letter (readable file f) (read_letters fs)

-- The files that can be read at the moment.
unfoldable pub readable_files : (Text → Bool) → Folder → Folder
readable_files hidden [] = []
readable_files hidden ((file, f) ∷ fs) =
    let rest = readable_files hidden fs in if hidden file then rest else (file, f) ∷ rest

-- Oldest first, and by ID within a second.
unfoldable pub older : StoredLetter → StoredLetter → Bool
older a b = if a.received == b.received then str_lt a.id b.id else ltb a.received b.received

read_key : Option File → Result MailError BoxRecord
read_key none = err no_box
read_key (some (key_file rec)) = ok rec
-- a letter parses as a record that has its peer ID alone
read_key (some (letter_file l)) =
    ok (record { peer_id = l.peer_id; pub_key = []; box_key = []; box_sig = [] })
read_key (some unreadable) = err io_error

-- The sealed bytes that wait.
abbrev pub sealed_bytes : List StoredLetter → ℕ
sealed_bytes = sum_by (λ l. length l.sealed)

abbrev pub letter_json : Text → Text
letter_json id = id ++ json_suffix

abbrev pub new_letter : Text → Text → Text → Text → ℕ → StoredLetter
new_letter drawn sender peer_id sealed now = record {
  letter = record { id = encode drawn; from = sender; received = now; sealed = sealed };
  peer_id = peer_id;
}

module _ (u : Unicode) where
  -- The name of a user's folder.
  unfoldable pub user_dir : Text → Text
  user_dir name = encode (name_key u name)

  unfoldable pub folder : MailboxStore → Text → Folder
  folder m name = or_empty (get m.users (user_dir name))

  -- SetKey publishes the box key of `name`; `written` says whether the file could be written.
  pub set_key : Bool → MailboxStore → Text → BoxRecord → Bool × MailboxStore
  set_key written m name rec =
      if written
      then (
        true,
        record m {
          users = put m.users (user_dir name) (put (folder m name) key_json (key_file rec));
        },
      )
      else (false, m)

  unfoldable pub letters : MailboxStore → Text → List StoredLetter
  letters m name =
      sort older (read_letters (readable_files (m.disk.is_hidden (user_dir name)) (folder m name)))

  -- Key returns the box key that `name` published.
  unfoldable pub key : MailboxStore → Text → Result MailError BoxRecord
  unfolding read_key
  key m name =
      if m.disk.is_hidden (user_dir name) key_json
      then err io_error
      else read_key (get (folder m name) key_json)

  -- Remove deletes the mailbox of `name`: its key and every letter waiting.
  pub remove : Bool → MailboxStore → Text → Bool × MailboxStore
  remove removed m name =
      if removed then (true, record m { users = delete m.users (user_dir name) }) else (false, m)

  -- The letters that wait from one sender.
  abbrev pub from_sender : Text → List StoredLetter → ℕ
  from_sender sender = count_by (λ l. str_eq (name_key u l.from) (name_key u sender))

  -- Whether a letter of `size` bytes from `sender` passes a limit.
  unfoldable pub is_over : MailboxStore → Text → Text → ℕ → Bool
  is_over m name sender size =
      let waiting = letters m name in
      leb m.max_items (length waiting)
      || ltb m.max_bytes (size + sealed_bytes waiting)
      || leb m.per_peer (from_sender sender waiting)

  store_letter : MailboxStore → Text → StoredLetter → MailboxStore
  store_letter m name l = record m {
    users = put m.users (user_dir name) (put (folder m name) (letter_json l.id) (letter_file l));
  }

  write_letter : Bool → MailboxStore → Text → StoredLetter → Result MailError Text × MailboxStore
  unfolding store_letter
  write_letter written m name l =
      if written then (ok l.id, store_letter m name l) else (err io_error, m)

  put_drawn :
      Option Text
      → Bool
      → MailboxStore
      → Text
      → Text
      → Text
      → Text
      → ℕ
      → Result MailError Text × MailboxStore
  unfolding write_letter
  put_drawn none written m name sender peer_id sealed now = (err io_error, m)
  put_drawn (some drawn) written m name sender peer_id sealed now =
      write_letter written m name (new_letter drawn sender peer_id sealed now)

  put_checked :
      Result MailError BoxRecord
      → Option Text
      → Bool
      → MailboxStore
      → Text
      → Text
      → Text
      → Text
      → ℕ
      → Result MailError Text × MailboxStore
  unfolding put_drawn
  put_checked (err e) drawn written m name sender peer_id sealed now = (err e, m)
  put_checked (ok rec) drawn written m name sender peer_id sealed now =
      if is_over m name sender (length sealed)
      then (err full, m)
      else put_drawn drawn written m name sender peer_id sealed now

  -- Put leaves a sealed letter from `sender` for `name`, sealed to `peer_id`. The source draws twelve
  -- random bytes for the ID, which may fail; `now` is in seconds.
  pub put_letter :
      Option Text
      → Bool
      → MailboxStore
      → Text
      → Text
      → Text
      → Text
      → ℕ
      → Result MailError Text × MailboxStore
  unfolding put_checked
  put_letter drawn written m name sender peer_id sealed now =
      put_checked (key m name) drawn written m name sender peer_id sealed now
