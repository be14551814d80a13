-- ===== src/Storage/History.antt =====
-- The history of internal/storage/storage.go: a file of lines for each contact.
use tarion.Base.{
  ℕ, Bool, not, ◌||◌, Option, none, some, List, [], ◌∷◌, ◌++◌, ◌==◌, if◌then◌else◌, take, keep,
  all_by, Result, ok, err,
}
use tarion.Text.{Text, text, is_empty}
use tarion.Text.Lower.{Unicode, to_lower}
use tarion.Text.Clean.{trim_end}
use tarion.Text.Search.{has_prefix, has_suffix}
use tarion.Text.Sets.{member}
use tarion.Access.Invites.{to_upper}
use tarion.Vault.{Crypto}
use tarion.Storage.{
  OnDisk, missing, broken, file, StoreError, not_exist, cannot_read, cannot_write, kind_history,
  line_to_write,
}
use tarion.Storage.Reseal.{lines_of}

abbrev pub windows_reserved_names : List Text
windows_reserved_names =
    text "CON"
    ∷ text "PRN"
    ∷ text "AUX"
    ∷ text "NUL"
    ∷ text "COM1"
    ∷ text "COM2"
    ∷ text "COM3"
    ∷ text "COM4"
    ∷ text "COM5"
    ∷ text "COM6"
    ∷ text "COM7"
    ∷ text "COM8"
    ∷ text "COM9"
    ∷ text "LPT1"
    ∷ text "LPT2"
    ∷ text "LPT3"
    ∷ text "LPT4"
    ∷ text "LPT5"
    ∷ text "LPT6"
    ∷ text "LPT7"
    ∷ text "LPT8"
    ∷ text "LPT9"
    ∷ []

abbrev forbidden : Text
forbidden = text "/\\:*?\"<>|"

unfoldable pub replace_forbidden : Text → Text
replace_forbidden [] = []
replace_forbidden (b ∷ s) =
    let rest = replace_forbidden s in
    if not (all_by (λ c. not (c == b)) forbidden) then b'_' ∷ rest else b ∷ rest

-- safeName; `map_upper` is upper case outside ASCII.
unfoldable pub safe_name : (Text → Text) → Text → Text
safe_name map_upper name =
    let s = trim_end (λ b. b == b' ' || b == b'.') (replace_forbidden name) in
    if is_empty s || member (to_upper map_upper s) windows_reserved_names then b'_' ∷ s else s

-- The file of a contact within the history folder.
unfoldable pub history_name : (Text → Text) → Text → Text
history_name map_upper username = safe_name map_upper username ++ text ".txt"

abbrev pub peer_addr_prefix : Text
peer_addr_prefix = text "# tarion-peer-addr: "

-- How much of what is written reaches the file: all, or so many bytes and an error.
abbrev pub appended : Option ℕ → Text → Text → OnDisk × Option StoreError
appended none old line = (file (old ++ line), none)
appended (some n) old line = (file (old ++ take n line), some cannot_write)

append_line : Option ℕ → OnDisk → Result StoreError Text → OnDisk × Option StoreError
append_line cut disk (err e) = (disk, some e)
append_line cut missing (ok l) = appended cut [] (l ++ (10 ∷ []))
append_line cut broken (ok l) = (broken, some cannot_read)
append_line cut (file bytes) (ok l) = appended cut bytes (l ++ (10 ∷ []))

-- AppendHistory, on the file of the contact.
unfoldable pub append_history :
    Crypto → Option Text → Text → Option ℕ → Text → OnDisk → OnDisk × Option StoreError
unfolding append_line
append_history c key nonce cut message disk =
    append_line cut disk (line_to_write c key nonce kind_history message)

abbrev pub without_addrs : List Text → List Text
without_addrs ls = keep (λ l. not (has_prefix l peer_addr_prefix)) ls

shown : Result StoreError (List Text) → Result StoreError (List Text)
shown (ok ls) = ok (without_addrs ls)
shown (err not_exist) = ok []
shown (err e) = err e

-- ReadHistory
unfoldable pub read_history : Crypto → Option Text → OnDisk → Result StoreError (List Text)
unfolding shown
read_history c key disk = shown (lines_of c key kind_history disk)

-- What stands before the last dot of a name: the name less filepath.Ext.
unfoldable pub before_ext : Text → Option Text
before_ext [] = none
before_ext (b ∷ s) = elim (before_ext s) [
  | some p ↦ some (b ∷ p)
  | none ↦ if b == b'.' then some [] else none
]

stem : Text → Option Text → Text
stem name none = name
stem name (some p) = p

-- ListHistoryContacts: the names of the contacts, of the names of files, with whether each is a folder.
unfoldable pub list_history_contacts : Unicode → List (Text × Bool) → List Text
unfolding stem
list_history_contacts u [] = []
list_history_contacts u ((name, is_dir) ∷ es) =
    let rest = list_history_contacts u es in
    let contact = stem name (before_ext name) in
    if is_dir || not (has_suffix (to_lower u name) (text ".txt")) || is_empty contact
    then rest
    else contact ∷ rest
