-- ===== src/Accounts/Loading.antt =====
-- LoadAccounts and importLegacy of server/accounts.go: the user database from its file, or from the
-- older flat file. Files are read as JSON values and as lines; the time of an import is an argument.
use tarion.Base.{
  ℕ, ◌+◌, Bool, true, false, not, ◌&&◌, ◌||◌, Option, none, some, List, [], ◌∷◌, ◌++◌, ltb, ◌==◌,
  if◌then◌else◌, found, length, Result, ok, err,
}
use tarion.Text.{Text, text, is_empty}
use tarion.Text.Lower.{Unicode}
use tarion.Text.Search.{has_prefix}
use tarion.Text.Trim.{trim_space}
use tarion.Text.Split.{split}
use tarion.Dict.{Dict, get, put}
use tarion.Proto.{name_key, valid_username}
use tarion.Passwords.{ArgonParams}
use tarion.Accounts.{Account, Accounts, AccountError, io_error, save}

-- A record of the flat file.
pub record LegacyRecord : Type 0 where
  pub name : Text
  pub salt : Text
  pub hash : Text

-- How often a name was seen, or that it has been dropped (-1 in the source).
pub data Seen : Type 0 where
  times : ℕ → Seen
  dropped : Seen

abbrev pub seen_or_zero : Option Seen → Seen
seen_or_zero none = times 0
seen_or_zero (some s) = s

-- seen[key]++
abbrev pub seen_again : Seen → Seen
seen_again (times n) = times (n + 1)
seen_again dropped = times 0

abbrev pub add_some {ℓ} : {A : Type ℓ} → Option A → List A → List A
add_some none xs = xs
add_some (some x) xs = x ∷ xs

-- What reading the JSON file gives.
pub data UsersFile : Type 0 where
  missing unreadable malformed : UsersFile
  parsed : List Account → UsersFile

-- What reading the flat file gives: its lines, and whether the scanner failed.
pub data LegacyFile : Type 0 where
  no_file cannot_open : LegacyFile
  scanned : List Text → Bool → LegacyFile

abbrev pub legacy_account : ℕ → LegacyRecord → Account
legacy_account now r = record {
  name = r.name;
  hash = text "sha256$" ++ r.salt ++ text "$" ++ r.hash;
  peer_id = [];
  created = now;
}

-- A state of the second loop: the counts, the accounts, and how many were imported.
pub record Import : Type 0 where
  pub seen : Dict Seen
  pub accounts : Dict Account
  pub imported : ℕ

module _ (u : Unicode) where
  -- Whether an account of the file is taken over: its name is valid, and new.
  abbrev pub is_loadable : Dict Account → Account → Bool
  is_loadable m a = valid_username u a.name && not (found (get m (name_key u a.name)))

  -- The accounts that Unmarshal gives, in their order.
  unfoldable pub load_users : Dict Account → List Account → Dict Account
  load_users m [] = m
  load_users m (a ∷ as') =
      load_users (if is_loadable m a then put m (name_key u a.name) a else m) as'

  legacy_record : List Text → Option LegacyRecord
  legacy_record (name ∷ salt ∷ hash ∷ []) =
      if valid_username u name && length hash == 64
      then some (record { name = name; salt = salt; hash = hash })
      else none
  legacy_record _ = none

  -- A line of the flat file: `name:salt:hash`; empty lines, comments and malformed records are skipped.
  unfoldable pub parse_legacy : Text → Option LegacyRecord
  unfolding legacy_record
  parse_legacy line =
      let l = trim_space line in
      if is_empty l || has_prefix l (text "#") then none else legacy_record (split b':' l)

  unfoldable pub legacy_records : List Text → List LegacyRecord
  legacy_records [] = []
  legacy_records (l ∷ ls) = add_some (parse_legacy l) (legacy_records ls)

  -- The counts of the names, in the order of the records.
  unfoldable pub count_seen : Dict Seen → List LegacyRecord → Dict Seen
  count_seen seen [] = seen
  count_seen seen (r ∷ rs) =
      let key = name_key u r.name in
      count_seen (put seen key (seen_again (seen_or_zero (get seen key)))) rs

  unfoldable pub import_one : ℕ → Import → LegacyRecord → Seen → Import
  import_one now s r dropped = s
  import_one now s r (times n) =
      if ltb 1 n then record s { seen = put s.seen (name_key u r.name) dropped } else record s {
        accounts = put s.accounts (name_key u r.name) (legacy_account now r);
        imported = s.imported + 1;
      }

  -- A name that appears more than once is dropped entirely.
  unfoldable pub import_records : ℕ → Import → List LegacyRecord → Import
  import_records now s [] = s
  import_records now s (r ∷ rs) =
      import_records now (import_one now s r (seen_or_zero (get s.seen (name_key u r.name)))) rs

  unfoldable pub import_legacy : ℕ → Dict Account → List Text → Import
  import_legacy now m lines =
      let rs = legacy_records lines in
      import_records now (record { seen = count_seen [] rs; accounts = m; imported = 0 }) rs

  imported_from : Bool → ℕ → Accounts → LegacyFile → Result AccountError Accounts
  imported_from written now a no_file = ok a
  imported_from written now a cannot_open = err io_error
  imported_from written now a (scanned lines true) = err io_error
  imported_from written now a (scanned lines false) =
      let s = import_legacy now a.by_key lines in
      let a' : Accounts = record a { by_key = s.accounts } in
      if ltb 0 s.imported
      then (let (done, a'') = save u written a' in if done then ok a'' else err io_error)
      else ok a'

  -- LoadAccounts; `legacy` is `none` where no legacy path is given.
  unfoldable pub load_accounts :
      Bool → ℕ → ArgonParams → UsersFile → Option LegacyFile → Result AccountError Accounts
  unfolding imported_from
  load_accounts written now p (parsed users) legacy =
      ok (record { by_key = load_users [] users; params = p; saved = users })
  load_accounts written now p malformed legacy = err io_error
  load_accounts written now p unreadable legacy = err io_error
  load_accounts written now p missing none = ok (record { by_key = []; params = p; saved = [] })
  load_accounts written now p missing (some f) =
      imported_from written now (record { by_key = []; params = p; saved = [] }) f
