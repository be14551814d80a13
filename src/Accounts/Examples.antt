-- ===== src/Accounts/Examples.antt =====
-- The user database at concrete inputs.
use tarion.Base.{◌≡◌, refl, ◌≢◌, ◌↔◌, true, none, some, List, [], ◌∷◌, ◌==◌, if◌then◌else◌, All, ok}
use tarion.Text.{Text, text, str_eq}
use tarion.Dict.{get, put, delete}
use tarion.Text.Lower.{to_lower, is_ascii, lower_bytes}
use tarion.Text.Order.{str_lt}
use tarion.Base.Sort.{sort, insert}
use tarion.Proto.{name_key, valid_username}
use tarion.Text.Utf8.{runes, valid_string}
use tarion.Samples.{ascii_tables, plain_scheme, low_cost}
use tarion.Accounts.{
  Account, Accounts, Verified, values, rebound, save, get_account, login_verify, login_commit,
  change_hash, change_commit, login_key, list, create_commit, delete_account,
}
use tarion.Accounts.Loading.{load_accounts, parsed, import_legacy, legacy_records}
use tarion.Accounts.Keyed.{Commit, creates, logs_in, deletes, commit, run, IsKeyed, get_account-run}
use tarion.Accounts.Binding.{login-authentic}
use tarion.Accounts.Changes.{change-authentic, login_key_iff, get-delete_account}
use tarion.Text.Utf8.{valid_string}
use tarion.Accounts.Persistence.{IsUtf8, AllValid, load-save}
use tarion.Accounts.Legacy.{occurs, record_of, imported, get-import_legacy}

abbrev alice : Account
alice = record { name = text "Alice"; hash = text "secret"; peer_id = text "k1"; created = 3 }

-- A database in which Alice is registered.
abbrev with_alice : Accounts
with_alice = record { by_key = (text "alice", alice) ∷ []; params = low_cost; saved = alice ∷ [] }

with_alice-IsKeyed : IsKeyed ascii_tables with_alice.by_key
unfolding name_key to_lower is_ascii lower_bytes get
with_alice-IsKeyed = (refl, refl, tt)

with_alice-AllValid : AllValid ascii_tables (values with_alice.by_key)
unfolding valid_username runes valid_string
with_alice-AllValid = (refl, tt)

abbrev checked_alice : Verified
checked_alice = record { stored = alice; new_hash = none }

-- The account after a login from another device.
abbrev moved : Accounts
moved = record with_alice {
  by_key = (text "alice", record alice { peer_id = text "k2" }) ∷ [];
  saved = record alice { peer_id = text "k2" } ∷ [];
}

verified :
    login_verify ascii_tables plain_scheme none with_alice (text "ALICE") (text "secret")
    ≡ ok checked_alice
unfolding login_verify get_account get name_key to_lower is_ascii lower_bytes str_eq
verified = refl

committed :
    login_commit ascii_tables true with_alice (text "ALICE") (text "k2") checked_alice
    ≡ (ok (text "Alice", true), moved)
unfolding login_commit get_account get name_key to_lower is_ascii lower_bytes str_eq put delete save
    list sort insert str_lt rebound
committed = refl

login-authentic_example :
    (cur : Account) × (get_account ascii_tables with_alice (text "ALICE") ≡ some cur)
    × ((plain_scheme.verify cur.hash (text "secret") low_cost).0 ≡ true)
    × (text "Alice" ≡ cur.name)
    × ((j : Text)
        → get_account ascii_tables moved j ≡ (
            if str_eq (name_key ascii_tables (text "ALICE")) (name_key ascii_tables j)
            then some (rebound cur none (text "k2"))
            else get_account ascii_tables with_alice j))
login-authentic_example =
    login-authentic ascii_tables plain_scheme none true with_alice with_alice moved (text "ALICE")
      (text "secret") (text "k2") checked_alice (text "Alice", true) verified committed

-- The database after a change of Alice's password.
abbrev changed : Accounts
changed = record with_alice {
  by_key = (text "alice", record alice { hash = text "better" }) ∷ [];
  saved = record alice { hash = text "better" } ∷ [];
}

hashed :
    change_hash ascii_tables plain_scheme
      (some [])
      with_alice
      (text "alice")
      (text "secret")
      (text "better")
    ≡ ok (text "secret", text "better")
unfolding change_hash get_account get name_key to_lower is_ascii lower_bytes str_eq
hashed = refl

change_done :
    change_commit ascii_tables true with_alice (text "alice") (text "secret") (text "better")
    ≡ (ok tt, changed)
unfolding change_commit get_account get name_key to_lower is_ascii lower_bytes str_eq put delete
    save list sort insert str_lt
change_done = refl

change-authentic_example :
    (cur : Account) × (get_account ascii_tables with_alice (text "alice") ≡ some cur)
    × ((plain_scheme.verify cur.hash (text "secret") low_cost).0 ≡ true)
    × ((j : Text)
        → get_account ascii_tables changed j ≡ (
            if str_eq (name_key ascii_tables (text "alice")) (name_key ascii_tables j)
            then some (record cur { hash = text "better" })
            else get_account ascii_tables with_alice j))
change-authentic_example =
    change-authentic ascii_tables plain_scheme (some []) true with_alice with_alice changed
      (text "alice") (text "secret") (text "better") (text "secret") (text "better") hashed
      change_done

login_key_iff_example :
    (login_key ascii_tables with_alice (text "alice") (text "k1") ≡ ok (text "Alice")) ↔ (
      (acct : Account) × (get_account ascii_tables with_alice (text "alice") ≡ some acct)
      × (acct.name ≡ text "Alice")
      × (acct.peer_id ≡ text "k1")
      × (text "k1" ≢ []))
login_key_iff_example =
    login_key_iff ascii_tables with_alice (text "alice") (text "k1") (text "Alice")

-- Bob registers, Alice moves to another device, and Bob is deleted.
abbrev history : List Commit
history =
    creates true 5 (text "Bob") (text "pw") (text "k3")
    ∷ logs_in true (text "alice") (text "k2") checked_alice
    ∷ deletes true (text "BOB")
    ∷ []

moved_alice :
    get_account ascii_tables (run ascii_tables with_alice history) (text "alice")
    ≡ some (record alice { peer_id = text "k2" })
unfolding run commit login_commit create_commit delete_account rebound get_account get name_key
    to_lower is_ascii lower_bytes str_eq put delete save list sort insert str_lt
moved_alice = refl

get_account-run_example :
    name_key ascii_tables (text "Alice") ≡ name_key ascii_tables (text "alice")
get_account-run_example =
    get_account-run ascii_tables with_alice history (text "alice")
      (record alice { peer_id = text "k2" }) with_alice-IsKeyed moved_alice

saved_alice : save ascii_tables true with_alice ≡ (true, with_alice)
unfolding save list sort insert
saved_alice = refl

with_alice-IsUtf8 : All (IsUtf8 ascii_tables) (values with_alice.by_key)
unfolding valid_string
with_alice-IsUtf8 = (refl, tt)

load-save_example :
    (c : Accounts) × (load_accounts ascii_tables true 9 low_cost (parsed (alice ∷ [])) none ≡ ok c)
    × (get_account ascii_tables c (text "alice")
        ≡ get_account ascii_tables with_alice (text "alice"))
load-save_example =
    load-save ascii_tables (λ users. users) with_alice with_alice true 9 low_cost none
      (text "alice") (λ users h. refl) with_alice-IsKeyed with_alice-AllValid with_alice-IsUtf8
      saved_alice

abbrev old_lines : List Text
old_lines =
    text "# users"
    ∷ text "alice:aa:0123456789012345678901234567890123456789012345678901234567890123"
    ∷ []

get-import_legacy_example :
    get (import_legacy ascii_tables 4 [] old_lines).accounts (text "alice") ≡ (
      if occurs ascii_tables (text "alice") (legacy_records ascii_tables old_lines) == 1
      then imported ascii_tables 4
          (record_of ascii_tables (text "alice") (legacy_records ascii_tables old_lines))
      else none)
get-import_legacy_example = get-import_legacy ascii_tables 4 old_lines (text "alice")

get-delete_account_example :
    get_account ascii_tables
      (delete_account ascii_tables true with_alice (text "ALICE")).1
      (text "alice")
    ≡ (if str_eq (name_key ascii_tables (text "ALICE")) (name_key ascii_tables (text "alice"))
        then none
        else get_account ascii_tables with_alice (text "alice"))
get-delete_account_example =
    get-delete_account ascii_tables true with_alice (text "ALICE") (text "alice")
