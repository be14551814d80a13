-- ===== src/Accounts.antt =====
-- server/accounts.go: the user database. An operation that hashes a password does so outside the
-- database's lock, so it has two parts here, before and under the lock; other operations may come
-- between. Whether the file could be written, the salt that was drawn and the time are arguments.
pub mod Loading
pub mod Keyed
pub mod Binding
pub mod Changes
pub mod Persistence
pub mod Legacy
pub mod Examples
use tarion.Base.{
  ℕ, Bool, true, false, not, ◌&&◌, ◌||◌, Option, none, some, List, [], ◌∷◌, if◌then◌else◌, found,
  Result, ok, err,
}
use tarion.Base.Sort.{sort}
use tarion.Text.{Text, str_eq, is_empty}
use tarion.Text.Lower.{Unicode}
use tarion.Text.Order.{str_lt}
use tarion.Dict.{Dict, get, put, delete}
use tarion.Proto.{name_key}
use tarion.Passwords.{ArgonParams, PasswordScheme}

pub record Account : Type 0 where
  pub name : Text
  pub hash : Text
  pub peer_id : Text
  pub created : ℕ

-- The accounts in memory, and those in the file.
pub record Accounts : Type 0 where
  pub by_key : Dict Account
  pub params : ArgonParams
  pub saved : List Account

pub data AccountError : Type 0 where
  no_such_user auth_failed name_taken password_required io_error : AccountError

abbrev pub values : Dict Account → List Account
values [] = []
values ((k, a) ∷ m) = a ∷ values m

-- The result of an operation whose last step is to save.
abbrev pub saving {ℓ} : {A : Type ℓ} → A → Bool × Accounts → Result AccountError A × Accounts
saving r (true, a) = (ok r, a)
saving r (false, a) = (err io_error, a)

-- What a password login has found out before the lock.
pub record Verified : Type 0 where
  pub stored : Account
  pub new_hash : Option Text

abbrev pub or_else : Option Text → Text → Text
or_else none t = t
or_else (some h) t = h

-- The account after a login from `peer_id`: the key is bound when it changed or the hash is redone.
unfoldable pub rebound : Account → Option Text → Text → Account
rebound cur new_hash peer_id = record cur { hash = or_else new_hash cur.hash; peer_id = peer_id }

unfoldable pub key_found : Text → Option Account → Result AccountError Text
key_found peer_id none = err no_such_user
key_found peer_id (some acct) =
    if is_empty acct.peer_id || not (str_eq acct.peer_id peer_id)
    then err password_required
    else ok acct.name

abbrev pub hash_password :
    PasswordScheme → Option Text → Text → ArgonParams → Result AccountError Text
hash_password scheme none pass p = err io_error
hash_password scheme (some salt) pass p = ok (scheme.hash pass salt p)

-- SetArgon changes the cost that new hashes get.
unfoldable pub set_argon : Accounts → ArgonParams → Accounts
set_argon a p = record a { params = p }

module _ (u : Unicode) where
  abbrev pub by_name : Account → Account → Bool
  by_name a b = str_lt (name_key u a.name) (name_key u b.name)

  -- List and saveLocked: all accounts, sorted by name.
  unfoldable pub list : Accounts → List Account
  list a = sort by_name (values a.by_key)

  -- saveLocked: an atomic replace of the file, if it succeeds.
  unfoldable pub save : Bool → Accounts → Bool × Accounts
  save written a = if written then (true, record a { saved = list a }) else (false, a)

  unfoldable pub get_account : Accounts → Text → Option Account
  get_account a name = get a.by_key (name_key u name)

  module _ (scheme : PasswordScheme) where
    -- Create, before the lock: the hash of a name that is free.
    unfoldable pub create_hash : Option Text → Accounts → Text → Text → Result AccountError Text
    create_hash salt a name pass =
        if found (get_account a name)
        then err name_taken
        else hash_password scheme salt pass a.params

  -- Create, under the lock: the name must still be free.
  unfoldable pub create_commit :
      Bool → ℕ → Accounts → Text → Text → Text → Result AccountError Text × Accounts
  create_commit written now a name hash peer_id =
      if found (get_account a name)
      then (err name_taken, a)
      else saving name (
          save written (record a {
            by_key =
                put a.by_key (name_key u name)
                  (record { name = name; hash = hash; peer_id = peer_id; created = now });
          }))

  module _ (scheme : PasswordScheme) where
    upgraded : Account → Bool → Result AccountError Text → Result AccountError Verified
    upgraded acct false h = ok (record { stored = acct; new_hash = none })
    upgraded acct true (err e) = err e
    upgraded acct true (ok h) = ok (record { stored = acct; new_hash = some h })

    -- LoginWithPassword, before the lock: checks the password, and makes a new hash if the stored one
    -- is of an old kind.
    login_verify_found :
        Option Text → ArgonParams → Text → Option Account → Result AccountError Verified
    unfolding upgraded
    login_verify_found salt p pass none = err no_such_user
    login_verify_found salt p pass (some acct) =
        let (match, upgrade) = scheme.verify acct.hash pass p in
        if match then upgraded acct upgrade (hash_password scheme salt pass p) else err auth_failed

    unfoldable pub login_verify :
        Option Text → Accounts → Text → Text → Result AccountError Verified
    unfolding login_verify_found
    login_verify salt a name pass = login_verify_found salt a.params pass (get_account a name)

  login_found :
      Bool
      → Accounts
      → Text
      → Text
      → Verified
      → Option Account
      → Result AccountError (Text × Bool) × Accounts
  unfolding rebound
  login_found written a name peer_id v none = (err auth_failed, a)
  login_found written a name peer_id v (some cur) =
      let changed = not (str_eq cur.peer_id peer_id) in
      if not (str_eq cur.hash v.stored.hash)
      then (err auth_failed, a)
      else if changed || found v.new_hash
      then saving (cur.name, changed && not (is_empty v.stored.peer_id))
          (save written
            (record a { by_key = put a.by_key (name_key u name) (rebound cur v.new_hash peer_id) }))
      else (ok (cur.name, changed && not (is_empty v.stored.peer_id)), a)

  -- LoginWithPassword, under the lock: the stored hash must still be the one that was checked. The
  -- result is the canonical name, and whether a bound key changed.
  unfoldable pub login_commit :
      Bool → Accounts → Text → Text → Verified → Result AccountError (Text × Bool) × Accounts
  unfolding login_found
  login_commit written a name peer_id v = login_found written a name peer_id v (get_account a name)

  module _ (scheme : PasswordScheme) where
    change_found :
        Option Text → ArgonParams → Text → Text → Option Account → Result AccountError (Text × Text)
    change_found salt p old_pass new_pass none = err no_such_user
    change_found salt p old_pass new_pass (some acct) =
        if (scheme.verify acct.hash old_pass p).0
        then elim (hash_password scheme salt new_pass p) [
          | ok h ↦ ok (acct.hash, h)
          | err e ↦ err e
        ]
        else err auth_failed

    -- ChangePassword, before the lock: the hash that was checked, and the new one.
    unfoldable pub change_hash :
        Option Text → Accounts → Text → Text → Text → Result AccountError (Text × Text)
    unfolding change_found
    change_hash salt a name old_pass new_pass =
        change_found salt a.params old_pass new_pass (get_account a name)

    unfoldable pub check_found : ArgonParams → Text → Option Account → Option AccountError
    check_found p pass none = some no_such_user
    check_found p pass (some acct) =
        if (scheme.verify acct.hash pass p).0 then none else some auth_failed

    -- CheckPassword verifies a password and changes nothing; `none` is success.
    unfoldable pub check_password : Accounts → Text → Text → Option AccountError
    unfolding check_found
    check_password a name pass = check_found a.params pass (get_account a name)

  change_commit_found :
      Bool
      → Accounts
      → Text
      → Text
      → Text
      → Option Account
      → Result AccountError (Unit {0}) × Accounts
  change_commit_found written a name checked hash none = (err auth_failed, a)
  change_commit_found written a name checked hash (some cur) =
      if not (str_eq cur.hash checked)
      then (err auth_failed, a)
      else saving tt (
          save written
            (record a { by_key = put a.by_key (name_key u name) (record cur { hash = hash }) }))

  -- ChangePassword, under the lock.
  unfoldable pub change_commit :
      Bool → Accounts → Text → Text → Text → Result AccountError (Unit {0}) × Accounts
  unfolding change_commit_found
  change_commit written a name checked hash =
      change_commit_found written a name checked hash (get_account a name)

  -- Delete removes an account, and says whether it existed.
  unfoldable pub delete_account : Bool → Accounts → Text → Result AccountError Bool × Accounts
  delete_account written a name =
      if found (get_account a name)
      then saving true (save written (record a { by_key = delete a.by_key (name_key u name) }))
      else (ok false, a)

  -- LoginWithKey succeeds when `peer_id` is the key bound to the account.
  unfoldable pub login_key : Accounts → Text → Text → Result AccountError Text
  unfolding key_found
  login_key a name peer_id = key_found peer_id (get_account a name)
