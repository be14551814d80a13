-- ===== src/Accounts/Changes.antt =====
-- Password changes, deletions and key logins, whatever other operations run in between.
use tarion.Base.{
  ◌≡◌, refl, ap, ◌∙◌, ◌≢◌, ◌↔◌, inl, inr, Bool, true, Option, none, some, [], arith, if◌then◌else◌,
  Bool-cases, ok,
}
use tarion.Text.{Text, str_eq, str_eq_iff, str_eq_refl, is_empty-ne}
use tarion.Text.Lower.{Unicode}
use tarion.Dict.{get-delete}
use tarion.Proto.{name_key}
use tarion.Passwords.{ArgonParams, PasswordScheme}
use tarion.Accounts.{
  Account, Accounts, save, get_account, change_hash, change_commit, change_commit_found,
  change_found, delete_account, login_key, key_found,
}
use tarion.Accounts.Binding.{After, saved-ok}

module _ (u : Unicode) where
  change_commit-ok :
      (written : Bool) (b c : Accounts) (name checked hash : Text) (o : Option Account)
      → get_account u b name ≡ o
      → change_commit_found u written b name checked hash o ≡ (ok tt, c)
      → (cur : Account) × (get_account u b name ≡ some cur)
        × (cur.hash ≡ checked)
        × After u b c name (record cur { hash = hash })
  unfolding change_commit_found
  change_commit-ok written b c name checked hash none e f = absurd (ground (arith, f))
  change_commit-ok written b c name checked hash (some cur) e f =
      elim (Bool-cases (str_eq cur.hash checked)) [
        | inr h ↦ absurd (ground (arith, rw (h, change_commit_found) at f))
        | inl h ↦
            let (_, after) =
              saved-ok u tt tt written b c name _ (rw (h, change_commit_found) at f) in
            (cur, e, (str_eq_iff _ _).0 h, after)
      ]

  module _ (scheme : PasswordScheme) where
    change_found-match :
        (salt : Option Text) (p : ArgonParams) (old_pass new_pass checked hash : Text)
        (o : Option Account)
        → change_found u scheme salt p old_pass new_pass o ≡ ok (checked, hash)
        → (scheme.verify checked old_pass p).0 ≡ true
    unfolding change_found
    change_found-match salt p old_pass new_pass checked hash none e = absurd (ground (arith, e))
    change_found-match salt p old_pass new_pass checked hash (some acct) e =
        elim (Bool-cases (scheme.verify acct.hash old_pass p).0) [
          | inr h ↦ absurd (ground (arith, rw (h, change_found) at e))
          | inl h ↦ ground (arith, h, e)
        ]

    -- If the first half of a password change verified the old password and, after any change of the
    -- database in between, the second half succeeds, then the account as it is at that moment has a
    -- hash that verifies the old password, and the only change is its new hash.
    pub change-authentic :
        (salt : Option Text) (written : Bool) (a b c : Accounts)
        (name old_pass new_pass checked hash : Text)
        → change_hash u scheme salt a name old_pass new_pass ≡ ok (checked, hash)
        → change_commit u written b name checked hash ≡ (ok tt, c)
        → (cur : Account) × (get_account u b name ≡ some cur)
          × ((scheme.verify cur.hash old_pass a.params).0 ≡ true)
          × After u b c name (record cur { hash = hash })
    unfolding change_hash change_commit
    change-authentic salt written a b c name old_pass new_pass checked hash e f =
        let (cur, found_cur, same, after) =
          change_commit-ok written b c name checked hash (get_account u b name) refl f in
        (
          cur,
          found_cur,
          rw same (
              change_found-match salt a.params old_pass new_pass checked hash (get_account u a name)
                e),
          after,
        )

  key_found-ok :
      (peer_id n : Text) (o : Option Account)
      → key_found peer_id o ≡ ok n
      → (acct : Account) × (o ≡ some acct)
        × (acct.name ≡ n)
        × (acct.peer_id ≡ peer_id)
        × (peer_id ≢ [])
  unfolding key_found
  key_found-ok peer_id n none e = absurd (ground (arith, e))
  key_found-ok peer_id n (some acct) e = (
    acct,
    refl,
    ground (arith, e),
    ground (arith, e, str_eq_iff acct.peer_id peer_id),
    λ h. ground (arith, e, h, str_eq_iff acct.peer_id peer_id),
  )

  key_found-bound :
      (peer_id : Text) (acct : Account)
      → acct.peer_id ≡ peer_id
      → peer_id ≢ []
      → key_found peer_id (some acct) ≡ ok acct.name
  unfolding key_found
  key_found-bound peer_id acct e h = ground (arith, e, is_empty-ne peer_id h, str_eq_refl peer_id)

  -- A login without a password succeeds, with a given name, exactly if the account of that name is
  -- bound to the key that was shown, and the key is not empty.
  pub login_key_iff :
      (a : Accounts) (name peer_id : Text) (n : Text)
      → (login_key u a name peer_id ≡ ok n) ↔ (
          (acct : Account) × (get_account u a name ≡ some acct)
          × (acct.name ≡ n)
          × (acct.peer_id ≡ peer_id)
          × (peer_id ≢ []))
  unfolding login_key
  login_key_iff a name peer_id n = (
    key_found-ok peer_id n (get_account u a name),
    λ (acct, e, named, bound, some_key).
        ap (key_found peer_id) e ∙ key_found-bound peer_id acct bound some_key ∙ ap ok named,
  )

  -- After a deletion the account is not found under its name, and every other account is as before,
  -- whether or not the file could be written.
  pub get-delete_account :
      (written : Bool) (a : Accounts) (name j : Text)
      → get_account u (delete_account u written a name).1 j
        ≡ (if str_eq (name_key u name) (name_key u j) then none else get_account u a j)
  unfolding delete_account save get_account
  get-delete_account written a name j = ground (
    arith,
    get-delete a.by_key (name_key u name) (name_key u j),
    str_eq_iff (name_key u name) (name_key u j),
  )
