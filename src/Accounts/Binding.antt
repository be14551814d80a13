-- ===== src/Accounts/Binding.antt =====
-- Who may bind a key or a password to an account, whatever other operations run between the two
-- halves of an operation.
use tarion.Base.{
  ℕ, ◌≡◌, refl, sym, ap, subst, inl, inr, Bool, true, false, not, ◌||◌, Option, none, some, arith,
  if◌then◌else◌, Bool-cases, found, Result, ok, err,
}
use tarion.Text.{Text, str_eq, str_eq_iff}
use tarion.Text.Lower.{Unicode}
use tarion.Dict.{put, get-put}
use tarion.Proto.{name_key}
use tarion.Passwords.{ArgonParams, PasswordScheme}
use tarion.Accounts.{
  Account, Accounts, AccountError, name_taken, Verified, saving, save, get_account, create_commit,
  rebound, login_verify, login_verify_found, upgraded, login_commit, login_found,
}

module _ (u : Unicode) where
  -- Lookups after one account is written, whether or not the file could be.
  abbrev pub saved :
      {A : Type 0} → A → Bool → Accounts → Text → Account → Result AccountError A × Accounts
  saved r written a name acct =
      saving r (save u written (record a { by_key = put a.by_key (name_key u name) acct }))

  pub get-saved :
      {A : Type 0} (r : A) (written : Bool) (a : Accounts) (name j : Text) (acct : Account)
      → get_account u (saved r written a name acct).1 j
        ≡ (if str_eq (name_key u name) (name_key u j) then some acct else get_account u a j)
  unfolding save get_account
  get-saved r true a name j acct = get-put a.by_key (name_key u name) (name_key u j) acct
  get-saved r false a name j acct = get-put a.by_key (name_key u name) (name_key u j) acct

  -- No registration touches an account that exists, also one that was made since the name was found
  -- free: the second half fails and changes nothing.
  pub create_commit-taken :
      (written : Bool) (now : ℕ) (a : Accounts) (name hash peer_id : Text) (acct : Account)
      → get_account u a name ≡ some acct
      → create_commit u written now a name hash peer_id ≡ (err name_taken, a)
  unfolding create_commit
  create_commit-taken written now a name hash peer_id acct e = rw e

  abbrev pub After : Accounts → Accounts → Text → Account → Type 0
  After b c name acct =
      (j : Text)
      → get_account u c j
        ≡ (if str_eq (name_key u name) (name_key u j) then some acct else get_account u b j)

  pub saved-ok :
      {A : Type 0} (r r' : A) (written : Bool) (b c : Accounts) (name : Text) (acct : Account)
      → saved r written b name acct ≡ (ok r', c)
      → (r ≡ r') × After b c name acct
  unfolding save
  saved-ok r r' true b c name acct e = (
    ground (arith, e),
    λ j.
        subst
          (λ z.
            get_account u z.1 j
            ≡ (if str_eq (name_key u name) (name_key u j) then some acct else get_account u b j))
          e (get-saved r true b name j acct),
  )
  saved-ok r r' false b c name acct e = absurd (ground (arith, e))

  rebound_same :
      (cur : Account) (new_hash : Option Text) (peer_id : Text)
      → (not (str_eq cur.peer_id peer_id) || found new_hash) ≡ false
      → rebound cur new_hash peer_id ≡ cur
  unfolding rebound
  rebound_same cur none peer_id h = ground (arith, str_eq_iff cur.peer_id peer_id)
  rebound_same cur (some x) peer_id h = ground (arith, h)

  After-same :
      (b : Accounts) (name : Text) (cur : Account)
      → get_account u b name ≡ some cur
      → After b b name cur
  unfolding get_account
  After-same b name cur e j = ground (arith, e, str_eq_iff (name_key u name) (name_key u j))

  abbrev LoggedIn : Accounts → Accounts → Text → Text → Verified → Text × Bool → Type 0
  LoggedIn b c name peer_id v r =
      (cur : Account) × (get_account u b name ≡ some cur)
      × (cur.hash ≡ v.stored.hash)
      × (r.0 ≡ cur.name)
      × After b c name (rebound cur v.new_hash peer_id)

  login_found-ok :
      (written : Bool) (b c : Accounts) (name peer_id : Text) (v : Verified) (r : Text × Bool)
      (o : Option Account)
      → get_account u b name ≡ o
      → login_found u written b name peer_id v o ≡ (ok r, c)
      → LoggedIn b c name peer_id v r
  unfolding login_found
  login_found-ok written b c name peer_id v r none e f = absurd (ground (arith, f))
  login_found-ok written b c name peer_id v r (some cur) e f =
      elim (Bool-cases (str_eq cur.hash v.stored.hash)) [
        | inr h ↦ absurd (ground (arith, rw (h, login_found) at f))
        | inl h ↦ elim (Bool-cases (not (str_eq cur.peer_id peer_id) || found v.new_hash)) [
          | inl g ↦
              let (same, after) = saved-ok _ r written b c name _ (rw (h, g, login_found) at f) in
              (cur, e, (str_eq_iff _ _).0 h, ap (λ x. x.0) (sym same), after)
          | inr g ↦
              let f' = rw (h, g, login_found) at f in
              (
                cur,
                e,
                (str_eq_iff _ _).0 h,
                ground (arith, f'),
                subst (λ z. After b z name (rebound cur v.new_hash peer_id)) (ap (λ z. z.1) f')
                    (rw (rebound_same cur v.new_hash peer_id g) (After-same b name cur e)),
              )
        ]
      ]

  -- A second half that succeeds found the very hash that the first half had checked.
  login_commit-ok :
      (written : Bool) (b c : Accounts) (name peer_id : Text) (v : Verified) (r : Text × Bool)
      → login_commit u written b name peer_id v ≡ (ok r, c)
      → LoggedIn b c name peer_id v r
  unfolding login_commit
  login_commit-ok written b c name peer_id v r e =
      login_found-ok written b c name peer_id v r (get_account u b name) refl e

  module _ (scheme : PasswordScheme) where
    upgraded-stored :
        (acct : Account) (b : Bool) (h : Result AccountError Text) (v : Verified)
        → upgraded u scheme acct b h ≡ ok v
        → v.stored ≡ acct
    unfolding upgraded
    upgraded-stored acct false h v e = ground arith
    upgraded-stored acct true (ok h) v e = ground arith
    upgraded-stored acct true (err x) v e = cc

    login_verify_found-match :
        (salt : Option Text) (p : ArgonParams) (pass : Text) (v : Verified) (o : Option Account)
        → login_verify_found u scheme salt p pass o ≡ ok v
        → (o ≡ some v.stored) × ((scheme.verify v.stored.hash pass p).0 ≡ true)
    unfolding login_verify_found
    login_verify_found-match salt p pass v none e = cc
    login_verify_found-match salt p pass v (some acct) e =
        elim (Bool-cases (scheme.verify acct.hash pass p).0) [
          | inr m ↦ cc (rw (m, login_verify_found) at e)
          | inl m ↦
              let same = upgraded-stored acct _ _ v (rw (m, login_verify_found) at e) in
              (ap some (sym same), rw same m)
        ]

    -- What the first half of a password login has found out.
    pub login_verify-match :
        (salt : Option Text) (a : Accounts) (name pass : Text) (v : Verified)
        → login_verify u scheme salt a name pass ≡ ok v
        → (get_account u a name ≡ some v.stored)
          × ((scheme.verify v.stored.hash pass a.params).0 ≡ true)
    unfolding login_verify
    login_verify-match salt a name pass v e =
        login_verify_found-match salt a.params pass v (get_account u a name) e

    -- If the first half of a password login verified a password and, after any change of the
    -- database in between, the second half succeeds, then the account as it is at that moment has a
    -- hash that verifies the password, the canonical name of that account is returned, and the only
    -- change is that the account is bound to the client's key (and gets the new hash, if one was
    -- made).
    pub login-authentic :
        (salt : Option Text) (written : Bool) (a b c : Accounts) (name pass peer_id : Text)
        (v : Verified) (r : Text × Bool)
        → login_verify u scheme salt a name pass ≡ ok v
        → login_commit u written b name peer_id v ≡ (ok r, c)
        → (cur : Account) × (get_account u b name ≡ some cur)
          × ((scheme.verify cur.hash pass a.params).0 ≡ true)
          × (r.0 ≡ cur.name)
          × ((j : Text)
              → get_account u c j ≡ (
                  if str_eq (name_key u name) (name_key u j)
                  then some (rebound cur v.new_hash peer_id)
                  else get_account u b j))
    login-authentic salt written a b c name pass peer_id v r e f =
        let (cur, found_cur, same, named, after) = login_commit-ok written b c name peer_id v r f in
        (cur, found_cur, rw same (login_verify-match salt a name pass v e).1, named, after)
