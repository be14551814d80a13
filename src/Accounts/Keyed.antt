-- ===== src/Accounts/Keyed.antt =====
-- Accounts are unique by the key of their name, whatever operations run, in whatever order.
use tarion.Base.{
  ℕ, ◌≡◌, refl, sym, ap, ◌∙◌, inl, inr, Bool, true, false, not, ◌||◌, Option, none, some, List, [],
  ◌∷◌, arith, Bool-cases, found,
}
use tarion.Text.{Text, str_eq, str_eq_iff, str_eq_refl}
use tarion.Text.Lower.{Unicode}
use tarion.Dict.{Dict, get, put, delete, get-delete}
use tarion.Proto.{name_key}
use tarion.Accounts.{
  Account, Accounts, Verified, saving, save, get_account, create_commit, rebound, login_commit,
  login_found, change_commit, change_commit_found, delete_account,
}

-- The second halves of the operations, each with the arguments that its first half, or whatever ran
-- since, may have left.
pub data Commit : Type 0 where
  creates : Bool → ℕ → Text → Text → Text → Commit
  logs_in : Bool → Text → Text → Verified → Commit
  changes : Bool → Text → Text → Text → Commit
  deletes : Bool → Text → Commit

module _ (u : Unicode) where
  -- Each account stands under the key of its own name, and there is one for each key.
  abbrev pub IsKeyed : Dict Account → Type 0
  IsKeyed [] = Unit {0}
  IsKeyed ((k, a) ∷ m) = (k ≡ name_key u a.name) × (get m k ≡ none) × IsKeyed m

  delete-IsKeyed : (m : Dict Account) (k : Text) → IsKeyed m → IsKeyed (delete m k)
  unfolding delete
  delete-IsKeyed [] k h = tt
  delete-IsKeyed ((j, a) ∷ m) k h = ground (arith, delete-IsKeyed m k h.2, get-delete m k j)

  put-IsKeyed :
      (m : Dict Account) (k : Text) (a : Account)
      → k ≡ name_key u a.name
      → IsKeyed m
      → IsKeyed (put m k a)
  unfolding put
  put-IsKeyed m k a e h = (e, ground (arith, get-delete m k k, str_eq_refl k), delete-IsKeyed m k h)

  -- What is found under a name has that name, up to case.
  pub get-IsKeyed :
      (m : Dict Account) (k : Text) (a : Account)
      → IsKeyed m
      → get m k ≡ some a
      → name_key u a.name ≡ k
  unfolding get
  get-IsKeyed [] k a h e = cc
  get-IsKeyed ((j, b) ∷ m) k a h e = ground (arith, h.0, str_eq_iff j k, get-IsKeyed m k a h.2)

  unfoldable pub commit : Accounts → Commit → Accounts
  commit a (creates written now name hash peer_id) =
      (create_commit u written now a name hash peer_id).1
  commit a (logs_in written name peer_id v) = (login_commit u written a name peer_id v).1
  commit a (changes written name checked hash) = (change_commit u written a name checked hash).1
  commit a (deletes written name) = (delete_account u written a name).1

  unfoldable pub run : Accounts → List Commit → Accounts
  run a [] = a
  run a (c ∷ cs) = run (commit a c) cs

  saved-IsKeyed {ℓ} :
      {A : Type ℓ} (r : A) (written : Bool) (a : Accounts)
      → IsKeyed a.by_key
      → IsKeyed (saving r (save u written a)).1.by_key
  unfolding save
  saved-IsKeyed r true a h = h
  saved-IsKeyed r false a h = h

  create-IsKeyed :
      (written : Bool) (now : ℕ) (a : Accounts) (name hash peer_id : Text)
      → IsKeyed a.by_key
      → IsKeyed (create_commit u written now a name hash peer_id).1.by_key
  unfolding create_commit
  create-IsKeyed written now a name hash peer_id h =
      elim (Bool-cases (found (get_account u a name))) [
        | inl e ↦ rw e h
        | inr e ↦ rw e (saved-IsKeyed name written _ (put-IsKeyed a.by_key _ _ refl h))
      ]

  delete_account-IsKeyed :
      (written : Bool) (a : Accounts) (name : Text)
      → IsKeyed a.by_key
      → IsKeyed (delete_account u written a name).1.by_key
  unfolding delete_account
  delete_account-IsKeyed written a name h = elim (Bool-cases (found (get_account u a name))) [
    | inl e ↦ rw e (saved-IsKeyed true written _ (delete-IsKeyed a.by_key _ h))
    | inr e ↦ rw e h
  ]

  -- Rewriting an account in place keeps its name.
  put_same-IsKeyed :
      (a : Accounts) (name : Text) (cur cur' : Account)
      → get_account u a name ≡ some cur
      → cur'.name ≡ cur.name
      → IsKeyed a.by_key
      → IsKeyed (put a.by_key (name_key u name) cur')
  unfolding get_account
  put_same-IsKeyed a name cur cur' e n h =
      put-IsKeyed a.by_key _ cur'
        (sym (get-IsKeyed a.by_key (name_key u name) cur h e) ∙ ap (name_key u) (sym n)) h

  change-IsKeyed :
      (written : Bool) (a : Accounts) (name checked hash : Text) (o : Option Account)
      → get_account u a name ≡ o
      → IsKeyed a.by_key
      → IsKeyed (change_commit_found u written a name checked hash o).1.by_key
  unfolding change_commit_found
  change-IsKeyed written a name checked hash none e h = h
  change-IsKeyed written a name checked hash (some cur) e h =
      elim (Bool-cases (str_eq cur.hash checked)) [
        | inr f ↦ rw f h
        | inl f ↦ rw f (saved-IsKeyed tt written _ (put_same-IsKeyed a name cur _ e refl h))
      ]

  login-IsKeyed :
      (written : Bool) (a : Accounts) (name peer_id : Text) (v : Verified) (o : Option Account)
      → get_account u a name ≡ o
      → IsKeyed a.by_key
      → IsKeyed (login_found u written a name peer_id v o).1.by_key
  unfolding login_found rebound
  login-IsKeyed written a name peer_id v none e h = h
  login-IsKeyed written a name peer_id v (some cur) e h =
      let changed = not (str_eq cur.peer_id peer_id) in
      elim (Bool-cases (str_eq cur.hash v.stored.hash)) [
        | inr f ↦ rw f h
        | inl f ↦ rw f (elim (Bool-cases (changed || found v.new_hash)) [
          | inl g ↦ rw g (saved-IsKeyed _ written _ (put_same-IsKeyed a name cur _ e refl h))
          | inr g ↦ rw g h
        ])
      ]

  commit-IsKeyed : (a : Accounts) (c : Commit) → IsKeyed a.by_key → IsKeyed (commit a c).by_key
  unfolding commit login_commit change_commit
  commit-IsKeyed a (creates written now name hash peer_id) h =
      create-IsKeyed written now a name hash peer_id h
  commit-IsKeyed a (logs_in written name peer_id v) h =
      login-IsKeyed written a name peer_id v _ refl h
  commit-IsKeyed a (changes written name checked hash) h =
      change-IsKeyed written a name checked hash _ refl h
  commit-IsKeyed a (deletes written name) h = delete_account-IsKeyed written a name h

  run-IsKeyed : (a : Accounts) (cs : List Commit) → IsKeyed a.by_key → IsKeyed (run a cs).by_key
  unfolding run
  run-IsKeyed a [] h = h
  run-IsKeyed a (c ∷ cs) h = run-IsKeyed (commit a c) cs (commit-IsKeyed a c h)

  -- Starting from a database keyed by names, after any sequence of the locked halves of the
  -- operations, what a name finds is an account of that name up to case.
  pub get_account-run :
      (a : Accounts) (cs : List Commit) (name : Text) (acct : Account)
      → IsKeyed a.by_key
      → get_account u (run a cs) name ≡ some acct
      → name_key u acct.name ≡ name_key u name
  unfolding get_account
  get_account-run a cs name acct h e =
      get-IsKeyed (run a cs).by_key (name_key u name) acct (run-IsKeyed a cs h) e
