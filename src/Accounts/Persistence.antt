-- ===== src/Accounts/Persistence.antt =====
-- The file that the user database writes is one that it reads back.
use tarion.Base.{
  ℕ, ◌≡◌, refl, sym, ap, ◌∙◌, subst, inl, inr, Bool, true, ◌&&◌, Option, none, some, List, [], ◌∷◌,
  arith, if◌then◌else◌, Option-cases, found, All, ok,
}
use tarion.Base.Sort.{sort, insert, All-sort}
use tarion.Text.{Text, str_eq, str_eq_iff}
use tarion.Text.Utf8.{valid_string}
use tarion.Text.Lower.{Unicode}
use tarion.Dict.{Dict, get, put, get-put}
use tarion.Proto.{name_key, valid_username}
use tarion.Passwords.{ArgonParams}
use tarion.Accounts.{Account, Accounts, values, list, save, get_account, by_name}
use tarion.Accounts.Loading.{load_users, load_accounts, parsed, LegacyFile}
use tarion.Accounts.Keyed.{IsKeyed}

module _ (u : Unicode) where
  -- The first account of a list with this key.
  first : List Account → Text → Option Account
  first [] k = none
  first (a ∷ as') k = if str_eq (name_key u a.name) k then some a else first as' k

  Distinct : List Account → Type 0
  Distinct [] = Unit {0}
  Distinct (a ∷ as') = (first as' (name_key u a.name) ≡ none) × Distinct as'

  abbrev pub AllValid : List Account → Type 0
  AllValid = All (λ a. valid_username u a.name ≡ true)

  -- Loading keeps what is there, and else takes the first account of the list.
  get-load_users :
      (m : Dict Account) (as' : List Account) (k : Text)
      → AllValid as'
      → get (load_users u m as') k ≡ (if found (get m k) then get m k else first as' k)
  unfolding load_users first
  get-load_users m [] k v = ground arith
  get-load_users m (a ∷ as') k v =
      let key = name_key u a.name in
      elim (Option-cases (get m key)) [
        | inl e ↦ ground (
          arith,
          v.0,
          e,
          get-load_users (put m key a) as' k v.1,
          get-put m key k a,
          str_eq_iff key k,
        )
        | inr (b, e) ↦ ground (arith, v.0, e, get-load_users m as' k v.1, str_eq_iff key k)
      ]

  first-insert :
      (a : Account) (as' : List Account) (k : Text)
      → first as' (name_key u a.name) ≡ none
      → first (insert (by_name u) a as') k ≡ first (a ∷ as') k
  unfolding first insert
  first-insert a [] k h = refl
  first-insert a (b ∷ as') k h = ground (
    arith,
    first-insert a as' k,
    h,
    str_eq_iff (name_key u b.name) (name_key u a.name),
    str_eq_iff (name_key u a.name) k,
    str_eq_iff (name_key u b.name) k,
  )

  first-sort :
      (as' : List Account) (k : Text) → Distinct as' → first (sort (by_name u) as') k ≡ first as' k
  unfolding Distinct sort first
  first-sort [] k d = refl
  first-sort (a ∷ as') k d =
      first-insert a (sort (by_name u) as') k (first-sort as' (name_key u a.name) d.1 ∙ d.0)
      ∙ (ap (λ o. if str_eq (name_key u a.name) k then some a else o) (first-sort as' k d.1))

  first-values : (m : Dict Account) (k : Text) → IsKeyed u m → first (values m) k ≡ get m k
  unfolding first get
  first-values [] k h = refl
  first-values ((j, a) ∷ m) k h = ground (arith, h.0, first-values m k h.2)

  values-Distinct : (m : Dict Account) → IsKeyed u m → Distinct (values m)
  unfolding Distinct
  values-Distinct [] h = tt
  values-Distinct ((j, a) ∷ m) h = (
    first-values m (name_key u a.name) h.2 ∙ subst (λ k. get m k ≡ none) h.0 h.1,
    values-Distinct m h.2,
  )

  -- The texts of an account are valid UTF-8, which is what JSON keeps.
  abbrev pub IsUtf8 : Account → Type 0
  IsUtf8 a = (valid_string a.name && valid_string a.hash && valid_string a.peer_id) ≡ true

  -- Unmarshal gives back what Marshal wrote where the texts are valid UTF-8; other bytes are replaced.
  abbrev pub KeepsUtf8 : (List Account → List Account) → Type 0
  KeepsUtf8 read_back = (as' : List Account) → All IsUtf8 as' → read_back as' ≡ as'

  -- If the database is keyed by names, all its names are valid, its texts are valid UTF-8, and JSON
  -- keeps accounts with such texts, then from the file that a successful save wrote every account
  -- is loaded again, and no other.
  pub load-save :
      (read_back : List Account → List Account) (a b : Accounts) (written : Bool) (now : ℕ)
      (p : ArgonParams) (legacy : Option LegacyFile) (name : Text)
      → KeepsUtf8 read_back
      → IsKeyed u a.by_key
      → AllValid (values a.by_key)
      → All IsUtf8 (values a.by_key)
      → save u true a ≡ (true, b)
      → (c : Accounts) × (load_accounts u written now p (parsed (read_back b.saved)) legacy ≡ ok c)
        × (get_account u c name ≡ get_account u a name)
  unfolding save list get_account load_accounts first get
  load-save read_back a b written now p legacy name keeps h v t e =
      let k = name_key u name in
      let users = list u a in
      let same : read_back users ≡ users =
        keeps users (All-sort (by_name u) IsUtf8 (values a.by_key) t) in
      (
        record { by_key = load_users u [] users; params = p; saved = users },
        ap (λ z. load_accounts u written now p (parsed (read_back z.1.saved)) legacy) (sym e)
            ∙ ap (λ us. load_accounts u written now p (parsed us) legacy) same,
        get-load_users [] users k (All-sort (by_name u) _ (values a.by_key) v)
            ∙ first-sort (values a.by_key) k (values-Distinct a.by_key h)
            ∙ first-values a.by_key k h,
      )
