-- ===== src/Vault/Unlocking.antt =====
-- What the vault file gives back, and when a passphrase is wrong.
use tarion.Base.{
  ◌≡◌, refl, sym, ap, ◌∙◌, subst, ◌≢◌, ◌⊎◌, inl, inr, Bool, true, false, ◌||◌, Option, none, some,
  [], arith, ◌==◌, Bool-cases, length, Result, ok, err, ok-injective,
}
use tarion.Text.{Text, text, str_eq, str_eq_refl}
use tarion.Vault.{
  Crypto, VaultError, panics, key_size, seal_with, unlock_with, wrong_passphrase, unknown_protector,
  VaultFile, nonce_size, seal, open_sealed, windows, passphrase, kek, new_file, wrap_windows,
  with_wrapped, wrap_passphrase, when_written, wrap_key, or_not_unprotected, or_wrong, unlock_typed,
  unlock,
}
use tarion.Vault.Opening.{nonce_of, open_sealed-seal, open_sealed-seal_iff}

when_written-ok :
    (written : Bool) (r : Result VaultError VaultFile) (f : VaultFile)
    → when_written written r ≡ ok f
    → r ≡ ok f
unfolding when_written
when_written-ok written (err e) f h = cc
when_written-ok true (ok g) f h = h
when_written-ok false (ok g) f h = cc

abbrev windows_file : Text → VaultFile
windows_file w = record {
  protector = windows;
  wrapped = w;
  salt = [];
  mem_kib = 0;
  time = 0;
  threads = 0;
}

unlock_windows :
    (c : Crypto) (key : Text) (w : Option Text) (f : VaultFile) (typed : Option Text)
    → c.dpapi_protect key ≡ w
    → wrap_windows w ≡ ok f
    → unlock c f typed ≡ ok key
unfolding wrap_windows unlock or_not_unprotected str_eq
unlock_windows c key none f typed hw h = cc
unlock_windows c key (some w) f typed hw h =
    let at_file : unlock c (windows_file w) typed ≡ ok key =
      ap or_not_unprotected (c.unprotect-protect key w hw) in
    subst (λ g. unlock c g typed ≡ ok key) (ok-injective h) at_file

with_wrapped-ok :
    (f g : VaultFile) (r : Result VaultError Text)
    → with_wrapped f r ≡ ok g
    → (w : Text) × ((r ≡ ok w) × (record f { wrapped = w } ≡ g))
unfolding with_wrapped
with_wrapped-ok f g (err e) h = cc
with_wrapped-ok f g (ok w) h = (w, (refl, ok-injective h))

unlock_passphrase :
    (c : Crypto) (salt : Option Text) (nonce key pass : Text) (f : VaultFile)
    → length nonce ≡ nonce_size
    → wrap_passphrase c salt nonce key pass ≡ ok f
    → unlock c f (some pass) ≡ ok key
unfolding wrap_passphrase unlock unlock_typed unlock_with seal_with str_eq kek
unlock_passphrase c none nonce key pass f hn h = cc
unlock_passphrase c (some salt) nonce key pass f hn h =
    let f0 = new_file passphrase salt in
    let k = c.id_key pass salt f0.time f0.mem_kib f0.threads key_size in
    let (w, (sealed, same)) = with_wrapped-ok f0 f (seal c nonce k (text "vault") key) h in
    let opened = open_sealed-seal c nonce k (text "vault") key w hn sealed in
    let at_file : unlock c (record f0 { wrapped = w }) (some pass) ≡ ok key = ap or_wrong opened in
    subst (λ g. unlock c g (some pass) ≡ ok key) same at_file

-- If Wrap writes a vault file, with any protector, any draws with a nonce of 24 bytes, and any key,
-- then Unlock with the same passphrase gives that key.
pub unlock-wrap_key :
    (c : Crypto) (salt : Option Text) (nonce : Text) (written : Bool) (key protector pass : Text)
    (f : VaultFile)
    → length nonce ≡ nonce_size
    → wrap_key c salt nonce written key protector pass ≡ ok f
    → unlock c f (some pass) ≡ ok key
unfolding wrap_key
unlock-wrap_key c salt nonce written key protector pass f hn h =
    elim (Bool-cases (str_eq protector windows)) [
      | inl e ↦
          let r = when_written-ok written (wrap_windows (c.dpapi_protect key)) f (rw e at h) in
          unlock_windows c key (c.dpapi_protect key) f (some pass) refl r
      | inr e ↦ elim (Bool-cases (str_eq protector passphrase)) [
        | inl p ↦
            let r =
              when_written-ok written (wrap_passphrase c salt nonce key pass) f (rw (e, p) at h) in
            unlock_passphrase c salt nonce key pass f hn r
        | inr p ↦
            let r = when_written-ok written (err unknown_protector) f (rw (e, p) at h) in
            absurd (cc)
      ]
    ]

-- The wrapped key of a file is what sealing a key with this passphrase gives.
abbrev pub IsWrappedBy : Crypto → VaultFile → Text → Text → Type 0
IsWrappedBy c f pass key =
    (k : Text) × ((kek c f pass ≡ ok k)
      × ((length (nonce_of f.wrapped) ≡ nonce_size)
          × (seal c (nonce_of f.wrapped) k (text "vault") key ≡ ok f.wrapped)))

-- The parameters of the file are such that argon2 panics.
abbrev pub Panics : VaultFile → Type 0
Panics f = (f.time ≡ 0) ⊎ (f.threads ≡ 0)

or_wrong_cases :
    (r : Result VaultError Text)
    → ((k : Text) × ((r ≡ ok k) × (or_wrong r ≡ ok k)))
      ⊎ (((k : Text) → r ≢ ok k) × (or_wrong r ≡ err wrong_passphrase))
unfolding or_wrong
or_wrong_cases (ok k) = inl (k, (refl, refl))
or_wrong_cases (err e) = inr (λ k h. cc, refl)

passphrase_ne : str_eq passphrase windows ≡ false
unfolding str_eq
passphrase_ne = refl

unlock_step :
    (c : Crypto) (f : VaultFile) (pass : Text)
    → f.protector ≡ passphrase
    → unlock c f (some pass) ≡ unlock_with c f (kek c f pass)
unfolding unlock unlock_typed
unlock_step c f pass h = rw (h, passphrase_ne, str_eq_refl passphrase) refl

abbrev Unlocks : Crypto → VaultFile → Text → Result VaultError Text → Type 0
Unlocks c f pass r =
    ((key : Text) × ((r ≡ ok key) × IsWrappedBy c f pass key))
    ⊎ ((r ≡ err wrong_passphrase) × ((key : Text) → ¬ IsWrappedBy c f pass key))
    ⊎ (Panics f × (r ≡ err panics))

unlock_right :
    (c : Crypto) (f : VaultFile) (pass k : Text)
    → kek c f pass ≡ ok k
    → Unlocks c f pass (unlock_with c f (ok k))
unfolding unlock_with
unlock_right c f pass k h =
    let opened = open_sealed c k (text "vault") f.wrapped in
    elim (or_wrong_cases opened) [
      | inl (key, (o, e)) ↦
          inl (key, (e, (k, (h, (open_sealed-seal_iff c k (text "vault") f.wrapped key).0 o))))
      | inr (never, e) ↦ inr (
          inl (
            e,
            λ key (k', (h', w)). never key (
                (open_sealed-seal_iff c k (text "vault") f.wrapped key).1 (
                  subst
                    (λ x.
                      (length (nonce_of f.wrapped) ≡ nonce_size)
                      × (seal c (nonce_of f.wrapped) x (text "vault") key ≡ ok f.wrapped))
                    (ok-injective (sym h' ∙ h)) w)),
          ))
    ]

-- For a vault file whose protector is a passphrase, typing a passphrase unlocks a key by which the
-- wrapped key is sealed with that passphrase, or there is no such key and the error is that the
-- passphrase is wrong, or the file asks argon2 for no passes or no threads, and Unlock panics.
pub unlock-IsWrappedBy :
    (c : Crypto) (f : VaultFile) (pass : Text)
    → f.protector ≡ passphrase
    → ((key : Text) × ((unlock c f (some pass) ≡ ok key) × IsWrappedBy c f pass key))
      ⊎ ((unlock c f (some pass) ≡ err wrong_passphrase)
          × ((key : Text) → ¬ IsWrappedBy c f pass key))
      ⊎ (Panics f × (unlock c f (some pass) ≡ err panics))
unfolding kek unlock_with
unlock-IsWrappedBy c f pass h = elim (Bool-cases (f.time == 0 || f.threads == 0)) [
  | inl e ↦
      let k : kek c f pass ≡ err panics = rw e refl in
      inr (inr (ground (arith, e), unlock_step c f pass h ∙ ap (unlock_with c f) k))
  | inr e ↦
      let x = c.id_key pass f.salt f.time f.mem_kib f.threads key_size in
      let k : kek c f pass ≡ ok x = rw e refl in
      subst (Unlocks c f pass) (sym (unlock_step c f pass h ∙ ap (unlock_with c f) k))
        (unlock_right c f pass x k)
]
