-- ===== src/Vault/Examples.antt =====
-- The vault at concrete inputs, with a cipher whose tag repeats the first byte of the key.
use tarion.Base.{
  ℕ, zero, suc, ◌≡◌, refl, sym, ap, ◌∙◌, ◌↔◌, ◌⊎◌, inl, inr, true, Option, none, some, [], ◌∷◌,
  ◌++◌, arith, if◌then◌else◌, Bool-cases, length, take, drop, take-drop, ok, err,
}
use tarion.Text.{Text, text, str_eq, str_eq_iff, str_eq_refl}
use tarion.Text.Base64
use tarion.Vault.{
  panics, Crypto, wrong_passphrase, VaultFile, nonce_size, seal_magic, seal, is_sealed, open_sealed,
  seal_line, open_line, passphrase, kek, new_file, wrap_key, unlock,
}
use tarion.Vault.Opening.{nonce_of, open_sealed-seal_iff, open_line-seal_line}
use tarion.Vault.Unlocking.{Panics, unlock-wrap_key, IsWrappedBy, unlock-IsWrappedBy}

abbrev pub fill : ℕ → ℕ → Text
fill zero b = []
fill (suc n) b = b ∷ fill n b

pub length-fill : (n b : ℕ) → length (fill n b) ≡ n
length-fill zero b = omega arith
length-fill (suc n) b = omega (arith, length-fill n b)

abbrev pub first : Text → ℕ
first [] = 0
first (b ∷ s) = b

abbrev toy_open : Text → Text → Text → Text → Option Text
toy_open key nonce sealed kind =
    if str_eq (take 16 sealed) (fill 16 (first key)) then some (drop 16 sealed) else none

abbrev toy_seal : Text → Text → Text → Text → Text
toy_seal key nonce plain kind = fill 16 (first key) ++ plain

pub toy_open-seal :
    (key nonce plain kind : Text)
    → toy_open key nonce (toy_seal key nonce plain kind) kind ≡ some plain
toy_open-seal key nonce plain kind = rw (str_eq_refl (fill 16 (first key))) refl

pub toy_seal-open :
    (key nonce sealed plain kind : Text)
    → toy_open key nonce sealed kind ≡ some plain
    → sealed ≡ toy_seal key nonce plain kind
toy_seal-open key nonce sealed plain kind h =
    elim (Bool-cases (str_eq (take 16 sealed) (fill 16 (first key)))) [
      | inl e ↦
          let rest : drop 16 sealed ≡ plain = ground (arith, rw e at h) in
          sym (take-drop 16 sealed)
          ∙ ap (λ t. t ++ drop 16 sealed) ((str_eq_iff (take 16 sealed) (fill 16 (first key))).0 e)
          ∙ ap (λ t. fill 16 (first key) ++ t) rest
      | inr e ↦ absurd (ground (arith, rw e at h))
    ]

pub toy_unprotect-protect :
    (key w : Text)
    → ◌≡◌ {A = Option Text} (some key) (some w)
    → ◌≡◌ {A = Option Text} (some w) (some key)
toy_unprotect-protect key w h = sym h

abbrev pub toy : Crypto
toy = record {
  aead_seal = toy_seal;
  aead_open = toy_open;
  id_key = λ pass salt time mem threads n. fill n (first pass);
  dpapi_protect = λ key. some key;
  dpapi_unprotect = λ w. some w;
  open-seal = toy_open-seal;
  seal-open = toy_seal-open;
  length-seal = λ key nonce plain kind. omega arith;
  length-id_key = λ pass salt time mem threads n. length-fill n (first pass);
  unprotect-protect = toy_unprotect-protect;
}

abbrev pub nonce : Text
nonce = fill 24 9

abbrev pub data_key : Text
data_key = fill 32 7

abbrev history : Text
history = seal_magic ++ (nonce ++ (fill 16 7 ++ text "hi"))

open_sealed-seal_iff_example :
    (open_sealed toy data_key (text "history") history ≡ ok (text "hi")) ↔ (
      (length (nonce_of history) ≡ nonce_size)
      × (seal toy (nonce_of history) data_key (text "history") (text "hi") ≡ ok history))
open_sealed-seal_iff_example =
    open_sealed-seal_iff toy data_key (text "history") history (text "hi")

abbrev line : Text
line = text "~sealed1:CQkJCQkJCQkJCQkJCQkJCQkJCQkJCQkJBwcHBwcHBwcHBwcHBwcHB2hp"

seal_hi : seal_line toy nonce data_key (text "history") (text "hi") ≡ ok line
unfolding seal_line seal Base64.encode Base64.sextets Base64.b64_digit
seal_hi = refl

open_line-seal_line_example : open_line toy data_key (text "history") line ≡ ok (text "hi")
open_line-seal_line_example =
    open_line-seal_line toy nonce data_key (text "history") (text "hi") line refl (omega arith)
      seal_hi

abbrev vault_file : VaultFile
vault_file = record (new_file passphrase (fill 16 1)) {
  wrapped = seal_magic ++ (nonce ++ (fill 16 b'p' ++ data_key));
}

wrap_data_key :
    wrap_key toy (some (fill 16 1)) nonce true data_key passphrase (text "pw") ≡ ok vault_file
unfolding wrap_key seal kek str_eq
wrap_data_key = refl

unlock-wrap_key_example : unlock toy vault_file (some (text "pw")) ≡ ok data_key
unlock-wrap_key_example =
    unlock-wrap_key toy (some (fill 16 1)) nonce true data_key passphrase (text "pw") vault_file
      refl wrap_data_key

unlock-IsWrappedBy_example :
    ((key : Text) × ((unlock toy vault_file (some (text "x")) ≡ ok key)
        × IsWrappedBy toy vault_file (text "x") key))
    ⊎ ((unlock toy vault_file (some (text "x")) ≡ err wrong_passphrase)
        × ((key : Text) → ¬ IsWrappedBy toy vault_file (text "x") key))
    ⊎ (Panics vault_file × (unlock toy vault_file (some (text "x")) ≡ err panics))
unlock-IsWrappedBy_example = unlock-IsWrappedBy toy vault_file (text "x") refl

wrong : unlock toy vault_file (some (text "x")) ≡ err wrong_passphrase
unfolding unlock open_sealed is_sealed kek str_eq
wrong = refl
