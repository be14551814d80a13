-- ===== src/Vault.antt =====
-- internal/vault/vault.go: sealed data, sealed lines, and the vault file that holds the data key. The
-- ciphers are parameters; what `rand.Read` draws, and whether a file could be written, is an argument.
pub mod Opening
pub mod Unlocking
pub mod Examples
use tarion.Base.{
  ℕ, ◌+◌, ◌*◌, ◌≡◌, Bool, true, false, not, ◌&&◌, ◌||◌, Option, none, some, [], ◌∷◌, ◌++◌, ltb, leb,
  ◌==◌, if◌then◌else◌, length, take, drop, Result, ok, err,
}
use tarion.Text.{Text, text, str_eq, IsBytes}
use tarion.Text.Base64
use tarion.Text.Search.{has_prefix, trim_prefix}

-- XChaCha20-Poly1305 behind a key of 32 bytes, with a nonce and what is authenticated besides; it adds
-- a tag of 16 bytes, and opens nothing but what it seals. Argon2id: password, salt, time, memory,
-- threads, and the length wanted. DPAPI gives back to a Windows user what it protected for that user.
pub record Crypto : Type 0 where
  pub aead_seal : Text → Text → Text → Text → Text
  pub aead_open : Text → Text → Text → Text → Option Text
  pub id_key : Text → Text → ℕ → ℕ → ℕ → ℕ → Text
  pub dpapi_protect : Text → Option Text
  pub dpapi_unprotect : Text → Option Text
  pub open-seal :
      (key nonce plain kind : Text)
      → aead_open key nonce (aead_seal key nonce plain kind) kind ≡ some plain
  pub seal-open :
      (key nonce sealed plain kind : Text)
      → aead_open key nonce sealed kind ≡ some plain
      → sealed ≡ aead_seal key nonce plain kind
  pub length-seal :
      (key nonce plain kind : Text) → length (aead_seal key nonce plain kind) ≡ length plain + 16
  pub length-id_key :
      (pass salt : Text) (time mem threads n : ℕ) → length (id_key pass salt time mem threads n) ≡ n
  pub unprotect-protect : (key w : Text) → dpapi_protect key ≡ some w → dpapi_unprotect w ≡ some key

-- `ErrDamaged` and `ErrWrongPassphrase`, and the other errors by their place. `panics` is the panic of
-- Seal for a key of another length, and of argon2.IDKey for no passes or no threads.
pub data VaultError : Type 0 where
  damaged wrong_passphrase bad_key panics not_random not_protected not_unprotected : VaultError
  unknown_protector not_written not_read damaged_file no_passphrase : VaultError

abbrev pub key_size : ℕ
key_size = 32

abbrev pub nonce_size : ℕ
nonce_size = 24

abbrev pub overhead : ℕ
overhead = 16

-- `magic`, which ends in a newline
abbrev pub seal_magic : Text
seal_magic = text "TARION-SEALED-1" ++ (10 ∷ [])

-- Seal, with the nonce that is drawn.
unfoldable pub seal : Crypto → Text → Text → Text → Text → Result VaultError Text
seal c nonce key kind plain =
    if length key == key_size
    then ok (seal_magic ++ (nonce ++ c.aead_seal key nonce plain kind))
    else err panics

unfoldable pub is_sealed : Text → Bool
is_sealed bytes =
    leb (length seal_magic) (length bytes) && str_eq (take (length seal_magic) bytes) seal_magic

or_damaged : Option Text → Result VaultError Text
or_damaged none = err damaged
or_damaged (some plain) = ok plain

-- Open
unfoldable pub open_sealed : Crypto → Text → Text → Text → Result VaultError Text
unfolding or_damaged
open_sealed c key kind bytes =
    let body = drop (length seal_magic) bytes in
    if not (is_sealed bytes)
    then err damaged
    else if not (length key == key_size)
    then err bad_key
    else if ltb (length body) (nonce_size + overhead)
    then err damaged
    else or_damaged (c.aead_open key (take nonce_size body) (drop nonce_size body) kind)

abbrev pub line_prefix : Text
line_prefix = text "~sealed1:"

-- The line of data that Seal gives.
line_of : Result VaultError Text → Result VaultError Text
line_of (err e) = err e
line_of (ok sealed) = ok (line_prefix ++ Base64.encode (drop (length seal_magic) sealed))

-- SealLine
unfoldable pub seal_line : Crypto → Text → Text → Text → Text → Result VaultError Text
unfolding line_of
seal_line c nonce key kind line = line_of (seal c nonce key kind line)

unfoldable pub is_sealed_line : Text → Bool
is_sealed_line line = has_prefix line line_prefix

open_raw : Crypto → Text → Text → Option Text → Result VaultError Text
open_raw c key kind none = err damaged
open_raw c key kind (some raw) = open_sealed c key kind (seal_magic ++ raw)

-- OpenLine
unfoldable pub open_line : Crypto → Text → Text → Text → Result VaultError Text
unfolding open_raw
open_line c key kind line = open_raw c key kind (Base64.decode (trim_prefix line line_prefix))

-- `File`, without its version, which is 1.
pub record VaultFile : Type 0 where
  pub protector : Text
  pub wrapped : Text
  pub salt : Text
  pub mem_kib : ℕ
  pub time : ℕ
  pub threads : ℕ

-- What is at the path of vault.json: nothing, what cannot be read, what is not JSON, or a file with its
-- version.
pub data VaultOnDisk : Type 0 where
  absent unreadable not_json : VaultOnDisk
  holds : ℕ → VaultFile → VaultOnDisk

-- Load: `none` is the nil file.
unfoldable pub load_vault : VaultOnDisk → Result VaultError (Option VaultFile)
load_vault absent = ok none
load_vault unreadable = err not_read
load_vault not_json = err damaged_file
load_vault (holds v f) = if v == 1 then ok (some f) else err damaged_file

-- The protectors.
abbrev pub windows : Text
windows = text "windows"

abbrev pub passphrase : Text
passphrase = text "passphrase"

unfoldable pub kek : Crypto → VaultFile → Text → Result VaultError Text
kek c f pass =
    if f.time == 0 || f.threads == 0
    then err panics
    else ok (c.id_key pass f.salt f.time f.mem_kib f.threads key_size)

-- The file of a new vault.
abbrev pub new_file : Text → Text → VaultFile
new_file protector salt = record {
  protector = protector;
  wrapped = [];
  salt = salt;
  mem_kib = 64 * 1024;
  time = 3;
  threads = 4;
}

wrap_windows : Option Text → Result VaultError VaultFile
wrap_windows none = err not_protected
wrap_windows (some w) =
    ok (record { protector = windows; wrapped = w; salt = []; mem_kib = 0; time = 0; threads = 0 })

with_wrapped : VaultFile → Result VaultError Text → Result VaultError VaultFile
with_wrapped f (err e) = err e
with_wrapped f (ok w) = ok (record f { wrapped = w })

seal_with : Crypto → Text → Text → Result VaultError Text → Result VaultError Text
seal_with c nonce key (err e) = err e
seal_with c nonce key (ok k) = seal c nonce k (text "vault") key

wrap_passphrase : Crypto → Option Text → Text → Text → Text → Result VaultError VaultFile
unfolding seal_with
wrap_passphrase c none nonce key pass = err not_random
wrap_passphrase c (some salt) nonce key pass =
    let f = new_file passphrase salt in with_wrapped f (seal_with c nonce key (kek c f pass))

when_written : Bool → Result VaultError VaultFile → Result VaultError VaultFile
when_written written (err e) = err e
when_written true (ok f) = ok f
when_written false (ok f) = err not_written

-- Wrap: the file that it writes, with the salt and the nonce that are drawn.
unfoldable pub wrap_key :
    Crypto → Option Text → Text → Bool → Text → Text → Text → Result VaultError VaultFile
unfolding wrap_windows wrap_passphrase with_wrapped when_written
wrap_key c salt nonce written key protector pass = when_written written (
    if str_eq protector windows
    then wrap_windows (c.dpapi_protect key)
    else if str_eq protector passphrase
    then wrap_passphrase c salt nonce key pass
    else err unknown_protector)

or_not_unprotected : Option Text → Result VaultError Text
or_not_unprotected none = err not_unprotected
or_not_unprotected (some k) = ok k

or_wrong : Result VaultError Text → Result VaultError Text
or_wrong (err e) = err wrong_passphrase
or_wrong (ok k) = ok k

unlock_with : Crypto → VaultFile → Result VaultError Text → Result VaultError Text
unfolding or_wrong
unlock_with c f (err e) = err e
unlock_with c f (ok k) = or_wrong (open_sealed c k (text "vault") f.wrapped)

unlock_typed : Crypto → VaultFile → Option Text → Result VaultError Text
unfolding unlock_with
unlock_typed c f none = err no_passphrase
unlock_typed c f (some pass) = unlock_with c f (kek c f pass)

-- Unlock: `typed` is what asking for the passphrase gives.
unfoldable pub unlock : Crypto → VaultFile → Option Text → Result VaultError Text
unfolding or_not_unprotected or_wrong unlock_typed
unlock c f typed =
    if str_eq f.protector windows
    then or_not_unprotected (c.dpapi_unprotect f.wrapped)
    else if str_eq f.protector passphrase
    then unlock_typed c f typed
    else err unknown_protector
