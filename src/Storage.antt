-- ===== src/Storage.antt =====
-- internal/storage/sealed.go: the client's files, sealed while a data key is set and read in either
-- form. The data key is an argument, `none` where there is none, and so is what a file holds.
pub mod Lines
pub mod Reseal
pub mod Resealed
pub mod Held
pub mod Peers
pub mod Outbox
pub mod History
pub mod Dropped
pub mod Config
pub mod Examples
use tarion.Base.{Bool, true, false, Option, none, some, if◌then◌else◌, Result, ok, err}
use tarion.Text.{Text, text}
use tarion.Vault.{
  Crypto, VaultError, seal, is_sealed, open_sealed, seal_line, is_sealed_line, open_line,
}

-- What is at a path: nothing, something that cannot be read, or the bytes of a file.
pub data OnDisk : Type 0 where
  missing broken : OnDisk
  file : Text → OnDisk

-- `os.ErrNotExist`, another error of reading, ErrLocked, an error of the vault, an error of writing.
pub data StoreError : Type 0 where
  not_exist cannot_read locked cannot_write : StoreError
  vault_error : VaultError → StoreError

abbrev pub kind_identity : Text
kind_identity = text "identity"

abbrev pub kind_peers : Text
kind_peers = text "peers"

abbrev pub kind_outbox : Text
kind_outbox = text "outbox"

abbrev pub kind_history : Text
kind_history = text "history"

abbrev pub kind_dropped : Text
kind_dropped = text "dropped"

abbrev pub of_vault {ℓ} : {A : Type ℓ} → Result VaultError A → Result StoreError A
of_vault (ok a) = ok a
of_vault (err e) = err (vault_error e)

unseal : Crypto → Option Text → Text → Text → Result StoreError Text
unseal c none kind bytes = err locked
unseal c (some key) kind bytes = of_vault (open_sealed c key kind bytes)

-- readSealed
unfoldable pub read_sealed : Crypto → Option Text → Text → OnDisk → Result StoreError Text
unfolding unseal
read_sealed c key kind missing = err not_exist
read_sealed c key kind broken = err cannot_read
read_sealed c key kind (file bytes) = if is_sealed bytes then unseal c key kind bytes else ok bytes

-- The bytes that writeSealed writes, with the nonce that Seal draws.
unfoldable pub sealed_data : Crypto → Option Text → Text → Text → Text → Result StoreError Text
sealed_data c none nonce kind bytes = ok bytes
sealed_data c (some key) nonce kind bytes = of_vault (seal c nonce key kind bytes)

abbrev pub write_bytes : Bool → OnDisk → Result StoreError Text → OnDisk × Option StoreError
write_bytes written old (err e) = (old, some e)
write_bytes true old (ok bytes) = (file bytes, none)
write_bytes false old (ok bytes) = (old, some cannot_write)

-- writeSealed: what is at the path then, and the error. A file is written whole under another name and
-- renamed, so a failure leaves the old one.
unfoldable pub write_sealed :
    Crypto → Option Text → Text → Bool → Text → Text → OnDisk → OnDisk × Option StoreError
write_sealed c key nonce written kind bytes old =
    write_bytes written old (sealed_data c key nonce kind bytes)

-- sealLine
unfoldable pub line_to_write : Crypto → Option Text → Text → Text → Text → Result StoreError Text
line_to_write c none nonce kind line = ok line
line_to_write c (some key) nonce kind line = of_vault (seal_line c nonce key kind line)

abbrev pub unreadable_line : Text
unreadable_line = text "[this line can't be read: it is encrypted with a different key, or damaged]"

or_unreadable : Result VaultError Text → Text
or_unreadable (ok plain) = plain
or_unreadable (err e) = unreadable_line

open_with : Crypto → Option Text → Text → Text → Result StoreError Text
unfolding or_unreadable
open_with c none kind line = err locked
open_with c (some key) kind line = ok (or_unreadable (open_line c key kind line))

-- openLine
unfoldable pub line_read : Crypto → Option Text → Text → Text → Result StoreError Text
unfolding open_with
line_read c key kind line = if is_sealed_line line then open_with c key kind line else ok line
