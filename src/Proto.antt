-- ===== src/Proto.antt =====
-- internal/directory/proto.go: the limits, the error codes, and the messages between clients and the
-- directory server.
pub mod Messages
use tarion.Base.{
  ℕ, ◌*◌, Bool, true, false, not, ◌&&◌, ◌||◌, List, [], ◌∷◌, ltb, ◌==◌, if◌then◌else◌, length,
}
use tarion.Text.{Text, is_empty}
use tarion.Text.Lower.{Unicode, to_lower}
use tarion.Text.Utf8.{runes, valid_string}

abbrev pub max_username_runes : ℕ
max_username_runes = 32

abbrev pub default_min_password : ℕ
default_min_password = 10

abbrev pub max_password_len : ℕ
max_password_len = 256

abbrev pub max_listed_users : ℕ
max_listed_users = 500

abbrev pub max_local_addrs : ℕ
max_local_addrs = 4

abbrev pub max_revoked : ℕ
max_revoked = 1000

abbrev pub max_sealed_letter : ℕ
max_sealed_letter = 40 * 1024

abbrev pub max_fetch_bytes : ℕ
max_fetch_bytes = 56 * 1024

abbrev pub max_ack_ids : ℕ
max_ack_ids = 100

-- The codes of `Response.Error`.
pub data ErrorCode : Type 0 where
  bad_request invalid_name weak_password name_taken no_such_user auth_failed : ErrorCode
  password_required not_logged_in offline rate_limited server_error banned : ErrorCode
  invite_required bad_invite registration_closed relay_off relay_refused : ErrorCode
  probe_off probe_not_yours mailbox_off mailbox_refused mailbox_full too_large : ErrorCode

-- The QUIC codes that the server closes a session with.
pub data CloseCode : Type 0 where
  replaced banned_close deleted : CloseCode

-- A sealed message as the server hands it out. Times are unix seconds.
pub record Letter : Type 0 where
  pub id : Text
  pub from : Text
  pub received : ℕ
  pub sealed : Text

-- directory.NameKey
unfoldable pub name_key : Unicode → Text → Text
name_key u name = to_lower u name

-- The runes of a username: letters and digits, and after the first also . _ -
name_rune : Unicode → Bool → ℕ → Bool
name_rune u first r =
    u.is_letter r || u.is_digit r || (not first && (r == b'.' || r == b'_' || r == b'-'))

name_runes : Unicode → Bool → List ℕ → Bool
unfolding name_rune
name_runes u first [] = true
name_runes u first (r ∷ rs) = name_rune u first r && name_runes u false rs

-- directory.ValidUsername
unfoldable pub valid_username : Unicode → Text → Bool
unfolding name_runes
valid_username u name =
    if is_empty name || ltb max_username_runes (length (runes name)) || not (valid_string name)
    then false
    else name_runes u true (runes name)
