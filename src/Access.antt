-- ===== src/Access.antt =====
-- server/access.go: who may use the server, in one module for each type of that file.
pub mod Bans
pub mod Invites
pub mod Deletions
pub mod PasswordRules
pub mod Examples
use tarion.Base.{Bool, true, false}

-- Registration modes.
pub data Registration : Type 0 where
  reg_open reg_invite reg_closed : Registration

abbrev pub is_invite : Registration → Bool
is_invite reg_invite = true
is_invite r = false

abbrev pub is_closed : Registration → Bool
is_closed reg_closed = true
is_closed r = false
