-- ===== src/Passwords.antt =====
-- What the user database takes of the password hashes of server/accounts.go.
use tarion.Base.{ℕ, ◌≡◌, Bool, true, false}
use tarion.Text.{Text}

-- The cost of new hashes.
pub record ArgonParams : Type 0 where
  pub memory_kib : ℕ
  pub time : ℕ
  pub threads : ℕ

-- `hashPassword` and `verifyPassword`. A hash takes sixteen random bytes of salt; verification says
-- whether the password matches, and whether the hash should be redone.
pub record PasswordScheme : Type 0 where
  pub hash : Text → Text → ArgonParams → Text
  pub verify : Text → Text → ArgonParams → Bool × Bool
  pub verify-hash :
      (pass salt : Text) (p : ArgonParams) → verify (hash pass salt p) pass p ≡ (true, false)
