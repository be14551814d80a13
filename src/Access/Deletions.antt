-- ===== src/Access/Deletions.antt =====
-- The deletion requests of server/access.go: one file for each account to delete, named by the hex
-- digits of the account's key.
pub mod Requested
use tarion.Base.{Bool, true, false, Option, none, some, List, [], ◌∷◌, if◌then◌else◌}
use tarion.Text.{Text}
use tarion.Text.Hex.{encode, decode}
use tarion.Text.Lower.{Unicode}
use tarion.Text.Sets.{add, remove_name}
use tarion.Proto.{name_key, valid_username}

abbrev pub add_name : Option Text → List Text → List Text
add_name none xs = xs
add_name (some x) xs = x ∷ xs

module _ (u : Unicode) where
  abbrev pub request_file : Text → Text
  request_file name = encode (name_key u name)

  unfoldable pub request : Bool → List Text → Text → Bool × List Text
  request written dir name = if written then (true, add (request_file name) dir) else (false, dir)

  abbrev pub pending_name : Option Text → Option Text
  pending_name none = none
  pending_name (some raw) = if valid_username u raw then some raw else none

  -- Pending returns the names waiting to be deleted; the directory is read in the order of its list.
  unfoldable pub pending : List Text → List Text
  pending [] = []
  pending (f ∷ fs) = add_name (pending_name (decode f)) (pending fs)

  unfoldable pub done : Bool → List Text → Text → List Text
  done removed dir name = if removed then remove_name (request_file name) dir else dir
