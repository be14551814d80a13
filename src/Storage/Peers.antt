-- ===== src/Storage/Peers.antt =====
-- internal/storage/peers.go: the pinned peers. A key is pinned to the name under which it was first
-- seen; the list stands in the order of the file.
pub mod Names
pub mod Pins
pub mod Kept
pub mod Named
pub mod Examples
use tarion.Base.{
  ℕ, Bool, true, false, not, ◌&&◌, Option, none, some, List, [], ◌∷◌, ◌++◌, if◌then◌else◌, found,
  Result, ok, err,
}
use tarion.Text.{Text, text, str_eq, is_empty}
use tarion.Text.Lower.{Unicode, equal_fold}
use tarion.Text.Search.{has_prefix}
use tarion.Storage.Held.{Held, HeldError, load_list, save_list}
use tarion.Storage.Peers.Names.{clean_name, short}

pub record Peer : Type 0 where
  pub id : Text
  pub name : Text
  pub addr : Text
  pub first_seen : ℕ
  pub last_seen : ℕ

-- An error of the file, or the IdentityMismatchError with its name and its two IDs.
pub data PeerError : Type 0 where
  file_error : HeldError → PeerError
  mismatch : Text → Text → Text → PeerError

-- storableAddr
unfoldable pub storable_addr : Text → Bool
storable_addr addr = not (is_empty addr) && not (has_prefix addr (text "relay:"))

-- The first peer that passes a test.
unfoldable pub find_peer : (Peer → Bool) → List Peer → Option Peer
find_peer p [] = none
find_peer p (x ∷ xs) = let rest = find_peer p xs in if p x then some x else rest

-- The list with the first peer that passes a test changed.
unfoldable pub change_peer : (Peer → Bool) → (Peer → Peer) → List Peer → List Peer
change_peer p f [] = []
change_peer p f (x ∷ xs) = let rest = change_peer p f xs in if p x then f x ∷ xs else x ∷ rest

-- The list without the first peer that passes a test.
unfoldable pub remove_peer : (Peer → Bool) → List Peer → List Peer
remove_peer p [] = []
remove_peer p (x ∷ xs) = let rest = remove_peer p xs in if p x then xs else x ∷ rest

abbrev pub has_id : Text → Peer → Bool
has_id id p = str_eq p.id id

abbrev pub has_name : Unicode → Text → Peer → Bool
has_name u name p = equal_fold u p.name name

abbrev found_in : Result HeldError (List Peer) → (Peer → Bool) → Option Peer
found_in (err e) p = none
found_in (ok ps) p = find_peer p ps

-- PeerByName and PeerByID
unfoldable pub peer_by_name : Unicode → Held (List Peer) → Text → Option Peer
peer_by_name u file name = found_in (load_list file) (has_name u name)

unfoldable pub peer_by_id : Unicode → Held (List Peer) → Text → Option Peer
peer_by_id u file id = found_in (load_list file) (λ p. equal_fold u p.id id)

-- A known key was seen.
abbrev pub seen_at : ℕ → Text → Peer → Peer
seen_at now addr p = record p {
  addr = if storable_addr addr then addr else p.addr;
  last_seen = now;
}

abbrev pub new_peer : Text → Text → Text → ℕ → Peer
new_peer id name addr now = record {
  id = id;
  name = name;
  addr = if storable_addr addr then addr else [];
  first_seen = now;
  last_seen = now;
}

-- The name for a new key.
unfoldable pub base_name : Unicode → Text → Text → Text
base_name u id claimed =
    let name = clean_name u claimed in if is_empty name then text "peer-" ++ short id else name

unfoldable pub new_name : Unicode → List Peer → Text → Text → Text
new_name u ps id claimed =
    let name = base_name u id claimed in
    if found (find_peer (has_name u name) ps) then name ++ (text "~" ++ short id) else name

resolve_found : Unicode → ℕ → List Peer → Text → Text → Text → Option Peer → Text × List Peer
resolve_found u now ps id claimed addr (some p) =
    (p.name, change_peer (has_id id) (seen_at now addr) ps)
resolve_found u now ps id claimed addr none =
    let name = new_name u ps id claimed in (name, ps ++ (new_peer id name addr now ∷ []))

-- The name and the list of ResolveIncoming.
unfoldable pub resolve_list : Unicode → ℕ → List Peer → Text → Text → Text → Text × List Peer
unfolding resolve_found
resolve_list u now ps id claimed addr =
    resolve_found u now ps id claimed addr (find_peer (has_id id) ps)

resolve_loaded :
    Unicode
    → ℕ
    → Option HeldError
    → Held (List Peer)
    → Text
    → Text
    → Text
    → Result HeldError (List Peer)
    → (Text × Option HeldError) × Held (List Peer)
resolve_loaded u now saved file id claimed addr (err e) = (([], some e), file)
resolve_loaded u now saved file id claimed addr (ok ps) =
    let r = resolve_list u now ps id claimed addr in
    let s = save_list saved file r.1 in ((r.0, s.1), s.0)

-- ResolveIncoming: the name and the error that it returns, and the file it leaves.
unfoldable pub resolve_incoming :
    Unicode
    → ℕ
    → Option HeldError
    → Held (List Peer)
    → Text
    → Text
    → Text
    → (Text × Option HeldError) × Held (List Peer)
unfolding resolve_loaded
resolve_incoming u now saved file id claimed addr =
    resolve_loaded u now saved file id claimed addr (load_list file)

abbrev renamed : ℕ → Text → Text → Peer → Peer
renamed now name addr p = record (seen_at now addr p) { name = name }

pin_new : ℕ → List Peer → Text → Text → Text → Option Peer → List Peer
pin_new now ps name id addr (some p) = change_peer (has_id id) (renamed now name addr) ps
pin_new now ps name id addr none = ps ++ (new_peer id name addr now ∷ [])

pin_found :
    Unicode → ℕ → List Peer → Text → Text → Text → Option Peer → Result PeerError (List Peer)
unfolding pin_new
pin_found u now ps name id addr (some p) =
    if str_eq p.id id
    then ok (change_peer (has_name u name) (seen_at now addr) ps)
    else err (mismatch name p.id id)
pin_found u now ps name id addr none = ok (pin_new now ps name id addr (find_peer (has_id id) ps))

-- The list of PinOutgoing.
unfoldable pub pin_list :
    Unicode → ℕ → List Peer → Text → Text → Text → Result PeerError (List Peer)
unfolding pin_found
pin_list u now ps name id addr = pin_found u now ps name id addr (find_peer (has_name u name) ps)

abbrev as_file_error : Option HeldError → Option PeerError
as_file_error none = none
as_file_error (some e) = some (file_error e)

pin_saved :
    Option HeldError
    → Held (List Peer)
    → Result PeerError (List Peer)
    → Option PeerError × Held (List Peer)
pin_saved saved file (err e) = (some e, file)
pin_saved saved file (ok ps) = let s = save_list saved file ps in (as_file_error s.1, s.0)

pin_loaded :
    Unicode
    → ℕ
    → Option HeldError
    → Held (List Peer)
    → Text
    → Text
    → Text
    → Result HeldError (List Peer)
    → Option PeerError × Held (List Peer)
unfolding pin_saved
pin_loaded u now saved file name id addr (err e) = (some (file_error e), file)
pin_loaded u now saved file name id addr (ok ps) =
    pin_saved saved file (pin_list u now ps name id addr)

-- PinOutgoing
unfoldable pub pin_outgoing :
    Unicode
    → ℕ
    → Option HeldError
    → Held (List Peer)
    → Text
    → Text
    → Text
    → Option PeerError × Held (List Peer)
unfolding pin_loaded
pin_outgoing u now saved file name id addr =
    pin_loaded u now saved file name id addr (load_list file)

forget_loaded :
    Unicode
    → Option HeldError
    → Held (List Peer)
    → Text
    → Result HeldError (List Peer)
    → (Bool × Option HeldError) × Held (List Peer)
forget_loaded u saved file name (err e) = ((false, some e), file)
forget_loaded u saved file name (ok ps) =
    let s = save_list saved file (remove_peer (has_name u name) ps) in
    if found (find_peer (has_name u name) ps) then ((true, s.1), s.0) else ((false, none), file)

-- ForgetPeer
unfoldable pub forget_peer :
    Unicode
    → Option HeldError
    → Held (List Peer)
    → Text
    → (Bool × Option HeldError) × Held (List Peer)
unfolding forget_loaded
forget_peer u saved file name = forget_loaded u saved file name (load_list file)
