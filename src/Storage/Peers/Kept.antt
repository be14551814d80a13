-- ===== src/Storage/Peers/Kept.antt =====
-- A pin over any history of messages that arrive, contacts that are written to, and names that are
-- forgotten.
use tarion.Base.{
  ℕ, ◌≡◌, refl, ◌⊎◌, inl, inr, Bool, true, false, not, ◌||◌, Option, none, some, List, [], ◌∷◌,
  arith, Bool-cases, found, all_by, Result, ok, err,
}
use tarion.Text.{Text, str_eq}
use tarion.Text.Lower.{Unicode, equal_fold}
use tarion.Storage.Held.{Held, HeldError, load_list, save_list}
use tarion.Storage.Peers.{
  Peer, PeerError, find_peer, remove_peer, has_name, peer_by_name, resolve_list, resolve_loaded,
  resolve_incoming, pin_list, pin_saved, pin_loaded, pin_outgoing, forget_loaded, forget_peer,
}
use tarion.Storage.Peers.Pins.{
  FoldLaws, IsPinnedIn, resolve_list-IsPinnedIn, pin_list-IsPinnedIn, remove_peer-IsPinnedIn,
}

-- An operation, with its time, and the error that saving gives.
pub data Action : Type 0 where
  incoming : ℕ → Option HeldError → Text → Text → Text → Action
  outgoing : ℕ → Option HeldError → Text → Text → Text → Action
  forgotten : Option HeldError → Text → Action

unfoldable pub after : Unicode → Held (List Peer) → Action → Held (List Peer)
after u file (incoming now saved id claimed addr) =
    (resolve_incoming u now saved file id claimed addr).1
after u file (outgoing now saved name id addr) = (pin_outgoing u now saved file name id addr).1
after u file (forgotten saved name) = (forget_peer u saved file name).1

unfoldable pub run : Unicode → Held (List Peer) → List Action → Held (List Peer)
run u file [] = file
run u file (a ∷ as') = run u (after u file a) as'

-- The action neither forgets the name nor pins the key to another name.
unfoldable pub leaves : Unicode → Text → Text → Action → Bool
leaves u name key (incoming now saved id claimed addr) = true
leaves u name key (outgoing now saved other id addr) =
    not (str_eq id key) || equal_fold u other name
leaves u name key (forgotten saved other) = not (equal_fold u other name)

-- PeerByName finds a peer with this key.
abbrev pub IsPinned : Unicode → Held (List Peer) → Text → Text → Type 0
IsPinned u file name key = (x : Peer) × ((peer_by_name u file name ≡ some x) × (x.id ≡ key))

saved_list :
    (u : Unicode) (saved : Option HeldError) (file : Held (List Peer)) (ps : List Peer)
    (name key : Text)
    → IsPinned u file name key
    → IsPinnedIn u ps name key
    → IsPinned u (save_list saved file ps).0 name key
unfolding save_list peer_by_name load_list
saved_list u none file ps name key old new = new
saved_list u (some e) file ps name key old new = old

saved_pin :
    (u : Unicode) (saved : Option HeldError) (file : Held (List Peer))
    (r : Result PeerError (List Peer)) (name key : Text)
    → IsPinned u file name key
    → ((ps : List Peer) → r ≡ ok ps → IsPinnedIn u ps name key)
    → IsPinned u (pin_saved saved file r).1 name key
unfolding pin_saved
saved_pin u saved file (err e) name key old new = old
saved_pin u saved file (ok ps) name key old new =
    saved_list u saved file ps name key old (new ps refl)

incoming_keeps :
    (u : Unicode) (now : ℕ) (saved : Option HeldError) (file : Held (List Peer))
    (id claimed addr name key : Text) (r : Result HeldError (List Peer))
    → load_list file ≡ r
    → IsPinned u file name key
    → IsPinned u (resolve_loaded u now saved file id claimed addr r).1 name key
unfolding resolve_loaded peer_by_name
incoming_keeps u now saved file id claimed addr name key (err e) hr h = h
incoming_keeps u now saved file id claimed addr name key (ok ps) hr h =
    saved_list u saved file (resolve_list u now ps id claimed addr).1 name key h
      (resolve_list-IsPinnedIn u now ps name key id claimed addr (rw hr at h))

outgoing_keeps :
    (u : Unicode) (now : ℕ) (saved : Option HeldError) (file : Held (List Peer))
    (other id addr name key : Text) (r : Result HeldError (List Peer))
    → FoldLaws u
    → (str_eq id key ≡ false) ⊎ (equal_fold u other name ≡ true)
    → load_list file ≡ r
    → IsPinned u file name key
    → IsPinned u (pin_loaded u now saved file other id addr r).1 name key
unfolding pin_loaded peer_by_name
outgoing_keeps u now saved file other id addr name key (err e) laws c hr h = h
outgoing_keeps u now saved file other id addr name key (ok ps) laws c hr h =
    saved_pin u saved file (pin_list u now ps other id addr) name key h
      (λ ps' hp. pin_list-IsPinnedIn u now ps ps' other id addr name key laws c hp (rw hr at h))

forgotten_keeps :
    (u : Unicode) (saved : Option HeldError) (file : Held (List Peer)) (other name key : Text)
    (r : Result HeldError (List Peer))
    → FoldLaws u
    → equal_fold u other name ≡ false
    → load_list file ≡ r
    → IsPinned u file name key
    → IsPinned u (forget_loaded u saved file other r).1 name key
unfolding forget_loaded peer_by_name
forgotten_keeps u saved file other name key (err e) laws ne hr h = h
forgotten_keeps u saved file other name key (ok ps) laws ne hr h =
    elim (Bool-cases (found (find_peer (has_name u other) ps))) [
      | inl e ↦ rw e (
          saved_list u saved file (remove_peer (has_name u other) ps) name key h
            (remove_peer-IsPinnedIn u ps name key other laws ne (rw hr at h)))
      | inr e ↦ rw e h
    ]

after-IsPinned :
    (u : Unicode) (file : Held (List Peer)) (a : Action) (name key : Text)
    → FoldLaws u
    → leaves u name key a ≡ true
    → IsPinned u file name key
    → IsPinned u (after u file a) name key
unfolding after leaves resolve_incoming pin_outgoing forget_peer
after-IsPinned u file (incoming now saved id claimed addr) name key laws l h =
    incoming_keeps u now saved file id claimed addr name key (load_list file) refl h
after-IsPinned u file (outgoing now saved other id addr) name key laws l h =
    let c : (str_eq id key ≡ false) ⊎ (equal_fold u other name ≡ true) = ground (arith, l) in
    outgoing_keeps u now saved file other id addr name key (load_list file) laws c refl h
after-IsPinned u file (forgotten saved other) name key laws l h =
    forgotten_keeps u saved file other name key (load_list file) laws (ground (arith, l)) refl h

-- If a name is pinned to a key, and names that are equal up to case form classes, then after any
-- messages that arrive, contacts that are written to and names that are forgotten, whatever fails
-- on the way, the name is pinned to that key, unless one of them forgets the name or pins the key
-- to another name.
pub run-IsPinned :
    (u : Unicode) (actions : List Action) (file : Held (List Peer)) (name key : Text)
    → FoldLaws u
    → all_by (leaves u name key) actions ≡ true
    → IsPinned u file name key
    → IsPinned u (run u file actions) name key
unfolding run
run-IsPinned u [] file name key laws l h = h
run-IsPinned u (a ∷ as') file name key laws l h =
    run-IsPinned u as' (after u file a) name key laws (ground (arith, l))
      (after-IsPinned u file a name key laws (ground (arith, l)) h)
