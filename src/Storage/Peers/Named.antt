-- ===== src/Storage/Peers/Named.antt =====
-- What an operation on the peers promises to its caller: the name of a key, and the key of a name.
use tarion.Base.{
  ℕ, ◌≡◌, refl, sym, ap, ◌∙◌, ◌≢◌, ◌⊎◌, inl, inr, Bool, true, Option, none, some, List, [], ◌∷◌,
  ◌++◌, arith, Bool-cases, Option-cases, Result, ok, err,
}
use mathlib.Core.Option
use tarion.Text.{Text, str_eq, str_eq_iff, str_eq_refl}
use tarion.Text.Lower.{Unicode}
use tarion.Storage.Held.{Held, HeldError, load_list, save_list}
use tarion.Storage.Peers.{
  Peer, PeerError, file_error, mismatch, find_peer, change_peer, has_id, has_name, seen_at,
  new_peer, peer_by_name, new_name, resolve_found, resolve_list, renamed, pin_new, pin_found,
  pin_list, pin_saved, pin_loaded, pin_outgoing,
}
use tarion.Storage.Peers.Pins.{FoldLaws, find_peer-append, find_peer-passes, none-some}
use tarion.Storage.Peers.Kept.{IsPinned}

module _ (p : Peer → Bool) (f : Peer → Peer) where
  -- The first peer that passes a test, after a change that keeps the test.
  find_peer-change_peer :
      (ps : List Peer) (x : Peer)
      → ((y : Peer) → p y ≡ true → p (f y) ≡ true)
      → find_peer p ps ≡ some x
      → find_peer p (change_peer p f ps) ≡ some (f x)
  unfolding find_peer change_peer
  find_peer-change_peer [] x hp h = cc
  find_peer-change_peer (y ∷ ys) x hp h = elim (Bool-cases (p y)) [
    | inl e ↦
        let same : ◌≡◌ {A = Option Peer} (some y) (some x) = rw e at h in
        rw (e, hp y e) (ap (λ o. Option.map f o) same)
    | inr e ↦ rw (e, e) (find_peer-change_peer ys x hp (rw e at h))
  ]

find_new :
    (p : Peer → Bool) (ps : List Peer) (x : Peer)
    → find_peer p ps ≡ none
    → p x ≡ true
    → find_peer p (ps ++ (x ∷ [])) ≡ some x
unfolding find_peer
find_new p ps x h e = find_peer-append p ps (x ∷ []) ∙ rw (h, e) refl

-- After a message with a key the key has the name that was returned.
resolve_list-named :
    (u : Unicode) (now : ℕ) (ps : List Peer) (id claimed addr : Text)
    → let r = resolve_list u now ps id claimed addr in
      (x : Peer) × ((find_peer (has_id id) r.1 ≡ some x) × (x.name ≡ r.0))
unfolding resolve_list resolve_found
resolve_list-named u now ps id claimed addr = elim (Option-cases (find_peer (has_id id) ps)) [
  | inl e ↦
      let x = new_peer id (new_name u ps id claimed) addr now in
      rw e (x, (find_new (has_id id) ps x e (str_eq_refl id), refl))
  | inr (p, e) ↦ rw e (
    seen_at now addr p,
    (find_peer-change_peer (has_id id) (seen_at now addr) ps p (λ y h. h) e, refl),
  )
]

resolve_known :
    (u : Unicode) (now : ℕ) (ps : List Peer) (id claimed addr : Text) (x : Peer)
    → find_peer (has_id id) ps ≡ some x
    → (resolve_list u now ps id claimed addr).0 ≡ x.name
unfolding resolve_list resolve_found
resolve_known u now ps id claimed addr x h = rw h refl

-- A message with a key gets the same name as the last one with that key, whatever name the sender claims
-- by then: in the list that ResolveIncoming saved, it returns the same name.
pub resolve_list-resolve_list :
    (u : Unicode) (ps : List Peer) (id : Text) (now now' : ℕ) (claimed claimed' addr addr' : Text)
    → (resolve_list u now' (resolve_list u now ps id claimed addr).1 id claimed' addr').0
      ≡ (resolve_list u now ps id claimed addr).0
resolve_list-resolve_list u ps id now now' claimed claimed' addr addr' =
    let (x, (hx, same)) = resolve_list-named u now ps id claimed addr in
    resolve_known u now' (resolve_list u now ps id claimed addr).1 id claimed' addr' x hx ∙ same

-- The first peer with a key, renamed to a name that nobody had.
renamed_found :
    (u : Unicode) (now : ℕ) (ps : List Peer) (name id addr : Text) (p : Peer)
    → FoldLaws u
    → find_peer (has_name u name) ps ≡ none
    → find_peer (has_id id) ps ≡ some p
    → find_peer (has_name u name) (change_peer (has_id id) (renamed now name addr) ps)
      ≡ some (renamed now name addr p)
unfolding find_peer change_peer
renamed_found u now [] name id addr p laws hn ho = cc
renamed_found u now (y ∷ ys) name id addr p laws hn ho = elim (Bool-cases (has_name u name y)) [
  | inl m ↦ absurd (none-some (sym (rw m at hn)))
  | inr m ↦ elim (Bool-cases (has_id id y)) [
    | inl e ↦
        rw (e, laws.fold_refl name) (ap (λ o. Option.map (renamed now name addr) o) (rw e at ho))
    | inr e ↦ rw (e, m) (renamed_found u now ys name id addr p laws (rw m at hn) (rw e at ho))
  ]
]

pin_new-found :
    (u : Unicode) (now : ℕ) (ps : List Peer) (name id addr : Text) (o : Option Peer)
    → FoldLaws u
    → find_peer (has_name u name) ps ≡ none
    → find_peer (has_id id) ps ≡ o
    → (x : Peer) × ((find_peer (has_name u name) (pin_new now ps name id addr o) ≡ some x)
        × (x.id ≡ id))
unfolding pin_new
pin_new-found u now ps name id addr none laws hn ho =
    let x = new_peer id name addr now in
    (x, (find_new (has_name u name) ps x hn (laws.fold_refl name), refl))
pin_new-found u now ps name id addr (some p) laws hn ho = (
  renamed now name addr p,
  (
    renamed_found u now ps name id addr p laws hn ho,
    (str_eq_iff p.id id).0 (find_peer-passes (has_id id) ps p ho),
  ),
)

-- The list that PinOutgoing makes has the name with the key, or the name had another key.
pin_list-outcome :
    (u : Unicode) (now : ℕ) (ps : List Peer) (name id addr : Text)
    → FoldLaws u
    → ((ps' : List Peer) × ((pin_list u now ps name id addr ≡ ok ps')
          × ((x : Peer) × ((find_peer (has_name u name) ps' ≡ some x) × (x.id ≡ id)))))
      ⊎ ((x : Peer) × ((pin_list u now ps name id addr ≡ err (mismatch name x.id id))
            × ((find_peer (has_name u name) ps ≡ some x) × (x.id ≢ id))))
unfolding pin_list pin_found
pin_list-outcome u now ps name id addr laws = elim (Option-cases (find_peer (has_name u name) ps)) [
  | inl e ↦ rw e (
      inl (
        pin_new now ps name id addr (find_peer (has_id id) ps),
        (refl, pin_new-found u now ps name id addr (find_peer (has_id id) ps) laws e refl),
      ))
  | inr (p, e) ↦ elim (Bool-cases (str_eq p.id id)) [
    | inl m ↦
        let seen = change_peer (has_name u name) (seen_at now addr) ps in
        let still = find_peer-change_peer (has_name u name) (seen_at now addr) ps p (λ y h. h) e in
        rw (e, m) (inl (seen, (refl, (seen_at now addr p, (still, (str_eq_iff p.id id).0 m)))))
    | inr m ↦
        let other : p.id ≢ id = λ same. absurd (ground (arith, (str_eq_iff p.id id).1 same, m)) in
        rw (e, m) (inr (p, (refl, (refl, other))))
  ]
]

abbrev Pinning : Type 0
Pinning = Option PeerError × Held (List Peer)

-- The name is pinned to the key and there is no error.
abbrev pub IsNowPinned : Unicode → Text → Text → Pinning → Type 0
IsNowPinned u name id r = (r.0 ≡ none) × IsPinned u r.1 name id

-- The name is pinned to another key, which the error names; nothing was written.
abbrev pub IsRefused : Unicode → Held (List Peer) → Text → Text → Pinning → Type 0
IsRefused u file name id r =
    (x : Peer) × ((peer_by_name u file name ≡ some x)
      × ((x.id ≢ id) × ((r.0 ≡ some (mismatch name x.id id)) × (r.1 ≡ file))))

-- The file could not be read or written, and is as it was.
abbrev pub IsFailed : Option HeldError → Held (List Peer) → Pinning → Type 0
IsFailed saved file r =
    (e : HeldError) × (((load_list file ≡ err e) ⊎ (saved ≡ some e))
      × ((r.0 ≡ some (file_error e)) × (r.1 ≡ file)))

pin_saved-outcome :
    (u : Unicode) (saved : Option HeldError) (file : Held (List Peer)) (ps : List Peer)
    (name id : Text)
    → ((x : Peer) × ((find_peer (has_name u name) ps ≡ some x) × (x.id ≡ id)))
    → IsNowPinned u name id (pin_saved saved file (ok ps))
      ⊎ IsFailed saved file (pin_saved saved file (ok ps))
unfolding pin_saved save_list peer_by_name load_list
pin_saved-outcome u none file ps name id h = inl (refl, h)
pin_saved-outcome u (some e) file ps name id h = inr (e, (inr refl, (refl, refl)))

refused :
    (saved : Option HeldError) (file : Held (List Peer)) (name old id : Text)
    → ((pin_saved saved file (err (mismatch name old id))).0 ≡ some (mismatch name old id))
      × ((pin_saved saved file (err (mismatch name old id))).1 ≡ file)
unfolding pin_saved
refused saved file name old id = (refl, refl)

pin_loaded-outcome :
    (u : Unicode) (now : ℕ) (saved : Option HeldError) (file : Held (List Peer))
    (name id addr : Text) (r : Result HeldError (List Peer))
    → FoldLaws u
    → load_list file ≡ r
    → let o = pin_loaded u now saved file name id addr r in
      IsNowPinned u name id o ⊎ (IsRefused u file name id o ⊎ IsFailed saved file o)
unfolding pin_loaded peer_by_name
pin_loaded-outcome u now saved file name id addr (err e) laws hr =
    inr (inr (e, (inl hr, (refl, refl))))
pin_loaded-outcome u now saved file name id addr (ok ps) laws hr =
    elim (pin_list-outcome u now ps name id addr laws) [
      | inl (ps', (e, there)) ↦ rw e (elim (pin_saved-outcome u saved file ps' name id there) [
        | inl h ↦ inl h
        | inr h ↦ inr (inr h)
      ])
      | inr (x, (e, (there, other))) ↦
          rw e (inr (inl (x, (rw hr there, (other, refused saved file name x.id id)))))
    ]

-- Where names that are equal up to case form classes, PinOutgoing has one of three outcomes: the
-- name is pinned to the key and there is no error; the name is pinned to another key, and the error
-- names both keys and nothing is written; or reading or writing the file failed, the error is that
-- of the file, and the file is as it was.
pub pin_outgoing-outcome :
    (u : Unicode) (now : ℕ) (saved : Option HeldError) (file : Held (List Peer))
    (name id addr : Text)
    → FoldLaws u
    → let o = pin_outgoing u now saved file name id addr in
      IsNowPinned u name id o ⊎ (IsRefused u file name id o ⊎ IsFailed saved file o)
unfolding pin_outgoing
pin_outgoing-outcome u now saved file name id addr laws =
    pin_loaded-outcome u now saved file name id addr (load_list file) laws refl
