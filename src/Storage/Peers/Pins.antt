-- ===== src/Storage/Peers/Pins.antt =====
-- Which key a name is pinned to, and what each change of the list of peers does to that.
use tarion.Base.{
  ℕ, ◌≡◌, refl, sym, ap, ◌∙◌, subst, ◌≢◌, ◌⊎◌, inl, inr, Bool, true, false, Option, none, some,
  List, [], ◌∷◌, ◌++◌, arith, if◌then◌else◌, Bool-cases, Option-cases, found, Result, ok, err,
  ok-injective,
}
use tarion.Text.{Text, str_eq, str_eq_iff}
use tarion.Text.Lower.{Unicode, equal_fold}
use tarion.Storage.Peers.{
  Peer, PeerError, find_peer, change_peer, remove_peer, has_id, has_name, seen_at, new_peer,
  new_name, resolve_found, resolve_list, renamed, pin_new, pin_found, pin_list,
}

-- Names that are equal up to case form classes.
pub record FoldLaws (u : Unicode) : Type 0 where
  pub fold_refl : (a : Text) → equal_fold u a a ≡ true
  pub fold_sym : (a b : Text) → equal_fold u a b ≡ true → equal_fold u b a ≡ true
  pub fold_trans :
      (a b c : Text) → equal_fold u a b ≡ true → equal_fold u b c ≡ true → equal_fold u a c ≡ true

-- A list finds a peer with this key by this test.
abbrev pub Finds : (Peer → Bool) → List Peer → Text → Type 0
Finds p ps id = (x : Peer) × ((find_peer p ps ≡ some x) × (x.id ≡ id))

abbrev pub IsPinnedIn : Unicode → List Peer → Text → Text → Type 0
IsPinnedIn u ps name id = Finds (has_name u name) ps id

pub some_eq : (x y : Peer) → ◌≡◌ {A = Option Peer} (some x) (some y) → x ≡ y
some_eq x y h = cc

pub none-some : {x : Peer} → ◌≡◌ {A = Option Peer} none (some x) → ⊥
none-some h = cc

err_ok :
    {e : PeerError} {ps : List Peer} → ◌≡◌ {A = Result PeerError (List Peer)} (err e) (ok ps) → ⊥
err_ok h = cc

pub find_peer-passes :
    (p : Peer → Bool) (ps : List Peer) (x : Peer) → find_peer p ps ≡ some x → p x ≡ true
unfolding find_peer
find_peer-passes p [] x h = cc
find_peer-passes p (y ∷ ys) x h = elim (Bool-cases (p y)) [
  | inl e ↦ subst (λ z. p z ≡ true) (some_eq y x (rw e at h)) e
  | inr e ↦ find_peer-passes p ys x (rw e at h)
]

pub find_peer-append :
    (p : Peer → Bool) (ps qs : List Peer)
    → find_peer p (ps ++ qs) ≡ (if found (find_peer p ps) then find_peer p ps else find_peer p qs)
unfolding find_peer
find_peer-append p [] qs = refl
find_peer-append p (y ∷ ys) qs = elim (Bool-cases (p y)) [
  | inl e ↦ rw e refl
  | inr e ↦ rw e (find_peer-append p ys qs)
]

append-Finds :
    (p : Peer → Bool) (ps qs : List Peer) (id : Text) → Finds p ps id → Finds p (ps ++ qs) id
append-Finds p ps qs id (x, (h, i)) = (x, (find_peer-append p ps qs ∙ rw h refl, i))

-- A change that neither the test nor the key sees.
change-Finds :
    (p q : Peer → Bool) (f : Peer → Peer) (ps : List Peer) (id : Text)
    → ((x : Peer) → p (f x) ≡ p x)
    → ((x : Peer) → (f x).id ≡ x.id)
    → Finds p ps id
    → Finds p (change_peer q f ps) id
unfolding find_peer change_peer
change-Finds p q f [] id hp hi (x, (h, i)) = cc
change-Finds p q f (y ∷ ys) id hp hi (x, (h, i)) = elim (Bool-cases (q y)) [
  | inl e ↦ rw e (elim (Bool-cases (p y)) [
    | inl m ↦ (f y, (rw (hp y, m) refl, hi y ∙ ap (λ z. z.id) (some_eq y x (rw m at h)) ∙ i))
    | inr m ↦ (x, (rw (hp y, m) (rw m at h), i))
  ])
  | inr e ↦ rw e (elim (Bool-cases (p y)) [
    | inl m ↦ (x, (rw m (rw m at h), i))
    | inr m ↦ rw m (change-Finds p q f ys id hp hi (x, (rw m at h, i)))
  ])
]

-- A change of the first peer with another key, after which that peer does not pass the test.
change_other-Finds :
    (p q : Peer → Bool) (f : Peer → Peer) (ps : List Peer) (id : Text)
    → ((x : Peer) → p (f x) ≡ false)
    → ((x : Peer) → q x ≡ true → x.id ≢ id)
    → Finds p ps id
    → Finds p (change_peer q f ps) id
unfolding find_peer change_peer
change_other-Finds p q f [] id hp hq (x, (h, i)) = cc
change_other-Finds p q f (y ∷ ys) id hp hq (x, (h, i)) = elim (Bool-cases (q y)) [
  | inl e ↦ rw e (elim (Bool-cases (p y)) [
    | inl m ↦ absurd (hq y e (ap (λ z. z.id) (some_eq y x (rw m at h)) ∙ i))
    | inr m ↦ (x, (rw (hp y) (rw m at h), i))
  ])
  | inr e ↦ rw e (elim (Bool-cases (p y)) [
    | inl m ↦ (x, (rw m (rw m at h), i))
    | inr m ↦ rw m (change_other-Finds p q f ys id hp hq (x, (rw m at h, i)))
  ])
]

-- The removal of the first peer that passes a test which excludes the other.
remove-Finds :
    (p q : Peer → Bool) (ps : List Peer) (id : Text)
    → ((x : Peer) → q x ≡ true → p x ≡ false)
    → Finds p ps id
    → Finds p (remove_peer q ps) id
unfolding find_peer remove_peer
remove-Finds p q [] id hq (x, (h, i)) = cc
remove-Finds p q (y ∷ ys) id hq (x, (h, i)) = elim (Bool-cases (q y)) [
  | inl e ↦ rw e (x, (rw (hq y e) at h, i))
  | inr e ↦ rw e (elim (Bool-cases (p y)) [
    | inl m ↦ (x, (rw m (rw m at h), i))
    | inr m ↦ rw m (remove-Finds p q ys id hq (x, (rw m at h, i)))
  ])
]

-- The test of a name stays as it is when a peer was seen.
pub resolve_list-IsPinnedIn :
    (u : Unicode) (now : ℕ) (ps : List Peer) (name key id claimed addr : Text)
    → IsPinnedIn u ps name key
    → IsPinnedIn u (resolve_list u now ps id claimed addr).1 name key
unfolding resolve_list resolve_found
resolve_list-IsPinnedIn u now ps name key id claimed addr h =
    elim (Option-cases (find_peer (has_id id) ps)) [
      | inl e ↦ rw e (
          append-Finds (has_name u name) ps (new_peer id (new_name u ps id claimed) addr now ∷ [])
            key h)
      | inr (p, e) ↦ rw e (
          change-Finds (has_name u name) (has_id id) (seen_at now addr) ps key (λ x. refl)
            (λ x. refl) h)
    ]

pub remove_peer-IsPinnedIn :
    (u : Unicode) (ps : List Peer) (name key other : Text)
    → FoldLaws u
    → equal_fold u other name ≡ false
    → IsPinnedIn u ps name key
    → IsPinnedIn u (remove_peer (has_name u other) ps) name key
remove_peer-IsPinnedIn u ps name key other laws ne h =
    let apart : (x : Peer) → has_name u other x ≡ true → has_name u name x ≡ false = λ x m.
      elim (Bool-cases (has_name u name x)) [
        | inl e ↦
            let joined = laws.fold_trans other x.name name (laws.fold_sym x.name other m) e in
            absurd (ground (arith, joined, ne))
        | inr e ↦ e
      ] in
    remove-Finds (has_name u name) (has_name u other) ps key apart h

-- Two names that are equal up to case find the same peer.
find_peer-fold :
    (u : Unicode) (ps : List Peer) (a b : Text)
    → FoldLaws u
    → equal_fold u a b ≡ true
    → find_peer (has_name u a) ps ≡ find_peer (has_name u b) ps
unfolding find_peer
find_peer-fold u [] a b laws h = refl
find_peer-fold u (x ∷ ps) a b laws h =
    let same : has_name u a x ≡ has_name u b x = elim (Bool-cases (has_name u a x)) [
      | inl e ↦ e ∙ sym (laws.fold_trans x.name a b e h)
      | inr e ↦ elim (Bool-cases (has_name u b x)) [
        | inl k ↦ absurd (ground (arith, e, laws.fold_trans x.name b a k (laws.fold_sym a b h)))
        | inr k ↦ e ∙ sym k
      ]
    ] in
    rw (same, find_peer-fold u ps a b laws h) refl

-- Pinning a key to a name leaves a pin of another name to another key, and of the same name.
pin_new-IsPinnedIn :
    (u : Unicode) (now : ℕ) (ps : List Peer) (other id addr name key : Text) (o : Option Peer)
    → FoldLaws u
    → find_peer (has_name u other) ps ≡ none
    → (str_eq id key ≡ false) ⊎ (equal_fold u other name ≡ true)
    → IsPinnedIn u ps name key
    → IsPinnedIn u (pin_new now ps other id addr o) name key
unfolding pin_new
pin_new-IsPinnedIn u now ps other id addr name key none laws hn c h =
    append-Finds (has_name u name) ps (new_peer id other addr now ∷ []) key h
pin_new-IsPinnedIn u now ps other id addr name key (some p) laws hn c h =
    elim (Bool-cases (equal_fold u other name)) [
      | inl e ↦
          let same = find_peer-fold u ps other name laws e in
          absurd (none-some (sym hn ∙ same ∙ h.1.0))
      | inr e ↦ elim c [
        | inr t ↦ absurd (ground (arith, t, e))
        | inl k ↦
            change_other-Finds (has_name u name) (has_id id) (renamed now other addr) ps key
              (λ x. e)
              (λ x q i.
                let is : str_eq id key ≡ true =
                  (str_eq_iff id key).1 (sym ((str_eq_iff x.id id).0 q) ∙ i) in
                absurd (ground (arith, is, k)))
              h
      ]
    ]

pub pin_list-IsPinnedIn :
    (u : Unicode) (now : ℕ) (ps ps' : List Peer) (other id addr name key : Text)
    → FoldLaws u
    → (str_eq id key ≡ false) ⊎ (equal_fold u other name ≡ true)
    → pin_list u now ps other id addr ≡ ok ps'
    → IsPinnedIn u ps name key
    → IsPinnedIn u ps' name key
unfolding pin_list pin_found
pin_list-IsPinnedIn u now ps ps' other id addr name key laws c h pinned =
    elim (Option-cases (find_peer (has_name u other) ps)) [
      | inl e ↦
          subst (λ z. IsPinnedIn u z name key) (ok-injective (rw e at h))
            (pin_new-IsPinnedIn u now ps other id addr name key (find_peer (has_id id) ps) laws e c
              pinned)
      | inr (p, e) ↦ elim (Bool-cases (str_eq p.id id)) [
        | inl m ↦
            subst (λ z. IsPinnedIn u z name key) (ok-injective (rw (e, m) at h))
              (change-Finds (has_name u name) (has_name u other) (seen_at now addr) ps key
                (λ x. refl) (λ x. refl) pinned)
        | inr m ↦ absurd (err_ok (rw (e, m) at h))
      ]
    ]
