-- ===== src/Mailbox/Progress.antt =====
-- A batch that is acknowledged is gone, and what is left is what Fetch had left.
use tarion.Base.{
  ◌≡◌, refl, sym, ap, ◌∙◌, subst, inl, inr, Bool, true, false, not, none, List, [], ◌∷◌, ◌++◌, map,
  arith, Bool-cases, keep, All, keep-append, keep_none, keep_same, All-right, All-left, All-map,
  All-zip,
}
use tarion.Base.Sort.{sort, insert, All-sort, All-insert, All-keep}
use tarion.Text.{Text, str_eq, str_eq_iff, str_eq_refl}
use tarion.Text.Lower.{Unicode}
use tarion.Dict.{get}
use tarion.Mailbox.{
  MailboxStore, StoredLetter, Folder, letter_file, letters, folder, older, read_letters,
  letter_json, user_dir,
}
use tarion.Mailbox.Delivery.{is_id, ack}
use tarion.Mailbox.Tidy.{IsTidy, acked, AllRead, AllGo, letters_read, letters-ack}
use tarion.Mailbox.Batches.{sealed_to, fetch-IsBatch}

-- No two letters share an ID, and each ID is well formed.
abbrev pub Distinct : List StoredLetter → Type 0
Distinct [] = Unit {0}
Distinct (l ∷ ls) = All (λ x. str_eq x.id l.id ≡ false) ls × Distinct ls

abbrev pub WellFormed : List StoredLetter → Type 0
WellFormed ls = All (λ l. is_id l.id ≡ true) ls

-- The IDs that a client acknowledges after it received these letters.
abbrev pub ids : List StoredLetter → List Text
ids = map (λ l. l.id)

str_eq_sym : (a b : Text) → str_eq a b ≡ str_eq b a
str_eq_sym a b = ground (arith, str_eq_iff a b, str_eq_iff b a)

read-absent :
    (fs : Folder) (id : Text)
    → IsTidy fs
    → get fs (letter_json id) ≡ none
    → All (λ l. str_eq l.id id ≡ false) (read_letters fs)
unfolding read_letters get
read-absent [] id t h = tt
read-absent ((file, letter_file l) ∷ fs) id t h = ground (
  arith,
  t.0.0,
  str_eq_iff file (letter_json id),
  str_eq_iff l.id id,
  ap letter_json,
  read-absent fs id t.2,
)
read-absent ((file, f) ∷ fs) id t h = read-absent fs id t.2 (ground (arith, h))

read-Distinct : (fs : Folder) → IsTidy fs → Distinct (read_letters fs)
unfolding read_letters
read-Distinct [] t = tt
read-Distinct ((file, letter_file l) ∷ fs) t =
    ground (
      arith,
      read-absent fs l.id t.2 (subst (λ f. get fs f ≡ none) t.0.0 t.1),
      read-Distinct fs t.2,
    )
read-Distinct ((file, f) ∷ fs) t = read-Distinct fs t.2

insert-Distinct :
    (l : StoredLetter) (ls : List StoredLetter)
    → All (λ x. str_eq x.id l.id ≡ false) ls
    → Distinct ls
    → Distinct (insert older l ls)
unfolding insert
insert-Distinct l [] h d = (tt, tt)
insert-Distinct l (x ∷ ls) h d = elim (Bool-cases (older x l)) [
  | inl e ↦ rw e (
    All-insert older (λ y. str_eq y.id x.id ≡ false) l ls (str_eq_sym l.id x.id ∙ h.0) d.0,
    insert-Distinct l ls h.1 d.1,
  )
  | inr e ↦ rw e (h, d)
]

sort-Distinct : (ls : List StoredLetter) → Distinct ls → Distinct (sort older ls)
unfolding sort
sort-Distinct [] d = tt
sort-Distinct (l ∷ ls) d =
    insert-Distinct l (sort older ls) (All-sort older _ ls d.0) (sort-Distinct ls d.1)

keep-Distinct :
    (p : StoredLetter → Bool) (ls : List StoredLetter) → Distinct ls → Distinct (keep p ls)
keep-Distinct p [] d = tt
keep-Distinct p (l ∷ ls) d =
    ground (arith, All-keep older (λ x. str_eq x.id l.id ≡ false) p ls d.0, keep-Distinct p ls d.1)

acked_taken :
    (stuck : Text → Bool) (ls : List StoredLetter)
    → ((file : Text) → stuck file ≡ false)
    → WellFormed ls
    → All (λ l. acked stuck (ids ls) l.id ≡ true) ls
unfolding acked
acked_taken stuck [] g w = tt
acked_taken stuck (l ∷ ls) g w = (
  ground (arith, w.0, g (letter_json l.id), str_eq_refl l.id),
  All-map _ _ ls (λ x h. ground (arith, h)) (acked_taken stuck ls g w.1),
)

acked_rest :
    (stuck : Text → Bool) (ls rest : List StoredLetter)
    → Distinct (ls ++ rest)
    → All (λ l. acked stuck (ids ls) l.id ≡ false) rest
unfolding acked
acked_rest stuck [] [] d = tt
acked_rest stuck [] (r ∷ rest) d = (refl, acked_rest stuck [] rest d.1)
acked_rest stuck (l ∷ ls) rest d =
    All-zip _ _ _ rest (λ x h k. ground (arith, h, k)) (All-right _ ls rest d.0)
      (acked_rest stuck ls rest d.1)

keep_rest :
    (stuck : Text → Bool) (ls rest : List StoredLetter)
    → ((file : Text) → stuck file ≡ false)
    → Distinct (ls ++ rest)
    → WellFormed ls
    → keep (λ l. not (acked stuck (ids ls) l.id)) (ls ++ rest) ≡ rest
keep_rest stuck ls rest g d w = ground (
  arith,
  keep-append (λ l. not (acked stuck (ids ls) l.id)) ls rest,
  keep_none (λ l. not (acked stuck (ids ls) l.id)) ls
      (All-map _ _ ls (λ x h. ground (arith, h)) (acked_taken stuck ls g w)),
  keep_same (λ l. not (acked stuck (ids ls) l.id)) rest
      (All-map _ _ rest (λ x h. ground (arith, h)) (acked_rest stuck ls rest d)),
)

keep_comm :
    (p q : StoredLetter → Bool) (ls : List StoredLetter) → keep p (keep q ls) ≡ keep q (keep p ls)
keep_comm p q [] = refl
keep_comm p q (l ∷ ls) = ground (arith, keep_comm p q ls)

module _ (u : Unicode) (m : MailboxStore) (name : Text) where
  letters-Distinct : AllRead m.disk → IsTidy (folder u m name) → Distinct (letters u m name)
  letters-Distinct reads t =
      subst Distinct (sym (letters_read u m name reads))
        (sort-Distinct (read_letters (folder u m name)) (read-Distinct (folder u m name) t))

  -- In a tidy folder with well-formed IDs, where every file can be read and removed: after the letters that a Fetch handed out are acknowledged,
  -- what waits for the device is what that Fetch had left.
  pub fetch-ack :
      (peer_id : Text)
      → AllRead m.disk
      → AllGo m.disk
      → IsTidy (folder u m name)
      → WellFormed (letters u m name)
      → let b = fetch-IsBatch u m name peer_id in
        sealed_to peer_id (letters u (ack u m name (ids b.taken)) name) ≡ b.rest
  fetch-ack peer_id reads go t w =
      let dir = user_dir u name in
      let stuck = m.disk.is_stuck dir in
      let b = fetch-IsBatch u m name peer_id in
      let p : StoredLetter → Bool = λ l. not (acked stuck (ids b.taken) l.id) in
      ap (sealed_to peer_id) (letters-ack u m name (ids b.taken) reads t)
      ∙ keep_comm (λ l. str_eq l.peer_id peer_id) p (letters u m name)
      ∙ ap (keep p) b.split
      ∙ keep_rest stuck b.taken b.rest (go dir)
          (subst Distinct b.split (keep-Distinct _ _ (letters-Distinct reads t)))
          (All-left _ b.taken b.rest
            (subst WellFormed b.split (All-keep older _ (λ l. str_eq l.peer_id peer_id) _ w)))
