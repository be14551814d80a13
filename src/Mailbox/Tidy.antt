-- ===== src/Mailbox/Tidy.antt =====
-- Tidy folders, where each letter stands in the file that its ID names, and what Ack does to them.
use tarion.Base.{
  ◌≡◌, refl, sym, ap, ◌∙◌, subst, inl, inr, Bool, true, false, not, ◌&&◌, ◌||◌, none, List, [], ◌∷◌,
  arith, if◌then◌else◌, Bool-cases, Option-cases, keep, All, append_right_cancel, keep-keep,
  keep-ext, keep_all,
}
use tarion.Base.Sort.{sort, keep-sort}
use tarion.Text.{Text, str_eq, str_eq_iff, str_eq_refl}
use tarion.Text.Lower.{Unicode}
use tarion.Dict.{get, put, delete, get-delete, get-put}
use tarion.Mailbox.{
  MailboxStore, StoredLetter, File, Folder, letter_file, read_letters, older, letter_json,
  json_suffix, user_dir, folder, letters, Disk, readable_files,
}
use tarion.Mailbox.Delivery.{goes, ack, ack_files, replace_folder, is_id}
use tarion.Mailbox.Order.{older-IsOrder}

abbrev pub IsNamed : Text → File → Type 0
IsNamed file (letter_file l) = (file ≡ letter_json l.id) × (is_id l.id ≡ true)
IsNamed file _ = Unit {0}

abbrev pub IsTidy : Folder → Type 0
IsTidy [] = Unit {0}
IsTidy ((file, f) ∷ fs) = IsNamed file f × (get fs file ≡ none) × IsTidy fs

letter_json_injective : (a b : Text) → letter_json a ≡ letter_json b → a ≡ b
letter_json_injective a b e = append_right_cancel a b json_suffix e

pub delete-IsTidy : (fs : Folder) (n : Text) → IsTidy fs → IsTidy (delete fs n)
unfolding delete
delete-IsTidy [] n t = tt
delete-IsTidy ((file, f) ∷ fs) n t = ground (arith, delete-IsTidy fs n t.2, get-delete fs n file)

pub put-IsTidy : (fs : Folder) (n : Text) (f : File) → IsNamed n f → IsTidy fs → IsTidy (put fs n f)
unfolding put
put-IsTidy fs n f h t = (h, ground (arith, get-delete fs n n, str_eq_refl n), delete-IsTidy fs n t)

read-delete :
    (fs : Folder) (id : Text)
    → IsTidy fs
    → read_letters (delete fs (letter_json id)) ≡ keep (λ l. not (str_eq l.id id)) (read_letters fs)
unfolding read_letters delete
read-delete [] id t = refl
read-delete ((file, letter_file l) ∷ fs) id t = ground (
  arith,
  t.0.0,
  read-delete fs id t.2,
  str_eq_iff file (letter_json id),
  str_eq_iff l.id id,
  letter_json_injective l.id id,
  ap letter_json,
)
read-delete ((file, _) ∷ fs) id t = ground (arith, read-delete fs id t.2)

-- Whether an acknowledgement with these IDs names a letter.
unfoldable pub acked : (Text → Bool) → List Text → Text → Bool
acked stuck [] id = false
acked stuck (i ∷ ids) id = goes stuck i && str_eq id i || acked stuck ids id

read-ack_one :
    (stuck : Text → Bool) (fs : Folder) (id : Text)
    → IsTidy fs
    → read_letters (if goes stuck id then delete fs (letter_json id) else fs)
      ≡ keep (λ l. not (goes stuck id && str_eq l.id id)) (read_letters fs)
read-ack_one stuck fs id t = elim (Bool-cases (goes stuck id)) [
  | inl e ↦ rw e (read-delete fs id t)
  | inr e ↦ rw e (sym (keep_all (read_letters fs)))
]

ack_one-IsTidy :
    (stuck : Text → Bool) (fs : Folder) (id : Text)
    → IsTidy fs
    → IsTidy (if goes stuck id then delete fs (letter_json id) else fs)
ack_one-IsTidy stuck fs id t = elim (Bool-cases (goes stuck id)) [
  | inl e ↦ rw e (delete-IsTidy fs (letter_json id) t)
  | inr e ↦ rw e t
]

not-acked :
    (stuck : Text → Bool) (id : Text) (ids : List Text) (ls : List StoredLetter)
    → All
        (λ l.
          (not (goes stuck id && str_eq l.id id) && not (acked stuck ids l.id))
          ≡ not (acked stuck (id ∷ ids) l.id))
        ls
unfolding acked
not-acked stuck id ids [] = tt
not-acked stuck id ids (l ∷ ls) = (ground arith, not-acked stuck id ids ls)

read-ack_files :
    (stuck : Text → Bool) (fs : Folder) (ids : List Text)
    → IsTidy fs
    → read_letters (ack_files stuck fs ids)
      ≡ keep (λ l. not (acked stuck ids l.id)) (read_letters fs)
unfolding ack_files
read-ack_files stuck fs [] t = unfold acked in sym (keep_all (read_letters fs))
read-ack_files stuck fs (id ∷ ids) t =
    read-ack_files stuck (if goes stuck id then delete fs (letter_json id) else fs) ids
      (ack_one-IsTidy stuck fs id t)
    ∙ ap (keep (λ l. not (acked stuck ids l.id))) (read-ack_one stuck fs id t)
    ∙ keep-keep (λ l. not (acked stuck ids l.id)) (λ l. not (goes stuck id && str_eq l.id id))
        (read_letters fs)
    ∙ keep-ext _ _ (read_letters fs) (not-acked stuck id ids (read_letters fs))

ack_files-nil : (stuck : Text → Bool) (ids : List Text) → ack_files stuck [] ids ≡ []
unfolding ack_files delete
ack_files-nil stuck [] = refl
ack_files-nil stuck (id ∷ ids) = ground (arith, ack_files-nil stuck ids)

-- Every file can be read, and every one can be removed.
abbrev pub AllRead : Disk → Type 0
AllRead d = (dir file : Text) → d.is_hidden dir file ≡ false

abbrev pub AllGo : Disk → Type 0
AllGo d = (dir file : Text) → d.is_stuck dir file ≡ false

pub seen_all :
    (hidden : Text → Bool) (fs : Folder)
    → ((file : Text) → hidden file ≡ false)
    → readable_files hidden fs ≡ fs
unfolding readable_files
seen_all hidden [] h = refl
seen_all hidden ((file, f) ∷ fs) h = rw (h file, seen_all hidden fs h) refl

module _ (u : Unicode) where
  -- Where every file can be read, the letters are those of the folder.
  pub letters_read :
      (m : MailboxStore) (name : Text)
      → AllRead m.disk
      → letters u m name ≡ sort older (read_letters (folder u m name))
  unfolding letters
  letters_read m name h =
      ap (λ fs. sort older (read_letters fs))
        (seen_all (m.disk.is_hidden (user_dir u name)) (folder u m name) (h (user_dir u name)))

  pub ack-disk :
      (m : MailboxStore) (name : Text) (ids : List Text) → (ack u m name ids).disk ≡ m.disk
  unfolding ack replace_folder
  ack-disk m name ids = ground arith

  folder-ack :
      (m : MailboxStore) (name : Text) (ids : List Text)
      → folder u (ack u m name ids) name
        ≡ ack_files (m.disk.is_stuck (user_dir u name)) (folder u m name) ids
  unfolding folder ack replace_folder
  folder-ack m name ids = elim (Option-cases (get m.users (user_dir u name))) [
    | inl e ↦ ground (arith, e, ack_files-nil (m.disk.is_stuck (user_dir u name)) ids)
    | inr (files, e) ↦ ground (
      arith,
      e,
      get-put m.users (user_dir u name) (user_dir u name)
          (ack_files (m.disk.is_stuck (user_dir u name)) files ids),
      str_eq_refl (user_dir u name),
    )
  ]

  -- Where every file can be read, Ack removes exactly the letters that it names by a well-formed ID and
  -- whose files go, and keeps the others in their order.
  pub letters-ack :
      (m : MailboxStore) (name : Text) (ids : List Text)
      → AllRead m.disk
      → IsTidy (folder u m name)
      → letters u (ack u m name ids) name
        ≡ keep (λ l. not (acked (m.disk.is_stuck (user_dir u name)) ids l.id)) (letters u m name)
  letters-ack m name ids h t =
      let stuck = m.disk.is_stuck (user_dir u name) in
      letters_read (ack u m name ids) name (subst AllRead (sym (ack-disk m name ids)) h)
      ∙ ap (λ fs. sort older (read_letters fs)) (folder-ack m name ids)
      ∙ ap (sort older) (read-ack_files stuck (folder u m name) ids t)
      ∙ sym (
          keep-sort older older-IsOrder (λ l. not (acked stuck ids l.id))
            (read_letters (folder u m name)))
      ∙ ap (keep (λ l. not (acked stuck ids l.id))) (sym (letters_read m name h))
