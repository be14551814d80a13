-- ===== src/Mailbox/Folders.antt =====
-- The operations of the mailbox, and a predicate on folders that they keep: one rule for each
-- operation, from what a removal and a write of one file do.
use tarion.Base.{
  ℕ, ◌≡◌, refl, inl, inr, Bool, true, false, Option, none, some, List, [], ◌∷◌, if◌then◌else◌,
  Bool-cases, Option-cases, length, Result, ok, err,
}
use tarion.Text.{Text, str_eq}
use tarion.Text.Lower.{Unicode}
use tarion.Text.Hex.{decode, encode}
use tarion.Dict.{Dict, get, put, delete, get-put, get-delete}
use tarion.Mailbox.{
  MailboxStore, StoredLetter, BoxRecord, MailError, File, Folder, letter_file, key_file, or_empty,
  letter_json, new_letter, key_json, user_dir, folder, letters, set_key, remove, is_over,
  store_letter, write_letter, put_drawn, put_checked, put_letter, key,
}
use tarion.Mailbox.Delivery.{goes, ack, ack_files, replace_folder}
use tarion.Mailbox.Expiry.{
  expire, expire_users, expire_letters, expire_one, expire_dir, remove_file, is_expired,
}

module _ (u : Unicode) (P : Folder → Type 0) (P-nil : P [])
    (P-delete : (files : Folder) (n : Text) → P files → P (delete files n)) where
  abbrev pub Everywhere : MailboxStore → Type 0
  Everywhere m = (dir : Text) → P (or_empty (get m.users dir))

  P-if : (b : Bool) (files files' : Folder) → P files → P files' → P (if b then files else files')
  P-if true files files' f f' = f
  P-if false files files' f f' = f'

  -- Writing one folder touches no other.
  write_folder :
      (m : MailboxStore) (dir : Text) (files : Folder)
      → P files
      → Everywhere m
      → Everywhere (record m { users = put m.users dir files })
  write_folder m dir files f w d =
      rw (get-put m.users dir d files)
        (elim (str_eq dir d) as (λ b. P (or_empty (if b then some files else get m.users d))) [
          | true ↦ f
          | false ↦ w d
        ])

  pub remove-Everywhere :
      (removed : Bool) (m : MailboxStore) (name : Text)
      → Everywhere m
      → Everywhere (remove u removed m name).1
  unfolding remove
  remove-Everywhere false m name w = w
  remove-Everywhere true m name w = λ d.
      rw (get-delete m.users (user_dir u name) d)
        (elim (str_eq (user_dir u name) d)
          as (λ b. P (or_empty (if b then none else get m.users d))) [ true ↦ P-nil | false ↦ w d ])

  pub set_key-Everywhere :
      (written : Bool) (m : MailboxStore) (name : Text) (rec : BoxRecord)
      → (P (folder u m name) → P (put (folder u m name) key_json (key_file rec)))
      → Everywhere m
      → Everywhere (set_key u written m name rec).1
  unfolding set_key folder
  set_key-Everywhere false m name rec k w = w
  set_key-Everywhere true m name rec k w =
      write_folder m (user_dir u name) _ (k (w (user_dir u name))) w

  ack_files-P :
      (stuck : Text → Bool) (files : Folder) (ids : List Text)
      → P files
      → P (ack_files stuck files ids)
  unfolding ack_files
  ack_files-P stuck files [] f = f
  ack_files-P stuck files (id ∷ ids) f =
      ack_files-P stuck (if goes stuck id then delete files (letter_json id) else files) ids
        (P-if (goes stuck id) _ files (P-delete files (letter_json id) f) f)

  pub ack-Everywhere :
      (m : MailboxStore) (name : Text) (ids : List Text)
      → Everywhere m
      → Everywhere (ack u m name ids)
  unfolding ack replace_folder
  ack-Everywhere m name ids w = elim (Option-cases (get m.users (user_dir u name))) [
    | inl e ↦ rw (e, ack, replace_folder) w
    | inr (files, e) ↦
        rw (e, ack, replace_folder)
          (write_folder m (user_dir u name) _
            (ack_files-P (m.disk.is_stuck (user_dir u name)) files ids
              (rw e at (w (user_dir u name))))
            w)
  ]

  remove_file-P :
      (stuck : Bool) (files : Folder) (n : Text) (o : Option File)
      → P files
      → P (remove_file stuck files n o).0
  unfolding remove_file
  remove_file-P stuck files n none f = f
  remove_file-P true files n (some file) f = f
  remove_file-P false files n (some file) f = P-delete files n f

  expire_one-P :
      (m : MailboxStore) (now : ℕ) (dir : Text) (files : Folder) (l : StoredLetter)
      → P files
      → P (expire_one m now dir files l).0
  unfolding expire_one
  expire_one-P m now dir files l f = elim (Bool-cases (is_expired m now l)) [
    | inl e ↦ rw e (
        remove_file-P (m.disk.is_stuck dir (letter_json l.id)) files (letter_json l.id)
          (get files (letter_json l.id)) f)
    | inr e ↦ rw e f
  ]

  expire_letters-P :
      (m : MailboxStore) (now : ℕ) (dir : Text) (files : Folder) (ls : List StoredLetter)
      → P files
      → P (expire_letters m now dir files ls).0
  unfolding expire_letters
  expire_letters-P m now dir files [] f = f
  expire_letters-P m now dir files (l ∷ ls) f =
      expire_letters-P m now dir (expire_one m now dir files l).0 ls
        (expire_one-P m now dir files l f)

  expire_dir-P :
      (m : MailboxStore) (now : ℕ) (dir : Text) (files : Folder) (name : Option Text)
      → P files
      → P (expire_dir u m now dir files name).0
  unfolding expire_dir
  expire_dir-P m now dir files none f = f
  expire_dir-P m now dir files (some name) f = expire_letters-P m now dir files (letters u m name) f

  expire_users-P :
      (m : MailboxStore) (now : ℕ) (users : Dict Folder) (d : Text)
      → P (or_empty (get users d))
      → P (or_empty (get (expire_users u m now users).0 d))
  unfolding expire_users get
  expire_users-P m now [] d f = f
  expire_users-P m now ((dir, files) ∷ rest) d f = elim (Bool-cases (str_eq dir d)) [
    | inl e ↦ rw e (
        expire_dir-P m now dir files (if m.disk.is_unlisted dir then none else decode dir)
          (rw e at f))
    | inr e ↦ rw e (expire_users-P m now rest d (rw e at f))
  ]

  pub expire-Everywhere :
      (m : MailboxStore) (now : ℕ) → Everywhere m → Everywhere (expire u m now).0
  unfolding expire
  expire-Everywhere m now w d = expire_users-P m now m.users d (w d)

  module _ (written : Bool) (m : MailboxStore) (name sender peer_id sealed : Text) (now : ℕ)
      (w : Everywhere m) where
    put_drawn-Everywhere :
        (drawn : Option Text)
        → ((d : Text)
            → drawn ≡ some d
            → P (folder u m name)
            → P (
                put
                  (folder u m name)
                  (letter_json (encode d))
                  (letter_file (new_letter d sender peer_id sealed now))))
        → Everywhere (put_drawn u drawn written m name sender peer_id sealed now).1
    unfolding put_drawn write_letter store_letter folder
    put_drawn-Everywhere none k = w
    put_drawn-Everywhere (some d) k = elim (Bool-cases written) [
      | inl e ↦ rw e (write_folder m (user_dir u name) _ (k d refl (w (user_dir u name))) w)
      | inr e ↦ rw e w
    ]

    put_checked-Everywhere :
        (r : Result MailError BoxRecord) (drawn : Option Text)
        → ((d : Text)
            → drawn ≡ some d
            → is_over u m name sender (length sealed) ≡ false
            → P (folder u m name)
            → P (
                put
                  (folder u m name)
                  (letter_json (encode d))
                  (letter_file (new_letter d sender peer_id sealed now))))
        → Everywhere (put_checked u r drawn written m name sender peer_id sealed now).1
    unfolding put_checked
    put_checked-Everywhere (err e) drawn k = w
    put_checked-Everywhere (ok r) drawn k =
        elim (Bool-cases (is_over u m name sender (length sealed))) [
          | inl e ↦ rw e w
          | inr e ↦ rw e (put_drawn-Everywhere drawn (λ d q. k d q e))
        ]

    pub put_letter-Everywhere :
        (drawn : Option Text)
        → ((d : Text)
            → drawn ≡ some d
            → is_over u m name sender (length sealed) ≡ false
            → P (folder u m name)
            → P (
                put
                  (folder u m name)
                  (letter_json (encode d))
                  (letter_file (new_letter d sender peer_id sealed now))))
        → Everywhere (put_letter u drawn written m name sender peer_id sealed now).1
    unfolding put_letter
    put_letter-Everywhere drawn k = put_checked-Everywhere (key u m name) drawn k
