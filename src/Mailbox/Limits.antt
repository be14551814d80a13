-- ===== src/Mailbox/Limits.antt =====
-- The quotas of the mailbox, and what a removal and a write of one file do to them.
use tarion.Base.{◌≤◌, ◌≡◌, ap, false, List, [], arith, length, count_by}
use tarion.Base.Sort.{length-sort, sum_by-sort, count_by-sort}
use tarion.Text.{Text, str_eq, str_eq_iff}
use tarion.Text.Lower.{Unicode}
use tarion.Dict.{Dict, put, delete}
use tarion.Proto.{name_key}
use tarion.Mailbox.{
  MailboxStore, StoredLetter, Folder, letter_file, read_letters, older, sealed_bytes, from_sender,
  letter_json, folder, is_over,
}
use tarion.Mailbox.Tidy.{AllRead, letters_read}
use tarion.Mailbox.Files.{
  length-read-delete, sum_by-read-delete, count_by-read-delete, length-read-put, sum_by-read-put,
  count_by-read-put,
}

module _ (u : Unicode) where
  -- The letters of one folder are within the limits.
  pub record Fits (m : MailboxStore) (ls : List StoredLetter) : Type 0 where
    pub items : length ls ≤ m.max_items
    pub bytes : sealed_bytes ls ≤ m.max_bytes
    pub senders : (sender : Text) → from_sender u sender ls ≤ m.per_peer

  pub Fits-delete :
      (m : MailboxStore) (files : Folder) (n : Text)
      → Fits m (read_letters files)
      → Fits m (read_letters (delete files n))
  Fits-delete m files n h = record {
    items = omega (arith, h.items, length-read-delete files n);
    bytes = omega (arith, h.bytes, sum_by-read-delete (λ l. length l.sealed) files n);
    senders = λ s. omega (
      arith,
      h.senders s,
      count_by-read-delete (λ l. str_eq (name_key u l.from) (name_key u s)) files n,
    );
  }

  from_sender-key :
      (a b : Text) (ls : List StoredLetter)
      → name_key u a ≡ name_key u b
      → from_sender u a ls ≡ from_sender u b ls
  from_sender-key a b ls e = ap (λ k. count_by (λ l. str_eq (name_key u l.from) k) ls) e

  Fits-put_senders :
      (m : MailboxStore) (name : Text) (l : StoredLetter) (s : Text)
      → AllRead m.disk
      → is_over u m name l.from (length l.sealed) ≡ false
      → Fits m (read_letters (folder u m name))
      → from_sender u s (read_letters (put (folder u m name) (letter_json l.id) (letter_file l)))
        ≤ m.per_peer
  unfolding is_over
  Fits-put_senders m name l s reads h0 f =
      let h = rw (letters_read u m name reads) at h0 in
      let files = folder u m name in
      ground (
        arith,
        str_eq_iff (name_key u l.from) (name_key u s),
        f.senders s,
        count_by-read-put (λ x. str_eq (name_key u x.from) (name_key u s)) files (letter_json l.id)
            l,
        count_by-sort older (λ x. str_eq (name_key u x.from) (name_key u l.from))
            (read_letters files),
        from_sender-key s l.from (read_letters files),
      )

  -- A letter that passes no limit fits.
  pub Fits-put :
      (m : MailboxStore) (name : Text) (l : StoredLetter)
      → AllRead m.disk
      → is_over u m name l.from (length l.sealed) ≡ false
      → Fits m (read_letters (folder u m name))
      → Fits m (read_letters (put (folder u m name) (letter_json l.id) (letter_file l)))
  unfolding is_over
  Fits-put m name l reads h0 f =
      let h = rw (letters_read u m name reads) at h0 in
      let files = folder u m name in
      record {
        items = ground (
          arith,
          length-read-put files (letter_json l.id) (letter_file l),
          length-sort older (read_letters files),
        );
        bytes = ground (
          arith,
          sum_by-read-put (λ x. length x.sealed) files (letter_json l.id) l,
          sum_by-sort older (λ x. length x.sealed) (read_letters files),
        );
        senders = λ s. Fits-put_senders m name l s reads h0 f;
      }

  -- The limits are the store's, whatever its folders.
  pub Fits-same :
      (m : MailboxStore) (users : Dict Folder) (ls : List StoredLetter)
      → Fits m ls
      → Fits (record m { users = users }) ls
  Fits-same m users ls f = record { items = f.items; bytes = f.bytes; senders = f.senders }

  pub Fits-empty : (m : MailboxStore) → Fits m []
  Fits-empty m = record { items = omega arith; bytes = omega arith; senders = λ s. omega arith }
