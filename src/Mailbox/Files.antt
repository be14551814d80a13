-- ===== src/Mailbox/Files.antt =====
-- What a write and a removal do to the letters that a folder shows.
use tarion.Base.{ℕ, suc, ◌+◌, ◌≤◌, ◌≡◌, refl, Bool, [], ◌∷◌, arith, length, sum_by, count_by}
use tarion.Text.{Text, str_eq_refl}
use tarion.Dict.{put, delete}
use tarion.Mailbox.{
  StoredLetter, File, Folder, letter_file, key_file, unreadable, read_letters, key_json,
}

pub sum_by-read-delete :
    (f : StoredLetter → ℕ) (fs : Folder) (n : Text)
    → sum_by f (read_letters (delete fs n)) ≤ sum_by f (read_letters fs)
unfolding read_letters delete
sum_by-read-delete f [] n = omega arith
sum_by-read-delete f ((k, file) ∷ fs) n = ground (arith, sum_by-read-delete f fs n)

pub length-read-delete :
    (fs : Folder) (n : Text) → length (read_letters (delete fs n)) ≤ length (read_letters fs)
unfolding read_letters delete
length-read-delete [] n = omega arith
length-read-delete ((k, file) ∷ fs) n = ground (arith, length-read-delete fs n)

pub count_by-read-delete :
    (p : StoredLetter → Bool) (fs : Folder) (n : Text)
    → count_by p (read_letters (delete fs n)) ≤ count_by p (read_letters fs)
unfolding read_letters delete
count_by-read-delete p [] n = omega arith
count_by-read-delete p ((k, file) ∷ fs) n = ground (arith, count_by-read-delete p fs n)

-- The key file is no letter.
pub read-put_key :
    (fs : Folder) (file : File)
    → read_letters (put fs key_json file) ≡ read_letters (delete fs key_json)
unfolding read_letters put
read-put_key fs (key_file r) = refl
read-put_key fs (letter_file l) = ground (arith, str_eq_refl key_json)
read-put_key fs unreadable = refl

-- A letter is at most one more.
pub length-read-put :
    (fs : Folder) (n : Text) (file : File)
    → length (read_letters (put fs n file)) ≤ suc (length (read_letters fs))
unfolding read_letters put
length-read-put fs n file = ground (arith, length-read-delete fs n)

pub sum_by-read-put :
    (f : StoredLetter → ℕ) (fs : Folder) (n : Text) (l : StoredLetter)
    → sum_by f (read_letters (put fs n (letter_file l))) ≤ f l + sum_by f (read_letters fs)
unfolding read_letters put
sum_by-read-put f fs n l = ground (arith, sum_by-read-delete f fs n)

pub count_by-read-put :
    (p : StoredLetter → Bool) (fs : Folder) (n : Text) (l : StoredLetter)
    → count_by p (read_letters (put fs n (letter_file l))) ≤ count_by p (l ∷ read_letters fs)
unfolding read_letters put
count_by-read-put p fs n l = ground (arith, count_by-read-delete p fs n)
